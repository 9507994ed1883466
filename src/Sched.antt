-- ===== src/Sched.antt =====
-- handler/synchronize.c: the scheduling context of a blocking call. The condition variable is the
-- threads library's; what its calls return is an argument, 0 or an error number.
pub mod Sleepers
pub mod Threads
use llnstack.Base.{
  ℕ, zero, suc, ◌+◌, ◌-◌, Bool, true, false, Option, none, some, ◌==◌, if◌then◌else◌,
}

-- `struct sched_ctx` without the condition variable; `wc` is the wait count.
pub record SchedCtx : Type 0 where
  pub interrupted : Bool
  pub wc : ℕ

-- The Boolean results of these functions tell whether the sleepers are woken.
unfoldable pub sched_ctx_init : SchedCtx → SchedCtx
sched_ctx_init ctx = record { interrupted = false; wc = 0 }

-- `sched_ctx_destroy` returns what `pthread_cond_destroy` does.
abbrev pub sched_ctx_destroy : ℕ → SchedCtx → ℕ × SchedCtx
sched_ctx_destroy destroyed ctx = (destroyed, ctx)

-- `sched_sleep` up to the wait; `none` is a return of -1.
unfoldable pub sleep_begin : SchedCtx → Option SchedCtx
sleep_begin ctx = if ctx.interrupted then none else some (record ctx { wc = ctx.wc + 1 })

-- `sched_sleep` from the return of the wait on, with its result: `none` is a return of -1. The count
-- was raised before the wait, so it is not 0.
unfoldable pub sleep_end : ℕ → SchedCtx → Option ℕ × SchedCtx
sleep_end waited ctx =
    let left = ctx.wc - 1 in
    if ctx.interrupted
    then (none, record { interrupted = (if left == 0 then false else true); wc = left })
    else (some waited, record ctx { wc = left })

unfoldable pub sched_wakeup : SchedCtx → SchedCtx
sched_wakeup ctx = ctx

unfoldable pub sched_interrupt : SchedCtx → SchedCtx
sched_interrupt ctx = record ctx { interrupted = true }
