-- ===== src/Sched/Threads.antt =====
-- The threads that call `sched_sleep` of handler/synchronize.c on one context, and those that wake or interrupt
-- them. A broadcast wakes every thread that waits; a woken thread goes on when it has the mutex again.
use llnstack.Base.{
  ℕ, suc, ◌+◌, ◌-◌, ◌≡◌, ◌≢◌, refl, sym, ap, ◌∙◌, true, false, none, some, List, [], ◌∷◌, ◌++◌,
  length, length-append, arith,
}
use llnstack.Sched.{SchedCtx, sched_ctx_init, sleep_begin, sleep_end, sched_wakeup, sched_interrupt}

-- The context, the threads in the wait, and those that a broadcast has taken out of it.
pub record Threads : Type 0 where
  pub ctx : SchedCtx
  pub asleep : List ℕ
  pub woken : List ℕ

-- A broadcast on the condition variable.
abbrev pub broadcast : Threads → Threads
broadcast s = record s { asleep = []; woken = s.woken ++ s.asleep }

-- One critical section: a thread that goes to sleep or is refused; `sched_wakeup`; `sched_interrupt`; a wait
-- that ends by itself, as the threads library allows; and a woken thread that leaves `sched_sleep`.
pub data Step : Threads → Threads → Type 0 where
  sleeps :
      (t : ℕ) (ctx : SchedCtx) (s : Threads)
      → sleep_begin s.ctx ≡ some ctx
      → Step s (record s { ctx = ctx; asleep = t ∷ s.asleep })
  wakes : (s : Threads) → Step s (broadcast (record s { ctx = sched_wakeup s.ctx }))
  interrupts : (s : Threads) → Step s (broadcast (record s { ctx = sched_interrupt s.ctx }))
  rouses :
      (t : ℕ) (before after : List ℕ) (s : Threads)
      → s.asleep ≡ before ++ t ∷ after
      → Step s (record s { asleep = before ++ after; woken = s.woken ++ t ∷ [] })
  leaves :
      (t waited : ℕ) (before after : List ℕ) (s : Threads)
      → s.woken ≡ before ++ t ∷ after
      → Step s (record s { ctx = (sleep_end waited s.ctx).1; woken = before ++ after })

pub data Reached : Threads → Threads → Type 0 where
  here : (s : Threads) → Reached s s
  next : (s t u : Threads) → Reached s t → Step t u → Reached s u

-- The wait count is the number of threads between the two ends of `sched_sleep`, and while the context is
-- interrupted none of them is in the wait.
pub record IsSound (s : Threads) : Type 0 where
  pub counted : s.ctx.wc ≡ length s.asleep + length s.woken
  pub heard : s.ctx.interrupted ≡ true → s.asleep ≡ []

length-middle :
    (before after : List ℕ) (t : ℕ) → length (before ++ t ∷ after) ≡ suc (length (before ++ after))
length-middle before after t =
    omega (arith, length-append before (t ∷ after), length-append before after)

sleep_begin_lem :
    (ctx ctx' : SchedCtx)
    → sleep_begin ctx ≡ some ctx'
    → (ctx.interrupted ≡ false) × (ctx' ≡ record ctx { wc = ctx.wc + 1 })
unfolding sleep_begin
sleep_begin_lem ctx ctx' e = ground arith

sleep_end_lem :
    (waited : ℕ) (ctx : SchedCtx)
    → ((sleep_end waited ctx).1.wc ≡ ctx.wc - 1)
      × ((sleep_end waited ctx).1.interrupted ≡ true → ctx.interrupted ≡ true)
unfolding sleep_end
sleep_end_lem waited ctx = ground arith

none_left : (before after : List ℕ) (t : ℕ) → before ++ t ∷ after ≢ []
none_left [] after t e = absurd (cc)
none_left (x ∷ before) after t e = absurd (cc)

Step-IsSound : (s t : Threads) → Step s t → IsSound s → IsSound t
unfolding sched_wakeup sched_interrupt
Step-IsSound _ _ (sleeps t ctx s e) v =
    let (clear, is) = sleep_begin_lem s.ctx ctx e in
    record {
      counted = omega (arith, v.counted, ap (λ c. c.wc) is);
      heard = λ flag. absurd (cc (clear, is, flag));
    }
Step-IsSound _ _ (wakes s) v = record {
  counted = omega (arith, v.counted, length-append s.woken s.asleep);
  heard = λ flag. refl;
}
Step-IsSound _ _ (interrupts s) v = record {
  counted = omega (arith, v.counted, length-append s.woken s.asleep);
  heard = λ flag. refl;
}
Step-IsSound _ _ (rouses t before after s e) v = record {
  counted =
      omega (
        arith,
        v.counted,
        ap length e,
        length-middle before after t,
        length-append s.woken (t ∷ []),
      );
  heard = λ flag. absurd (none_left before after t (sym e ∙ v.heard flag));
}
Step-IsSound _ _ (leaves t waited before after s e) v = record {
  counted =
      omega (
        arith,
        v.counted,
        ap length e,
        length-middle before after t,
        (sleep_end_lem waited s.ctx).0,
      );
  heard = λ flag. v.heard ((sleep_end_lem waited s.ctx).1 flag);
}

-- A context as `sched_ctx_init` leaves it, and nobody there.
abbrev pub fresh : SchedCtx → Threads
fresh ctx = record { ctx = sched_ctx_init ctx; asleep = []; woken = [] }

-- Whatever the threads do after `sched_ctx_init`, in any order: the wait count is the number of threads
-- that are inside `sched_sleep`, and none of them is still in the wait while the context is interrupted, so
-- an interrupt is not slept through.
pub threads_sound : (ctx : SchedCtx) (s : Threads) → Reached (fresh ctx) s → IsSound s
unfolding sched_ctx_init
threads_sound ctx _ (here _) = record { counted = omega arith; heard = λ flag. refl }
threads_sound ctx _ (next _ t u r step) = Step-IsSound t u step (threads_sound ctx t r)

-- The flag is up and nobody is there to clear it.
record IsStuck (s : Threads) : Type 0 where
  pub flag : s.ctx.interrupted ≡ true
  pub nobody_asleep : s.asleep ≡ []
  pub nobody_woken : s.woken ≡ []

Step-IsStuck : (s t : Threads) → Step s t → IsStuck s → IsStuck t
unfolding sched_wakeup sched_interrupt
Step-IsStuck _ _ (sleeps t ctx s e) v = absurd (cc ((sleep_begin_lem s.ctx ctx e).0, v.flag))
Step-IsStuck _ _ (wakes s) v = record {
  flag = v.flag;
  nobody_asleep = refl;
  nobody_woken = rw (v.nobody_asleep, v.nobody_woken) refl;
}
Step-IsStuck _ _ (interrupts s) v = record {
  flag = refl;
  nobody_asleep = refl;
  nobody_woken = rw (v.nobody_asleep, v.nobody_woken) refl;
}
Step-IsStuck _ _ (rouses t before after s e) v =
    absurd (none_left before after t (sym e ∙ v.nobody_asleep))
Step-IsStuck _ _ (leaves t waited before after s e) v =
    absurd (none_left before after t (sym e ∙ v.nobody_woken))

Reached-IsStuck : (s t : Threads) → Reached s t → IsStuck s → IsStuck t
Reached-IsStuck s _ (here _) v = v
Reached-IsStuck s _ (next _ t u r step) v = Step-IsStuck t u step (Reached-IsStuck s t r v)

empty_lists : (a b : List ℕ) → length a + length b ≡ 0 → (a ≡ []) × (b ≡ [])
empty_lists [] [] e = (refl, refl)
empty_lists [] (x ∷ b) e = absurd (omega arith)
empty_lists (x ∷ a) b e = absurd (omega arith)

-- An interrupt that finds nobody inside `sched_sleep` stays for ever: in every state that the threads reach
-- afterwards without `sched_ctx_init`, the flag is up and `sched_sleep` returns -1 at once.
pub interrupt_sticks :
    (s t : Threads)
    → IsSound s
    → s.ctx.wc ≡ 0
    → Reached (broadcast (record s { ctx = sched_interrupt s.ctx })) t
    → (t.ctx.interrupted ≡ true) × (sleep_begin t.ctx ≡ none)
unfolding sleep_begin sched_interrupt
interrupt_sticks s t v z r =
    let (a, w) = empty_lists s.asleep s.woken (omega (arith, v.counted)) in
    let stuck : IsStuck t =
      Reached-IsStuck (broadcast (record s { ctx = sched_interrupt s.ctx })) t r
        (record { flag = refl; nobody_asleep = refl; nobody_woken = rw (a, w) refl }) in
    (stuck.flag, rw (stuck.flag, sleep_begin) refl)
