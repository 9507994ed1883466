-- ===== src/Sched/Sleepers.antt =====
-- The sleepers of a context after `sched_interrupt` in handler/synchronize.c.
use llnstack.Base.{
  ℕ, suc, ◌≡◌, refl, ap, ◌∙◌, true, false, Option, none, List, [], ◌∷◌, length, replicate, arith,
}
use llnstack.Sched.{SchedCtx, sleep_end, sched_interrupt}

-- The sleepers of a context leave their wait one after the other; `waits` is what each wait returned.
unfoldable pub leave : List ℕ → SchedCtx → List (Option ℕ) × SchedCtx
leave [] ctx = ([], ctx)
leave (waited ∷ waits) ctx =
    let (result, ctx') = sleep_end waited ctx in
    let (results, ctx'') = leave waits ctx' in (result ∷ results, ctx'')

interrupted_ctx : ℕ → SchedCtx
interrupted_ctx n = record { interrupted = true; wc = n }

sleep_end-last :
    (waited : ℕ)
    → sleep_end waited (interrupted_ctx 1) ≡ (none, record { interrupted = false; wc = 0 })
unfolding sleep_end interrupted_ctx
sleep_end-last waited = refl

sleep_end-more :
    (waited n : ℕ)
    → sleep_end waited (interrupted_ctx (suc (suc n))) ≡ (none, interrupted_ctx (suc n))
unfolding sleep_end interrupted_ctx
sleep_end-more waited n = ground arith

leave_interrupted :
    (first : ℕ) (waits : List ℕ)
    → leave (first ∷ waits) (interrupted_ctx (suc (length waits)))
      ≡ (replicate (suc (length waits)) none, record { interrupted = false; wc = 0 })
unfolding leave
leave_interrupted first [] = rw (sleep_end-last first) refl
leave_interrupted first (w ∷ waits) =
    rw (sleep_end-more first (length waits))
      (ap (λ r. (none ∷ r.0, r.1)) (leave_interrupted w waits))

-- After an interrupt every one of the sleepers that the count of the context tells returns -1,
-- whatever its wait returned; the last one clears the flag, and the count is 0 again.
pub interrupt_wakes_all :
    (ctx : SchedCtx) (first : ℕ) (waits : List ℕ)
    → ctx.wc ≡ suc (length waits)
    → leave (first ∷ waits) (sched_interrupt ctx)
      ≡ (replicate (suc (length waits)) none, record { interrupted = false; wc = 0 })
unfolding sched_interrupt interrupted_ctx
interrupt_wakes_all ctx first waits e =
    ap (λ n. leave (first ∷ waits) (record { interrupted = true; wc = n })) e
    ∙ leave_interrupted first waits
