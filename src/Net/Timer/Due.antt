-- ===== src/Net/Timer/Due.antt =====
-- One run of `network_timer_handler` calls the timers that are due, each once.
use llnstack.Base.{
  ◌≡◌, refl, sym, ap, ◌∙◌, inl, inr, Bool, true, false, List, [], ◌∷◌, map, Bool-cases,
  if◌then◌else◌, arith,
}
use llnstack.Net.Timer.{Timeval, interval_lt_diff, Timer, network_timer_handler}

not_due_at_once : (now interval : Timeval) → interval_lt_diff interval now now ≡ false
not_due_at_once now interval = ground arith

module _ {H : Type 0} where
  abbrev pub due : Timeval → Timer H → Bool
  due now timer = interval_lt_diff timer.interval now timer.last

  -- What a run at the time leaves of a timer.
  abbrev pub rearm : Timeval → Timer H → Timer H
  rearm now timer = if due now timer then record timer { last = now } else timer

  -- The handlers of the timers that are due, in the order of the table.
  abbrev pub call_due : {S : Type 0} → (H → S → S) → Timeval → List (Timer H) → S → S
  call_due call now [] s = s
  call_due call now (timer ∷ rest) s =
      call_due call now rest (if due now timer then call timer.handler s else s)

  not_due_again : (now : Timeval) (timer : Timer H) → due now (rearm now timer) ≡ false
  not_due_again now timer = elim (Bool-cases (due now timer)) [
    | inl y ↦ rw y (not_due_at_once now timer.interval)
    | inr n ↦ rw n n
  ]

  module _ {S : Type 0} (clock : S → Timeval) (call : H → S → S) where
    -- Whatever the state that a timer leaves, its clock shows the same time.
    stays :
        ((h : H) (s : S) → clock (call h s) ≡ clock s)
        → (b : Bool) (h : H) (s : S) → clock (if b then call h s else s) ≡ clock s
    stays c true h s = c h s
    stays c false h s = refl

    one_run :
        (timers : List (Timer H)) (now : Timeval) (s : S)
        → ((h : H) (s : S) → clock (call h s) ≡ clock s)
        → clock s ≡ now
        → network_timer_handler clock call timers s
          ≡ (map (rearm now) timers, call_due call now timers s)
    unfolding network_timer_handler
    one_run [] now s c e = refl
    one_run (timer ∷ rest) now s c e =
        let s' = if due now timer then call timer.handler s else s in
        rw e (
          ap (λ r. (rearm now timer ∷ r.0, r.1))
            (one_run rest now s' c (stays c (due now timer) timer.handler s ∙ e)))

    nothing_due :
        (timers : List (Timer H)) (now : Timeval) (s : S)
        → clock s ≡ now
        → network_timer_handler clock call (map (rearm now) timers) s ≡ (map (rearm now) timers, s)
    unfolding network_timer_handler
    nothing_due [] now s e = refl
    nothing_due (timer ∷ rest) now s e =
        rw (e, not_due_again now timer)
          (ap (λ r. (rearm now timer ∷ r.0, r.1)) (nothing_due rest now s e))

    clock_kept :
        (timers : List (Timer H)) (now : Timeval) (s : S)
        → ((h : H) (s : S) → clock (call h s) ≡ clock s)
        → clock (call_due call now timers s) ≡ clock s
    clock_kept [] now s c = refl
    clock_kept (timer ∷ rest) now s c =
        clock_kept rest now (if due now timer then call timer.handler s else s) c
        ∙ stays c (due now timer) timer.handler s

    -- A run during which the clock stands calls the handlers of exactly the timers whose interval is less than
    -- the time since they last ran, in the order of the table, and sets their last time to the present; a second
    -- run at the same time calls nothing and leaves the table as it is.
    pub network_timer_handler_lem :
        (timers : List (Timer H)) (s : S)
        → ((h : H) (s : S) → clock (call h s) ≡ clock s)
        → let r = network_timer_handler clock call timers s in
          (r.0 ≡ map (rearm (clock s)) timers)
          × (r.1 ≡ call_due call (clock s) timers s)
          × (network_timer_handler clock call r.0 r.1 ≡ r)
    network_timer_handler_lem timers s c =
        let now = clock s in
        let e = one_run timers now s c refl in
        (
          ap (λ r. r.0) e,
          ap (λ r. r.1) e,
          ap (λ r. network_timer_handler clock call r.0 r.1) e
              ∙ nothing_due timers now (call_due call now timers s) (clock_kept timers now s c)
              ∙ sym e,
        )
