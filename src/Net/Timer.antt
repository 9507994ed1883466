-- ===== src/Net/Timer.antt =====
-- The timers and events of src/lib/net.c, and the time arithmetic of sys/time.h that they use.
pub mod Due
use llnstack.Base.{
  ℕ, ◌+◌, ◌-◌, Bool, true, false, ◌&&◌, ◌||◌, List, [], ◌∷◌, ltb, ◌==◌, if◌then◌else◌,
}
use llnstack.Net.{Status, ok, fail}

-- `struct timeval`, normalised: `usec` is below 1000000.
pub record Timeval : Type 0 where
  pub sec : ℕ
  pub usec : ℕ

-- `timersub(now, last, &diff)` borrows a second where the microseconds are short.
abbrev pub borrow : Timeval → Timeval → ℕ
borrow now last = if ltb now.usec last.usec then 1 else 0

abbrev pub diff_usec : Timeval → Timeval → ℕ
diff_usec now last =
    if ltb now.usec last.usec then now.usec + 1000000 - last.usec else now.usec - last.usec

-- `diff.tv_sec` is the signed number `now.sec - last.sec - borrow`. The code only compares it with
-- a number that is not negative, here with the terms moved over.
abbrev pub diff_sec_gt : Timeval → Timeval → ℕ → Bool
diff_sec_gt now last bound = ltb (last.sec + borrow now last + bound) now.sec

abbrev pub diff_sec_eq : Timeval → Timeval → ℕ → Bool
diff_sec_eq now last value = now.sec == last.sec + borrow now last + value

-- `timercmp(&interval, &diff, <)`
abbrev pub interval_lt_diff : Timeval → Timeval → Timeval → Bool
interval_lt_diff interval now last =
    diff_sec_gt now last interval.sec
    || (diff_sec_eq now last interval.sec && ltb interval.usec (diff_usec now last))

-- `timercmp(a, b, >)`
abbrev pub time_gt : Timeval → Timeval → Bool
time_gt a b = if a.sec == b.sec then ltb b.usec a.usec else ltb b.sec a.sec

-- `struct network_timer`
pub record Timer (H : Type 0) : Type 0 where
  pub interval : Timeval
  pub last : Timeval
  pub handler : H

module _ {H : Type 0} where
  unfoldable pub network_timer_register :
      Bool → Timeval → Timeval → H → List (Timer H) → Status × List (Timer H)
  network_timer_register false now interval handler timers = (fail, timers)
  network_timer_register true now interval handler timers =
      (ok, record { interval = interval; last = now; handler = handler } ∷ timers)

  -- `clock` is `gettimeofday` on the state that the handlers change.
  module _ {S : Type 0} (clock : S → Timeval) (call : H → S → S) where
    is_due : Timer H → S → Bool
    is_due timer s = interval_lt_diff timer.interval (clock s) timer.last

    unfoldable pub network_timer_handler : List (Timer H) → S → List (Timer H) × S
    unfolding is_due
    network_timer_handler [] s = ([], s)
    network_timer_handler (timer ∷ rest) s =
        let fired = is_due timer s in
        let (rest', s') = network_timer_handler rest (if fired then call timer.handler s else s) in
        ((if fired then record timer { last = clock s } else timer) ∷ rest', s')

-- `struct network_event`: a handler with its argument.
module _ {E : Type 0} where
  unfoldable pub network_event_subscribe : Bool → E → List E → Status × List E
  network_event_subscribe false event events = (fail, events)
  network_event_subscribe true event events = (ok, event ∷ events)

  unfoldable pub network_event_handler : {S : Type 0} → (E → S → S) → List E → S → S
  network_event_handler call [] s = s
  network_event_handler call (event ∷ rest) s = network_event_handler call rest (call event s)
