-- ===== src/Tests/Cache.antt =====
-- The theorems on the ARP cache as a map, on timers, on threads and on hexadecimal dumps at concrete inputs.
use llnstack.Base.{
  get_elem?, set, some, length, ◌*◌, ◌/◌, ℕ, ◌+◌, ◌≡◌, refl, ◌⊎◌, inr, true, false, none, List, [],
  ◌∷◌, map, arith,
}
use llnstack.Net.Timer.{Timeval, Timer, network_timer_handler}
use llnstack.Net.Timer.Due.{rearm, call_due, network_timer_handler_lem}
use llnstack.Arp.Cache.{
  ArpCache, resolved, static, is_free, arp_cache_select, select_from, arp_cache_update,
  arp_cache_insert, arp_timer,
}
use llnstack.Arp.Cache.Select.{Distinct}
use llnstack.Arp.Cache.Alloc.{Oldest}
use llnstack.Arp.Cache.Book.{book}
use llnstack.Arp.Cache.Refine.{update, insert, expired, is_in, book_changes, arp_cache_insert-book}
use llnstack.Sched.{SchedCtx, sched_ctx_init, sleep_begin, sched_interrupt}
use llnstack.Sched.Threads.{
  Threads, broadcast, sleeps, interrupts, Reached, here, next, IsSound, fresh, threads_sound,
  interrupt_sticks,
}
use llnstack.Util.Hexdump.{hexdump}
use llnstack.Util.Hexdump.Read.{read_dump, row_length, hexdump_round_trip}
use llnstack.Tests.{now}

-- An entry past its time, and a static one.
abbrev old_entry : ArpCache
old_entry = record { state = resolved; pa = 7; ha = []; timestamp = record { sec = 60; usec = 0 } }

abbrev static_entry : ArpCache
static_entry = record { state = static; pa = 9; ha = []; timestamp = record { sec = 50; usec = 0 } }

abbrev full : List ArpCache
full = old_entry ∷ static_entry ∷ []

full-Distinct : Distinct full
full-Distinct = (inr (refl, tt), (inr tt, tt))

book_changes_example :
    ((pa : ℕ) (ha : List ℕ) (time : Timeval)
      → ((arp_cache_update pa ha time full).0 ≡ is_in (book full pa))
        × ((q : ℕ) → book (arp_cache_update pa ha time full).1 q ≡ update pa ha time (book full) q))
    × ((time : Timeval) (q : ℕ) → book (arp_timer time full) q ≡ expired time (book full) q)
book_changes_example = book_changes full full-Distinct

unknown : book full 8 ≡ none
unfolding arp_cache_select select_from
unknown = refl

-- The table is full, so an entry gives its place.
arp_cache_insert-book_example :
    (i : ℕ) × (old : ArpCache) × (get_elem? full i ≡ some old)
    × ((is_free old.state ≡ true) ⊎ Oldest old full)
    × (arp_cache_insert 8 (1 ∷ []) now full
        ≡ (true, set full i (record { state = resolved; pa = 8; ha = 1 ∷ []; timestamp = now })))
    × ((q : ℕ)
        → book (arp_cache_insert 8 (1 ∷ []) now full).1 q ≡ insert 8 (1 ∷ []) now old (book full) q)
arp_cache_insert-book_example =
    arp_cache_insert-book 8 (1 ∷ []) now old_entry (static_entry ∷ []) full-Distinct unknown

-- One timer that is due and one that is not; the handlers add to a number beside the clock.
abbrev timers : List (Timer ℕ)
timers =
    record {
      interval = record { sec = 1; usec = 0 };
      last = record { sec = 90; usec = 0 };
      handler = 3;
    }
    ∷ record {
      interval = record { sec = 60; usec = 0 };
      last = record { sec = 90; usec = 0 };
      handler = 5;
    }
    ∷ []

abbrev add : ℕ → Timeval × ℕ → Timeval × ℕ
add n s = (s.0, s.1 + n)

network_timer_handler_lem_example :
    let r = network_timer_handler (λ s. s.0) add timers (now, 0) in
    (r.0 ≡ map (rearm now) timers)
    × (r.1 ≡ call_due add now timers (now, 0))
    × (network_timer_handler (λ s. s.0) add r.0 r.1 ≡ r)
network_timer_handler_lem_example =
    network_timer_handler_lem (λ s. s.0) add timers (now, 0) (λ n s. refl)

abbrev ctx : SchedCtx
ctx = record { interrupted = true; wc = 4 }

abbrev one_asleep : Threads
one_asleep = record { ctx = record { interrupted = false; wc = 1 }; asleep = 5 ∷ []; woken = [] }

abbrev stirred : Threads
stirred = record { ctx = record { interrupted = true; wc = 1 }; asleep = []; woken = 5 ∷ [] }

-- Thread 5 goes to sleep and is interrupted.
run : Reached (fresh ctx) stirred
unfolding sched_ctx_init sleep_begin sched_interrupt
run =
    next (fresh ctx) one_asleep stirred
      (next (fresh ctx) (fresh ctx) one_asleep (here (fresh ctx))
        (sleeps 5 (record { interrupted = false; wc = 1 }) (fresh ctx) refl))
      (interrupts one_asleep)

threads_sound_example : IsSound stirred
threads_sound_example = threads_sound ctx stirred run

abbrev nobody : Threads
nobody = record { ctx = record { interrupted = false; wc = 0 }; asleep = []; woken = [] }

interrupt_sticks_example :
    let t = broadcast (record nobody { ctx = sched_interrupt nobody.ctx }) in
    (t.ctx.interrupted ≡ true) × (sleep_begin t.ctx ≡ none)
interrupt_sticks_example =
    interrupt_sticks nobody (broadcast (record nobody { ctx = sched_interrupt nobody.ctx }))
      (record { counted = refl; heard = λ flag. refl }) refl
      (here (broadcast (record nobody { ctx = sched_interrupt nobody.ctx })))

-- A row and a byte.
abbrev seventeen : List ℕ
seventeen =
    0 ∷ 10 ∷ 32 ∷ 65 ∷ 126 ∷ 127 ∷ 128 ∷ 255 ∷ 48 ∷ 49 ∷ 50 ∷ 51 ∷ 52 ∷ 53 ∷ 54 ∷ 55 ∷ 124 ∷ []

hexdump_round_trip_example :
    (read_dump (hexdump seventeen) ≡ seventeen)
    × (length (hexdump seventeen) ≡ row_length * (2 + (length seventeen + 15) / 16))
hexdump_round_trip_example =
    hexdump_round_trip seventeen
      (
        omega arith,
        (
          omega arith,
          (
            omega arith,
            (
              omega arith,
              (
                omega arith,
                (
                  omega arith,
                  (
                    omega arith,
                    (
                      omega arith,
                      (
                        omega arith,
                        (
                          omega arith,
                          (
                            omega arith,
                            (
                              omega arith,
                              (
                                omega arith,
                                (omega arith, (omega arith, (omega arith, (omega arith, tt)))),
                              ),
                            ),
                          ),
                        ),
                      ),
                    ),
                  ),
                ),
              ),
            ),
          ),
        ),
      )
      (omega arith)
