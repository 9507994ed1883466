-- ===== src/App/Main/Stop.antt =====
-- SIGINT ends the server that waits for a datagram.
use llnstack.Base.{
  ℕ, zero, suc, ◌≡◌, refl, ap, ◌∙◌, Bool, ◌||◌, true, false, Option, none, some, List, [], ◌∷◌, map,
  All, get_elem?, if◌then◌else◌, arith,
}
use llnstack.Net.{Status, Device, is_up, op_fails, network_device_close}
use llnstack.Net.Timer.{network_event_handler}
use llnstack.Sched.{SchedCtx, sleep_end, sched_interrupt}
use llnstack.Udp.Pcb.{UdpPcb, is_open, event_handler}
use llnstack.Udp.User.{failed, recv_resume}
use llnstack.Sock.{datagram_desc}
use llnstack.Stack.{Env, Stack, udp_event_handler, event_interrupt}
use llnstack.Driver.{Poll}
use llnstack.Intr.{sigusr2, intr_dispatch}
use llnstack.Stack.Signals.{intr_thread}
use llnstack.Stack.Start.{close_all, network_shutdown}
use llnstack.App.{answer, buf_size}
use llnstack.App.Main.{
  Server, testing, returned, finish, on_signal, is_interrupted, after_round, turn, resume,
}

closed_down :
    (close : Device → Option Status) (dev : Device)
    → op_fails (close dev) ≡ false
    → is_up (network_device_close (close dev) dev).1 ≡ false
unfolding network_device_close
closed_down close dev c = ground arith

-- All devices are down where no driver fails to close.
closed_each :
    (close : Device → Option Status) (devices : List Device)
    → ((dev : Device) → op_fails (close dev) ≡ false)
    → All (λ dev. is_up dev ≡ false) (close_all close devices)
unfolding close_all
closed_each close [] c = tt
closed_each close (dev ∷ rest) c = (closed_down close dev (c dev), closed_each close rest c)

get_elem?-map :
    {A : Type 0} (f : A → A) (xs : List A) (i : ℕ) (x : A)
    → get_elem? xs i ≡ some x
    → get_elem? (map f xs) i ≡ some (f x)
get_elem?-map f [] i x e = absurd (cc)
get_elem?-map f (y ∷ xs) zero x e = ap (λ o. elim o [ none ↦ none | some z ↦ some (f z) ]) e
get_elem?-map f (y ∷ xs) (suc i) x e = get_elem?-map f xs i x e

interrupted_end :
    (waited : ℕ) (ctx : SchedCtx) → ctx.interrupted ≡ true → (sleep_end waited ctx).0 ≡ none
unfolding sleep_end
interrupted_end waited ctx i = rw (i, sleep_end) refl

-- A thread that waits is told of the interrupt.
resumed :
    (destroyed : Option ℕ) (waited d size : ℕ) (pcbs : List UdpPcb) (x : UdpPcb)
    → get_elem? pcbs d ≡ some x
    → x.ctx.interrupted ≡ true
    → (recv_resume destroyed waited d size pcbs).0 ≡ failed
unfolding recv_resume
resumed destroyed waited d size pcbs x e i =
    rw (e, interrupted_end waited x.ctx i, recv_resume) refl

module _ {O : Type 0} (env : Env O) (destroyed : Option ℕ) (close : Device → Option Status) where
  finished :
      (v : Server O)
      → ((dev : Device) → op_fails (close dev) ≡ false)
      → let v' = finish destroyed close v in
        (v'.phase ≡ returned) × All (λ dev. is_up dev ≡ false) v'.stack.devices.devices
  unfolding finish network_shutdown
  finished v c = (refl, closed_each close v.stack.devices.devices c)

  -- The interrupted round goes on to the test of the loop.
  woken :
      (stale : Bool) (waited : ℕ) (v : Server O) (d : ℕ) (x : UdpPcb)
      → datagram_desc v.soc v.socks ≡ some d
      → get_elem? v.stack.pcbs d ≡ some x
      → x.ctx.interrupted ≡ true
      → resume env destroyed close stale waited v ≡ record v {
        stack = record v.stack { pcbs = (recv_resume destroyed waited d buf_size v.stack.pcbs).1 };
        phase = testing;
      }
  unfolding resume answer after_round
  woken stale waited v d x desc e i =
      let flag : is_interrupted stale (get_elem? v.stack.pcbs d) ≡ true =
        ap (is_interrupted stale) e ∙ ap (λ b. b || stale) i in
      rw (desc, resumed destroyed waited d buf_size v.stack.pcbs x e i, resume) (rw flag refl)

  turned :
      (stale : Bool) (v : Server O)
      → v.terminate ≡ true
      → turn env destroyed close stale v ≡ finish destroyed close v
  unfolding turn
  turned stale v stop = rw (stop, turn) refl

  -- SIGINT ends a server that waits for a datagram: when the handler has run, the interrupt thread has
  -- handled the signal that it sends, and the thread that waits has the mutex again, `main` returns 0, and
  -- every device is down if the drivers can close. The event of UDP has been subscribed to.
  pub sigint_stops :
      (stale : Bool) (fuel : ℕ) (polls : ℕ → List Poll) (waited : ℕ) (v : Server O) (d : ℕ)
      (x : UdpPcb)
      → datagram_desc v.soc v.socks ≡ some d
      → get_elem? v.stack.pcbs d ≡ some x
      → is_open x.state ≡ true
      → v.stack.events ≡ udp_event_handler ∷ []
      → ((dev : Device) → op_fails (close dev) ≡ false)
      → let v1 = on_signal v in
        (t : Stack O) × (intr_thread env fuel polls sigusr2 v1.stack ≡ some t)
        × (let v2 =
              turn env destroyed close stale
                (resume env destroyed close stale waited (record v1 { stack = t })) in
            (v2.phase ≡ returned) × All (λ dev. is_up dev ≡ false) v2.stack.devices.devices)
  unfolding intr_thread intr_dispatch event_interrupt network_event_handler on_signal event_handler
      sched_interrupt
  sigint_stops stale fuel polls waited v d x desc e is events c =
      let t = record v.stack { pcbs = event_handler v.stack.pcbs } in
      let tell : UdpPcb → UdpPcb =
        λ pcb. if is_open pcb.state then record pcb { ctx = sched_interrupt pcb.ctx } else pcb in
      let there : get_elem? t.pcbs d ≡ some (record x { ctx = sched_interrupt x.ctx }) =
        get_elem?-map tell v.stack.pcbs d x e ∙ ap some (rw is refl) in
      let v1 = record v { terminate = true; stack = t } in
      let w = woken stale waited v1 d (record x { ctx = sched_interrupt x.ctx }) desc there refl in
      let v2 = record v1 {
        stack = record t { pcbs = (recv_resume destroyed waited d buf_size t.pcbs).1 };
        phase = testing;
      } in
      (
        t,
        rw events refl,
        rw (ap (turn env destroyed close stale) w ∙ turned stale v2 refl) (finished v2 c),
      )
