-- ===== src/Stack/Start/Tables.antt =====
-- What `network_init` leaves in the tables.
use llnstack.Base.{◌≡◌, refl, ap, ◌⊎◌, inl, inr, Bool, true, false, ◌&&◌, [], ◌∷◌, if◌then◌else◌}
use llnstack.Net.{Status, ok, fail}
use llnstack.Net.Protocol.{find_protocol, network_protocol_register}
use llnstack.Net.Timer.{Timeval, network_timer_register, network_event_subscribe}
use llnstack.Ip.Route.{find_ip_protocol, ip_register_protocol}
use llnstack.Icmp.{icmp_protocol}
use llnstack.Udp.Datagram.{udp_protocol}
use llnstack.Intr.{sigusr1, sigusr2, sigalrm, intr_init}
use llnstack.Stack.{
  icmp_handler, udp_handler, arp_timer_handler, udp_event_handler, Stack, with_protocols,
}
use llnstack.Stack.Loopback.{waiting}
use llnstack.Stack.Start.{
  Room, one_second, register_protocol, register_ip_protocol, register_timer, subscribe, arp_init,
  ip_initialize, icmp_init, udp_init, network_init,
}

-- The allocations whose failure `network_init` reports.
abbrev pub has_room : Room → Bool
has_room room = room.arp && room.arp_timer && room.ip && room.icmp && room.udp

module _ {O : Type 0} where
  -- Static storage before any call: no table has an entry.
  pub record IsFresh (s : Stack O) : Type 0 where
    pub protocols : s.sending.driver.protocols ≡ []
    pub ip_protocols : s.ip_protocols ≡ []
    pub timers : s.timers ≡ []
    pub events : s.events ≡ []

  -- The tables of a stack that has started.
  abbrev pub started : Bool → Timeval → Stack O → Stack O
  started event now s = record (with_protocols (waiting []) s) {
    ip_protocols =
        record { type = udp_protocol; handler = udp_handler }
        ∷ record { type = icmp_protocol; handler = icmp_handler }
        ∷ [];
    timers = record { interval = one_second; last = now; handler = arp_timer_handler } ∷ [];
    events = if event then udp_event_handler ∷ [] else [];
    irqs = record s.irqs { sigmask = sigusr1 ∷ sigusr2 ∷ sigalrm ∷ [] };
  }

  emptied : Stack O → Stack O
  emptied s = record (with_protocols [] s) { ip_protocols = []; timers = []; events = [] }

  IsFresh-emptied : (s : Stack O) → IsFresh s → s ≡ emptied s
  unfolding emptied with_protocols
  IsFresh-emptied s f = rw (f.protocols, f.ip_protocols, f.timers, f.events) refl

  Outcome : Room → Timeval → Stack O → Status × Stack O → Type 0
  Outcome room now s r =
      ((has_room room ≡ true) × (r ≡ (ok, started room.udp_event now s)))
      ⊎ ((has_room room ≡ false) × (r.0 ≡ fail))

  init_emptied :
      (arp timer ip icmp udp event : Bool) (now : Timeval) (s : Stack O)
      → let room : Room = record {
        arp = arp;
        arp_timer = timer;
        ip = ip;
        icmp = icmp;
        udp = udp;
        udp_event = event;
      } in
        Outcome room now s (network_init room now (emptied s))
  unfolding Outcome emptied with_protocols network_init arp_init ip_initialize icmp_init udp_init
      register_protocol register_ip_protocol register_timer subscribe network_protocol_register
      find_protocol ip_register_protocol find_ip_protocol network_timer_register
      network_event_subscribe intr_init
  init_emptied true true true true true true now s = inl (refl, refl)
  init_emptied true true true true true false now s = inl (refl, refl)
  init_emptied true true true true false event now s = inr (refl, refl)
  init_emptied true true true false udp event now s = inr (refl, refl)
  init_emptied true true false icmp udp event now s = inr (refl, refl)
  init_emptied true false ip icmp udp event now s = inr (refl, refl)
  init_emptied false timer ip icmp udp event now s = inr (refl, refl)

  init_started :
      (room : Room) (now now' : Timeval) (event : Bool) (s : Stack O)
      → network_init room now' (started event now s) ≡ (fail, started event now s)
  unfolding with_protocols network_init arp_init register_protocol network_protocol_register
      find_protocol intr_init
  init_started room now now' event s = refl

  -- From empty tables `network_init` succeeds exactly when memory is at hand for the two protocols of
  -- the devices, the timer and the two IP protocols. The tables then hold ARP and IP with empty queues,
  -- ICMP and UDP, and the timer of ARP; UDP's event is there only if there was memory for it, too, since
  -- that failure is not reported. A second call fails and changes nothing.
  pub network_init_lem :
      (room : Room) (now : Timeval) (s : Stack O)
      → IsFresh s
      → ((has_room room ≡ true)
          × (network_init room now s ≡ (ok, started room.udp_event now s))
          × ((room' : Room) (now' : Timeval)
              → network_init room' now' (started room.udp_event now s)
                ≡ (fail, started room.udp_event now s)))
        ⊎ ((has_room room ≡ false) × ((network_init room now s).0 ≡ fail))
  unfolding Outcome
  network_init_lem room now s f =
      let first : Outcome room now s (network_init room now s) =
        rw (ap (network_init room now) (IsFresh-emptied s f))
          (init_emptied room.arp room.arp_timer room.ip room.icmp room.udp room.udp_event now s) in
      elim first [
        | inl (h, e) ↦ inl (h, e, λ room' now'. init_started room' now now' room.udp_event s)
        | inr r ↦ inr r
      ]
