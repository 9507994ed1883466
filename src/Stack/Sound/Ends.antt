-- ===== src/Stack/Sound/Ends.antt =====
-- The software interrupt of a stack whose drivers queue nothing back: `network_protocol_handler` of
-- src/lib/net.c with the handlers that the stack registers.
use llnstack.Base.{
  ℕ, zero, suc, ◌<◌, ◌≡◌, refl, ap, ◌∙◌, false, some, List, [], ◌∷◌, length, inl, inr, ◌==◌,
  kept_if, Option-cases, arith,
}
use llnstack.Net.{Device, Status, network_device_type_loopback, network_device_type_ethernet}
use llnstack.Net.Protocol.{Packet, Protocol, pop_at, drain, drain_all, network_protocol_handler}
use llnstack.Arp.Cache.Select.{Distinct}
use llnstack.Ip.Packet.{Delivery, ip_input}
use llnstack.Ip.Packet.Keeps.{Keeps, icmp_input_keeps, arp_input_keeps}
use llnstack.Stack.{
  ProtocolHandler, arp_handler, ip_handler, Wire, Env, Stack, device_at, with_protocols, IpHandler,
  icmp_handler, udp_handler, put_frame, transmit, deliver, handle_packet, call_protocol,
  soft_interrupt,
}
use llnstack.Stack.Sound.{table}

-- No driver of the stack is the loopback's, which alone queues what is sent.
abbrev pub NoLoopback : Device → Type 0
NoLoopback dev = (dev.type == network_device_type_loopback) ≡ false

-- What a handler needs, and leaves for the next: at most one cache entry for an address, no loopback device,
-- and these queues.
pub record Quiet {O : Type 0} (s : Stack O) (protocols : List (Protocol ProtocolHandler))
    : Type 0 where
  pub caches : Distinct s.sending.caches
  pub devices : (i : ℕ) → NoLoopback (device_at s.devices.devices i)
  pub queued : s.sending.driver.protocols ≡ protocols

module _ {O : Type 0} (env : Env O) where
  -- The IP packets handled in order, each taken from the queue first.
  abbrev pub handle_ip : List Packet → List Packet → Stack O → Stack O
  handle_ip [] arp s = s
  handle_ip (p ∷ ip) arp s =
      handle_ip ip arp (handle_packet env ip_handler p (with_protocols (table ip arp) s))

  -- Then the ARP messages.
  abbrev pub handle_arp : List Packet → Stack O → Stack O
  handle_arp [] s = s
  handle_arp (p ∷ arp) s =
      handle_arp arp (handle_packet env arp_handler p (with_protocols (table [] arp) s))

  abbrev Queued : List (Protocol ProtocolHandler) → Wire O → Type 0
  Queued protocols w = w.protocols ≡ protocols

  transmit-Queued :
      (protocols : List (Protocol ProtocolHandler))
      → Keeps NoLoopback (Queued protocols) (transmit env)
  unfolding transmit put_frame
  transmit-Queued protocols dev type buf dst w v t =
      rw (v, transmit)
        (kept_if (λ (r : Status × Wire O). Queued protocols r.1)
          (dev.type == network_device_type_ethernet) _ _ t t)

  deliver-Quiet :
      (handler : IpHandler) (d : Delivery) (s : Stack O)
      (protocols : List (Protocol ProtocolHandler))
      → Quiet s protocols
      → Quiet (deliver env handler d s) protocols
  unfolding deliver
  deliver-Quiet icmp_handler d s protocols v =
      let k =
        icmp_input_keeps NoLoopback (Queued protocols) env.host (transmit env) env.now
          (device_at s.devices.devices) (transmit-Queued protocols) v.devices s.tables.routes
          d.payload d.len d.src d.dst d.iface s.sending (v.caches, v.queued) in
      record { caches = k.0; devices = v.devices; queued = k.1 }
  deliver-Quiet udp_handler d s protocols v = record {
    caches = v.caches;
    devices = v.devices;
    queued = v.queued;
  }

  handle_packet-Quiet :
      (handler : ProtocolHandler) (p : Packet) (s : Stack O)
      (protocols : List (Protocol ProtocolHandler))
      → Quiet s protocols
      → Quiet (handle_packet env handler p s) protocols
  unfolding handle_packet
  handle_packet-Quiet arp_handler p s protocols v =
      let k =
        arp_input_keeps NoLoopback (Queued protocols) env.host (transmit env) env.now
          (device_at s.devices.devices) (transmit-Queued protocols) v.devices
          (device_at s.devices.devices p.dev) p.bytes s.sending.caches s.sending.driver
          (v.devices p.dev) v.caches v.queued in
      record { caches = k.0; devices = v.devices; queued = k.1 }
  handle_packet-Quiet ip_handler p s protocols v =
      elim (Option-cases
        (ip_input env.host (device_at s.devices.devices p.dev) s.ip_protocols p.bytes)) [
          | inl e ↦ rw (e, handle_packet) v
          | inr ((handler, d), e) ↦ rw (e, handle_packet) (deliver-Quiet handler d s protocols v)
        ]

  abbrev Pair : Type 0
  Pair = List (Protocol ProtocolHandler) × Stack O

  -- The loop has the queues in its hands, and the rest allows it to go on.
  abbrev Holding : List (Protocol ProtocolHandler) → Pair → Type 0
  Holding protocols c =
      (c.0 ≡ protocols)
      × (Distinct c.1.sending.caches × ((i : ℕ) → NoLoopback (device_at c.1.devices.devices i)))

  call-Holding :
      (handler : ProtocolHandler) (p : Packet) (protocols : List (Protocol ProtocolHandler))
      (s : Stack O)
      → Holding protocols (protocols, s)
      → Holding protocols (call_protocol env handler p (protocols, s))
  unfolding call_protocol with_protocols
  call-Holding handler p protocols s v =
      let q =
        handle_packet-Quiet handler p (with_protocols protocols s) protocols
          (record { caches = v.1.0; devices = v.1.1; queued = refl }) in
      (q.queued, (q.caches, q.devices))

  -- One queue is emptied.
  drain_ip :
      (ip arp : List Packet) (fuel : ℕ) (c : Pair)
      → length ip < fuel
      → Holding (table ip arp) c
      → (c' : Pair) × (drain (call_protocol env) fuel 0 c ≡ some c')
        × (c'.1 ≡ handle_ip ip arp c.1)
        × Holding (table [] arp) c'
  unfolding drain pop_at call_protocol
  drain_ip ip arp zero c f v = absurd (omega arith)
  drain_ip [] arp (suc fuel) c f v = (c, rw (ap (pop_at 0) v.0, drain) refl, refl, v)
  drain_ip (p ∷ ip) arp (suc fuel) c f v =
      let next =
        drain_ip ip arp fuel (call_protocol env ip_handler p (table ip arp, c.1)) (omega arith)
          (call-Holding ip_handler p (table ip arp) c.1 (refl, v.1)) in
      (next.0, rw (ap (pop_at 0) v.0, drain) next.1, next.2, next.3)

  drain_arp :
      (arp : List Packet) (fuel : ℕ) (c : Pair)
      → length arp < fuel
      → Holding (table [] arp) c
      → (c' : Pair) × (drain (call_protocol env) fuel 1 c ≡ some c')
        × (c'.1 ≡ handle_arp arp c.1)
        × Holding (table [] []) c'
  unfolding drain pop_at call_protocol
  drain_arp arp zero c f v = absurd (omega arith)
  drain_arp [] (suc fuel) c f v = (c, rw (ap (pop_at 1) v.0, drain) refl, refl, v)
  drain_arp (p ∷ arp) (suc fuel) c f v =
      let next =
        drain_arp arp fuel (call_protocol env arp_handler p (table [] arp, c.1)) (omega arith)
          (call-Holding arp_handler p (table [] arp) c.1 (refl, v.1)) in
      (next.0, rw (ap (pop_at 1) v.0, drain) next.1, next.2, next.3)

  -- With the protocols IP and ARP registered, no loopback device among the devices, at most one cache entry
  -- for an address, and fuel above the number of packets in each of the two queues: the software interrupt
  -- ends; every IP packet has then been handled in order, after these every ARP message in order, and both
  -- queues are empty.
  pub soft_interrupt_ends :
      (ip arp : List Packet) (fuel : ℕ) (s : Stack O)
      → length ip < fuel
      → length arp < fuel
      → Quiet s (table ip arp)
      → (t : Stack O) × (soft_interrupt env fuel s ≡ some t)
        × (t ≡ with_protocols (table [] []) (handle_arp arp (handle_ip ip arp s)))
  unfolding soft_interrupt network_protocol_handler drain_all with_protocols
  soft_interrupt_ends ip arp fuel s f g v =
      let c : Pair = (s.sending.driver.protocols, s) in
      let (d, p, k, w) = drain_ip ip arp fuel c f (v.queued, (v.caches, v.devices)) in
      let (e, q, l, x) = drain_arp arp fuel d g w in
      (
        with_protocols e.0 e.1,
        rw (ap (length {A = Protocol ProtocolHandler}) v.queued, p, q, soft_interrupt, drain_all)
            refl,
        ap (λ protocols. with_protocols protocols e.1) x.0
            ∙ ap (with_protocols (table [] [])) (l ∙ ap (handle_arp arp) k),
      )
