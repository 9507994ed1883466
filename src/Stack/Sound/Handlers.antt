-- ===== src/Stack/Sound/Handlers.antt =====
-- The handlers of the signals keep the state of the stack sound.
use llnstack.Base.{
  ℕ, zero, suc, ◌≡◌, refl, sym, ap, ◌∙◌, inl, inr, Bool, Option, none, some, List, [], ◌∷◌, ◌++◌,
  length, ◌==◌, kept_if, Option-cases,
}
use llnstack.Net.{
  Device, Status, network_protocol_type_ip, network_protocol_type_arp, network_device_type_loopback,
  network_device_type_ethernet,
}
use llnstack.Net.Protocol.{
  Packet, Protocol, network_input_handler, pop_at, drain, drain_all, network_protocol_handler,
}
use llnstack.Ip.Packet.{Delivery, ip_input}
use llnstack.Udp.User.Receive.{input-IsValid}
use llnstack.Stack.{
  ProtocolHandler, arp_handler, ip_handler, Wire, Env, Stack, device_at, with_protocols, IpHandler,
  icmp_handler, udp_handler, loop_back, put_frame, transmit, deliver, handle_packet, call_protocol,
  soft_interrupt,
}
use llnstack.Ip.Packet.Keeps.{Keeps, icmp_input_keeps, arp_input_keeps}
use llnstack.Stack.Sound.{table, IsTable, IsSound, WireIsTable, IsSoundIfSome}

input_table :
    (alloc alloc_link : Bool) (type : ℕ) (bytes : List ℕ) (dev : ℕ) (ip arp : List Packet)
    → IsTable (network_input_handler alloc alloc_link type bytes dev (table ip arp)).1
unfolding network_input_handler
input_table alloc alloc_link type bytes dev ip arp =
    kept_if After (network_protocol_type_ip == type) _ _
      (kept_if After alloc _ _
        (kept_if After alloc_link _ _ (ip ++ record { dev = dev; bytes = bytes } ∷ [], arp, refl)
          (ip, arp, refl))
        (ip, arp, refl))
      (kept_if Behind (network_protocol_type_arp == type) _ _
        (kept_if Behind alloc _ _
          (kept_if Behind alloc_link _ _ (ip, arp ++ record { dev = dev; bytes = bytes } ∷ [], refl)
            (ip, arp, refl))
          (ip, arp, refl))
        (ip, arp, refl))
  where
    Result : Type 0
    Result = Status × List (Protocol ProtocolHandler) × Bool

    After : Result → Type 0
    After r = IsTable r.1

    Behind : Result → Type 0
    Behind r =
        IsTable (record { type = network_protocol_type_ip; queue = ip; handler = ip_handler } ∷ r.1)

-- `network_input_handler` keeps the table.
pub input-IsTable :
    (alloc alloc_link : Bool) (type : ℕ) (bytes : List ℕ) (dev : ℕ)
    (protocols : List (Protocol ProtocolHandler))
    → IsTable protocols
    → IsTable (network_input_handler alloc alloc_link type bytes dev protocols).1
input-IsTable alloc alloc_link type bytes dev protocols (ip, arp, e) =
    rw e (input_table alloc alloc_link type bytes dev ip arp)

pop_table :
    (i : ℕ) (ip arp : List Packet) (h : ProtocolHandler) (p : Packet)
    (rest : List (Protocol ProtocolHandler))
    → pop_at i (table ip arp) ≡ some (h, p, rest)
    → IsTable rest
unfolding pop_at
pop_table zero [] arp h p rest e = absurd (cc)
pop_table zero (q ∷ ip) arp h p rest e = (ip, arp, cc)
pop_table (suc zero) ip [] h p rest e = absurd (cc)
pop_table (suc zero) ip (q ∷ arp) h p rest e = (ip, arp, cc)
pop_table (suc (suc i)) ip arp h p rest e = absurd (cc)

-- No condition on a device.
abbrev pub Any : Device → Type 0
Any dev = Unit {0}

module _ {O : Type 0} (env : Env O) where
  -- Whatever is sent, a table of protocols behind the devices stays one.
  pub transmit-Keeps : Keeps Any WireIsTable (transmit env)
  unfolding transmit loop_back put_frame
  transmit-Keeps dev type buf dst w v t =
      kept_if After (dev.type == network_device_type_loopback) _ _
        (input-IsTable env.alloc env.alloc_link type buf dev.index w.protocols t)
        (kept_if After (dev.type == network_device_type_ethernet) _ _ t t)
    where
      After : Status × Wire O → Type 0
      After r = WireIsTable r.1

  deliver-IsSound :
      (handler : IpHandler) (d : Delivery) (s : Stack O)
      → IsSound s
      → IsSound (deliver env handler d s)
  unfolding deliver
  deliver-IsSound icmp_handler d s v =
      let k =
        icmp_input_keeps Any WireIsTable env.host (transmit env) env.now
          (device_at s.devices.devices) transmit-Keeps (λ i. tt) s.tables.routes d.payload d.len
          d.src d.dst d.iface s.sending (v.caches, v.protocols) in
      record { caches = k.0; pcbs = v.pcbs; irqs = v.irqs; protocols = k.1 }
  deliver-IsSound udp_handler d s v = record {
    caches = v.caches;
    pcbs =
        input-IsValid env.host env.alloc env.alloc_link d.payload d.len d.src d.dst s.pcbs v.pcbs;
    irqs = v.irqs;
    protocols = v.protocols;
  }

  pub handle_packet-IsSound :
      (handler : ProtocolHandler) (p : Packet) (s : Stack O)
      → IsSound s
      → IsSound (handle_packet env handler p s)
  unfolding handle_packet
  handle_packet-IsSound arp_handler p s v =
      let k =
        arp_input_keeps Any WireIsTable env.host (transmit env) env.now
          (device_at s.devices.devices) transmit-Keeps (λ i. tt) (device_at s.devices.devices p.dev)
          p.bytes s.sending.caches s.sending.driver tt v.caches v.protocols in
      record { caches = k.0; pcbs = v.pcbs; irqs = v.irqs; protocols = k.1 }
  handle_packet-IsSound ip_handler p s v =
      elim (Option-cases
        (ip_input env.host (device_at s.devices.devices p.dev) s.ip_protocols p.bytes)) [
          | inl e ↦ rw (e, handle_packet) v
          | inr ((handler, d), e) ↦ rw (e, handle_packet) (deliver-IsSound handler d s v)
        ]

  abbrev Pair : Type 0
  Pair = List (Protocol ProtocolHandler) × Stack O

  -- The state with the table that the loop has in its hands.
  abbrev Sound : Pair → Type 0
  Sound c = IsSound (with_protocols c.0 c.1)

  with_table :
      (protocols : List (Protocol ProtocolHandler)) (c : Pair)
      → IsTable protocols
      → Sound c
      → Sound (protocols, c.1)
  unfolding with_protocols
  with_table protocols c t v = record {
    caches = v.caches;
    pcbs = v.pcbs;
    irqs = v.irqs;
    protocols = t;
  }

  call-Sound :
      (handler : ProtocolHandler) (p : Packet) (c : Pair)
      → Sound c
      → Sound (call_protocol env handler p c)
  unfolding call_protocol with_protocols
  call-Sound handler p c v = handle_packet-IsSound handler p (with_protocols c.0 c.1) v

  popped :
      (i : ℕ) (c : Pair) (h : ProtocolHandler) (p : Packet) (rest : List (Protocol ProtocolHandler))
      → pop_at i c.0 ≡ some (h, p, rest)
      → Sound c
      → IsTable rest
  unfolding with_protocols
  popped i c h p rest e v =
      let (ip, arp, t) = v.protocols in pop_table i ip arp h p rest (sym (ap (pop_at i) t) ∙ e)

  -- What ends is sound.
  IfSound : Option Pair → Type 0
  IfSound none = Unit {0}
  IfSound (some c) = Sound c

  drain-Sound : (fuel i : ℕ) (c : Pair) → Sound c → IfSound (drain (call_protocol env) fuel i c)
  unfolding drain IfSound
  drain-Sound zero i c v = tt
  drain-Sound (suc fuel) i c v = elim (Option-cases (pop_at i c.0)) [
    | inl n ↦ rw (n, drain) v
    | inr ((h, p, rest), f) ↦
        rw (f, drain)
          (drain-Sound fuel i (call_protocol env h p (rest, c.1))
            (call-Sound h p (rest, c.1) (with_table rest c (popped i c h p rest f v) v)))
  ]

  drain_all-Sound :
      (fuel n i : ℕ) (c : Pair) → Sound c → IfSound (drain_all (call_protocol env) fuel n i c)
  unfolding drain_all IfSound
  drain_all-Sound fuel zero i c v = v
  drain_all-Sound fuel (suc n) i c v = elim (Option-cases (drain (call_protocol env) fuel i c)) [
    | inl e ↦ rw (e, drain_all) tt
    | inr (c', e) ↦
        let v' : Sound c' = rw (ap IfSound (sym e)) (drain-Sound fuel i c v) in
        rw (e, drain_all) (drain_all-Sound fuel n (suc i) c' v')
  ]

  pub soft_interrupt-IsSound :
      (fuel : ℕ) (s : Stack O) → IsSound s → IsSoundIfSome (soft_interrupt env fuel s)
  unfolding soft_interrupt network_protocol_handler IfSound with_protocols
  soft_interrupt-IsSound fuel s v =
      let c : Pair = (s.sending.driver.protocols, s) in
      let k = drain_all-Sound fuel (length c.0) 0 c v in
      elim (Option-cases (drain_all (call_protocol env) fuel (length c.0) 0 c)) [
        | inl e ↦ rw (e, soft_interrupt) tt
        | inr (c', e) ↦ rw (e, soft_interrupt) (rw (ap IfSound (sym e)) k)
      ]
