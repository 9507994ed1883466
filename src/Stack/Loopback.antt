-- ===== src/Stack/Loopback.antt =====
-- A datagram through the loopback device: `udp_sendto`, the input queue of IP, the software interrupt,
-- `ip_input`, `udp_input`, and `udp_recvfrom`.
use llnstack.Base.{
  ℕ, suc, ◌+◌, ◌^◌, ◌≤◌, ◌<◌, ◌≡◌, refl, sym, ap, ◌∙◌, true, false, some, List, [], ◌∷◌, length,
  arith,
}
use mathlib.Core.List.{append-nil}
use llnstack.Net.{
  ok, Interface, Device, is_up, network_interface_family_ip, network_device_type_loopback,
  network_protocol_type_ip, network_protocol_type_arp, network_device_get_interface,
  network_device_output,
}
use llnstack.Net.Protocol.{
  Packet, Protocol, network_input_handler, network_protocol_handler, drain, drain_all, pop_at,
}
use llnstack.Ip.Route.{find_ip_protocol}
use llnstack.Ip.Packet.{Delivery, for_other, min_ip_header_size, ip_input, ip_packet}
use llnstack.Ip.Packet.Input.{ip_input-ip_packet}
use llnstack.Udp.Datagram.{udp_protocol, udp_input}
use llnstack.Stack.{
  ProtocolHandler, arp_handler, ip_handler, udp_handler, Wire, Env, Stack, device_at, loop_back,
  transmit, deliver, handle_packet, with_protocols, call_protocol, soft_interrupt,
}

-- The protocol table that `network_init` leaves, with packets waiting for IP.
abbrev pub waiting : List Packet → List (Protocol ProtocolHandler)
waiting packets =
    record { type = network_protocol_type_ip; queue = packets; handler = ip_handler }
    ∷ record { type = network_protocol_type_arp; queue = []; handler = arp_handler }
    ∷ []

abbrev pub queued : {O : Type 0} → Device → List ℕ → Wire O → Wire O
queued dev buf w = record w {
  protocols = waiting (record { dev = dev.index; bytes = buf } ∷ []);
  pending = true;
}

-- An environment in which memory is at hand.
abbrev pub Plenty : {O : Type 0} → Env O → Type 0
Plenty env = (env.alloc ≡ true) × (env.alloc_link ≡ true)

module _ {O : Type 0} (env : Env O) (memory : Plenty env) where
  -- The packet joins the queue of IP.
  looped :
      (dev : Device) (buf dst : List ℕ) (w : Wire O)
      → w.protocols ≡ waiting []
      → loop_back env dev network_protocol_type_ip buf dst w ≡ (ok, queued dev buf w)
  unfolding loop_back network_input_handler
  looped dev buf dst w e = let (a, b) = memory in rw (e, a, b, loop_back) (ground (arith, a, b))

  pub output_looped :
      (dev : Device) (buf dst : List ℕ) (w : Wire O)
      → dev.type ≡ network_device_type_loopback
      → is_up dev ≡ true
      → length buf ≤ dev.mtu
      → w.protocols ≡ waiting []
      → network_device_output (transmit env) dev network_protocol_type_ip buf dst w
        ≡ (ok, queued dev buf w)
  unfolding network_device_output transmit
  output_looped dev buf dst w t u m e = let l = looped dev buf dst w e in ground (arith, l)

  abbrev call :
      ProtocolHandler
      → Packet
      → List (Protocol ProtocolHandler) × Stack O
      → List (Protocol ProtocolHandler) × Stack O
  call = call_protocol env

  drain_first :
      (fuel : ℕ) (c : List (Protocol ProtocolHandler) × Stack O)
      → c.0 ≡ waiting []
      → drain call (suc fuel) 0 c ≡ some c
  unfolding drain pop_at
  drain_first fuel c e = rw (ap (pop_at 0) e, drain) refl

  drain_second :
      (fuel : ℕ) (c : List (Protocol ProtocolHandler) × Stack O)
      → c.0 ≡ waiting []
      → drain call (suc fuel) 1 c ≡ some c
  unfolding drain pop_at
  drain_second fuel c e = rw (ap (pop_at 1) e, drain) refl

  drain_one :
      (fuel : ℕ) (p : Packet) (s : Stack O)
      → (call ip_handler p (waiting [], s)).0 ≡ waiting []
      → drain call (suc (suc fuel)) 0 (waiting (p ∷ []), s)
        ≡ some (call ip_handler p (waiting [], s))
  unfolding drain pop_at
  drain_one fuel p s q = drain_first fuel (call ip_handler p (waiting [], s)) q

  drained_once :
      (fuel : ℕ) (p : Packet) (s : Stack O)
      → (call ip_handler p (waiting [], s)).0 ≡ waiting []
      → network_protocol_handler call (suc (suc fuel)) (waiting (p ∷ []), s)
        ≡ some (call ip_handler p (waiting [], s))
  unfolding network_protocol_handler drain_all
  drained_once fuel p s q =
      let c = call ip_handler p (waiting [], s) in
      rw (drain_one fuel p s q, drain_second (suc fuel) c q, drain_all) refl

  -- One packet waits for IP, and its handler queues none: the software interrupt calls that handler and
  -- ends.
  pub interrupted_once :
      (fuel : ℕ) (p : Packet) (s : Stack O)
      → s.sending.driver.protocols ≡ waiting (p ∷ [])
      → (handle_packet env ip_handler p (with_protocols (waiting []) s)).sending.driver.protocols
        ≡ waiting []
      → soft_interrupt env (suc (suc fuel)) s
        ≡ some (
            with_protocols
              (waiting [])
              (handle_packet env ip_handler p (with_protocols (waiting []) s)))
  unfolding soft_interrupt call_protocol
  interrupted_once fuel p s e q =
      let after = handle_packet env ip_handler p (with_protocols (waiting []) s) in
      let done : network_protocol_handler call (suc (suc fuel)) (s.sending.driver.protocols, s)
          ≡ some (after.sending.driver.protocols, after) =
        ap (λ t. network_protocol_handler call (suc (suc fuel)) (t, s)) e
        ∙ drained_once fuel p s q in
      rw (done, soft_interrupt) (ap (λ t. some (with_protocols t after)) q)

  -- `ip_input` hands a packet with a UDP message for this host to `udp_input`.
  pub handled :
      (s : Stack O) (i : ℕ) (msg : List ℕ) (src dst id : ℕ) (iface : Interface)
      → min_ip_header_size + length msg < 65536
      → src < 2 ^ 32
      → dst < 2 ^ 32
      → network_device_get_interface (device_at s.devices.devices i) network_interface_family_ip
        ≡ some iface
      → for_other iface dst ≡ false
      → find_ip_protocol udp_protocol s.ip_protocols ≡ some udp_handler
      → handle_packet env ip_handler
          (record { dev = i; bytes = ip_packet env.host udp_protocol msg src dst id 0 })
          s
        ≡ record s { pcbs = udp_input env.host true true msg (length msg) src dst s.pcbs }
  unfolding handle_packet deliver
  handled s i msg src dst id iface size sb db gi us reg =
      let (a, b) = memory in
      let d : Delivery = record {
        payload = msg;
        len = length msg;
        src = src;
        dst = dst;
        iface = iface;
      } in
      let e : ip_input env.host (device_at s.devices.devices i) s.ip_protocols
            (ip_packet env.host udp_protocol msg src dst id 0)
          ≡ some (udp_handler, d) =
        ap (ip_input env.host (device_at s.devices.devices i) s.ip_protocols)
          (sym (append-nil (ip_packet env.host udp_protocol msg src dst id 0)))
        ∙ ip_input-ip_packet env.host (device_at s.devices.devices i) s.ip_protocols udp_protocol
            msg [] src dst id iface udp_handler size (omega arith) sb db gi us reg
        ∙ ap (λ m. some (udp_handler, record d { payload = m })) (append-nil msg) in
      rw (e, handle_packet) (rw (a, b) refl)
