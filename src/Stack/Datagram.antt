-- ===== src/Stack/Datagram.antt =====
-- From `udp_sendto` to `udp_recvfrom` on one machine: the datagram goes down to the loopback device and comes
-- up again through the software interrupt.
use llnstack.Base.{
  ℕ, suc, ◌+◌, ◌%◌, ◌^◌, ◌≤◌, ◌<◌, ◌≡◌, refl, sym, ap, ◌∙◌, true, false, some, List, [], length,
  replicate, ltb, arith,
}
use mathlib.Core.List.{append-nil}
use llnstack.Util.Endian.{Host, little, big}
use llnstack.Util.Checksum.Residue.{IsBytes}
use llnstack.Net.{
  Device, is_up, need_arp, network_interface_family_ip, network_device_type_loopback,
  network_device_get_interface,
}
use llnstack.Net.Protocol.{Packet}
use llnstack.Ip.Text.{Endpoint}
use llnstack.Ip.Route.{Route, find_ip_protocol}
use llnstack.Ip.Packet.{
  Sending, for_other, network_device_addr_len, min_ip_header_size, ip_packet, ip_send_packet,
}
use llnstack.Ip.Packet.Output.{Permitted, if_ok, ip_send_packet-direct}
use llnstack.Udp.Pcb.{UdpPcb, udp_pcb_select}
use llnstack.Udp.Datagram.{udp_protocol, udp_hdr_size, udp_message, udp_input}
use llnstack.Udp.Datagram.RoundTrip.{delivered, udp_input-udp_message}
use llnstack.Stack.{
  ip_handler, udp_handler, Wire, Env, Stack, device_at, transmit, handle_packet, with_protocols,
  soft_interrupt,
}
use llnstack.Stack.Loopback.{waiting, Plenty, queued, output_looped, interrupted_once, handled}

pub length-udp_message :
    (h : Host) (src dst : Endpoint) (payload : List ℕ)
    → length (udp_message h src dst payload) ≡ udp_hdr_size + length payload
unfolding udp_message
length-udp_message little src dst payload = omega arith
length-udp_message big src dst payload = omega arith

-- The message that `udp_output` makes, with its own length and its sender's address.
taken_in :
    (h : Host) (src dst : Endpoint) (payload : List ℕ) (unicast : ℕ) (pcbs : List UdpPcb)
    → src.address ≡ unicast
    → src.port < 65536
    → dst.port < 65536
    → IsBytes payload
    → udp_hdr_size + length payload < 65536
    → let msg = udp_message h src dst payload in
      udp_input h true true msg (length msg) unicast dst.address pcbs
      ≡ delivered
          (udp_pcb_select dst.address dst.port pcbs)
          (record { foreign = src; bytes = payload })
          pcbs
taken_in h src dst payload unicast pcbs own sp dp bytes fits =
    let msg = udp_message h src dst payload in
    ap (λ n. udp_input h true true msg n unicast dst.address pcbs)
      (length-udp_message h src dst payload)
    ∙ ap (λ a. udp_input h true true msg (udp_hdr_size + length payload) a dst.address pcbs)
        (sym own)
    ∙ ap (λ m. udp_input h true true m (udp_hdr_size + length payload) src.address dst.address pcbs)
        (sym (append-nil msg))
    ∙ udp_input-udp_message h src dst payload sp dp bytes fits [] pcbs

-- The loopback device is up and registered under its index, the route leads to its interface, and the
-- destination is the address of that interface or one of its broadcasts. The input queues are empty,
-- and UDP is registered.
pub record Loops {O : Type 0} (s : Stack O) (route : Route) (dst : ℕ) : Type 0 where
  pub kind : (device_at s.devices.devices route.iface.dev).type ≡ network_device_type_loopback
  pub up : is_up (device_at s.devices.devices route.iface.dev) ≡ true
  pub no_arp : need_arp (device_at s.devices.devices route.iface.dev) ≡ false
  pub index : (device_at s.devices.devices route.iface.dev).index ≡ route.iface.dev
  pub iface :
      network_device_get_interface
        (device_at s.devices.devices route.iface.dev)
        network_interface_family_ip
      ≡ some route.iface
  pub for_us : for_other route.iface dst ≡ false
  pub idle : s.sending.driver.protocols ≡ waiting []
  pub registered : find_ip_protocol udp_protocol s.ip_protocols ≡ some udp_handler

pub ltb-false : (a b : ℕ) → ltb a b ≡ false → b ≤ a
ltb-false a b e = ground arith

pub length-ip_packet :
    (h : Host) (protocol : ℕ) (payload : List ℕ) (src dst id : ℕ)
    → length (ip_packet h protocol payload src dst id 0) ≡ min_ip_header_size + length payload
unfolding ip_packet
length-ip_packet little protocol payload src dst id = omega arith
length-ip_packet big protocol payload src dst id = omega arith

-- The state of sending after a datagram has gone down.
abbrev pub sent : {O : Type 0} → Stack O → Device → List ℕ → Sending (Wire O)
sent s dev packet = record s.sending {
  next_id = (s.sending.next_id + 1) % 65536;
  driver = queued dev packet s.sending.driver;
}

module _ {O : Type 0} (env : Env O) (memory : Plenty env) where
  pub ip_send_packet-looped :
      (s : Stack O) (route : Route) (src dst : ℕ) (msg : List ℕ)
      → Loops s route dst
      → Permitted env.host (device_at s.devices.devices) s.tables.routes msg src dst route
      → ip_send_packet env.host
          (transmit env)
          env.now
          (device_at s.devices.devices)
          s.tables.routes
          udp_protocol
          msg
          src
          dst
          s.sending
        ≡ (
          some (length msg),
          sent s
              (device_at s.devices.devices route.iface.dev)
              (ip_packet env.host udp_protocol msg route.iface.unicast dst s.sending.next_id 0),
        )
  ip_send_packet-looped s route src dst msg l p =
      let dev = device_at s.devices.devices route.iface.dev in
      let packet =
        ip_packet env.host udp_protocol msg route.iface.unicast dst s.sending.next_id 0 in
      ip_send_packet-direct env.host (transmit env) env.now (device_at s.devices.devices)
        s.tables.routes route udp_protocol msg src dst s.sending p l.no_arp
      ∙ ap
          (λ r. (
            if_ok r.0 (length msg),
            record {
              next_id = (s.sending.next_id + 1) % 65536;
              caches = s.sending.caches;
              driver = r.1;
            },
          ))
          (output_looped env memory dev packet (replicate network_device_addr_len 0)
            s.sending.driver l.kind l.up
            (omega (
              arith,
              length-ip_packet env.host udp_protocol msg route.iface.unicast dst s.sending.next_id,
              ltb-false dev.mtu (min_ip_header_size + length msg) p.fits,
            ))
            l.idle)

  -- What a datagram leaves behind when it has come up: the number that it used, a pending interrupt, and
  -- its place in the queue of the block.
  abbrev pub arrived : Stack O → Endpoint → Endpoint → List ℕ → Stack O
  arrived s src dst payload = record s {
    sending = record s.sending {
      next_id = (s.sending.next_id + 1) % 65536;
      driver = record s.sending.driver { protocols = waiting []; pending = true };
    };
    pcbs =
        delivered (udp_pcb_select dst.address dst.port s.pcbs)
          (record { foreign = src; bytes = payload }) s.pcbs;
  }

  pub came_up :
      (s : Stack O) (route : Route) (src dst : Endpoint) (payload : List ℕ) (fuel : ℕ)
      → Loops s route dst.address
      → src.address ≡ route.iface.unicast
      → src.address < 2 ^ 32
      → dst.address < 2 ^ 32
      → src.port < 65536
      → dst.port < 65536
      → IsBytes payload
      → min_ip_header_size + (udp_hdr_size + length payload) < 65536
      → soft_interrupt env (suc (suc fuel)) (record s {
        sending = sent s (device_at s.devices.devices route.iface.dev) (
            ip_packet env.host udp_protocol
              (udp_message env.host src dst payload)
              route.iface.unicast
              dst.address
              s.sending.next_id
              0);
      })
        ≡ some (arrived s src dst payload)
  unfolding with_protocols
  came_up s route src dst payload fuel l own sb db sp dp bytes size =
      let dev = device_at s.devices.devices route.iface.dev in
      let msg = udp_message env.host src dst payload in
      let p : Packet = record {
        dev = dev.index;
        bytes =
            ip_packet env.host udp_protocol msg route.iface.unicast dst.address s.sending.next_id 0;
      } in
      let s1 = record s { sending = sent s dev p.bytes } in
      let s0 = with_protocols (waiting []) s1 in
      let handed : handle_packet env ip_handler p s0 ≡ record s0 {
        pcbs = udp_input env.host true true msg (length msg) route.iface.unicast dst.address s.pcbs;
      } =
        handled env memory s0 dev.index msg route.iface.unicast dst.address s.sending.next_id
          route.iface (omega (arith, length-udp_message env.host src dst payload))
          (omega (arith, own)) db
          (ap
              (λ i.
                network_device_get_interface (device_at s.devices.devices i)
                  network_interface_family_ip)
              l.index
            ∙ l.iface)
          l.for_us l.registered in
      interrupted_once env memory fuel p s1 refl (ap (λ t. t.sending.driver.protocols) handed)
      ∙ ap (λ t. some (with_protocols (waiting []) t))
          (handed
            ∙ ap (λ t. record s0 { pcbs = t })
                (taken_in env.host src dst payload route.iface.unicast s.pcbs own sp dp bytes
                  (omega arith)))
