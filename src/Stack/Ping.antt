-- ===== src/Stack/Ping.antt =====
-- An echo request that has come in from an Ethernet, through the software interrupt, `ip_input`, `icmp_input`,
-- `ip_send_packet` and the ARP cache, to the frame with the reply that is written to the device.
pub mod Frame
use llnstack.Base.{
  ℕ, suc, ◌+◌, ◌-◌, ◌%◌, ◌^◌, ◌≤◌, ◌<◌, ◌≡◌, refl, sym, ap, ◌∙◌, Bool, true, false, Option, some,
  List, [], ◌∷◌, ◌++◌, length, length-append, take, take-append, take_all, replicate, ltb, arith,
}
use llnstack.Util.Endian.{Host, little, big, store16, hton16}
use llnstack.Util.Packed.{copy_into}
use llnstack.Util.Checksum.Residue.{IsBytes}
use llnstack.Net.{
  ok, Status, Interface, Device, is_up, network_interface_family_ip, network_device_type_ethernet,
  network_protocol_type_ip, network_device_get_interface, network_device_output,
}
use llnstack.Net.Protocol.{Packet}
use llnstack.Arp.Cache.{ArpCache, is_incomplete, arp_cache_select, ether_addr_len}
use llnstack.Ip.Route.{Route, find_ip_protocol}
use llnstack.Ip.Packet.{
  Delivery, Sending, for_other, next_hop, network_device_addr_len, min_ip_header_size, ip_input,
  ip_packet, ip_send_packet,
}
use llnstack.Ip.Packet.Input.{ip_input-ip_packet}
use llnstack.Ip.Packet.Output.{Permitted, NeedsAddress, if_ok, ip_send_packet-found}
use llnstack.Icmp.{
  icmp_protocol, icmp_hdr_size, icmp_type_echo, icmp_type_echoreply, icmp_message, icmp_output,
  icmp_input,
}
use llnstack.Icmp.Echo.{icmp_input-echo, length-message}
use llnstack.Ether.{ether_frame, ether_transmit_helper, padded}
use llnstack.Stack.{
  ip_handler, icmp_handler, Wire, Env, Stack, device_at, put_frame, transmit, deliver,
  handle_packet, with_protocols, soft_interrupt,
}
use llnstack.Stack.Datagram.{length-ip_packet, ltb-false}
use llnstack.Stack.Written.{output_written}
use llnstack.Stack.Loopback.{waiting, Plenty, interrupted_once}

-- The interface that the request came in by, the route back and its device, the sender's entry of the cache,
-- and the protocols that are registered.
pub record Answers {O : Type 0} (h : Host) (s : Stack O) (p : Packet) (iface : Interface)
    (route : Route) (message : List ℕ) (src dst : ℕ) (i : ℕ) (e : ArpCache) : Type 0 where
  pub iface_is :
      network_device_get_interface (device_at s.devices.devices p.dev) network_interface_family_ip
      ≡ some iface
  pub for_us : for_other iface dst ≡ false
  pub registered : find_ip_protocol icmp_protocol s.ip_protocols ≡ some icmp_handler
  pub permitted :
      Permitted h (device_at s.devices.devices) s.tables.routes message iface.unicast src route
  pub needs_address : NeedsAddress (device_at s.devices.devices) route src
  pub up : is_up (device_at s.devices.devices route.iface.dev) ≡ true
  pub cached : arp_cache_select (next_hop route src) s.sending.caches ≡ some (i, e)
  pub known : is_incomplete e.state ≡ false
  pub whole : length e.ha ≡ 6

module _ {O : Type 0} (env : Env O) (memory : Plenty env) where
  -- The state after the frame has been written.
  abbrev pub answered : Stack O → Device → List ℕ → Stack O
  answered s dev frame = record s {
    sending = record s.sending {
      next_id = (s.sending.next_id + 1) % 65536;
      driver = record s.sending.driver { os = (env.write dev.index frame s.sending.driver.os).1 };
    };
  }

  -- The reply goes out.
  replied :
      (s : Stack O) (p : Packet) (iface : Interface) (route : Route) (message : List ℕ)
      (src dst i : ℕ) (e : ArpCache)
      → Answers env.host s p iface route message src dst i e
      → let dev = device_at s.devices.devices route.iface.dev in
        let packet =
          ip_packet env.host icmp_protocol message route.iface.unicast src s.sending.next_id 0 in
        (ip_send_packet env.host
          (transmit env)
          env.now
          (device_at s.devices.devices)
          s.tables.routes
          icmp_protocol
          message
          iface.unicast
          src
          s.sending).1
        ≡ (answered s dev
            (ether_frame env.host network_protocol_type_ip packet e.ha dev.address)).sending
  replied s p iface route message src dst i e a =
      let dev = device_at s.devices.devices route.iface.dev in
      let packet =
        ip_packet env.host icmp_protocol message route.iface.unicast src s.sending.next_id 0 in
      ap (λ r. r.1)
        (ip_send_packet-found env.host (transmit env) env.now (device_at s.devices.devices)
          s.tables.routes route icmp_protocol message iface.unicast src s.sending i e a.permitted
          a.needs_address a.cached a.known)
      ∙ ap (λ w. record s.sending { next_id = (s.sending.next_id + 1) % 65536; driver = w })
          (output_written env dev packet e.ha s.sending.driver a.needs_address.ethernet a.up
            (omega (
              arith,
              length-ip_packet env.host icmp_protocol message route.iface.unicast src
                  s.sending.next_id,
              ltb-false dev.mtu (min_ip_header_size + length message) a.permitted.fits,
            ))
            a.whole)

  handled_echo :
      (s : Stack O) (d : ℕ) (iface : Interface) (route : Route) (code values : ℕ)
      (content pad : List ℕ) (src dst id i : ℕ) (e : ArpCache)
      → let request = icmp_message env.host icmp_type_echo code values content in
        let reply = icmp_message env.host icmp_type_echoreply code values content in
        let p : Packet = record {
          dev = d;
          bytes = ip_packet env.host icmp_protocol request src dst id 0 ++ pad;
        } in
        Answers env.host s p iface route reply src dst i e
        → code < 256
        → values < 2 ^ 32
        → IsBytes content
        → min_ip_header_size + (icmp_hdr_size + length content) < 65536
        → src < 2 ^ 32
        → dst < 2 ^ 32
        → let dev = device_at s.devices.devices route.iface.dev in
          let packet =
            ip_packet env.host icmp_protocol reply route.iface.unicast src s.sending.next_id 0 in
          handle_packet env ip_handler p s
          ≡ answered s dev (ether_frame env.host network_protocol_type_ip packet e.ha dev.address)
  unfolding handle_packet deliver icmp_output
  handled_echo s d iface route code values content pad src dst id i e a c v b fits sb db =
      let request = icmp_message env.host icmp_type_echo code values content in
      let long = length-message env.host icmp_type_echo code values content in
      let came : ip_input env.host (device_at s.devices.devices d) s.ip_protocols
            (ip_packet env.host icmp_protocol request src dst id 0 ++ pad)
          ≡ some (
            icmp_handler,
            record {
              payload = request ++ pad;
              len = length request;
              src = src;
              dst = dst;
              iface = iface;
            },
          ) =
        ip_input-ip_packet env.host (device_at s.devices.devices d) s.ip_protocols icmp_protocol
          request pad src dst id iface icmp_handler (omega (arith, long)) (omega arith) sb db
          a.iface_is a.for_us a.registered in
      rw (came, handle_packet)
        (ap (λ w. record s { sending = w })
          (ap
              (λ n.
                icmp_input env.host (transmit env) env.now (device_at s.devices.devices)
                  s.tables.routes (request ++ pad) n src dst iface s.sending)
              long
            ∙ (icmp_input-echo env.host (transmit env) env.now (device_at s.devices.devices)
                s.tables.routes code values content pad src dst iface s.sending c v b
                (omega arith)).0
            ∙ replied s
                (record {
                  dev = d;
                  bytes = ip_packet env.host icmp_protocol request src dst id 0 ++ pad;
                })
                iface route (icmp_message env.host icmp_type_echoreply code values content) src dst
                i e a))

  -- An echo request that waits for IP, built as `ip_output_core` and `icmp_output` build one, perhaps padded, and
  -- addressed to the interface it came in by, is answered: the software interrupt ends, and one frame has been
  -- written, to the device of the route back, with the hardware address that the ARP cache has for the next hop;
  -- it carries the echo reply with the request's code, values and data, addressed to the sender. Nothing else
  -- has changed but the identification number, which is used up. The device is up and an Ethernet that needs ARP,
  -- the reply fits its MTU, the route back leads to an interface with the address that the reply is sent from,
  -- and nothing else is queued.
  pub ping_answered :
      (fuel : ℕ) (s : Stack O) (d : ℕ) (iface : Interface) (route : Route) (code values : ℕ)
      (content pad : List ℕ) (src dst id i : ℕ) (e : ArpCache)
      → let request = icmp_message env.host icmp_type_echo code values content in
        let reply = icmp_message env.host icmp_type_echoreply code values content in
        let p : Packet = record {
          dev = d;
          bytes = ip_packet env.host icmp_protocol request src dst id 0 ++ pad;
        } in
        s.sending.driver.protocols ≡ waiting (p ∷ [])
        → Answers env.host s p iface route reply src dst i e
        → code < 256
        → values < 2 ^ 32
        → IsBytes content
        → min_ip_header_size + (icmp_hdr_size + length content) < 65536
        → src < 2 ^ 32
        → dst < 2 ^ 32
        → let dev = device_at s.devices.devices route.iface.dev in
          let packet =
            ip_packet env.host icmp_protocol reply route.iface.unicast src s.sending.next_id 0 in
          soft_interrupt env (suc (suc fuel)) s
          ≡ some (
              answered
                (with_protocols (waiting []) s)
                dev
                (ether_frame env.host network_protocol_type_ip packet e.ha dev.address))
  unfolding with_protocols
  ping_answered fuel s d iface route code values content pad src dst id i e q a c v b fits sb db =
      let request = icmp_message env.host icmp_type_echo code values content in
      let p : Packet = record {
        dev = d;
        bytes = ip_packet env.host icmp_protocol request src dst id 0 ++ pad;
      } in
      let s0 = with_protocols (waiting []) s in
      let a0 : Answers env.host s0 p iface route
          (icmp_message env.host icmp_type_echoreply code values content) src dst i e =
        record {
          iface_is = a.iface_is;
          for_us = a.for_us;
          registered = a.registered;
          permitted = a.permitted;
          needs_address = a.needs_address;
          up = a.up;
          cached = a.cached;
          known = a.known;
          whole = a.whole;
        } in
      let handed =
        handled_echo s0 d iface route code values content pad src dst id i e a0 c v b fits sb db in
      interrupted_once env memory fuel p s q (ap (λ t. t.sending.driver.protocols) handed)
      ∙ ap (λ t. some (with_protocols (waiting []) t)) handed
