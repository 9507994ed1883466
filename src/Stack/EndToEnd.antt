-- ===== src/Stack/EndToEnd.antt =====
-- `udp_sendto`, the software interrupt and `udp_recvfrom` as one run on the loopback device.
use llnstack.Base.{
  ℕ, suc, ◌+◌, ◌^◌, ◌<◌, ◌≡◌, refl, ap, ◌∙◌, false, some, List, [], ◌∷◌, ◌++◌, length, take, min,
  set, ltb, arith,
}
use mathlib.Core.Path.{ap₂}
use llnstack.Util.Checksum.Residue.{IsBytes}
use llnstack.Ip.Text.{Endpoint}
use llnstack.Ip.Route.{Route}
use llnstack.Ip.Packet.{min_ip_header_size, ip_packet}
use llnstack.Ip.Packet.Output.{Permitted}
use llnstack.Udp.Pcb.{UdpPcb, udp_pcb_select}
use llnstack.Udp.Datagram.{udp_protocol, udp_hdr_size, udp_message, udp_output}
use llnstack.Udp.Datagram.RoundTrip.{delivered}
use llnstack.Udp.User.{received, choose_source, udp_sendto, recv_start}
use llnstack.Udp.User.Delivery.{select-get, receive_one}
use llnstack.Stack.{Env, Stack, device_at, transmit, soft_interrupt}
use llnstack.Stack.Loopback.{Plenty}
use llnstack.Stack.Datagram.{Loops, sent, arrived, ip_send_packet-looped, came_up}

module _ {O : Type 0} (env : Env O) (memory : Plenty env) where
  pub sendto_down :
      (s : Stack O) (route : Route) (id : ℕ) (src dst : Endpoint) (payload : List ℕ)
      (pcbs : List UdpPcb)
      → Loops s route dst.address
      → choose_source env.host s.tables.routes id dst s.pcbs ≡ (some src, pcbs)
      → Permitted env.host
          (device_at s.devices.devices)
          s.tables.routes
          (udp_message env.host src dst payload)
          src.address
          dst.address
          route
      → min_ip_header_size + (udp_hdr_size + length payload) < 65536
      → udp_sendto env.host
          (transmit env)
          env.now
          (device_at s.devices.devices)
          s.tables.routes
          id
          payload
          dst
          (s.pcbs, s.sending)
        ≡ (
          some (length payload),
          pcbs,
          sent s (device_at s.devices.devices route.iface.dev) (
              ip_packet env.host udp_protocol
                (udp_message env.host src dst payload)
                route.iface.unicast
                dst.address
                s.sending.next_id
                0),
        )
  unfolding udp_sendto udp_output
  sendto_down s route id src dst payload pcbs l chosen p size =
      let down =
        ip_send_packet-looped env memory s route src.address dst.address
          (udp_message env.host src dst payload) l p in
      let short : ltb 65507 (length payload) ≡ false = ground arith in
      rw (chosen, udp_sendto)
        (rw (short, udp_output)
          (rw down (
            ap₂ (λ a b. (some (length payload), a, b)) (ap (λ r. r.1) chosen)
              (ap (λ r. r.1) down))))

  -- A datagram that `udp_sendto` sends to an address of the loopback device itself, which is up, arrives:
  -- with the input queues empty before and memory at hand, the call returns the length of the payload,
  -- the software interrupt ends, and `udp_recvfrom` at the block that the destination selects, if nothing
  -- was queued there, returns the source that was chosen and the payload, cut to the buffer. The table is
  -- then as the choice of the source left it.
  pub sendto_recvfrom :
      (s : Stack O) (route : Route) (id to : ℕ) (src dst : Endpoint) (payload : List ℕ)
      (pcbs : List UdpPcb) (x : UdpPcb) (fuel size : ℕ)
      → Loops s route dst.address
      → choose_source env.host s.tables.routes id dst s.pcbs ≡ (some src, pcbs)
      → Permitted env.host
          (device_at s.devices.devices)
          s.tables.routes
          (udp_message env.host src dst payload)
          src.address
          dst.address
          route
      → src.address ≡ route.iface.unicast
      → src.address < 2 ^ 32
      → dst.address < 2 ^ 32
      → src.port < 65536
      → dst.port < 65536
      → IsBytes payload
      → min_ip_header_size + (udp_hdr_size + length payload) < 65536
      → udp_pcb_select dst.address dst.port pcbs ≡ some (to, x)
      → x.queue ≡ []
      → let (sent, pcbs', w) =
          udp_sendto env.host
            (transmit env)
            env.now
            (device_at s.devices.devices)
            s.tables.routes
            id
            payload
            dst
            (s.pcbs, s.sending) in
        (sent ≡ some (length payload))
        × ((after : Stack O) × (soft_interrupt env
                (suc (suc fuel))
                (record s { pcbs = pcbs'; sending = w })
              ≡ some after)
            × (recv_start to size after.pcbs
                ≡ (received src (take (min size (length payload)) payload), pcbs)))
  sendto_recvfrom s route id to src dst payload pcbs x fuel size l chosen p own sb db sp dp bytes
        fits at q =
      let s' = record s { pcbs = pcbs } in
      let l' : Loops s' route dst.address = record {
        kind = l.kind;
        up = l.up;
        no_arp = l.no_arp;
        index = l.index;
        iface = l.iface;
        for_us = l.for_us;
        idle = l.idle;
        registered = l.registered;
      } in
      let (there, is) = select-get dst.address dst.port pcbs to x at in
      rw (sendto_down s route id src dst payload pcbs l chosen p fits) (
        refl,
        (
          arrived env memory s' src dst payload,
          came_up env memory s' route src dst payload fuel l' own sb db sp dp bytes fits,
          ap
                (λ r.
                  recv_start to size (delivered r (record { foreign = src; bytes = payload }) pcbs))
                at
              ∙ ap
                  (λ t. recv_start to size (
                    set pcbs to
                      (record x { queue = t ++ record { foreign = src; bytes = payload } ∷ [] })))
                  q
              ∙ receive_one size to x (record { foreign = src; bytes = payload }) pcbs there is q,
        ),
      )
