-- ===== src/App/Echo.antt =====
-- A client and the server of apps/udp_app.c on one machine: what is sent comes back.
use llnstack.Base.{
  ℕ, suc, ◌+◌, ◌^◌, ◌≤◌, ◌<◌, ◌≡◌, refl, ap, ◌∙◌, Bool, Option, some, List, [], ◌∷◌, ◌++◌, length,
  take, min, set, take_all, arith,
}
use llnstack.Util.Checksum.Residue.{IsBytes}
use llnstack.Ip.Text.{Endpoint}
use llnstack.Ip.Route.{Route}
use llnstack.Ip.Packet.{Sending, min_ip_header_size, ip_packet}
use llnstack.Ip.Packet.Output.{Permitted}
use llnstack.Udp.Pcb.{UdpPcb, Datagram, udp_pcb_select}
use llnstack.Udp.Datagram.{udp_protocol, udp_hdr_size, udp_message}
use llnstack.Udp.Datagram.RoundTrip.{delivered}
use llnstack.Udp.User.{Receiving, received, choose_source, udp_sendto, recv_start}
use llnstack.Udp.User.Delivery.{select-get, receive_one}
use llnstack.Sock.{Sock, datagram_desc, sock_recvfrom, sock_sendto}
use llnstack.Stack.{Env, Stack, Wire, device_at, transmit, soft_interrupt}
use llnstack.Stack.Loopback.{Plenty}
use llnstack.Stack.Datagram.{Loops, sent, arrived, came_up}
use llnstack.Stack.EndToEnd.{sendto_down}
use llnstack.App.{Round, goes_on, after_send, buf_size, answer, echo_round}

-- A datagram can go from the block `id` to the block `to` through the loopback device: the route leads
-- there, the source is chosen as `src` and the table of blocks is then `pcbs`, the destination is open and
-- has nothing queued, and the payload fits.
pub record Journey {O : Type 0} (env : Env O) (s : Stack O) (route : Route) (id to : ℕ)
    (src dst : Endpoint) (payload : List ℕ) (pcbs : List UdpPcb) : Type 0 where
  pub loops : Loops s route dst.address
  pub chosen : choose_source env.host s.tables.routes id dst s.pcbs ≡ (some src, pcbs)
  pub permitted :
      Permitted env.host
        (device_at s.devices.devices)
        s.tables.routes
        (udp_message env.host src dst payload)
        src.address
        dst.address
        route
  pub own : src.address ≡ route.iface.unicast
  pub src_address : src.address < 2 ^ 32
  pub dst_address : dst.address < 2 ^ 32
  pub src_port : src.port < 65536
  pub dst_port : dst.port < 65536
  pub bytes : IsBytes payload
  pub fits : min_ip_header_size + (udp_hdr_size + length payload) < 65536
  pub target : UdpPcb
  pub selected : udp_pcb_select dst.address dst.port pcbs ≡ some (to, target)
  pub empty : target.queue ≡ []

module _ {O : Type 0} (env : Env O) (memory : Plenty env) where
  -- The state that the software interrupt leaves.
  abbrev pub there : Stack O → Endpoint → Endpoint → List ℕ → List UdpPcb → Stack O
  there s src dst payload pcbs = arrived env memory (record s { pcbs = pcbs }) src dst payload

  -- `udp_sendto` in a state.
  abbrev pub send : ℕ → List ℕ → Endpoint → Stack O → Option ℕ × List UdpPcb × Sending (Wire O)
  send id payload dst s =
      udp_sendto env.host (transmit env) env.now (device_at s.devices.devices) s.tables.routes id
        payload dst (s.pcbs, s.sending)

  module _ (s : Stack O) (route : Route) (id to : ℕ) (src dst : Endpoint) (payload : List ℕ)
      (pcbs : List UdpPcb) (j : Journey env s route id to src dst payload pcbs) where
    pub down : send id payload dst s ≡ (
      some (length payload),
      pcbs,
      sent s (device_at s.devices.devices route.iface.dev) (
          ip_packet env.host udp_protocol
            (udp_message env.host src dst payload)
            route.iface.unicast
            dst.address
            s.sending.next_id
            0),
    )
    down =
        sendto_down env memory s route id src dst payload pcbs j.loops j.chosen j.permitted j.fits

    pub up :
        (fuel : ℕ)
        → soft_interrupt env
            (suc (suc fuel))
            (record s { pcbs = (send id payload dst s).1; sending = (send id payload dst s).2 })
          ≡ some (there s src dst payload pcbs)
    up fuel =
        let l = j.loops in
        let l' : Loops (record s { pcbs = pcbs }) route dst.address = record {
          kind = l.kind;
          up = l.up;
          no_arp = l.no_arp;
          index = l.index;
          iface = l.iface;
          for_us = l.for_us;
          idle = l.idle;
          registered = l.registered;
        } in
        rw down (
          came_up env memory (record s { pcbs = pcbs }) route src dst payload fuel l' j.own
            j.src_address j.dst_address j.src_port j.dst_port j.bytes j.fits)

    pub read :
        (size : ℕ)
        → recv_start to size (there s src dst payload pcbs).pcbs
          ≡ (received src (take (min size (length payload)) payload), pcbs)
    read size =
        let d : Datagram = record { foreign = src; bytes = payload } in
        let (here, is) = select-get dst.address dst.port pcbs to j.target j.selected in
        ap (λ r. recv_start to size (delivered r d pcbs)) j.selected
        ∙ ap (λ t. recv_start to size (set pcbs to (record j.target { queue = t ++ d ∷ [] })))
            j.empty
        ∙ receive_one size to j.target d pcbs here is j.empty

  -- The way back exists once the datagram has been read, if it existed before.
  pub still :
      (s : Stack O) (route : Route) (id to : ℕ) (src dst src' dst' : Endpoint)
      (payload payload' : List ℕ) (pcbs pcbs' : List UdpPcb)
      → Journey env (record s { pcbs = pcbs }) route id to src dst payload pcbs'
      → Journey env
          (record (there s src' dst' payload' pcbs) { pcbs = pcbs })
          route
          id
          to
          src
          dst
          payload
          pcbs'
  still s route id to src dst src' dst' payload payload' pcbs pcbs' j =
      let l = j.loops in
      record {
        loops = record {
          kind = l.kind;
          up = l.up;
          no_arp = l.no_arp;
          index = l.index;
          iface = l.iface;
          for_us = l.for_us;
          idle = refl;
          registered = l.registered;
        };
        chosen = j.chosen;
        permitted = j.permitted;
        own = j.own;
        src_address = j.src_address;
        dst_address = j.dst_address;
        src_port = j.src_port;
        dst_port = j.dst_port;
        bytes = j.bytes;
        fits = j.fits;
        target = j.target;
        selected = j.selected;
        empty = j.empty;
      }

  abbrev pub round : List Sock → ℕ → Bool → Stack O → Round × List UdpPcb × Sending (Wire O)
  round socks soc eintr s =
      echo_round env.host (transmit env) env.now (device_at s.devices.devices) s.tables.routes soc
        socks eintr (s.pcbs, s.sending)

  socket_received :
      (socks : List Sock) (soc to : ℕ) (pcbs : List UdpPcb)
      → datagram_desc soc socks ≡ some to
      → sock_recvfrom soc buf_size (socks, pcbs) ≡ recv_start to buf_size pcbs
  unfolding sock_recvfrom
  socket_received socks soc to pcbs d = rw (d, sock_recvfrom) refl

  pub socket_sent :
      (s : Stack O) (socks : List Sock) (soc to : ℕ) (payload : List ℕ) (dst : Endpoint)
      → datagram_desc soc socks ≡ some to
      → sock_sendto env.host
          (transmit env)
          env.now
          (device_at s.devices.devices)
          s.tables.routes
          soc
          payload
          dst
          socks
          (s.pcbs, s.sending)
        ≡ send to payload dst s
  unfolding sock_sendto
  socket_sent s socks soc to payload dst d = rw (d, sock_sendto) refl

  echoed :
      (s : Stack O) (socks : List Sock) (soc to : ℕ) (eintr : Bool) (src : Endpoint)
      (payload : List ℕ) (pcbs : List UdpPcb) (n : ℕ)
      → datagram_desc soc socks ≡ some to
      → recv_start to buf_size s.pcbs ≡ (received src payload, pcbs)
      → (send to payload src (record s { pcbs = pcbs })).0 ≡ some n
      → round socks soc eintr s ≡ (
        goes_on,
        (send to payload src (record s { pcbs = pcbs })).1,
        (send to payload src (record s { pcbs = pcbs })).2,
      )
  unfolding echo_round answer
  echoed s socks soc to eintr src payload pcbs n d r e =
      let s' = record s { pcbs = pcbs } in
      ap
        (λ (q : Receiving × List UdpPcb).
          answer env.host (transmit env) env.now (device_at s.devices.devices) s.tables.routes soc
            socks eintr q.0 (q.1, s.sending))
        (socket_received socks soc to s.pcbs d ∙ r)
      ∙ ap (λ (q : Option ℕ × List UdpPcb × Sending (Wire O)). (after_send q.0, q.1, q.2))
          (socket_sent s' socks soc to payload src d)
      ∙ ap (λ x. (after_send x, (send to payload src s').1, (send to payload src s').2)) e

  -- Where a datagram can go from a client's block to the one that the server's socket names, and from that
  -- back to the client, and the payload fits the server's buffer: the client's `udp_sendto`, the software
  -- interrupt, one round of the server's loop and the software interrupt again all end, and `udp_recvfrom`
  -- then gives the client the same payload, cut to its buffer, with the server as the sender.
  pub echo_returns :
      (s : Stack O) (route route' : Route) (client server : ℕ) (src dst src' : Endpoint)
      (payload : List ℕ) (pcbs pcbs' : List UdpPcb) (socks : List Sock) (soc : ℕ) (eintr : Bool)
      (fuel size : ℕ)
      → Journey env s route client server src dst payload pcbs
      → Journey env (record s { pcbs = pcbs }) route' server client src' src payload pcbs'
      → datagram_desc soc socks ≡ some server
      → length payload ≤ buf_size
      → let (n, p, w) = send client payload dst s in
        (t : Stack O) × (soft_interrupt env (suc (suc fuel)) (record s { pcbs = p; sending = w })
          ≡ some t)
        × (let (end, p', w') = round socks soc eintr t in
            (end ≡ goes_on)
            × (u : Stack O) × (soft_interrupt env
                  (suc (suc fuel))
                  (record t { pcbs = p'; sending = w' })
                ≡ some u)
            × (recv_start client size u.pcbs
                ≡ (received src' (take (min size (length payload)) payload), pcbs')))
  echo_returns s route route' client server src dst src' payload pcbs pcbs' socks soc eintr fuel
        size j k d fits =
      let t = there s src dst payload pcbs in
      let t' = record t { pcbs = pcbs } in
      let back : Journey env t' route' server client src' src payload pcbs' =
        still s route' server client src' src src dst payload payload pcbs pcbs' k in
      let got : recv_start server buf_size t.pcbs ≡ (received src payload, pcbs) =
        read s route client server src dst payload pcbs j buf_size
        ∙ ap (λ b. (received src b, pcbs))
            (take_all (min buf_size (length payload)) payload (omega arith)) in
      (
        t,
        up s route client server src dst payload pcbs j fuel,
        rw
            (echoed t socks soc server eintr src payload pcbs (length payload) d got
              (ap (λ r. r.0) (down t' route' server client src' src payload pcbs' back)))
            (
              refl,
              there t' src' src payload pcbs',
              up t' route' server client src' src payload pcbs' back fuel,
              read t' route' server client src' src payload pcbs' back size,
            ),
      )
