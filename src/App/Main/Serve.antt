-- ===== src/App/Main/Serve.antt =====
-- A server that waits for a datagram answers the one that comes.
use llnstack.Base.{
  ℕ, zero, suc, ◌-◌, ◌≤◌, ◌≡◌, refl, sym, ap, ◌∙◌, Bool, true, false, Option, some, List, [], ◌∷◌,
  ◌++◌, length, min, take, take_all, get_elem?, set, arith,
}
use llnstack.Net.{Device, Status}
use llnstack.Sched.{SchedCtx, sleep_end}
use llnstack.Ip.Text.{Endpoint}
use llnstack.Ip.Route.{Route}
use llnstack.Ip.Packet.{Sending}
use llnstack.Udp.Pcb.{UdpPcb, Datagram, is_open, is_closing}
use llnstack.Udp.Datagram.RoundTrip.{delivered}
use llnstack.Udp.User.{Receiving, received, recv_start, recv_loop, recv_resume}
use llnstack.Udp.User.Receive.{set_self}
use llnstack.Udp.User.Delivery.{select-get, with_one}
use llnstack.Sock.{datagram_desc}
use llnstack.Stack.{Wire, Env, Stack, device_at, transmit, soft_interrupt}
use llnstack.Stack.Loopback.{Plenty}
use llnstack.App.{after_send, buf_size, answer}
use llnstack.App.Echo.{Journey, send, there, down, up, read, still, socket_sent}
use llnstack.App.Main.{Server, testing, is_interrupted, after_round, resume}

set_twice : (pcbs : List UdpPcb) (i : ℕ) (y z : UdpPcb) → set (set pcbs i y) i z ≡ set pcbs i z
set_twice [] i y z = refl
set_twice (w ∷ rest) zero y z = refl
set_twice (w ∷ rest) (suc i) y z = ap (λ r. w ∷ r) (set_twice rest i y z)

-- The block of a thread that has left the wait.
abbrev pub one_less : UdpPcb → UdpPcb
one_less x = record x { ctx = record x.ctx { wc = x.ctx.wc - 1 } }

not_closing : (x : UdpPcb) → is_open x.state ≡ true → is_closing x.state ≡ false
not_closing x o = ground arith

left_end :
    (waited : ℕ) (ctx : SchedCtx)
    → ctx.interrupted ≡ false
    → sleep_end waited ctx ≡ (some waited, record ctx { wc = ctx.wc - 1 })
unfolding sleep_end
left_end waited ctx i = rw (i, sleep_end) refl

-- A thread that waits at a block finds what has been queued there.
resumed_one :
    (destroyed : Option ℕ) (waited size id : ℕ) (x : UdpPcb) (d : Datagram) (pcbs : List UdpPcb)
    → get_elem? pcbs id ≡ some x
    → is_open x.state ≡ true
    → x.queue ≡ []
    → x.ctx.interrupted ≡ false
    → recv_resume destroyed waited id size (set pcbs id (with_one x d))
      ≡ (received d.foreign (take (min size (length d.bytes)) d.bytes), set pcbs id (one_less x))
unfolding recv_resume recv_loop
resumed_one destroyed waited size id x d pcbs at is q i =
    rw
      (set_self pcbs id x (with_one x d) at, left_end waited x.ctx i, not_closing x is, recv_resume)
      (ap (λ r. (received d.foreign (take (min size (length d.bytes)) d.bytes), r))
        (set_twice (set pcbs id (with_one x d)) id _ _
          ∙ set_twice pcbs id (with_one x d) _
          ∙ ap (λ l. set pcbs id (record (one_less x) { queue = l })) (sym q)))

module _ {O : Type 0} (env : Env O) (memory : Plenty env) where
  -- The datagram that came up is what the waiting call returns.
  read_resumed :
      (s : Stack O) (route : Route) (id to : ℕ) (src dst : Endpoint) (payload : List ℕ)
      (pcbs : List UdpPcb) (j : Journey env s route id to src dst payload pcbs)
      (destroyed : Option ℕ) (waited size : ℕ)
      → j.target.ctx.interrupted ≡ false
      → recv_resume destroyed waited to size (there env memory s src dst payload pcbs).pcbs
        ≡ (received src (take (min size (length payload)) payload), set pcbs to (one_less j.target))
  read_resumed s route id to src dst payload pcbs j destroyed waited size i =
      let d : Datagram = record { foreign = src; bytes = payload } in
      let (here, is) = select-get dst.address dst.port pcbs to j.target j.selected in
      ap (λ r. recv_resume destroyed waited to size (delivered r d pcbs)) j.selected
      ∙ ap
          (λ t.
            recv_resume destroyed waited to size
              (set pcbs to (record j.target { queue = t ++ d ∷ [] })))
          j.empty
      ∙ resumed_one destroyed waited size to j.target d pcbs here is j.empty i

  module _ (destroyed : Option ℕ) (close : Device → Option Status) where
    -- What the server does with a datagram that the waiting call returns, when it can be sent back.
    answered_one :
        (stale : Bool) (waited n : ℕ) (v : Server O) (d : ℕ) (src : Endpoint) (payload : List ℕ)
        (pcbs : List UdpPcb)
        → datagram_desc v.soc v.socks ≡ some d
        → recv_resume destroyed waited d buf_size v.stack.pcbs ≡ (received src payload, pcbs)
        → (send env memory d payload src (record v.stack { pcbs = pcbs })).0 ≡ some n
        → let (size, p, w) = send env memory d payload src (record v.stack { pcbs = pcbs }) in
          resume env destroyed close stale waited v
          ≡ record v { stack = record v.stack { pcbs = p; sending = w }; phase = testing }
    unfolding resume answer after_round
    answered_one stale waited n v d src payload pcbs desc got e =
        let s' = record v.stack { pcbs = pcbs } in
        rw (desc, resume)
          (ap
              (λ (q : Receiving × List UdpPcb). after_round env destroyed close v (
                answer env.host (transmit env) env.now (device_at v.stack.devices.devices)
                  v.stack.tables.routes v.soc v.socks
                  (is_interrupted stale (get_elem? v.stack.pcbs d)) q.0 (q.1, v.stack.sending)))
              got
            ∙ ap
                (λ (q : Option ℕ × List UdpPcb × Sending (Wire O)).
                  after_round env destroyed close v (after_send q.0, q.1, q.2))
                (socket_sent env memory s' v.socks v.soc d payload src desc)
            ∙ ap
                (λ x. after_round env destroyed close v (
                  after_send x,
                  (send env memory d payload src s').1,
                  (send env memory d payload src s').2,
                ))
                e)

    -- A server that waits in `sock_recvfrom`, not interrupted, on a machine where a datagram can go from a
    -- client's block to the one that the server's socket names, and, once that block has one thread less in the
    -- wait, from it back to the client, and the payload fits the server's buffer: the client's `udp_sendto` and
    -- the software interrupt end, the server, when the wait returns, comes to the test of its loop, the software
    -- interrupt again ends, and `udp_recvfrom` then gives the client the same payload, cut to its buffer, with
    -- the server as the sender.
    pub waiting_server_answers :
        (stale : Bool) (v : Server O) (route route' : Route) (client server : ℕ)
        (src dst src' : Endpoint) (payload : List ℕ) (pcbs pcbs' : List UdpPcb)
        (waited fuel size : ℕ) (j : Journey env v.stack route client server src dst payload pcbs)
        → Journey env
            (record v.stack { pcbs = set pcbs server (one_less j.target) })
            route'
            server
            client
            src'
            src
            payload
            pcbs'
        → j.target.ctx.interrupted ≡ false
        → datagram_desc v.soc v.socks ≡ some server
        → length payload ≤ buf_size
        → let (n, p, w) = send env memory client payload dst v.stack in
          (t : Stack O) × (soft_interrupt env
              (suc (suc fuel))
              (record v.stack { pcbs = p; sending = w })
            ≡ some t)
          × (let v' = resume env destroyed close stale waited (record v { stack = t }) in
              (v'.phase ≡ testing)
              × (u : Stack O) × (soft_interrupt env (suc (suc fuel)) v'.stack ≡ some u)
              × (recv_start client size u.pcbs
                  ≡ (received src' (take (min size (length payload)) payload), pcbs')))
    waiting_server_answers stale v route route' client server src dst src' payload pcbs pcbs' waited
          fuel size j k i desc fits =
        let s = v.stack in
        let woken = set pcbs server (one_less j.target) in
        let t = there env memory s src dst payload pcbs in
        let t' = record t { pcbs = woken } in
        let back : Journey env t' route' server client src' src payload pcbs' =
          still env memory s route' server client src' src src dst payload payload woken pcbs' k in
        let got : recv_resume destroyed waited server buf_size t.pcbs
            ≡ (received src payload, woken) =
          read_resumed s route client server src dst payload pcbs j destroyed waited buf_size i
          ∙ ap (λ b. (received src b, woken))
              (take_all (min buf_size (length payload)) payload (omega arith)) in
        (
          t,
          up env memory s route client server src dst payload pcbs j fuel,
          rw
              (answered_one stale waited (length payload) (record v { stack = t }) server src
                payload woken desc got
                (ap (λ r. r.0)
                  (down env memory t' route' server client src' src payload pcbs' back)))
              (
                refl,
                there env memory t' src' src payload pcbs',
                up env memory t' route' server client src' src payload pcbs' back fuel,
                read env memory t' route' server client src' src payload pcbs' back size,
              ),
        )
