-- ===== src/Tests/Serve.antt =====
-- A server that waits, on the machine whose only device is the loopback.
use llnstack.Base.{
  ℕ, suc, ◌≡◌, refl, true, false, none, some, List, [], ◌∷◌, take, min, set, length, arith,
}
use llnstack.Net.{network_device_get_interface, find_family}
use llnstack.Ip.Route.{ip_route_lookup, lookup_from, find_ip_protocol}
use llnstack.Udp.Pcb.{UdpPcb, udp_pcb_select, udp_pcb_get, select_from}
use llnstack.Udp.Datagram.{udp_message}
use llnstack.Udp.User.{choose_source, source_address, source_port, received, recv_start}
use llnstack.Sock.{datagram_desc}
use llnstack.Stack.{Stack, device_at, soft_interrupt, with_protocols}
use llnstack.App.Echo.{Journey, send}
use llnstack.App.Main.{Server, testing, sleeping, resume}
use llnstack.App.Main.Serve.{one_less, waiting_server_answers}
use llnstack.Tests.Stack.{env, at, client, server, route, machine, greeting}

-- One thread waits at the server's block.
abbrev waits : UdpPcb
waits = record (at server) { ctx = record { interrupted = false; wc = 1 } }

abbrev blocks : List UdpPcb
blocks = at client ∷ waits ∷ []

abbrev asleep : Server ℕ
asleep = record {
  stack = record machine { pcbs = blocks };
  socks = record { used = true; family = 2; type = 2; desc = some 1 } ∷ [];
  soc = 0;
  terminate = false;
  phase = sleeping;
}

abbrev left : List UdpPcb
left = at client ∷ one_less waits ∷ []

forth : Journey env asleep.stack route 0 1 client server greeting blocks
unfolding with_protocols device_at find_ip_protocol network_device_get_interface find_family
    choose_source source_address source_port udp_pcb_get ip_route_lookup lookup_from udp_message
    udp_pcb_select select_from
forth = record {
  loops = record {
    kind = refl;
    up = refl;
    no_arp = refl;
    index = refl;
    iface = refl;
    for_us = refl;
    idle = refl;
    registered = refl;
  };
  chosen = refl;
  permitted = record {
    no_broadcast_from_any = refl;
    lookup = refl;
    own_source = refl;
    fits = refl;
  };
  own = refl;
  src_address = omega arith;
  dst_address = omega arith;
  src_port = omega arith;
  dst_port = omega arith;
  bytes = (omega arith, (omega arith, tt));
  fits = omega arith;
  target = waits;
  selected = refl;
  empty = refl;
}

back :
    Journey env
      (record asleep.stack { pcbs = set blocks 1 (one_less forth.target) })
      route
      1
      0
      server
      client
      greeting
      left
unfolding with_protocols device_at find_ip_protocol network_device_get_interface find_family
    choose_source source_address source_port udp_pcb_get ip_route_lookup lookup_from udp_message
    udp_pcb_select select_from forth
back = record {
  loops = record {
    kind = refl;
    up = refl;
    no_arp = refl;
    index = refl;
    iface = refl;
    for_us = refl;
    idle = refl;
    registered = refl;
  };
  chosen = refl;
  permitted = record {
    no_broadcast_from_any = refl;
    lookup = refl;
    own_source = refl;
    fits = refl;
  };
  own = refl;
  src_address = omega arith;
  dst_address = omega arith;
  src_port = omega arith;
  dst_port = omega arith;
  bytes = (omega arith, (omega arith, tt));
  fits = omega arith;
  target = at client;
  selected = refl;
  empty = refl;
}

calm : forth.target.ctx.interrupted ≡ false
unfolding forth
calm = refl

named : datagram_desc asleep.soc asleep.socks ≡ some 1
unfolding datagram_desc
named = refl

waiting_server_answers_example :
    let (n, p, w) = send env (refl, refl) 0 greeting server asleep.stack in
    (t : Stack ℕ) × (soft_interrupt env
        (suc (suc 8))
        (record asleep.stack { pcbs = p; sending = w })
      ≡ some t)
    × (let v' = resume env (some 0) (λ dev. none) true 0 (record asleep { stack = t }) in
        (v'.phase ≡ testing)
        × (u : Stack ℕ) × (soft_interrupt env (suc (suc 8)) v'.stack ≡ some u)
        × (recv_start 0 100 u.pcbs
            ≡ (received server (take (min 100 (length greeting)) greeting), left)))
waiting_server_answers_example =
    waiting_server_answers env (refl, refl) (some 0) (λ dev. none) true asleep route route 0 1
      client server server greeting blocks left 0 8 100 forth back calm named (omega arith)
