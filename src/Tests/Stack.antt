-- ===== src/Tests/Stack.antt =====
-- The theorems on the stack as one state at concrete inputs: a machine whose only device is the loopback.
use llnstack.Base.{
  if◌then◌else◌, bit_and, ◌==◌, ℕ, suc, ◌≡◌, refl, ◌⊎◌, inl, inr, true, false, none, some, List, [],
  ◌∷◌, map, All, take, min, length, arith,
}
use llnstack.Util.Endian.{little}
use llnstack.Net.{
  ok, fail, Interface, Device, zero_device, is_up, network_device_get_interface, find_family,
}
use llnstack.Net.Timer.{Timeval}
use llnstack.Ip.Text.{Endpoint}
use llnstack.Ip.Route.{Route, ip_route_lookup, lookup_from, find_ip_protocol}
use llnstack.Ip.Packet.Output.{Permitted}
use llnstack.Udp.Pcb.{UdpPcb, open_, blank, udp_pcb_select, udp_pcb_get, select_from}
use llnstack.Udp.Datagram.{udp_message}
use llnstack.Udp.User.{
  choose_source, source_address, source_port, received, recv_start, udp_open, udp_sendto,
}
use llnstack.Udp.User.Steps.{opens}
use llnstack.Intr.{intr_request_irq, network_irq_shared}
use llnstack.Stack.{Env, Stack, tap_isr, device_at, transmit, soft_interrupt, with_protocols}
use llnstack.Stack.Datagram.{Loops}
use llnstack.Stack.EndToEnd.{sendto_recvfrom}
use llnstack.Stack.Start.{
  Room, Opens, open_device, network_init, network_run, network_shutdown, with_devices,
}
use llnstack.Stack.Start.Tables.{has_room, started, network_init_lem}
use llnstack.Stack.Start.UpDown.{shutdown-run}
use llnstack.Stack.Sound.{IsSound}
use llnstack.Stack.Sound.Reached.{IsStatic, Reached, start, next, calls, requests, Reached-IsSound}
use llnstack.Ip.Packet.{next_hop}
use llnstack.Sock.{Sock, datagram_desc}
use llnstack.App.{goes_on, setup}
use llnstack.App.Expected.{generous, static_storage, own, mask, gateway, interface_of, tap_device}
use llnstack.App.Setup.{setup_lem}
use llnstack.App.Echo.{Journey, send, round, echo_returns}
use llnstack.Tests.{now, peer}

-- Files are not used here; the state behind them is a number.
abbrev pub env : Env ℕ
env = record {
  host = little;
  alloc = true;
  alloc_link = true;
  now = now;
  write = λ dev frame n. (none, n);
}

-- 127.0.0.1/8 as a little-endian machine reads it.
abbrev local : Interface
local = record { dev = 0; family = 1; unicast = 16777343; netmask = 255; broadcast = 4294967167 }

abbrev loopback : Device
loopback = record zero_device { type = 1; mtu = 65535; flags = 17; interfaces = local ∷ [] }

abbrev pub route : Route
route = record { network = 127; netmask = 255; nexthop = 0; iface = local }

abbrev pub client : Endpoint
client = record { address = 16777343; port = 40963 }

abbrev pub server : Endpoint
server = record { address = 16777343; port = 1792 }

abbrev pub at : Endpoint → UdpPcb
at local = record blank { state = open_; local = local }

abbrev static : Stack ℕ
static = static_storage 0

abbrev static_lem : IsStatic static
static_lem = record {
  fresh = record { protocols = refl; ip_protocols = refl; timers = refl; events = refl };
  caches = refl;
  pcbs = refl;
  irqs = refl;
}

-- The client's block is 0, the server's 1.
abbrev pcbs : List UdpPcb
pcbs = at client ∷ at server ∷ []

abbrev pub machine : Stack ℕ
machine = record (started true now static) {
  devices = record { devices = loopback ∷ []; next_index = 1 };
  tables = record { ifaces = local ∷ []; routes = route ∷ [] };
  pcbs = pcbs;
}

abbrev pub greeting : List ℕ
greeting = 104 ∷ 105 ∷ []

looped : Loops machine route server.address
unfolding with_protocols device_at find_ip_protocol network_device_get_interface find_family
looped = record {
  kind = refl;
  up = refl;
  no_arp = refl;
  index = refl;
  iface = refl;
  for_us = refl;
  idle = refl;
  registered = refl;
}

chosen : choose_source little machine.tables.routes 0 server machine.pcbs ≡ (some client, pcbs)
unfolding with_protocols choose_source source_address source_port udp_pcb_get
chosen = refl

permitted :
    Permitted little
      (device_at machine.devices.devices)
      machine.tables.routes
      (udp_message little client server greeting)
      client.address
      server.address
      route
unfolding with_protocols device_at ip_route_lookup lookup_from udp_message
permitted = record { no_broadcast_from_any = refl; lookup = refl; own_source = refl; fits = refl }

selected : udp_pcb_select server.address server.port pcbs ≡ some (1, at server)
unfolding udp_pcb_select select_from
selected = refl

sendto_recvfrom_example :
    let (sent, pcbs', w) =
      udp_sendto little
        (transmit env)
        now
        (device_at machine.devices.devices)
        machine.tables.routes
        0
        greeting
        server
        (machine.pcbs, machine.sending) in
    (sent ≡ some (length greeting))
    × ((after : Stack ℕ) × (soft_interrupt env
            (suc (suc 8))
            (record machine { pcbs = pcbs'; sending = w })
          ≡ some after)
        × (recv_start 1 100 after.pcbs
            ≡ (received client (take (min 100 (length greeting)) greeting), pcbs)))
sendto_recvfrom_example =
    sendto_recvfrom env (refl, refl) machine route 0 1 client server greeting pcbs (at server) 8 100
      looped chosen permitted refl (omega arith) (omega arith) (omega arith) (omega arith)
      (omega arith, (omega arith, tt)) (omega arith) selected refl

abbrev room : Room
room = record {
  arp = true;
  arp_timer = true;
  ip = true;
  icmp = true;
  udp = true;
  udp_event = false;
}

network_init_lem_example :
    ((has_room room ≡ true)
      × (network_init room now static ≡ (ok, started false now static))
      × ((room' : Room) (now' : Timeval)
          → network_init room' now' (started false now static) ≡ (fail, started false now static)))
    ⊎ ((has_room room ≡ false) × ((network_init room now static).0 ≡ fail))
network_init_lem_example = network_init_lem room now static static_lem.fresh

initialised : network_init room now static ≡ (ok, started false now static)
initialised = elim network_init_lem_example [ inl (h, e, again) ↦ e | inr (h, e) ↦ absurd (cc) ]

-- A driver is registered for the signal 36, then the user opens a block.
abbrev with_driver : Stack ℕ
with_driver = record (started false now static) {
  irqs = (intr_request_irq true 36 tap_isr network_irq_shared 0 (started false now static).irqs).1;
}

abbrev with_block : Stack ℕ
with_block = record with_driver { pcbs = (udp_open with_driver.pcbs).1 }

abbrev run : Reached with_block
run =
    next with_driver with_block
      (next (started false now static) with_driver
        (start room now static (started false now static) static_lem initialised)
        (requests true 36 tap_isr network_irq_shared 0 (started false now static)))
      (calls with_driver (udp_open with_driver.pcbs).1 (opens with_driver.pcbs))

Reached-IsSound_example : IsSound with_block
Reached-IsSound_example = Reached-IsSound with_block run

-- A second device, down like the first.
abbrev two : Stack ℕ
two = record static {
  devices = record {
    devices = record loopback { flags = 16 } ∷ record zero_device { index = 1 } ∷ [];
    next_index = 2;
  };
}

-- A driver that sets the address of the device that it opens.
abbrev drive : Opens
drive dev = (some ok, record dev { address = 2 ∷ dev.address })

shutdown-run_example :
    let (status, s') = network_run 0 0 drive two in
    (status ≡ ok)
    × All (λ dev. is_up dev ≡ true) s'.devices.devices
    × (network_shutdown (λ dev. none) s' ≡ with_devices (map (λ dev. (drive dev).1)) two)
shutdown-run_example =
    shutdown-run drive (λ dev. none) two (refl, (refl, tt))
      (record { result = refl; flags = refl }, (record { result = refl; flags = refl }, tt))
      (λ dev. refl)

-- There and back between the two blocks.
forth : Journey env machine route 0 1 client server greeting pcbs
forth = record {
  loops = looped;
  chosen = chosen;
  permitted = permitted;
  own = refl;
  src_address = omega arith;
  dst_address = omega arith;
  src_port = omega arith;
  dst_port = omega arith;
  bytes = (omega arith, (omega arith, tt));
  fits = omega arith;
  target = at server;
  selected = selected;
  empty = refl;
}

back : Journey env (record machine { pcbs = pcbs }) route 1 0 server client greeting pcbs
unfolding with_protocols device_at find_ip_protocol network_device_get_interface find_family
    choose_source source_address source_port udp_pcb_get ip_route_lookup lookup_from udp_message
    udp_pcb_select select_from
back = record {
  loops = looped;
  chosen = refl;
  permitted = record {
    no_broadcast_from_any = refl;
    lookup = refl;
    own_source = refl;
    fits = refl;
  };
  own = refl;
  src_address = omega arith;
  dst_address = omega arith;
  src_port = omega arith;
  dst_port = omega arith;
  bytes = (omega arith, (omega arith, tt));
  fits = omega arith;
  target = at client;
  selected = refl;
  empty = refl;
}

-- The server's socket, 0, names the block 1.
abbrev socks : List Sock
socks = record { used = true; family = 2; type = 2; desc = some 1 } ∷ []

named : datagram_desc 0 socks ≡ some 1
unfolding datagram_desc
named = refl

echo_returns_example :
    let (n, p, w) = send env (refl, refl) 0 greeting server machine in
    (t : Stack ℕ) × (soft_interrupt env (suc (suc 8)) (record machine { pcbs = p; sending = w })
      ≡ some t)
    × (let (end, p', w') = round env (refl, refl) socks 0 false t in
        (end ≡ goes_on)
        × (u : Stack ℕ) × (soft_interrupt env (suc (suc 8)) (record t { pcbs = p'; sending = w' })
            ≡ some u)
        × (recv_start 0 100 u.pcbs
            ≡ (received server (take (min 100 (length greeting)) greeting), pcbs)))
echo_returns_example =
    echo_returns env (refl, refl) machine route route 0 1 client server server greeting pcbs pcbs
      socks 0 false 8 100 forth back named (omega arith)

abbrev open_tap : Opens
open_tap dev = (some ok, dev)

-- On the network of 192.0.2.2, 192.0.2.9.
setup_lem_example :
    let (status, t) = setup (generous little true true 34 now open_tap) static in
    (status ≡ ok)
    × (t.devices.devices ≡ open_device open_tap (tap_device little) ∷ [])
    × ((route : Route) × (ip_route_lookup little peer t.tables.routes ≡ some route)
        × (route.iface ≡ interface_of little)
        × (next_hop route peer ≡ (
            if bit_and peer (mask little) == bit_and (own little) (mask little)
            then peer
            else gateway little)))
setup_lem_example = setup_lem {O = ℕ} 0 little true true 34 now open_tap peer
