-- ===== src/Tests/Ping.antt =====
-- The theorems that an echo request is answered, on the software interrupt and the protocol table, and on the
-- dump of a request, at a concrete machine.
use llnstack.Base.{
  ℕ, suc, ◌≡◌, ◌≢◌, ◌⊎◌, none, refl, true, false, some, List, [], ◌∷◌, length, ◌&&◌, ◌==◌, ◌!=◌,
  if◌then◌else◌, arith,
}
use llnstack.Util.Endian.{little, load16}
use llnstack.Util.Checksum.{cksum16}
use llnstack.Net.{ok, fail, network_protocol_type_ip, network_device_get_interface, find_family}
use llnstack.Arp.Cache.{ArpCache, resolved, blank, arp_cache_select, select_from}
use llnstack.Ip.Route.{Route, ip_route_lookup, lookup_from, find_ip_protocol}
use llnstack.Ip.Packet.{ip_packet}
use llnstack.Icmp.{icmp_protocol, icmp_type_echo, icmp_type_echoreply, icmp_message}
use llnstack.Ether.{ether_frame, padded}
use llnstack.Driver.{Poll, idle, ready}
use llnstack.Intr.{sigusr1}
use llnstack.Stack.{Env, Stack, tap_isr, ip_handler, device_at, with_protocols, soft_interrupt}
use llnstack.Net.Protocol.{Packet, find_protocol, network_protocol_register}
use llnstack.Net.Protocol.Table.{DistinctTypes, network_protocol_register_lem}
use llnstack.Arp.Cache.Select.{Distinct}
use llnstack.Stack.Sound.{table}
use llnstack.Stack.Sound.Ends.{NoLoopback, Quiet, handle_ip, handle_arp, soft_interrupt_ends}
use llnstack.Stack.Signals.{intr_thread}
use llnstack.Stack.Start.Tables.{started}
use llnstack.Stack.Loopback.{waiting}
use llnstack.Stack.Ping.{Answers, answered}
use llnstack.Stack.Ping.Frame.{Listens, holding, frame_answered}
use llnstack.App.Expected.{static_storage}
use llnstack.Dump.Icmp.{green, red, checksum_color}
use llnstack.Dump.Colour.{checksum_color_lem}
use llnstack.Tests.{now, iface, ethernet, peer, Frames}

-- What is written is kept.
abbrev env : Env Frames
env = record {
  host = little;
  alloc = true;
  alloc_link = true;
  now = now;
  write = λ dev frame s. (some (length frame), frame ∷ s);
}

abbrev route : Route
route = record { network = 131264; netmask = 16777215; nexthop = 0; iface = iface }

abbrev peer_entry : ArpCache
peer_entry = record {
  state = resolved;
  pa = peer;
  ha = 2 ∷ 0 ∷ 0 ∷ 0 ∷ 0 ∷ 9 ∷ [];
  timestamp = now;
}

abbrev machine : Stack Frames
machine = record (started true now (static_storage [])) {
  devices = record { devices = ethernet ∷ []; next_index = 1 };
  tables = record { ifaces = iface ∷ []; routes = route ∷ [] };
  sending = record {
    next_id = 300;
    caches = blank ∷ peer_entry ∷ [];
    driver = record { protocols = waiting []; pending = false; os = [] };
  };
  irqs = record {
    irq_vec = record { irq = 36; handler = tap_isr; flags = 1; dev = 0 } ∷ [];
    sigmask = 36 ∷ [];
  };
}

abbrev content : List ℕ
content = 112 ∷ 105 ∷ 110 ∷ 103 ∷ []

abbrev request : List ℕ
request = icmp_message little icmp_type_echo 0 16777473 content

abbrev reply : List ℕ
reply = icmp_message little icmp_type_echoreply 0 16777473 content

-- From 192.0.2.9 to 192.0.2.2.
abbrev packet : List ℕ
packet = ip_packet little icmp_protocol request peer iface.unicast 77 0

abbrev polls : ℕ → List Poll
polls d =
    ready (some (ether_frame little network_protocol_type_ip packet ethernet.address peer_entry.ha))
    ∷ idle
    ∷ []

listens : Listens env (refl, refl) machine 0 36 1
unfolding device_at with_protocols
listens = record {
  index = refl;
  address = refl;
  installed = refl;
  user_signal = omega arith;
  idle_queues = refl;
  idle_signal = refl;
}

answers :
    Answers little machine
      (record { dev = 0; bytes = padded packet })
      iface
      route
      reply
      peer
      iface.unicast
      1
      peer_entry
unfolding device_at with_protocols network_device_get_interface find_family find_ip_protocol
    ip_route_lookup lookup_from arp_cache_select select_from icmp_message
answers = record {
  iface_is = refl;
  for_us = refl;
  registered = refl;
  permitted = record {
    no_broadcast_from_any = refl;
    lookup = refl;
    own_source = refl;
    fits = refl;
  };
  needs_address = record { arp = refl; ethernet = refl; family = refl; unicast = refl };
  up = refl;
  cached = refl;
  known = refl;
  whole = refl;
}

frame_answered_example :
    let out = device_at machine.devices.devices 0 in
    let back = ip_packet little icmp_protocol reply iface.unicast peer machine.sending.next_id 0 in
    let waits = holding env (refl, refl) true machine (record { dev = 0; bytes = padded packet }) in
    (intr_thread env (suc (suc 4)) polls 36 machine ≡ some waits)
    × (intr_thread env (suc (suc 4)) polls sigusr1 waits
        ≡ some (
            answered env
              (refl, refl)
              machine
              out
              (ether_frame little network_protocol_type_ip back peer_entry.ha out.address)))
unfolding device_at with_protocols
frame_answered_example =
    frame_answered env (refl, refl) 4 polls machine 0 36 1 iface route 0 16777473 content
      peer_entry.ha peer iface.unicast 77 1 peer_entry listens refl refl answers (omega arith)
      (omega arith) (omega arith, (omega arith, (omega arith, (omega arith, tt)))) (omega arith)
      (omega arith) (omega arith)

-- A request of no data with a wrong checksum.
checksum_color_lem_example : checksum_color little (8 ∷ 0 ∷ 1 ∷ 2 ∷ []) 4 ≡ (
    if (cksum16 little (8 ∷ 0 ∷ 1 ∷ 2 ∷ []) 4 0 == 0) && (load16 little 1 2 != 65535)
    then green
    else red)
checksum_color_lem_example =
    checksum_color_lem little 8 0 1 2 []
      (omega arith, (omega arith, (omega arith, (omega arith, tt)))) (omega arith) (omega arith)

-- The request waits, and a message that is too short for ARP.
abbrev waits_ip : List Packet
waits_ip = record { dev = 0; bytes = padded packet } ∷ []

abbrev waits_arp : List Packet
waits_arp = record { dev = 0; bytes = 1 ∷ [] } ∷ []

abbrev busy : Stack Frames
unfolding with_protocols
busy = with_protocols (table waits_ip waits_arp) machine

no_loopback : (i : ℕ) → NoLoopback (device_at busy.devices.devices i)
unfolding device_at with_protocols
no_loopback i = ground arith

one_entry : Distinct busy.sending.caches
unfolding with_protocols
one_entry = ground arith

quiet : Quiet busy (table waits_ip waits_arp)
unfolding with_protocols
quiet = record { caches = one_entry; devices = no_loopback; queued = refl }

soft_interrupt_ends_example :
    (t : Stack Frames) × (soft_interrupt env 2 busy ≡ some t)
    × (t
        ≡ with_protocols
            (table [] [])
            (handle_arp env waits_arp (handle_ip env waits_ip waits_arp busy)))
soft_interrupt_ends_example =
    soft_interrupt_ends env waits_ip waits_arp 2 busy (omega arith) (omega arith) quiet

both_types : DistinctTypes (table [] [])
unfolding find_protocol
both_types = (refl, (refl, tt))

-- IPv6 is registered beside the two.
network_protocol_register_lem_example :
    let (status, protocols') = network_protocol_register true 34525 ip_handler (table [] []) in
    DistinctTypes protocols'
    × (((status ≡ ok)
          × (find_protocol 34525 (table [] []) ≡ none)
          × (true ≡ true)
          × ((t : ℕ)
              → find_protocol t protocols' ≡ (
                  if 34525 == t
                  then some (record { type = 34525; queue = []; handler = ip_handler })
                  else find_protocol t (table [] []))))
        ⊎ ((status ≡ fail)
            × (protocols' ≡ table [] [])
            × ((find_protocol 34525 (table [] []) ≢ none) ⊎ (true ≡ false))))
network_protocol_register_lem_example =
    network_protocol_register_lem true 34525 ip_handler (table [] []) both_types
