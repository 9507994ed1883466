-- ===== src/Tests/Ip.antt =====
-- The theorems on src/lib/ip.c and src/lib/icmp.c at concrete inputs.
use llnstack.Base.{
  ◌≤◌, ℕ, ◌^◌, ◌≡◌, ◌≢◌, ◌<◌, ◌⊎◌, refl, none, some, List, [], ◌∷◌, ◌++◌, All, set, length, arith,
}
use llnstack.Util.Endian.{little, big, hton16}
use llnstack.Util.Checksum.{cksum16, fold_carries, add_words}
use llnstack.Net.{network_device_get_interface, find_family}
use llnstack.Arp.Cache.{
  ArpCache, resolved, blank, arp_cache_alloc, alloc_from, arp_cache_select, select_from,
}
use llnstack.Arp.Message.{arp_request}
use llnstack.Arp.Resolve.{pending}
use llnstack.Ip.Text.Endpoints.{max_ip_endpoint_string_length}
use llnstack.Sock.{af_inet}
use llnstack.Sock.Text.{
  SockaddrIn, sockaddr_in_size, written, sockaddr_pton, sockaddr_ntop, sockaddr_round_trip,
}
use llnstack.Ip.Route.{Route, IpProtocol, ip_route_lookup, lookup_from, find_ip_protocol}
use llnstack.Ip.Route.Longest.{NoMatch, Best, ip_route_lookup_lem}
use llnstack.Ip.Packet.{Delivery, Sending, ip_input, ip_packet, ip_send_packet}
use llnstack.Ip.Packet.Input.{ip_input_underflow, ip_input-ip_packet}
use llnstack.Ip.Packet.Output.{Permitted, NeedsAddress, ip_send_packet-unresolved}
use llnstack.Tests.{Frames, keep_frame, now, iface, ethernet, devices, routes, peer}

abbrev protocols : List (IpProtocol ℕ)
protocols = record { type = 17; handler = 5 } ∷ []

abbrev greeting : List ℕ
greeting = 104 ∷ 105 ∷ []

ip_input-ip_packet_example :
    ip_input little ethernet protocols
      (ip_packet little 17 greeting peer 33685696 300 0 ++ (0 ∷ []))
    ≡ some (
      5,
      record { payload = greeting ++ (0 ∷ []); len = 2; src = peer; dst = 33685696; iface = iface },
    )
unfolding network_device_get_interface find_family find_ip_protocol
ip_input-ip_packet_example =
    ip_input-ip_packet little ethernet protocols 17 greeting (0 ∷ []) peer 33685696 300 iface 5
      (omega arith) (omega arith) (omega arith) (omega arith) refl refl refl

-- A header of five words with a total length of 0, to 192.0.2.2; its checksum is right.
abbrev empty_total : List ℕ
empty_total =
    69 ∷ 0 ∷ 0 ∷ 0 ∷ 0 ∷ 0 ∷ 0 ∷ 0 ∷ 255 ∷ 17 ∷ 55 ∷ 225 ∷ 192 ∷ 0 ∷ 2 ∷ 9 ∷ 192 ∷ 0 ∷ 2 ∷ 2 ∷ []

abbrev wrapped : Delivery
wrapped = record {
  payload = [];
  len = 18446744073709551596;
  src = peer;
  dst = 33685696;
  iface = iface;
}

wrapped_input : ip_input little ethernet protocols empty_total ≡ some (5, wrapped)
unfolding ip_input network_device_get_interface find_family find_ip_protocol cksum16 fold_carries
    add_words
wrapped_input = refl

ip_input_underflow_example : (2 ^ 63 < wrapped.len) × (length wrapped.payload < wrapped.len)
ip_input_underflow_example =
    ip_input_underflow little ethernet protocols empty_total 5 wrapped (omega arith) wrapped_input
      (omega arith)

ip_route_lookup_lem_example :
    ((ip_route_lookup little peer routes ≡ none) × All (NoMatch little peer) routes)
    ⊎ ((r : Route) × (ip_route_lookup little peer routes ≡ some r) × Best little peer routes r)
ip_route_lookup_lem_example = ip_route_lookup_lem little peer routes

sockaddr_round_trip_example :
    let n : SockaddrIn = record { sin_family = 2; sin_port = hton16 big 4001; sin_addr = peer } in
    ((2 ≡ af_inet)
      × (max_ip_endpoint_string_length ≤ 22)
      × (text : List ℕ) × (sockaddr_ntop big n 22 ≡ some text)
      × (sockaddr_pton big [] text sockaddr_in_size ≡ written n))
    ⊎ (((2 ≢ af_inet) ⊎ (22 < max_ip_endpoint_string_length)) × (sockaddr_ntop big n 22 ≡ none))
sockaddr_round_trip_example =
    sockaddr_round_trip big [] 2 peer 4001 22 (omega arith) (omega arith) (omega arith)

-- "1.2.3.4"
abbrev gateway : List ℕ
gateway = 49 ∷ 46 ∷ 50 ∷ 46 ∷ 51 ∷ 46 ∷ 52 ∷ []

abbrev route : Route
route = record { network = 131264; netmask = 16777215; nexthop = 0; iface = iface }

permitted : Permitted little devices routes greeting 0 peer route
unfolding ip_route_lookup lookup_from
permitted = record { no_broadcast_from_any = refl; lookup = refl; own_source = refl; fits = refl }

needs_address : NeedsAddress devices route peer
needs_address = record { arp = refl; ethernet = refl; family = refl; unicast = refl }

abbrev peer_entry : ArpCache
peer_entry = record {
  state = resolved;
  pa = peer;
  ha = 2 ∷ 0 ∷ 0 ∷ 0 ∷ 0 ∷ 9 ∷ [];
  timestamp = now;
}

abbrev unknowing : Sending Frames
unknowing = record { next_id = 300; caches = blank ∷ []; driver = [] }

ip_send_packet-unresolved_example :
    ip_send_packet little keep_frame now devices routes 17 greeting 0 peer unknowing ≡ (
      some (length greeting),
      record {
        next_id = 301;
        caches = set unknowing.caches 0 (pending now peer blank);
        driver = (arp_request little keep_frame ethernet iface peer []).1;
      },
    )
unfolding arp_cache_select select_from arp_cache_alloc alloc_from
ip_send_packet-unresolved_example =
    ip_send_packet-unresolved little keep_frame now devices routes route 17 greeting 0 peer
      unknowing 0 blank permitted needs_address refl refl
