-- ===== src/Ip/Packet/Output.antt =====
-- What `ip_send_packet` of src/lib/ip.c hands to the device, by the state of the ARP cache.
use llnstack.Base.{
  ℕ, ◌+◌, ◌%◌, ◌≡◌, refl, ap, ◌∙◌, true, false, ◌&&◌, ◌||◌, none, some, List, length, take, set,
  replicate, ltb, ◌==◌, ◌!=◌, arith,
}
use llnstack.Util.Endian.{Host}
use llnstack.Util.Packed.{copy_into}
use llnstack.Net.{
  Status, ok, fail, Interface, Device, need_arp, Transmit, network_interface_family_ip,
  network_device_type_ethernet, network_protocol_type_ip, network_device_output,
}
use llnstack.Net.Timer.{Timeval}
use llnstack.Arp.Cache.{ArpCache, is_incomplete, arp_cache_alloc, arp_cache_select, ether_addr_len}
use llnstack.Arp.Message.{arp_request}
use llnstack.Arp.Resolve.{unresolved, found, arp_resolve, pending}
use llnstack.Ip.Route.{Route, ip_addr_any, ip_addr_broadcast, ip_route_lookup}
use llnstack.Ip.Packet.{
  Size, of_status, Sending, next_hop, network_device_addr_len, min_ip_header_size, ip_packet,
  output_to, output_resolved, ip_output_device, ip_output_core, ip_generate_id, send_by,
  ip_send_packet,
}

-- The tests of `ip_send_packet` that let a packet through, with the route it takes.
pub record Permitted (h : Host) (device : ℕ → Device) (routes : List Route) (payload : List ℕ)
    (src dst : ℕ) (route : Route) : Type 0 where
  pub no_broadcast_from_any : ((src == ip_addr_any) && (dst == ip_addr_broadcast)) ≡ false
  pub lookup : ip_route_lookup h dst routes ≡ some route
  pub own_source : ((src != ip_addr_any) && (src != route.iface.unicast)) ≡ false
  pub fits : ltb (device route.iface.dev).mtu (min_ip_header_size + length payload) ≡ false

-- The next hop needs a hardware address: the device is an Ethernet, and it is no broadcast.
pub record NeedsAddress (device : ℕ → Device) (route : Route) (dst : ℕ) : Type 0 where
  pub arp : need_arp (device route.iface.dev) ≡ true
  pub ethernet : (device route.iface.dev).type ≡ network_device_type_ethernet
  pub family : route.iface.family ≡ network_interface_family_ip
  pub unicast :
      ((next_hop route dst == route.iface.broadcast) || (next_hop route dst == ip_addr_broadcast))
      ≡ false

-- The size that is reported for what the device says.
abbrev pub if_ok : Status → ℕ → Size
if_ok ok n = some n
if_ok fail n = none

module _ {S : Type 0} (h : Host) (transmit : Transmit S) (now : Timeval) (device : ℕ → Device) where
  ip_send_packet-Permitted :
      (routes : List Route) (route : Route) (protocol : ℕ) (payload : List ℕ) (src dst : ℕ)
      (w : Sending S)
      → Permitted h device routes payload src dst route
      → ip_send_packet h transmit now device routes protocol payload src dst w
        ≡ send_by h transmit now device route protocol payload dst w
  unfolding ip_send_packet
  ip_send_packet-Permitted routes route protocol payload src dst w p =
      rw (p.no_broadcast_from_any, p.lookup, p.own_source, p.fits, ip_send_packet) refl

  resolved_output :
      (route : Route) (packet : List ℕ) (dst : ℕ) (caches : List ArpCache) (s : S)
      → NeedsAddress device route dst
      → ip_output_device h transmit now device route.iface packet (next_hop route dst) (caches, s)
        ≡ output_resolved h transmit now device (device route.iface.dev) packet (
            arp_resolve h transmit now
              (device route.iface.dev)
              route.iface
              (next_hop route dst)
              (caches, s))
  unfolding ip_output_device
  resolved_output route packet dst caches s n = rw (n.arp, n.unicast, ip_output_device) refl

  resolve_cached :
      (dev : Device) (iface : Interface) (pa : ℕ) (caches : List ArpCache) (s : S) (j : ℕ)
      (e : ArpCache)
      → dev.type ≡ network_device_type_ethernet
      → iface.family ≡ network_interface_family_ip
      → arp_cache_select pa caches ≡ some (j, e)
      → is_incomplete e.state ≡ false
      → arp_resolve h transmit now dev iface pa (caches, s)
        ≡ (found (take ether_addr_len e.ha), caches, s)
  unfolding arp_resolve
  resolve_cached dev iface pa caches s j e ty fa se inc = rw (se, inc, arp_resolve) (ground arith)

  resolve_missing :
      (dev : Device) (iface : Interface) (pa : ℕ) (caches : List ArpCache) (s : S) (i : ℕ)
      (x : ArpCache)
      → dev.type ≡ network_device_type_ethernet
      → iface.family ≡ network_interface_family_ip
      → arp_cache_select pa caches ≡ none
      → arp_cache_alloc caches ≡ some (i, x)
      → arp_resolve h transmit now dev iface pa (caches, s)
        ≡ (unresolved, set caches i (pending now pa x), (arp_request h transmit dev iface pa s).1)
  unfolding arp_resolve
  resolve_missing dev iface pa caches s i x ty fa se al = rw (se, al, arp_resolve) (ground arith)

  -- What `send_by` makes of the outcome of the output.
  reported : List ℕ → ℕ → Size × List ArpCache × S → Size × Sending S
  reported payload id (sent, caches, s) =
      let w : Sending S = record { next_id = (id + 1) % 65536; caches = caches; driver = s } in
      elim sent [ none ↦ (none, w) | some n ↦ (some (length payload), w) ]

  send_reported :
      (route : Route) (protocol : ℕ) (payload : List ℕ) (dst : ℕ) (w : Sending S)
      → send_by h transmit now device route protocol payload dst w
        ≡ reported payload w.next_id (
            ip_output_device h transmit now device route.iface
              (ip_packet h protocol payload route.iface.unicast dst w.next_id 0)
              (next_hop route dst)
              (w.caches, w.driver))
  unfolding send_by ip_generate_id ip_output_core reported
  send_reported route protocol payload dst w = refl

  taken :
      (payload : List ℕ) (id : ℕ) (caches : List ArpCache) (r : Status × S)
      → reported payload id (of_status r.0, caches, r.1) ≡ (
        if_ok r.0 (length payload),
        record { next_id = (id + 1) % 65536; caches = caches; driver = r.1 },
      )
  unfolding reported
  taken payload id caches (ok, s) = refl
  taken payload id caches (fail, s) = refl

  -- For a packet that passes the tests of `ip_send_packet` and whose next hop needs a hardware
  -- address: when that address is in the cache, the packet is handed with it to the device, and the
  -- length of the payload is reported exactly when the device takes it; the cache stays, and the
  -- identification number is used up.
  pub ip_send_packet-found :
      (routes : List Route) (route : Route) (protocol : ℕ) (payload : List ℕ) (src dst : ℕ)
      (w : Sending S) (j : ℕ) (e : ArpCache)
      → Permitted h device routes payload src dst route
      → NeedsAddress device route dst
      → arp_cache_select (next_hop route dst) w.caches ≡ some (j, e)
      → is_incomplete e.state ≡ false
      → let ha = take ether_addr_len e.ha in
        let (status, s) =
          network_device_output transmit
            (device route.iface.dev)
            network_protocol_type_ip
            (ip_packet h protocol payload route.iface.unicast dst w.next_id 0)
            (copy_into (replicate network_device_addr_len 0) ha (length ha))
            w.driver in
        ip_send_packet h transmit now device routes protocol payload src dst w ≡ (
          (if_ok status (length payload)),
          record { next_id = (w.next_id + 1) % 65536; caches = w.caches; driver = s },
        )
  unfolding reported output_resolved output_to
  ip_send_packet-found routes route protocol payload src dst w j e p n known inc =
      let packet = ip_packet h protocol payload route.iface.unicast dst w.next_id 0 in
      ip_send_packet-Permitted routes route protocol payload src dst w p
      ∙ send_reported route protocol payload dst w
      ∙ ap (reported payload w.next_id) (
          resolved_output route packet dst w.caches w.driver n
          ∙ ap (output_resolved h transmit now device (device route.iface.dev) packet) (
              resolve_cached (device route.iface.dev) route.iface (next_hop route dst) w.caches
                w.driver j e n.ethernet n.family known inc))
      ∙ taken payload w.next_id w.caches _

  -- For a packet that passes the tests of `ip_send_packet` (not the broadcast from no address, a route, a
  -- source that is none or the interface's, and a length within the MTU), and whose next hop is no broadcast,
  -- on an Ethernet that needs ARP and an interface of IP: when the address of the next hop is not in the cache,
  -- and an entry can be had for it, the packet is not sent; the cache gets a waiting entry in that place, the
  -- driver at most an ARP request, and yet `ip_send_packet` reports the length of the payload as sent. The
  -- identification number is used up.
  pub ip_send_packet-unresolved :
      (routes : List Route) (route : Route) (protocol : ℕ) (payload : List ℕ) (src dst : ℕ)
      (w : Sending S) (i : ℕ) (x : ArpCache)
      → Permitted h device routes payload src dst route
      → NeedsAddress device route dst
      → arp_cache_select (next_hop route dst) w.caches ≡ none
      → arp_cache_alloc w.caches ≡ some (i, x)
      → let hop = next_hop route dst in
        ip_send_packet h transmit now device routes protocol payload src dst w ≡ (
          some (length payload),
          record {
            next_id = (w.next_id + 1) % 65536;
            caches = set w.caches i (pending now hop x);
            driver = (arp_request h transmit (device route.iface.dev) route.iface hop w.driver).1;
          },
        )
  unfolding reported output_resolved
  ip_send_packet-unresolved routes route protocol payload src dst w i x p n unknown room =
      ip_send_packet-Permitted routes route protocol payload src dst w p
      ∙ send_reported route protocol payload dst w
      ∙ ap (reported payload w.next_id) (
          resolved_output route (ip_packet h protocol payload route.iface.unicast dst w.next_id 0)
            dst w.caches w.driver n
          ∙ ap
              (output_resolved h transmit now device (device route.iface.dev)
                (ip_packet h protocol payload route.iface.unicast dst w.next_id 0))
              (resolve_missing (device route.iface.dev) route.iface (next_hop route dst) w.caches
                w.driver i x n.ethernet n.family unknown room))

  direct_output :
      (route : Route) (packet : List ℕ) (hop : ℕ) (caches : List ArpCache) (s : S)
      → need_arp (device route.iface.dev) ≡ false
      → ip_output_device h transmit now device route.iface packet hop (caches, s)
        ≡ output_to h transmit now device
            (device route.iface.dev)
            packet
            (replicate network_device_addr_len 0)
            (caches, s)
  unfolding ip_output_device
  direct_output route packet hop caches s n = rw (n, ip_output_device) refl

  -- A device that needs no hardware address is given the packet with the address of all zeros.
  pub ip_send_packet-direct :
      (routes : List Route) (route : Route) (protocol : ℕ) (payload : List ℕ) (src dst : ℕ)
      (w : Sending S)
      → Permitted h device routes payload src dst route
      → need_arp (device route.iface.dev) ≡ false
      → let (status, s) =
          network_device_output transmit
            (device route.iface.dev)
            network_protocol_type_ip
            (ip_packet h protocol payload route.iface.unicast dst w.next_id 0)
            (replicate network_device_addr_len 0)
            w.driver in
        ip_send_packet h transmit now device routes protocol payload src dst w ≡ (
          if_ok status (length payload),
          record { next_id = (w.next_id + 1) % 65536; caches = w.caches; driver = s },
        )
  unfolding reported output_to
  ip_send_packet-direct routes route protocol payload src dst w p n =
      ip_send_packet-Permitted routes route protocol payload src dst w p
      ∙ send_reported route protocol payload dst w
      ∙ ap (reported payload w.next_id) (
          direct_output route (ip_packet h protocol payload route.iface.unicast dst w.next_id 0)
            (next_hop route dst) w.caches w.driver n)
      ∙ taken payload w.next_id w.caches _
