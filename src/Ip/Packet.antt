-- ===== src/Ip/Packet.antt =====
-- Packets in src/lib/ip.c: what comes in and what goes out. The text dumps of the code are left out.
pub mod Header
pub mod Input
pub mod Output
pub mod Keeps
use llnstack.Base.{
  ℕ, suc, ◌+◌, ◌-◌, ◌*◌, ◌/◌, ◌%◌, ◌^◌, Bool, true, false, not, ◌&&◌, ◌||◌, Option, none, some,
  List, [], ◌∷◌, ◌++◌, length, take, drop, replicate, ltb, ◌==◌, ◌!=◌, if◌then◌else◌,
}
use llnstack.Util.Endian.{Host, hton16, ntoh16, store16, store32}
use llnstack.Util.Packed.{byte_at, field16, field32, copy_into}
use llnstack.Util.Checksum.{cksum16}
use llnstack.Net.{
  Status, ok, fail, Interface, Device, need_arp, Transmit, network_interface_family_ip,
  network_protocol_type_ip, network_device_get_interface, network_device_output,
}
use llnstack.Net.Timer.{Timeval}
use llnstack.Arp.Cache.{ArpCache}
use llnstack.Arp.Resolve.{Resolution, error, unresolved, found, arp_resolve}
use llnstack.Ip.Route.{
  Route, IpProtocol, ip_addr_any, ip_addr_broadcast, ip_route_lookup, find_ip_protocol,
}

abbrev pub min_ip_header_size : ℕ
min_ip_header_size = 20

abbrev pub network_device_addr_len : ℕ
network_device_addr_len = 16

-- `hdr->vhl >> 4`, and `(hdr->vhl & 0x0f) << 2`
abbrev pub version_of : List ℕ → ℕ
version_of packet = byte_at packet 0 / 16

abbrev pub hlen_of : List ℕ → ℕ
hlen_of packet = byte_at packet 0 % 16 * 4

abbrev pub total_of : Host → List ℕ → ℕ
total_of h packet = ntoh16 h (field16 h packet 2)

abbrev pub offset_of : Host → List ℕ → ℕ
offset_of h packet = ntoh16 h (field16 h packet 6)

abbrev pub protocol_of : List ℕ → ℕ
protocol_of packet = byte_at packet 9

abbrev pub src_of : Host → List ℕ → ℕ
src_of h packet = field32 h packet 12

abbrev pub dst_of : Host → List ℕ → ℕ
dst_of h packet = field32 h packet 16

-- The call of a protocol's handler: the bytes from the pointer to the end of the buffer, and the
-- `size_t` that says how many of them are the payload.
pub record Delivery : Type 0 where
  pub payload : List ℕ
  pub len : ℕ
  pub src : ℕ
  pub dst : ℕ
  pub iface : Interface

-- `total - hlen` is an `int` that becomes a `size_t`.
abbrev pub size_diff : ℕ → ℕ → ℕ
size_diff total hlen = (total + 2 ^ 64 - hlen) % 2 ^ 64

-- The three tests of `ip_input` that make it return: on the header, on fragments, on the address.
abbrev pub bad_header : Host → List ℕ → Bool
bad_header h packet =
    (version_of packet != 4)
    || ltb (length packet) (hlen_of packet)
    || ltb (length packet) (total_of h packet)
    || (cksum16 h packet (hlen_of packet) 0 != 0)

-- `offset & 0x2000 || offset & 0x1fff`
abbrev pub is_fragment : ℕ → Bool
is_fragment offset = (offset / 8192 % 2 != 0) || (offset % 8192 != 0)

abbrev pub for_other : Interface → ℕ → Bool
for_other iface dst =
    (dst != iface.unicast) && (dst != iface.broadcast) && (dst != ip_addr_broadcast)

-- What `ip_input` calls, if it calls anything. The packet is as long as the queue entry says.
unfoldable pub ip_input :
    {H : Type 0} → Host → Device → List (IpProtocol H) → List ℕ → Option (H × Delivery)
ip_input h dev protocols packet =
    if ltb (length packet) min_ip_header_size
    then none
    else (elim (network_device_get_interface dev network_interface_family_ip) [
      | none ↦ none
      | some iface ↦
          if bad_header h packet
          then none
          else (if is_fragment (offset_of h packet) || for_other iface (dst_of h packet)
              then none
              else (elim (find_ip_protocol (protocol_of packet) protocols) [
                | none ↦ none
                | some handler ↦ some (
                  handler,
                  record {
                    payload = drop (hlen_of packet) packet;
                    len = size_diff (total_of h packet) (hlen_of packet);
                    src = src_of h packet;
                    dst = dst_of h packet;
                    iface = iface;
                  },
                )
              ]))
    ])

-- The header that `ip_output_core` writes, with the sum as given; 69 is `(IPV4 << 4) | (20 >> 2)`.
-- The halves of it before and after the sum.
abbrev pub header_front : Host → ℕ → ℕ → ℕ → ℕ → List ℕ
header_front h total id offset protocol =
    69
    ∷ 0
    ∷ (store16 h (hton16 h total)
        ++ (store16 h (hton16 h id) ++ (store16 h (hton16 h offset) ++ (255 ∷ protocol ∷ []))))

abbrev pub header_back : Host → ℕ → ℕ → List ℕ
header_back h src dst = store32 h src ++ store32 h dst

abbrev pub header_with : Host → ℕ → ℕ → ℕ → ℕ → ℕ → ℕ → ℕ → List ℕ
header_with h total id offset protocol src dst sum =
    header_front h total id offset protocol ++ (store16 h sum ++ header_back h src dst)

-- The packet. `total` is a `uint16_t`.
unfoldable pub ip_packet : Host → ℕ → List ℕ → ℕ → ℕ → ℕ → ℕ → List ℕ
ip_packet h protocol payload src dst id offset =
    let total = (min_ip_header_size + length payload) % 65536 in
    let sum = cksum16 h (header_with h total id offset protocol src dst 0) min_ip_header_size 0 in
    header_with h total id offset protocol src dst sum ++ payload

-- What an `ssize_t` function returns; `none` is -1.
abbrev pub Size : Type 0
Size = Option ℕ

abbrev pub of_status : Status → Size
of_status ok = some 0
of_status fail = none

module _ {S : Type 0} (h : Host) (transmit : Transmit S) (now : Timeval) (device : ℕ → Device) where
  output_to : Device → List ℕ → List ℕ → List ArpCache × S → Size × List ArpCache × S
  output_to dev packet hwaddr (caches, s) =
      let (status, s') =
        network_device_output transmit dev network_protocol_type_ip packet hwaddr s in
      (of_status status, caches, s')

  -- Only a hardware address that was found lets the packet out; the other results of `arp_resolve`
  -- are returned as they are, 0 for ARP_RESOLVE_INCOMPLETE.
  output_resolved : Device → List ℕ → Resolution × List ArpCache × S → Size × List ArpCache × S
  unfolding output_to
  output_resolved dev packet (error, caches, s) = (none, caches, s)
  output_resolved dev packet (unresolved, caches, s) = (some 0, caches, s)
  output_resolved dev packet (found ha, caches, s) =
      output_to dev packet (copy_into (replicate network_device_addr_len 0) ha (length ha))
        (caches, s)

  unfoldable pub ip_output_device :
      Interface → List ℕ → ℕ → List ArpCache × S → Size × List ArpCache × S
  unfolding output_resolved
  ip_output_device iface packet dst (caches, s) =
      let dev = device iface.dev in
      if need_arp dev
      then (if (dst == iface.broadcast) || (dst == ip_addr_broadcast)
          then output_to dev packet
              (copy_into (replicate network_device_addr_len 0) dev.broadcast dev.address_len)
              (caches, s)
          else output_resolved dev packet (arp_resolve h transmit now dev iface dst (caches, s)))
      else output_to dev packet (replicate network_device_addr_len 0) (caches, s)

  unfoldable pub ip_output_core :
      Interface → ℕ → List ℕ → ℕ → ℕ → ℕ → ℕ → ℕ → List ArpCache × S → Size × List ArpCache × S
  ip_output_core iface protocol payload src dst nexthop id offset c =
      ip_output_device iface (ip_packet h protocol payload src dst id offset) nexthop c

-- `ip_generate_id`: the number, and the static variable after it.
unfoldable pub ip_generate_id : ℕ → ℕ × ℕ
ip_generate_id id = (id, (id + 1) % 65536)

-- The state that sending uses: the static `id`, the ARP cache, the state of the driver.
pub record Sending (S : Type 0) : Type 0 where
  pub next_id : ℕ
  pub caches : List ArpCache
  pub driver : S

abbrev pub next_hop : Route → ℕ → ℕ
next_hop route dst = if route.nexthop != ip_addr_any then route.nexthop else dst

module _ {S : Type 0} (h : Host) (transmit : Transmit S) (now : Timeval) (device : ℕ → Device) where
  send_by : Route → ℕ → List ℕ → ℕ → Sending S → Size × Sending S
  send_by route protocol payload dst w =
      let (id, next) = ip_generate_id w.next_id in
      let (sent, caches, driver) =
        ip_output_core h transmit now device route.iface protocol payload route.iface.unicast dst
          (next_hop route dst) id 0 (w.caches, w.driver) in
      let w' : Sending S = record { next_id = next; caches = caches; driver = driver } in
      elim sent [ none ↦ (none, w') | some n ↦ (some (length payload), w') ]

  unfoldable pub ip_send_packet : List Route → ℕ → List ℕ → ℕ → ℕ → Sending S → Size × Sending S
  unfolding send_by ip_generate_id
  ip_send_packet routes protocol payload src dst w =
      if (src == ip_addr_any) && (dst == ip_addr_broadcast)
      then (none, w)
      else (elim (ip_route_lookup h dst routes) [
        | none ↦ (none, w)
        | some route ↦
            if (src != ip_addr_any) && (src != route.iface.unicast)
            then (none, w)
            else (if ltb (device route.iface.dev).mtu (min_ip_header_size + length payload)
                then (none, w)
                else send_by route protocol payload dst w)
      ])
