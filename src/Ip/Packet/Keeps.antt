-- ===== src/Ip/Packet/Keeps.antt =====
-- What ARP, `ip_send_packet` and `icmp_input` keep of the state of sending: at most one cache entry for an
-- address, and whatever the driver keeps behind the devices that the stack has.
use llnstack.Base.{
  ℕ, inl, inr, Bool, not, ◌&&◌, ◌||◌, List, length, ltb, ◌==◌, ◌!=◌, ◌+◌, kept_if, Option-cases,
}
use llnstack.Util.Endian.{Host}
use llnstack.Util.Packed.{byte_at}
use llnstack.Util.Checksum.{cksum16}
use llnstack.Net.{
  Status, Interface, Device, is_up, need_arp, Transmit, network_interface_family_ip,
  network_device_get_interface, network_device_output,
}
use llnstack.Net.Timer.{Timeval}
use llnstack.Arp.Cache.{ArpCache}
use llnstack.Arp.Cache.Select.{Distinct}
use llnstack.Arp.Message.{arp_op_request, arp_request, arp_reply}
use llnstack.Arp.Resolve.{
  op_of, sha_of, spa_of, tpa_of, is_supported, arp_answer, arp_input, Resolution, error, unresolved,
  found, arp_resolve,
}
use llnstack.Arp.Resolve.Laws.{arp_resolve_lem, arp_resolve-Distinct, arp_input-Distinct}
use llnstack.Ip.Route.{Route, ip_addr_any, ip_addr_broadcast, ip_route_lookup}
use llnstack.Ip.Packet.{
  Size, Sending, next_hop, min_ip_header_size, output_to, output_resolved, ip_output_device,
  ip_output_core, ip_packet, ip_generate_id, send_by, ip_send_packet,
}
use llnstack.Icmp.{icmp_protocol, icmp_output, icmp_input, icmp_type_echo, icmp_hdr_size}

module _ {S : Type 0} (D : Device → Type 0) (P : S → Type 0) where
  abbrev pub Keeps : Transmit S → Type 0
  Keeps transmit =
      (dev : Device) (type : ℕ) (buf dst : List ℕ) (s : S)
      → D dev
      → P s
      → P (transmit dev type buf dst s).1

  -- At most one entry for an address, and `P` of the driver.
  abbrev pub Both : List ArpCache × S → Type 0
  Both c = Distinct c.0 × P c.1

  -- The same of what an output returns.
  After : Size × List ArpCache × S → Type 0
  After r = Distinct r.1 × P r.2

  abbrev pub Holds : Sending S → Type 0
  Holds w = Distinct w.caches × P w.driver

  Sent : Size × Sending S → Type 0
  Sent r = Holds r.1

  module _ (h : Host) (transmit : Transmit S) (now : Timeval) (device : ℕ → Device)
      (keeps : Keeps transmit) (each : (i : ℕ) → D (device i)) where
    pub output-Keeps : Keeps (network_device_output transmit)
    unfolding network_device_output
    output-Keeps dev type buf dst s v p =
        kept_if (λ (r : Status × S). P r.1) (not (is_up dev)) _ _ p
          (kept_if (λ (r : Status × S). P r.1) (ltb dev.mtu (length buf)) _ _ p
            (keeps dev type buf dst s v p))

    request_keeps :
        (dev : Device) (iface : Interface) (tpa : ℕ) (s : S)
        → D dev
        → P s
        → P (arp_request h transmit dev iface tpa s).1
    unfolding arp_request
    request_keeps dev iface tpa s v p = output-Keeps dev _ _ _ s v p

    reply_keeps :
        (dev : Device) (iface : Interface) (tha : List ℕ) (tpa : ℕ) (dst : List ℕ) (s : S)
        → D dev
        → P s
        → P (arp_reply h transmit dev iface tha tpa dst s).1
    unfolding arp_reply
    reply_keeps dev iface tha tpa dst s v p = output-Keeps dev _ _ _ s v p

    resolve_keeps :
        (dev : Device) (iface : Interface) (pa : ℕ) (caches : List ArpCache) (s : S)
        → D dev
        → P s
        → P (arp_resolve h transmit now dev iface pa (caches, s)).2
    resolve_keeps dev iface pa caches s v p =
        let q = request_keeps dev iface pa s v p in
        elim (arp_resolve_lem h transmit now dev iface pa caches s) [
          | inl (w, r) ↦ rw r p
          | inr (_, _, inl (j, x, at, e, u, inl (y, r))) ↦ rw r q
          | inr (_, _, inl (j, x, at, e, u, inr (n, r))) ↦ rw r p
          | inr (_, _, inr (inl (a, i, x, c, r))) ↦ rw r q
          | inr (_, _, inr (inr (a, c, r))) ↦ rw r p
        ]

    answer_keeps :
        (dev : Device) (merge : Bool) (msg : List ℕ) (caches : List ArpCache) (s : S)
        → D dev
        → P s
        → P (arp_answer h transmit now dev merge msg (caches, s)).1
    unfolding arp_answer
    answer_keeps dev merge msg caches s v p =
        elim (Option-cases (network_device_get_interface dev network_interface_family_ip)) [
          | inl n ↦ rw (n, arp_answer) p
          | inr (iface, e) ↦
              rw (e, arp_answer)
                (kept_if (λ (r : List ArpCache × S). P r.1) (iface.unicast == tpa_of h msg) _ _
                  (kept_if P (op_of h msg == arp_op_request) _ _
                    (reply_keeps dev iface (sha_of msg) (spa_of h msg) (sha_of msg) s v p) p)
                  p)
        ]

    pub arp_input_keeps :
        (dev : Device) (msg : List ℕ) (caches : List ArpCache) (s : S)
        → D dev
        → Distinct caches
        → P s
        → Both (arp_input h transmit now dev msg (caches, s))
    unfolding arp_input
    arp_input_keeps dev msg caches s v d p = (
      arp_input-Distinct h transmit now dev msg caches s d,
      kept_if (λ (r : List ArpCache × S). P r.1) (is_supported h msg) _ _
          (answer_keeps dev _ msg _ s v p) p,
    )

    output_to_keeps :
        (dev : Device) (packet ha : List ℕ) (caches : List ArpCache) (s : S)
        → D dev
        → Both (caches, s)
        → After (output_to h transmit now device dev packet ha (caches, s))
    unfolding output_to After
    output_to_keeps dev packet ha caches s v b = (b.0, output-Keeps dev _ packet ha s v b.1)

    resolved_keeps :
        (dev : Device) (packet : List ℕ) (r : Resolution × List ArpCache × S)
        → D dev
        → Distinct r.1
        → P r.2
        → After (output_resolved h transmit now device dev packet r)
    unfolding output_resolved After
    resolved_keeps dev packet (error, caches, s) v d p = (d, p)
    resolved_keeps dev packet (unresolved, caches, s) v d p = (d, p)
    resolved_keeps dev packet (found ha, caches, s) v d p =
        output_to_keeps dev packet _ caches s v (d, p)

    core_keeps :
        (iface : Interface) (protocol : ℕ) (payload : List ℕ) (src dst nexthop id : ℕ)
        (caches : List ArpCache) (s : S)
        → Both (caches, s)
        → After (
            ip_output_core h transmit now device iface protocol payload src dst nexthop id 0
              (caches, s))
    unfolding ip_output_core ip_output_device
    core_keeps iface protocol payload src dst nexthop id caches s b =
        let dev = device iface.dev in
        let direct = output_to_keeps dev (ip_packet h protocol payload src dst id 0) in
        kept_if After (need_arp dev) _ _
          (kept_if After ((nexthop == iface.broadcast) || (nexthop == ip_addr_broadcast)) _ _
            (direct _ caches s (each iface.dev) b)
            (resolved_keeps dev _ _ (each iface.dev)
              (arp_resolve-Distinct h transmit now dev iface nexthop caches s b.0)
              (resolve_keeps dev iface nexthop caches s (each iface.dev) b.1)))
          (direct _ caches s (each iface.dev) b)

    send_by_keeps :
        (route : Route) (protocol : ℕ) (payload : List ℕ) (dst : ℕ) (w : Sending S)
        → Holds w
        → Sent (send_by h transmit now device route protocol payload dst w)
    unfolding send_by ip_generate_id Sent After
    send_by_keeps route protocol payload dst w b =
        let c =
          core_keeps route.iface protocol payload route.iface.unicast dst (next_hop route dst)
            w.next_id w.caches w.driver b in
        elim (Option-cases
          (ip_output_core h transmit now device route.iface protocol payload route.iface.unicast dst
            (next_hop route dst) w.next_id 0 (w.caches, w.driver)).0) [
              | inl e ↦ rw (e, send_by) c
              | inr (n, e) ↦ rw (e, send_by) c
            ]

    pub send_keeps :
        (routes : List Route) (protocol : ℕ) (payload : List ℕ) (src dst : ℕ) (w : Sending S)
        → Holds w
        → Holds (ip_send_packet h transmit now device routes protocol payload src dst w).1
    unfolding ip_send_packet Sent
    send_keeps routes protocol payload src dst w b =
        kept_if Sent ((src == ip_addr_any) && (dst == ip_addr_broadcast)) _ _ b
          (elim (Option-cases (ip_route_lookup h dst routes)) [
            | inl e ↦ rw e b
            | inr (route, e) ↦ rw e (
                kept_if Sent ((src != ip_addr_any) && (src != route.iface.unicast)) _ _ b (
                  kept_if Sent
                    (ltb (device route.iface.dev).mtu (min_ip_header_size + length payload)) _ _ b
                    (send_by_keeps route protocol payload dst w b)))
          ])

    pub icmp_input_keeps :
        (routes : List Route) (content : List ℕ) (len src dst : ℕ) (iface : Interface)
        (w : Sending S)
        → Holds w
        → Holds (icmp_input h transmit now device routes content len src dst iface w)
    unfolding icmp_input icmp_output
    icmp_input_keeps routes content len src dst iface w b =
        kept_if Holds (ltb len icmp_hdr_size) _ _ b (
          kept_if Holds (cksum16 h content len 0 != 0) _ _ b (
            kept_if Holds (byte_at content 0 == icmp_type_echo) _ _
              (send_keeps routes icmp_protocol _ _ src w b) b))
