-- ===== src/Ip/Packet/Input.antt =====
-- `ip_input`: what it lets through, and that it lets through what is sent.
use llnstack.Base.{
  ℕ, ◌+◌, ◌-◌, ◌^◌, ◌≤◌, ◌<◌, ◌≡◌, sym, ap, ◌∙◌, false, some, List, ◌++◌, length, length-append,
  length-drop, drop, arith,
}
use mathlib.Core.List.{append_assoc}
use llnstack.Util.Endian.{Host}
use llnstack.Util.Checksum.{cksum16}
use llnstack.Net.{Interface, Device, network_interface_family_ip, network_device_get_interface}
use llnstack.Ip.Route.{IpProtocol, find_ip_protocol}
use llnstack.Ip.Packet.{
  min_ip_header_size, version_of, hlen_of, total_of, offset_of, protocol_of, src_of, dst_of,
  Delivery, size_diff, is_fragment, for_other, ip_input, ip_packet,
}
use llnstack.Ip.Packet.Header.{
  summed_header, length-summed_header, ip_packet_lem, total_length, ip_packet-verifies, Fields,
  summed_header-Fields,
}

module _ {H : Type 0} (h : Host) (dev : Device) (protocols : List (IpProtocol H)) where
  -- Everything that holds of a packet which `ip_input` hands on, and of what it hands on.
  pub record Accepted (packet : List ℕ) (handler : H) (d : Delivery) : Type 0 where
    pub iface_is : network_device_get_interface dev network_interface_family_ip ≡ some d.iface
    pub long_enough : min_ip_header_size ≤ length packet
    pub version_is : version_of packet ≡ 4
    pub hlen_in : hlen_of packet ≤ length packet
    pub total_in : total_of h packet ≤ length packet
    pub verifies : cksum16 h packet (hlen_of packet) 0 ≡ 0
    pub whole : is_fragment (offset_of h packet) ≡ false
    pub for_us : for_other d.iface d.dst ≡ false
    pub handler_is : find_ip_protocol (protocol_of packet) protocols ≡ some handler
    pub src_is : d.src ≡ src_of h packet
    pub dst_is : d.dst ≡ dst_of h packet
    pub payload_is : d.payload ≡ drop (hlen_of packet) packet
    pub len_is : d.len ≡ size_diff (total_of h packet) (hlen_of packet)

  pub ip_input-Accepted :
      (packet : List ℕ) (handler : H) (d : Delivery)
      → ip_input h dev protocols packet ≡ some (handler, d)
      → Accepted packet handler d
  unfolding ip_input
  ip_input-Accepted packet handler d e = ground arith

  -- The lengths are not compared with one another: where a packet of fewer than 65536 bytes whose
  -- total length is below its header length is handed on, it is with a length that wraps, beyond
  -- the end of the buffer.
  pub ip_input_underflow :
      (packet : List ℕ) (handler : H) (d : Delivery)
      → length packet < 65536
      → ip_input h dev protocols packet ≡ some (handler, d)
      → total_of h packet < hlen_of packet
      → (2 ^ 63 < d.len) × (length d.payload < d.len)
  ip_input_underflow packet handler d s e l =
      let a = ip_input-Accepted packet handler d e in
      omega
        (arith, a.len_is, ap length a.payload_is, length-drop (hlen_of packet) packet, a.hlen_in)

  accept :
      (packet payload : List ℕ) (total protocol src dst : ℕ) (iface : Interface) (handler : H)
      → Fields h packet payload total 0 protocol src dst
      → total ≤ length packet
      → 20 ≤ total
      → total < 65536
      → cksum16 h packet 20 0 ≡ 0
      → network_device_get_interface dev network_interface_family_ip ≡ some iface
      → for_other iface dst ≡ false
      → find_ip_protocol protocol protocols ≡ some handler
      → ip_input h dev protocols packet
        ≡ some (
          handler,
          record { payload = payload; len = total - 20; src = src; dst = dst; iface = iface },
        )
  unfolding ip_input
  accept packet payload total protocol src dst iface handler f tp lo hi c gi fo hd = ground (
    arith,
    f,
    ap (λ n. cksum16 h packet n 0) f.hlen_is,
    ap (λ n. drop n packet) f.hlen_is,
    ap (λ p. find_ip_protocol p protocols) f.protocol_is,
    ap (for_other iface) f.dst_is,
  )

  -- A packet of fewer than 65536 bytes that `ip_output_core` makes, unfragmented, comes in
  -- unchanged at a device whose interface it is addressed to, if its protocol is registered: the
  -- handler gets the addresses, the payload and its length, also where the link has padded the
  -- frame.
  pub ip_input-ip_packet :
      (protocol : ℕ) (payload pad : List ℕ) (src dst id : ℕ) (iface : Interface) (handler : H)
      → min_ip_header_size + length payload < 65536
      → protocol < 256
      → src < 2 ^ 32
      → dst < 2 ^ 32
      → network_device_get_interface dev network_interface_family_ip ≡ some iface
      → for_other iface dst ≡ false
      → find_ip_protocol protocol protocols ≡ some handler
      → ip_input h dev protocols (ip_packet h protocol payload src dst id 0 ++ pad)
        ≡ some (
          handler,
          record {
            payload = payload ++ pad;
            len = length payload;
            src = src;
            dst = dst;
            iface = iface;
          },
        )
  ip_input-ip_packet protocol payload pad src dst id iface handler ps pp ss ds gi fo hd =
      let total = total_length h protocol payload src dst id 0 in
      let header = summed_header h total id 0 protocol src dst in
      let same : ip_packet h protocol payload src dst id 0 ++ pad ≡ header ++ (payload ++ pad) =
        ap (λ l. l ++ pad) (ip_packet_lem h protocol payload src dst id 0)
        ∙ append_assoc header payload pad in
      rw same (
        accept (header ++ (payload ++ pad)) (payload ++ pad) total protocol src dst iface handler
          (summed_header-Fields h (payload ++ pad) total id 0 protocol src dst (omega arith)
            (omega arith) ss ds)
          (omega (
            arith,
            length-append {0} header (payload ++ pad),
            length-summed_header h total id 0 protocol src dst,
            length-append {0} payload pad,
          ))
          (omega arith) (omega arith)
          (ap (λ p. cksum16 h p 20 0) (sym same)
            ∙ ip_packet-verifies h protocol payload src dst id 0 pad pp)
          gi fo hd
        ∙ ap
            (λ n. some (
              handler,
              record { payload = payload ++ pad; len = n; src = src; dst = dst; iface = iface },
            ))
            (omega arith))
