-- ===== src/Icmp.antt =====
-- src/lib/icmp.c: `icmp_output` and `icmp_input`. The text dump of messages is in Dump.
pub mod Echo
use llnstack.Base.{
  ℕ, ◌+◌, ◌-◌, Bool, true, false, Option, none, some, List, [], ◌∷◌, ◌++◌, length, take, drop, ltb,
  ◌==◌, ◌!=◌, if◌then◌else◌,
}
use llnstack.Util.Endian.{Host, store16, store32}
use llnstack.Util.Packed.{byte_at, field32}
use llnstack.Util.Checksum.{cksum16}
use llnstack.Net.{Interface, Device, Transmit}
use llnstack.Net.Timer.{Timeval}
use llnstack.Ip.Route.{Route}
use llnstack.Ip.Packet.{Size, Sending, ip_send_packet}

abbrev pub icmp_protocol : ℕ
icmp_protocol = 1

-- sizeof(struct icmp_header)
abbrev pub icmp_hdr_size : ℕ
icmp_hdr_size = 8

abbrev pub icmp_type_echoreply : ℕ
icmp_type_echoreply = 0

abbrev pub icmp_type_echo : ℕ
icmp_type_echo = 8

-- The message with the sum as given; `values` is stored as it is.
abbrev pub icmp_with : Host → ℕ → ℕ → ℕ → ℕ → List ℕ → List ℕ
icmp_with h type code sum values content =
    (type ∷ code ∷ []) ++ (store16 h sum ++ (store32 h values ++ content))

-- The message that `icmp_output` builds.
unfoldable pub icmp_message : Host → ℕ → ℕ → ℕ → List ℕ → List ℕ
icmp_message h type code values content =
    icmp_with h type code
      (cksum16 h (icmp_with h type code 0 values content) (icmp_hdr_size + length content) 0) values
      content

module _ {S : Type 0} (h : Host) (transmit : Transmit S) (now : Timeval) (device : ℕ → Device) where
  -- The data fits the buffer of `icmp_output`, of MAX_IP_PAYLOAD_SIZE bytes.
  unfoldable pub icmp_output :
      List Route → ℕ → ℕ → ℕ → List ℕ → ℕ → ℕ → Sending S → Size × Sending S
  icmp_output routes type code values content src dst w =
      ip_send_packet h transmit now device routes icmp_protocol
        (icmp_message h type code values content) src dst w

  -- `content` are the bytes from the pointer to the end of the buffer, and `len` is meant to be at most their
  -- number. `ip_input` may hand on a length that wraps (`ip_input_underflow`); the code then reads and copies
  -- beyond the buffer, which is not modelled.
  unfoldable pub icmp_input : List Route → List ℕ → ℕ → ℕ → ℕ → Interface → Sending S → Sending S
  icmp_input routes content len src dst iface w =
      if ltb len icmp_hdr_size
      then w
      else (if cksum16 h content len 0 != 0
          then w
          else (if byte_at content 0 == icmp_type_echo
              then (icmp_output routes icmp_type_echoreply (byte_at content 1) (field32 h content 4)
                  (take (len - icmp_hdr_size) (drop icmp_hdr_size content))
                  (if dst != iface.unicast then iface.unicast else dst) src w).1
              else w))
