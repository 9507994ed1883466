-- ===== src/Ip/Packet/Header.antt =====
-- The header that `ip_output_core` writes verifies, and its fields are read back.
use llnstack.Base.{
  ℕ, ◌+◌, ◌-◌, ◌%◌, ◌^◌, ◌<◌, ◌≡◌, refl, sym, ap, ◌∙◌, List, ◌++◌, length, take_all, take-append,
  drop, arith,
}
use mathlib.Core.List.{append_assoc}
use llnstack.Util.Endian.{Host, little, big, hton16, load16_network}
use llnstack.Util.Checksum.{add_words, fold_carries, cksum16}
use llnstack.Util.Checksum.Residue.{IsBytes}
use llnstack.Util.Checksum.Fill.{cksum16-fill, bytes_of_word}
use llnstack.Ip.Packet.{
  min_ip_header_size, header_front, header_back, header_with, ip_packet, version_of, hlen_of,
  total_of, offset_of, protocol_of, src_of, dst_of,
}

-- `cksum16` looks at no byte behind its count.
pub cksum16-append :
    (h : Host) (xs ys : List ℕ) (count init : ℕ)
    → count ≡ length xs
    → count < 65536
    → cksum16 h (xs ++ ys) count init ≡ cksum16 h xs count init
unfolding cksum16
cksum16-append h xs ys count init e p =
    ap (λ l. 65535 - fold_carries 3 (add_words h l (init % 2 ^ 32)) % 65536)
      (take-append xs ys (count % 65536) (omega arith)
        ∙ sym (take_all (count % 65536) xs (omega arith)))

header_front-IsBytes :
    (h : Host) (total id offset protocol : ℕ)
    → protocol < 256
    → IsBytes (header_front h total id offset protocol)
header_front-IsBytes h total id offset protocol p =
    let (t, t') = bytes_of_word h (hton16 h total) in
    let (i, i') = bytes_of_word h (hton16 h id) in
    let (o, o') = bytes_of_word h (hton16 h offset) in
    (omega arith, (omega arith, (t, (t', (i, (i', (o, (o', (omega arith, (p, tt))))))))))

header_back-IsBytes : (h : Host) (src dst : ℕ) → IsBytes (header_back h src dst)
header_back-IsBytes little src dst = omega arith
header_back-IsBytes big src dst = omega arith

length-header_back : (h : Host) (src dst : ℕ) → length (header_back h src dst) ≡ 8
length-header_back little src dst = refl
length-header_back big src dst = refl

-- A header with the sum that it verifies by.
abbrev pub summed_header : Host → ℕ → ℕ → ℕ → ℕ → ℕ → ℕ → List ℕ
summed_header h total id offset protocol src dst =
    header_with h total id offset protocol src dst
      (cksum16 h (header_with h total id offset protocol src dst 0) min_ip_header_size 0)

pub length-summed_header :
    (h : Host) (total id offset protocol src dst : ℕ)
    → length (summed_header h total id offset protocol src dst) ≡ 20
length-summed_header little total id offset protocol src dst = refl
length-summed_header big total id offset protocol src dst = refl

summed_header-verifies :
    (h : Host) (total id offset protocol src dst : ℕ)
    → protocol < 256
    → cksum16 h (summed_header h total id offset protocol src dst) min_ip_header_size 0 ≡ 0
summed_header-verifies little total id offset protocol src dst p =
    cksum16-fill little (header_front little total id offset protocol) (header_back little src dst)
      0 (header_front-IsBytes little total id offset protocol p)
      (header_back-IsBytes little src dst) refl (omega arith) (omega arith)
summed_header-verifies big total id offset protocol src dst p =
    cksum16-fill big (header_front big total id offset protocol) (header_back big src dst) 0
      (header_front-IsBytes big total id offset protocol p) (header_back-IsBytes big src dst) refl
      (omega arith) (omega arith)

module _ (h : Host) (protocol : ℕ) (payload : List ℕ) (src dst id offset : ℕ) where
  abbrev pub total_length : ℕ
  total_length = (min_ip_header_size + length payload) % 65536

  pub ip_packet_lem :
      ip_packet h protocol payload src dst id offset
      ≡ summed_header h total_length id offset protocol src dst ++ payload
  unfolding ip_packet
  ip_packet_lem = refl

  -- The header of a packet that is sent verifies: the checksum of its 20 bytes is 0, whatever follows
  -- them.
  pub ip_packet-verifies :
      (pad : List ℕ)
      → protocol < 256
      → cksum16 h (ip_packet h protocol payload src dst id offset ++ pad) min_ip_header_size 0 ≡ 0
  ip_packet-verifies pad p =
      rw
        (
          ip_packet_lem,
          append_assoc (summed_header h total_length id offset protocol src dst) payload pad,
        )
        (cksum16-append h (summed_header h total_length id offset protocol src dst) (payload ++ pad)
            20 0 (sym (length-summed_header h total_length id offset protocol src dst))
            (omega arith)
          ∙ summed_header-verifies h total_length id offset protocol src dst p)

-- The fields of a sent packet, whatever follows it.
pub record Fields (h : Host) (packet payload : List ℕ) (total offset protocol src dst : ℕ)
    : Type 0 where
  pub version_is : version_of packet ≡ 4
  pub hlen_is : hlen_of packet ≡ 20
  pub total_is : total_of h packet ≡ total
  pub offset_is : offset_of h packet ≡ offset
  pub protocol_is : protocol_of packet ≡ protocol
  pub src_is : src_of h packet ≡ src
  pub dst_is : dst_of h packet ≡ dst
  pub payload_is : drop 20 packet ≡ payload

pub summed_header-Fields :
    (h : Host) (rest : List ℕ) (total id offset protocol src dst : ℕ)
    → total < 65536
    → offset < 65536
    → src < 2 ^ 32
    → dst < 2 ^ 32
    → Fields h
        (summed_header h total id offset protocol src dst ++ rest)
        rest
        total
        offset
        protocol
        src
        dst
summed_header-Fields little rest total id offset protocol src dst pt po ps pd = record {
  version_is = refl;
  hlen_is = refl;
  total_is = load16_network little total pt;
  offset_is = load16_network little offset po;
  protocol_is = refl;
  src_is = omega arith;
  dst_is = omega arith;
  payload_is = refl;
}
summed_header-Fields big rest total id offset protocol src dst pt po ps pd = record {
  version_is = refl;
  hlen_is = refl;
  total_is = load16_network big total pt;
  offset_is = load16_network big offset po;
  protocol_is = refl;
  src_is = omega arith;
  dst_is = omega arith;
  payload_is = refl;
}
