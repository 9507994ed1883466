-- ===== src/Dump/Link.antt =====
-- `ether_dump` of src/lib/ether.c, `arp_dump` of src/lib/arp.c and `udp_dump` of src/lib/udp.c, as the text
-- that they write.
use llnstack.Base.{ℕ, Bool, List, [], ◌∷◌, ◌++◌, take, drop, ◌==◌, if◌then◌else◌}
use llnstack.Util.Endian.{Host, ntoh16}
use llnstack.Util.Packed.{byte_at, field16, field32}
use llnstack.Util.Hexdump.{chars, hex_padded, hexdump}
use llnstack.Ip.Text.{ip_address_to_string}
use llnstack.Ether.Address.{ether_addr_ntop}
use llnstack.Dump.{unsigned, printed}

-- A line with a number, an address or a word.
abbrev pub dump_line : List ℕ → List ℕ → List ℕ
dump_line label value = printed (label ∷ value ∷ chars "\n" ∷ [])

abbrev pub dump_tail : Bool → List ℕ → ℕ → List ℕ
dump_tail full bytes len = if full then hexdump (take len bytes) else []

abbrev pub hex16 : ℕ → List ℕ
hex16 n = printed (chars "0x" ∷ hex_padded 4 n ∷ [])

-- The type is in network byte order.
unfoldable pub ether_type_ntoa : Host → ℕ → List ℕ
ether_type_ntoa h type =
    let t = ntoh16 h type in
    if t == 2048
    then chars "IP"
    else if t == 2054
    then chars "ARP"
    else if t == 34525
    then chars "IPv6"
    else chars "UNKNOWN"

unfoldable pub ether_dump : Bool → Host → List ℕ → ℕ → List ℕ
ether_dump full h frame flen =
    let type = field16 h frame 12 in
    dump_line (chars "        src: ") (ether_addr_ntop (take 6 (drop 6 frame)) 18)
    ++ (dump_line (chars "        dst: ") (ether_addr_ntop (take 6 frame) 18)
        ++ (dump_line (chars "       type: ") (
              printed
                (hex16 (ntoh16 h type) ∷ chars " (" ∷ ether_type_ntoa h type ∷ chars ")" ∷ []))
            ++ dump_tail full frame flen))

-- The operation is in network byte order.
unfoldable pub arp_opcode_ntoa : Host → ℕ → List ℕ
arp_opcode_ntoa h opcode =
    let op = ntoh16 h opcode in
    if op == 1 then chars "Request" else if op == 2 then chars "Reply" else chars "Unknown"

-- Hardware and protocol types, lengths and operation.
unfoldable pub arp_hdr_lines : Host → List ℕ → List ℕ
arp_hdr_lines h bytes =
    let op = field16 h bytes 6 in
    dump_line (chars "        hrd: ") (hex16 (ntoh16 h (field16 h bytes 0)))
    ++ (dump_line (chars "        pro: ") (hex16 (ntoh16 h (field16 h bytes 2)))
        ++ (dump_line (chars "        hln: ") (unsigned (byte_at bytes 4))
            ++ (dump_line (chars "        pln: ") (unsigned (byte_at bytes 5))
                ++ dump_line (chars "         op: ") (
                    printed
                      (hex16 (ntoh16 h op) ∷ chars " (" ∷ arp_opcode_ntoa h op ∷ chars ")" ∷ [])))))

unfoldable pub arp_dump : Bool → Host → List ℕ → ℕ → List ℕ
arp_dump full h bytes len =
    arp_hdr_lines h bytes
    ++ (dump_line (chars "        sha: ") (ether_addr_ntop (take 6 (drop 8 bytes)) 128)
        ++ (dump_line (chars "        spa: ") (ip_address_to_string h (field32 h bytes 14) 128)
            ++ (dump_line (chars "        tha: ") (ether_addr_ntop (take 6 (drop 18 bytes)) 128)
                ++ (dump_line (chars "        tpa: ")
                      (ip_address_to_string h (field32 h bytes 24) 128)
                    ++ dump_tail full bytes len))))

unfoldable pub udp_dump : Bool → Host → List ℕ → ℕ → List ℕ
udp_dump full h bytes len =
    dump_line (chars "        src: ") (unsigned (ntoh16 h (field16 h bytes 0)))
    ++ (dump_line (chars "        dst: ") (unsigned (ntoh16 h (field16 h bytes 2)))
        ++ (dump_line (chars "        len: ") (unsigned (ntoh16 h (field16 h bytes 4)))
            ++ (dump_line (chars "        sum: ") (hex16 (ntoh16 h (field16 h bytes 6)))
                ++ dump_tail full bytes len)))
