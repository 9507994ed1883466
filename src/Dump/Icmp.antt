-- ===== src/Dump/Icmp.antt =====
-- `icmp_dump` of src/lib/icmp.c, as the text that it writes.
use llnstack.Base.{ℕ, ◌-◌, ◌^◌, Bool, List, [], ◌∷◌, ◌++◌, take, ◌==◌, ◌||◌, if◌then◌else◌}
use llnstack.Util.Endian.{Host, ntoh16, ntoh32}
use llnstack.Util.Packed.{byte_at, field16, field32}
use llnstack.Util.Checksum.{cksum16}
use llnstack.Util.Hexdump.{chars, hex_padded, hexdump}
use llnstack.Dump.{unsigned, printed}
use llnstack.Icmp.{icmp_type_echo, icmp_type_echoreply}

-- ANSI_COLOR_GREEN, _RED, _YELLOW, _BOLD and _RESET
abbrev pub green : List ℕ
green = 27 ∷ chars "[32m"

abbrev pub red : List ℕ
red = 27 ∷ chars "[31m"

abbrev yellow : List ℕ
yellow = 27 ∷ chars "[33m"

abbrev bold : List ℕ
bold = 27 ∷ chars "[1m"

abbrev reset : List ℕ
reset = 27 ∷ chars "[0m"

-- The cases of `icmp_type_ntoa`: ICMP_TYPE_DEST_UNREACH and so on, as the numbers that they are.
abbrev pub icmp_type_names : List (ℕ × List ℕ)
icmp_type_names =
    (0, chars "EchoReply")
    ∷ (3, chars "DestinationUnreachable")
    ∷ (4, chars "SourceQuench")
    ∷ (5, chars "Redirect")
    ∷ (8, chars "Echo")
    ∷ (11, chars "TimeExceeded")
    ∷ (12, chars "ParameterProblem")
    ∷ (13, chars "Timestamp")
    ∷ (14, chars "TimestampReply")
    ∷ (15, chars "InformationRequest")
    ∷ (16, chars "InformationReply")
    ∷ []

unfoldable pub name_in : List (ℕ × List ℕ) → ℕ → List ℕ
name_in [] type = chars "Unknown"
name_in ((number, name) ∷ rest) type = if type == number then name else name_in rest type

unfoldable pub icmp_type_ntoa : ℕ → List ℕ
icmp_type_ntoa type = name_in icmp_type_names type

-- `checksum`, and `calculated_checksum`: `-hdr->sum` is an `int`, which the call makes a `uint32_t`.
unfoldable pub printed_sum : Host → List ℕ → ℕ
printed_sum h bytes = ntoh16 h (field16 h bytes 2)

unfoldable pub calculated_sum : Host → List ℕ → ℕ → ℕ
calculated_sum h bytes len = ntoh16 h (cksum16 h bytes len (2 ^ 32 - field16 h bytes 2))

unfoldable pub checksum_color : Host → List ℕ → ℕ → List ℕ
checksum_color h bytes len =
    if printed_sum h bytes == calculated_sum h bytes len then green else red

-- The switch on the type.
unfoldable pub type_lines : Host → List ℕ → List ℕ
type_lines h bytes =
    if (byte_at bytes 0 == icmp_type_echoreply) || (byte_at bytes 0 == icmp_type_echo)
    then printed (
        bold
        ∷ chars "         ID: "
        ∷ reset
        ∷ unsigned (ntoh16 h (field16 h bytes 4))
        ∷ chars "\n"
        ∷ [])
      ++ printed (
          bold
          ∷ chars "        Seq: "
          ∷ reset
          ∷ unsigned (ntoh16 h (field16 h bytes 6))
          ∷ chars "\n"
          ∷ [])
    else printed (
        bold
        ∷ chars "     Values: "
        ∷ reset
        ∷ chars "0x"
        ∷ hex_padded 8 (ntoh32 h (field32 h bytes 4))
        ∷ chars "\n"
        ∷ [])

unfoldable pub type_line : List ℕ → List ℕ
type_line bytes =
    let type = byte_at bytes 0 in
    printed (
      bold
      ∷ chars "       Type: "
      ∷ reset
      ∷ (if type == icmp_type_echo then yellow else green)
      ∷ icmp_type_ntoa type
      ∷ chars " ("
      ∷ unsigned type
      ∷ chars ")\n"
      ∷ [])

unfoldable pub sum_line : Host → List ℕ → ℕ → List ℕ
sum_line h bytes len = printed (
    bold
    ∷ chars "        Sum: "
    ∷ reset
    ∷ chars "0x"
    ∷ hex_padded 4 (printed_sum h bytes)
    ∷ chars " ("
    ∷ checksum_color h bytes len
    ∷ chars "0x"
    ∷ hex_padded 4 (calculated_sum h bytes len)
    ∷ reset
    ∷ chars ")\n"
    ∷ [])

unfoldable pub icmp_dump : Bool → Host → List ℕ → ℕ → List ℕ
icmp_dump full h bytes len =
    type_line bytes
    ++ (printed
          (bold ∷ chars "       Code: " ∷ reset ∷ unsigned (byte_at bytes 1) ∷ chars "\n" ∷ [])
        ++ (sum_line h bytes len
            ++ (type_lines h bytes ++ (if full then hexdump (take len bytes) else []))))
