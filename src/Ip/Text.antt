-- ===== src/Ip/Text.antt =====
-- The texts of src/lib/ip.c for addresses and endpoints. A C string is the list of its characters
-- without the NUL. `strtol` is the C library's, in the part that the stack uses.
pub mod RoundTrip
pub mod Endpoints
use llnstack.Base.{
  ℕ, zero, suc, ◌+◌, ◌-◌, ◌*◌, ◌/◌, ◌%◌, Bool, true, false, not, ◌&&◌, ◌||◌, Option, none, some,
  List, [], ◌∷◌, ◌++◌, length, take, ltb, leb, ◌==◌, ◌!=◌, if◌then◌else◌,
}
use llnstack.Util.Endian.{Host, hton16, ntoh16, load32, store32}
use llnstack.Util.Packed.{byte_at}

-- isspace in the C locale
abbrev pub is_space : ℕ → Bool
is_space c = (c == 32) || (leb 9 c && leb c 13)

-- The value of a character as a digit; 36 is no digit in any base.
abbrev pub digit : ℕ → ℕ
digit c =
    if leb b'0' c && leb c b'9'
    then c - 48
    else (if leb b'a' c && leb c b'z'
        then c - 87
        else (if leb b'A' c && leb c b'Z' then c - 55 else 36))

unfoldable pub skip_space : List ℕ → List ℕ
skip_space [] = []
skip_space (c ∷ s) = if is_space c then skip_space s else c ∷ s

-- The digits that follow, on top of `acc`, and what comes after them.
unfoldable pub strtol_digits : ℕ → ℕ → List ℕ → ℕ × List ℕ
strtol_digits base acc [] = (acc, [])
strtol_digits base acc (c ∷ s) =
    if ltb (digit c) base then strtol_digits base (acc * base + digit c) s else (acc, c ∷ s)

abbrev pub starts_digit : ℕ → List ℕ → Bool
starts_digit base [] = false
starts_digit base (c ∷ s) = ltb (digit c) base

-- The sign (true for a minus) and what comes after it.
abbrev pub strtol_sign : List ℕ → Bool × List ℕ
strtol_sign [] = (false, [])
strtol_sign (c ∷ s) =
    if c == b'-' then (true, s) else (if c == b'+' then (false, s) else (false, c ∷ s))

-- strtol(s, &end, base): the sign, the magnitude, and `end`; `none` if there is no number, where
-- `end` is `s`. The magnitude is not cut to a `long`: the code only asks whether it is below a bound.
unfoldable pub strtol : ℕ → List ℕ → Option (Bool × ℕ × List ℕ)
unfolding strtol_digits skip_space
strtol base s =
    let (minus, s') = strtol_sign (skip_space s) in
    let (value, rest) = strtol_digits base 0 s' in
    if starts_digit base s' then some (minus, value, rest) else none

-- What must follow the octet with `n` more to come: a dot, or the end.
unfoldable pub after_octet : ℕ → List ℕ → Option (List ℕ)
after_octet zero [] = some []
after_octet zero (c ∷ s) = none
after_octet (suc n) [] = none
after_octet (suc n) (c ∷ s) = if c == b'.' then some s else none

-- `ret < 0 || ret > 255`
abbrev pub bad_octet : Bool → ℕ → Bool
bad_octet minus value = (minus && (value != 0)) || ltb 255 value

-- The loop of `ip_string_to_address` with `n` octets to read: the bytes written.
unfoldable pub octets : ℕ → List ℕ → Option (List ℕ)
octets zero s = some []
octets (suc n) s = elim (strtol 10 s) [
  | none ↦ none
  | some (minus, value, rest) ↦ if bad_octet minus value then none else (elim (after_octet n rest) [
    | none ↦ none
    | some s' ↦ elim (octets n s') [ none ↦ none | some bs ↦ some (value ∷ bs) ]
  ])
]

-- The four bytes as the `uint32_t` that they are in memory.
abbrev pub address_of : Host → List ℕ → ℕ
address_of h bs = load32 h (byte_at bs 0) (byte_at bs 1) (byte_at bs 2) (byte_at bs 3)

unfoldable pub ip_string_to_address : Host → List ℕ → Option ℕ
ip_string_to_address h s = elim (octets 4 s) [ none ↦ none | some bs ↦ some (address_of h bs) ]

-- "%d" of a number below 10 ^ fuel, in front of `rest`.
unfoldable pub decimal : ℕ → ℕ → List ℕ → List ℕ
decimal zero n rest = rest
decimal (suc fuel) n rest =
    let more = decimal fuel (n / 10) ((48 + n % 10) ∷ rest) in
    if ltb n 10 then (48 + n) ∷ rest else more

-- An octet has three digits at most, a port five.
abbrev pub print_octet : ℕ → List ℕ → List ℕ
print_octet n rest = decimal 3 n rest

abbrev pub print_port : ℕ → List ℕ → List ℕ
print_port n rest = decimal 5 n rest

-- snprintf(p, size, ...) keeps what fits beside the NUL.
abbrev pub fitting : ℕ → List ℕ → List ℕ
fitting size s = take (size - 1) s

abbrev pub print_octets : List ℕ → List ℕ → List ℕ
print_octets [] rest = rest
print_octets (b ∷ []) rest = print_octet b rest
print_octets (b ∷ c ∷ bs) rest = print_octet b (b'.' ∷ print_octets (c ∷ bs) rest)

unfoldable pub ip_address_to_string : Host → ℕ → ℕ → List ℕ
ip_address_to_string h n size = fitting size (print_octets (store32 h n) [])

-- `struct IP_ENDPOINT`; the port is in network byte order.
pub record Endpoint : Type 0 where
  pub address : ℕ
  pub port : ℕ

abbrev pub max_ip_address_string_length : ℕ
max_ip_address_string_length = 16

-- strrchr: what is before the last colon, and what is after it.
unfoldable pub last_colon : List ℕ → Option (List ℕ × List ℕ)
last_colon [] = none
last_colon (c ∷ s) = elim (last_colon s) [
  | some (before, after) ↦ some (c ∷ before, after)
  | none ↦ if c == b':' then some ([], s) else none
]

-- `overrun`: the host part does not fit the array of 16 characters that it is copied to.
pub data Parsed : Type 0 where
  endpoint : Endpoint → Parsed
  refused overrun : Parsed

-- `port <= 0 || port > UINT16_MAX`
abbrev pub bad_port : Bool → ℕ → Bool
bad_port minus value = minus || (value == 0) || ltb 65535 value

pub parse_port : Host → ℕ → List ℕ → Parsed
parse_port h address s = elim (strtol 10 s) [
  | none ↦ refused
  | some (minus, value, rest) ↦
      if bad_port minus value
      then refused
      else endpoint (record { address = address; port = hton16 h value })
]

-- A host part of 16 characters leaves no room for a NUL: the parser then reads on behind the array, where the
-- characters `beyond` stand before the next NUL.
unfoldable pub ip_string_to_endpoint : Host → List ℕ → List ℕ → Parsed
unfolding parse_port
ip_string_to_endpoint h beyond s = elim (last_colon s) [
  | none ↦ refused
  | some (addr, after) ↦
      let read = if ltb (length addr) max_ip_address_string_length then addr else addr ++ beyond in
      if ltb max_ip_address_string_length (length addr)
      then overrun
      else (elim (ip_string_to_address h read) [
        | none ↦ refused
        | some address ↦ parse_port h address after
      ])
]

unfoldable pub ip_endpoint_to_string : Host → Endpoint → ℕ → List ℕ
unfolding ip_address_to_string
ip_endpoint_to_string h n size =
    let p = ip_address_to_string h n.address size in
    p ++ fitting (size - length p) (b':' ∷ print_port (ntoh16 h n.port) [])
