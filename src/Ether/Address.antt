-- ===== src/Ether/Address.antt =====
-- Hardware addresses as text: `ether_addr_pton` and `ether_addr_ntop` of src/lib/ether.c.
pub mod RoundTrip
use llnstack.Base.{
  ℕ, zero, suc, ◌+◌, ◌-◌, ◌/◌, ◌%◌, Bool, true, false, ◌&&◌, ◌||◌, Option, none, some, List, [],
  ◌∷◌, ltb, ◌==◌, if◌then◌else◌,
}
use llnstack.Ip.Text.{skip_space, strtol_digits, strtol_sign, starts_digit, bad_octet, fitting}

-- "0x" or "0X" is skipped where a digit follows.
unfoldable pub skip_prefix : List ℕ → List ℕ
skip_prefix [] = []
skip_prefix (c ∷ []) = c ∷ []
skip_prefix (c ∷ d ∷ s) =
    if (c == b'0') && ((d == b'x') || (d == b'X')) && starts_digit 16 s then s else c ∷ d ∷ s

-- strtol(s, &end, 16), as `strtol` of src/lib/ip.c's texts.
unfoldable pub strtol_hex : List ℕ → Option (Bool × ℕ × List ℕ)
unfolding skip_prefix
strtol_hex s =
    let (minus, s') = strtol_sign (skip_space s) in
    let digits = skip_prefix s' in
    let (value, rest) = strtol_digits 16 0 digits in
    if starts_digit 16 digits then some (minus, value, rest) else none

-- What must follow the byte with `n` more to come: a colon, or the end.
unfoldable pub after_byte : ℕ → List ℕ → Option (List ℕ)
after_byte zero [] = some []
after_byte zero (c ∷ s) = none
after_byte (suc n) [] = none
after_byte (suc n) (c ∷ s) = if c == b':' then some s else none

-- The loop of `ether_addr_pton` with `n` bytes to read.
unfoldable pub hex_bytes : ℕ → List ℕ → Option (List ℕ)
hex_bytes zero s = some []
hex_bytes (suc n) s = elim (strtol_hex s) [
  | none ↦ none
  | some (minus, value, rest) ↦ if bad_octet minus value then none else (elim (after_byte n rest) [
    | none ↦ none
    | some s' ↦ elim (hex_bytes n s') [ none ↦ none | some bs ↦ some (value ∷ bs) ]
  ])
]

-- The bytes written where 0 is returned; where it is -1 the callers drop the array.
unfoldable pub ether_addr_pton : List ℕ → Option (List ℕ)
unfolding hex_bytes
ether_addr_pton p = hex_bytes 6 p

-- "%02x" of a byte, in front of `rest`.
abbrev pub hex_digit : ℕ → ℕ
hex_digit d = if ltb d 10 then 48 + d else 87 + d

abbrev pub print_byte : ℕ → List ℕ → List ℕ
print_byte b rest = hex_digit (b / 16) ∷ hex_digit (b % 16) ∷ rest

abbrev pub print_bytes : List ℕ → List ℕ → List ℕ
print_bytes [] rest = rest
print_bytes (b ∷ []) rest = print_byte b rest
print_bytes (b ∷ c ∷ bs) rest = print_byte b (b':' ∷ print_bytes (c ∷ bs) rest)

abbrev pub ether_addr_str_len : ℕ
ether_addr_str_len = 18

-- The address has six bytes.
unfoldable pub ether_addr_ntop : List ℕ → ℕ → List ℕ
ether_addr_ntop n size = fitting size (print_bytes n [])
