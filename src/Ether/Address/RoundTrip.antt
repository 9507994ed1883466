-- ===== src/Ether/Address/RoundTrip.antt =====
-- A hardware address that is printed is read back.
use llnstack.Base.{
  ℕ, suc, ◌+◌, ◌-◌, ◌*◌, ◌/◌, ◌%◌, ◌≤◌, ◌<◌, ◌≡◌, refl, ap, ◌∙◌, Bool, true, false, Option, none,
  some, List, [], ◌∷◌, take_all, lt→ltb, if◌then◌else◌, arith,
}
use llnstack.Ip.Text.{digit, skip_space, strtol_digits, strtol_sign, starts_digit, bad_octet}
use llnstack.Ether.Address.{
  skip_prefix, strtol_hex, after_byte, hex_bytes, ether_addr_pton, hex_digit, print_byte,
  print_bytes, ether_addr_str_len, ether_addr_ntop,
}

digit-hex_digit : (d : ℕ) → d < 16 → digit (hex_digit d) ≡ d
digit-hex_digit d p = ground arith

step_hex :
    (acc d : ℕ) (rest : List ℕ)
    → d < 16
    → strtol_digits 16 acc (hex_digit d ∷ rest) ≡ strtol_digits 16 (acc * 16 + d) rest
unfolding strtol_digits
step_hex acc d rest p = rw (digit-hex_digit d p) (rw (lt→ltb d 16 p) refl)

stop_hex :
    (n : ℕ) (rest : List ℕ) → starts_digit 16 rest ≡ false → strtol_digits 16 n rest ≡ (n, rest)
unfolding strtol_digits
stop_hex n [] h = refl
stop_hex n (c ∷ s) h = rw h refl

-- Neither digit is a space, a sign or an x.
no_space : (d : ℕ) (s : List ℕ) → d < 16 → skip_space (hex_digit d ∷ s) ≡ hex_digit d ∷ s
unfolding skip_space
no_space d s p = ground arith

no_sign : (d : ℕ) (s : List ℕ) → d < 16 → strtol_sign (hex_digit d ∷ s) ≡ (false, hex_digit d ∷ s)
no_sign d s p = ground arith

no_prefix :
    (c d : ℕ) (s : List ℕ) → d < 16 → skip_prefix (c ∷ hex_digit d ∷ s) ≡ c ∷ hex_digit d ∷ s
unfolding skip_prefix
no_prefix c d s p = ground arith

digits_read :
    (b : ℕ) (rest : List ℕ)
    → b < 256
    → starts_digit 16 rest ≡ false
    → strtol_digits 16 0 (print_byte b rest) ≡ (b, rest)
digits_read b rest p h =
    step_hex 0 (b / 16) (hex_digit (b % 16) ∷ rest) (omega arith)
    ∙ step_hex (0 * 16 + b / 16) (b % 16) rest (omega arith)
    ∙ ap (λ k. strtol_digits 16 k rest) (omega arith)
    ∙ stop_hex b rest h

starts_hex : (d : ℕ) (s : List ℕ) → d < 16 → starts_digit 16 (hex_digit d ∷ s) ≡ true
starts_hex d s p = rw (digit-hex_digit d p) (lt→ltb d 16 p)

-- After no space, no sign and no prefix come the digits.
from_sign : Bool × List ℕ → Option (Bool × ℕ × List ℕ)
from_sign (minus, s') =
    let digits = skip_prefix s' in
    if starts_digit 16 digits
    then some (minus, (strtol_digits 16 0 digits).0, (strtol_digits 16 0 digits).1)
    else none

from_digits : List ℕ → Option (Bool × ℕ × List ℕ)
from_digits digits =
    if starts_digit 16 digits
    then some (false, (strtol_digits 16 0 digits).0, (strtol_digits 16 0 digits).1)
    else none

plain_read :
    (s rest : List ℕ) (b : ℕ)
    → skip_space s ≡ s
    → strtol_sign s ≡ (false, s)
    → skip_prefix s ≡ s
    → starts_digit 16 s ≡ true
    → strtol_digits 16 0 s ≡ (b, rest)
    → strtol_hex s ≡ some (false, b, rest)
unfolding strtol_hex from_sign from_digits
plain_read s rest b sp si pr st di =
    ap (λ t. from_sign (strtol_sign t)) sp
    ∙ ap from_sign si
    ∙ ap from_digits pr
    ∙ rw st (ap (λ r. some (false, r.0, r.1)) di)

strtol_hex-print_byte :
    (b : ℕ) (rest : List ℕ)
    → b < 256
    → starts_digit 16 rest ≡ false
    → strtol_hex (print_byte b rest) ≡ some (false, b, rest)
strtol_hex-print_byte b rest p h =
    let s = hex_digit (b % 16) ∷ rest in
    plain_read (print_byte b rest) rest b (no_space (b / 16) s (omega arith))
      (no_sign (b / 16) s (omega arith))
      (no_prefix (hex_digit (b / 16)) (b % 16) rest (omega arith))
      (starts_hex (b / 16) s (omega arith)) (digits_read b rest p h)

byte_step :
    (n b : ℕ) (rest s : List ℕ) (bs : List ℕ)
    → b < 256
    → starts_digit 16 rest ≡ false
    → after_byte n rest ≡ some s
    → hex_bytes n s ≡ some bs
    → hex_bytes (suc n) (print_byte b rest) ≡ some (b ∷ bs)
unfolding hex_bytes
byte_step n b rest s bs p d a o =
    let small : bad_octet false b ≡ false = ground arith in
    rw (strtol_hex-print_byte b rest p d, hex_bytes)
      (rw small (rw (a, hex_bytes) (rw (o, hex_bytes) refl)))

-- An address of six bytes, printed into an array of at least 18 characters, is read back.
pub ether_addr_round_trip :
    (a b c d e f size : ℕ)
    → a < 256
    → b < 256
    → c < 256
    → d < 256
    → e < 256
    → f < 256
    → ether_addr_str_len ≤ size
    → let n = a ∷ b ∷ c ∷ d ∷ e ∷ f ∷ [] in ether_addr_pton (ether_addr_ntop n size) ≡ some n
unfolding ether_addr_pton ether_addr_ntop after_byte
ether_addr_round_trip a b c d e f size pa pb pc pd pe pf fits =
    ap ether_addr_pton
      (take_all (size - 1) (print_bytes (a ∷ b ∷ c ∷ d ∷ e ∷ f ∷ []) []) (omega arith))
    ∙ byte_step 5 a (b':' ∷ print_bytes (b ∷ c ∷ d ∷ e ∷ f ∷ []) []) _ _ pa refl refl (
        byte_step 4 b (b':' ∷ print_bytes (c ∷ d ∷ e ∷ f ∷ []) []) _ _ pb refl refl (
          byte_step 3 c (b':' ∷ print_bytes (d ∷ e ∷ f ∷ []) []) _ _ pc refl refl (
            byte_step 2 d (b':' ∷ print_bytes (e ∷ f ∷ []) []) _ _ pd refl refl (
              byte_step 1 e (b':' ∷ print_bytes (f ∷ []) []) _ _ pe refl refl
                (byte_step 0 f [] _ _ pf refl refl refl)))))
