-- ===== src/Ip/Text/RoundTrip.antt =====
-- An address or an endpoint that is printed is read back.
use llnstack.Base.{
  ℕ, zero, suc, ◌+◌, ◌-◌, ◌*◌, ◌/◌, ◌%◌, ◌^◌, ◌≤◌, ◌<◌, ◌≡◌, refl, sym, ap, ◌∙◌, inl, inr, false,
  some, List, [], ◌∷◌, length, take_all, ltb, ltb→lt, lt→ltb, Bool-cases, arith,
}
use mathlib.Core.Path.{ap₂}
use llnstack.Util.Endian.{Host, little, big, store32}
use llnstack.Ip.Text.{
  digit, strtol_digits, starts_digit, strtol, after_octet, bad_octet, octets, address_of,
  ip_string_to_address, decimal, print_octet, print_octets, max_ip_address_string_length,
  ip_address_to_string,
}

-- 10 ^ fuel, the bound under which `decimal` has enough fuel.
abbrev pub ten_pow : ℕ → ℕ
ten_pow zero = 1
ten_pow (suc fuel) = 10 * ten_pow fuel

digit-decimal : (d : ℕ) → d < 10 → digit (48 + d) ≡ d
digit-decimal d p = ground arith

step_digit :
    (acc d : ℕ) (rest : List ℕ)
    → d < 10
    → strtol_digits 10 acc ((48 + d) ∷ rest) ≡ strtol_digits 10 (acc * 10 + d) rest
unfolding strtol_digits
step_digit acc d rest p = rw (digit-decimal d p) (rw (lt→ltb d 10 p) refl)

-- Reading the printed number leaves the value and goes on with what follows.
strtol_digits-decimal :
    (fuel n : ℕ) (rest : List ℕ)
    → n < ten_pow (suc fuel)
    → strtol_digits 10 0 (decimal (suc fuel) n rest) ≡ strtol_digits 10 n rest
unfolding decimal
strtol_digits-decimal zero n rest p =
    rw (lt→ltb n 10 p) (step_digit 0 n rest p ∙ ap (λ k. strtol_digits 10 k rest) (omega arith))
strtol_digits-decimal (suc fuel) n rest p = elim (Bool-cases (ltb n 10)) [
  | inl small ↦
      rw small
        (step_digit 0 n rest (ltb→lt n 10 small) ∙ ap (λ k. strtol_digits 10 k rest) (omega arith))
  | inr large ↦ rw large (
      strtol_digits-decimal fuel (n / 10) ((48 + n % 10) ∷ rest) (omega arith)
      ∙ step_digit (n / 10) (n % 10) rest (omega arith)
      ∙ ap (λ k. strtol_digits 10 k rest) (omega arith))
]

-- The number begins with a digit.
decimal-head :
    (fuel n : ℕ) (rest : List ℕ)
    → n < ten_pow (suc fuel)
    → (c : ℕ) × (s : List ℕ) × (decimal (suc fuel) n rest ≡ c ∷ s) × (48 ≤ c) × (c < 58)
unfolding decimal
decimal-head zero n rest p = (48 + n, rest, rw (lt→ltb n 10 p), omega arith, omega arith)
decimal-head (suc fuel) n rest p = elim (Bool-cases (ltb n 10)) [
  | inl small ↦ (48 + n, rest, rw small refl, omega arith, omega (arith, ltb→lt n 10 small))
  | inr large ↦
      let (c, s, e, lo, hi) = decimal-head fuel (n / 10) ((48 + n % 10) ∷ rest) (omega arith) in
      (c, s, rw large e, lo, hi)
]

strtol-digits :
    (c : ℕ) (s : List ℕ)
    → 48 ≤ c
    → c < 58
    → strtol 10 (c ∷ s)
      ≡ some (false, (strtol_digits 10 0 (c ∷ s)).0, (strtol_digits 10 0 (c ∷ s)).1)
unfolding strtol
strtol-digits c s lo hi = ground arith

strtol_digits-stop :
    (n : ℕ) (rest : List ℕ) → starts_digit 10 rest ≡ false → strtol_digits 10 n rest ≡ (n, rest)
unfolding strtol_digits
strtol_digits-stop n [] h = refl
strtol_digits-stop n (c ∷ s) h = rw h refl

-- `strtol` reads a printed number up to the first character that is no digit.
pub strtol-decimal :
    (fuel n : ℕ) (rest : List ℕ)
    → n < ten_pow (suc fuel)
    → starts_digit 10 rest ≡ false
    → strtol 10 (decimal (suc fuel) n rest) ≡ some (false, n, rest)
strtol-decimal fuel n rest p h =
    let (c, s, e, lo, hi) = decimal-head fuel n rest p in
    let r =
      ap (strtol_digits 10 0) (sym e)
      ∙ (strtol_digits-decimal fuel n rest p ∙ strtol_digits-stop n rest h) in
    ap (strtol 10) e
    ∙ strtol-digits c s lo hi
    ∙ ap₂ (λ v w. some (false, v, w)) (ap (λ t. t.0) r) (ap (λ t. t.1) r)

bad_octet-small : (b : ℕ) → b < 256 → bad_octet false b ≡ false
bad_octet-small b p = ground arith

octet_step :
    (n b : ℕ) (rest s : List ℕ) (bs : List ℕ)
    → b < 256
    → starts_digit 10 rest ≡ false
    → after_octet n rest ≡ some s
    → octets n s ≡ some bs
    → octets (suc n) (print_octet b rest) ≡ some (b ∷ bs)
unfolding octets
octet_step n b rest s bs p d a o =
    rw (strtol-decimal 2 b rest (omega arith) d, octets)
      (rw (bad_octet-small b p) (rw (a, octets) (rw (o, octets) refl)))

pub length-decimal :
    (fuel n : ℕ) (rest : List ℕ) → length (decimal fuel n rest) ≤ fuel + length rest
unfolding decimal
length-decimal zero n rest = omega arith
length-decimal (suc fuel) n rest =
    ground (arith, length-decimal fuel (n / 10) ((48 + n % 10) ∷ rest))

module _ (a b c d : ℕ) (pa : a < 256) (pb : b < 256) (pc : c < 256) (pd : d < 256) where
  dotted : List ℕ
  dotted = print_octets (a ∷ b ∷ c ∷ d ∷ []) []

  octets-dotted : octets 4 dotted ≡ some (a ∷ b ∷ c ∷ d ∷ [])
  unfolding dotted after_octet octets
  octets-dotted = octet_step 3 a (b'.' ∷ print_octets (b ∷ c ∷ d ∷ []) []) _ _ pa refl refl (
      octet_step 2 b (b'.' ∷ print_octets (c ∷ d ∷ []) []) _ _ pb refl refl (
        octet_step 1 c (b'.' ∷ print_octets (d ∷ []) []) _ _ pc refl refl
          (octet_step 0 d [] _ _ pd refl refl refl)))

  length-dotted : length dotted ≤ 15
  unfolding dotted
  length-dotted = omega (
    arith,
    length-decimal 3 d [],
    length-decimal 3 c (b'.' ∷ print_octets (d ∷ []) []),
    length-decimal 3 b (b'.' ∷ print_octets (c ∷ d ∷ []) []),
    length-decimal 3 a (b'.' ∷ print_octets (b ∷ c ∷ d ∷ []) []),
  )

address_read :
    (h : Host) (s bs : List ℕ)
    → octets 4 s ≡ some bs
    → ip_string_to_address h s ≡ some (address_of h bs)
unfolding ip_string_to_address
address_read h s bs e = rw (e, ip_string_to_address)

-- The text of an address: 15 characters at most, and read back.
pub printed_address : Host → ℕ → List ℕ
printed_address h n = print_octets (store32 h n) []

pub printed_address_lem :
    (h : Host) (n : ℕ)
    → n < 2 ^ 32
    → (length (printed_address h n) ≤ 15) × (ip_string_to_address h (printed_address h n) ≡ some n)
unfolding printed_address dotted
printed_address_lem little n p =
    let l = n % 256 in
    let b = n / 2 ^ 8 % 256 in
    let c = n / 2 ^ 16 % 256 in
    let d = n / 2 ^ 24 % 256 in
    (
      length-dotted l b c d (omega arith) (omega arith) (omega arith) (omega arith),
      address_read little _ _
            (octets-dotted l b c d (omega arith) (omega arith) (omega arith) (omega arith))
          ∙ ap some (omega arith),
    )
printed_address_lem big n p =
    let l = n % 256 in
    let b = n / 2 ^ 8 % 256 in
    let c = n / 2 ^ 16 % 256 in
    let d = n / 2 ^ 24 % 256 in
    (
      length-dotted d c b l (omega arith) (omega arith) (omega arith) (omega arith),
      address_read big _ _
            (octets-dotted d c b l (omega arith) (omega arith) (omega arith) (omega arith))
          ∙ ap some (omega arith),
    )

pub printed_fits :
    (h : Host) (n size : ℕ)
    → n < 2 ^ 32
    → max_ip_address_string_length ≤ size
    → ip_address_to_string h n size ≡ printed_address h n
unfolding ip_address_to_string printed_address
printed_fits h n size p q =
    take_all (size - 1) (printed_address h n) (omega (arith, (printed_address_lem h n p).0))

-- An address printed into an array of at least 16 characters is read back.
pub ip_address_round_trip :
    (h : Host) (n size : ℕ)
    → n < 2 ^ 32
    → max_ip_address_string_length ≤ size
    → ip_string_to_address h (ip_address_to_string h n size) ≡ some n
ip_address_round_trip h n size p q = rw (printed_fits h n size p q) ((printed_address_lem h n p).1)
