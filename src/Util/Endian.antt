-- ===== src/Util/Endian.antt =====
-- Byte order: the conversions of src/lib/util.c, and how a 16-bit or 32-bit field of a packed
-- struct lies in memory. Shifts and the masks 0xff, 0xff00, ... are written as `/`, `%` and `*`,
-- and `|` of parts with no common bit as `+`.
use llnstack.Base.{
  ℕ, ◌+◌, ◌*◌, ◌/◌, ◌%◌, ◌^◌, ◌<◌, ◌≡◌, ◌==◌, if◌then◌else◌, ◌⊎◌, inl, inr, arith, List, [], ◌∷◌,
}

-- The machine the stack is compiled for.
pub data Host : Type 0 where
  little big : Host

abbrev pub little_endian : ℕ
little_endian = 1234

abbrev pub big_endian : ℕ
big_endian = 4321

-- The byte at the address of the `uint32_t` 1.
abbrev pub first_byte_of_one : Host → ℕ
first_byte_of_one little = 1
first_byte_of_one big = 0

unfoldable pub byteorder : Host → ℕ
byteorder h = if first_byte_of_one h == 0 then big_endian else little_endian

-- (v & 0x00ff) << 8 | (v & 0xff00) >> 8
abbrev pub byteswap16 : ℕ → ℕ
byteswap16 v = v % 256 * 256 + v / 256 % 256

abbrev pub byteswap32 : ℕ → ℕ
byteswap32 v =
    v % 256 * 2 ^ 24 + v / 2 ^ 8 % 256 * 2 ^ 16 + v / 2 ^ 16 % 256 * 2 ^ 8 + v / 2 ^ 24 % 256

-- A call as the code makes it: the static variable `endian` comes in and goes out beside the
-- result.
module _ (h : Host) where
  unfoldable pub endian_after : ℕ → ℕ
  endian_after endian = if endian == 0 then byteorder h else endian

  unfoldable pub hton16_call : ℕ → ℕ → ℕ
  hton16_call endian v = if endian_after endian == little_endian then byteswap16 v else v

  unfoldable pub hton32_call : ℕ → ℕ → ℕ
  hton32_call endian v = if endian_after endian == little_endian then byteswap32 v else v

-- What a call returns whatever the static variable holds (`endian_lem` below).
abbrev pub hton16 : Host → ℕ → ℕ
hton16 little v = byteswap16 v
hton16 big v = v

abbrev pub ntoh16 : Host → ℕ → ℕ
ntoh16 little v = byteswap16 v
ntoh16 big v = v

abbrev pub hton32 : Host → ℕ → ℕ
hton32 little v = byteswap32 v
hton32 big v = v

abbrev pub ntoh32 : Host → ℕ → ℕ
ntoh32 little v = byteswap32 v
ntoh32 big v = v

-- Whether `endian` is still unset or was set by an earlier call, `hton16` and `hton32` convert by
-- the byte order of the machine, and leave `endian` set to it.
pub endian_lem :
    (h : Host) (endian v : ℕ)
    → (endian ≡ 0) ⊎ (endian ≡ byteorder h)
    → (endian_after h endian ≡ byteorder h)
      × (hton16_call h endian v ≡ hton16 h v)
      × (hton32_call h endian v ≡ hton32 h v)
unfolding endian_after hton16_call hton32_call byteorder
endian_lem little endian v (inl e) = ground arith
endian_lem little endian v (inr e) = ground arith
endian_lem big endian v (inl e) = ground arith
endian_lem big endian v (inr e) = ground arith

-- A 16-bit field: its first and second byte in memory, and the value of two bytes.
abbrev pub first_byte : Host → ℕ → ℕ
first_byte little v = v % 256
first_byte big v = v / 256 % 256

abbrev pub second_byte : Host → ℕ → ℕ
second_byte little v = v / 256 % 256
second_byte big v = v % 256

abbrev pub load16 : Host → ℕ → ℕ → ℕ
load16 little a b = a + 256 * b
load16 big a b = 256 * a + b

abbrev pub store16 : Host → ℕ → List ℕ
store16 h v = first_byte h v ∷ second_byte h v ∷ []

-- A 32-bit field.
abbrev pub load32 : Host → ℕ → ℕ → ℕ → ℕ → ℕ
load32 little a b c d = a + 256 * b + 65536 * c + 2 ^ 24 * d
load32 big a b c d = 2 ^ 24 * a + 65536 * b + 256 * c + d

abbrev pub store32 : Host → ℕ → List ℕ
store32 little v = (v % 256) ∷ (v / 2 ^ 8 % 256) ∷ (v / 2 ^ 16 % 256) ∷ (v / 2 ^ 24 % 256) ∷ []
store32 big v = (v / 2 ^ 24 % 256) ∷ (v / 2 ^ 16 % 256) ∷ (v / 2 ^ 8 % 256) ∷ (v % 256) ∷ []

pub load16-store16 :
    (h : Host) (v : ℕ) → v < 65536 → load16 h (first_byte h v) (second_byte h v) ≡ v
load16-store16 little v p = omega arith
load16-store16 big v p = omega arith

pub load16-lt : (h : Host) (a b : ℕ) → a < 256 → b < 256 → load16 h a b < 65536
load16-lt little a b p q = omega arith
load16-lt big a b p q = omega arith

-- `ntoh16` undoes `hton16`, and both stay in 16 bits.
pub ntoh16-hton16 :
    (h : Host) (v : ℕ) → v < 65536 → (ntoh16 h (hton16 h v) ≡ v) × (hton16 h v < 65536)
ntoh16-hton16 little v p = omega arith
ntoh16-hton16 big v p = omega arith

pub ntoh32-hton32 :
    (h : Host) (v : ℕ) → v < 2 ^ 32 → (ntoh32 h (hton32 h v) ≡ v) × (hton32 h v < 2 ^ 32)
ntoh32-hton32 little v p = omega arith
ntoh32-hton32 big v p = omega arith

-- A converted value lies in memory with its high byte first, on either machine.
pub network_order :
    (h : Host) (v : ℕ) → v < 65536 → store16 h (hton16 h v) ≡ (v / 256) ∷ (v % 256) ∷ []
network_order little v p = ground arith
network_order big v p = ground arith

pub load16_network :
    (h : Host) (v : ℕ)
    → v < 65536
    → ntoh16 h (load16 h (first_byte h (hton16 h v)) (second_byte h (hton16 h v))) ≡ v
load16_network little v p = omega arith
load16_network big v p = omega arith
