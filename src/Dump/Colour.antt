-- ===== src/Dump/Colour.antt =====
-- The colour of the checksum in `icmp_dump`, and the test of `icmp_input`.
use llnstack.Base.{
  ℕ, ◌+◌, ◌-◌, ◌%◌, ◌^◌, ◌<◌, ◌≡◌, refl, ap, ◌∙◌, ◌&&◌, List, [], ◌∷◌, length, take_all, ◌==◌, ◌!=◌,
  if◌then◌else◌, arith,
}
use llnstack.Util.Endian.{Host, little, big, load16, load16-lt, ntoh16}
use llnstack.Util.Checksum.{add_words, cksum16}
use llnstack.Util.Checksum.Residue.{
  IsBytes, words, words-le, residue, residue-pos, residue-le, fold_carries-residue, cksum16-residue,
}
use llnstack.Dump.Icmp.{green, red, printed_sum, calculated_sum, checksum_color}

-- The additions of the loop, with their wrap.
add_words_wraps :
    (h : Host) (bs : List ℕ) (sum : ℕ)
    → sum < 2 ^ 32
    → add_words h bs sum ≡ (sum + words h bs) % 2 ^ 32
unfolding add_words words
add_words_wraps h [] sum p = omega arith
add_words_wraps h (a ∷ []) sum p = refl
add_words_wraps h (a ∷ b ∷ rest) sum p =
    omega (arith, add_words_wraps h rest ((sum + load16 h a b) % 2 ^ 32) (omega arith))

-- A sum that starts below zero, by no more than the words come to.
cksum16_below :
    (h : Host) (bs : List ℕ) (s w : ℕ)
    → length bs < 65536
    → s < 65536
    → words h bs ≡ s + w
    → w < 2 ^ 32
    → cksum16 h bs (length bs) (2 ^ 32 - s) ≡ 65535 - residue w
unfolding cksum16
cksum16_below h bs s w fits b is small = ground (
  arith,
  take_all (length bs % 65536) bs (omega arith),
  add_words_wraps h bs ((2 ^ 32 - s) % 2 ^ 32) (omega arith),
  fold_carries-residue w 0 small,
  residue-le w,
)

sums_compare :
    (s w : ℕ)
    → s < 65536
    → 0 < w
    → (s == 65535 - residue w) ≡ ((65535 - residue (s + w) == 0) && (s != 65535))
sums_compare s w b p = ground (arith, residue-pos w p, residue-pos (s + w) (omega arith))

ntoh16_compare :
    (h : Host) (a b : ℕ) → a < 65536 → b < 65536 → (ntoh16 h a == ntoh16 h b) ≡ (a == b)
ntoh16_compare little a b p q = ground arith
ntoh16_compare big a b p q = refl

-- The message's words but for the sum.
others : Host → ℕ → ℕ → List ℕ → ℕ
others h type code rest = load16 h type code + words h rest

nonzero : (h : Host) (type code : ℕ) (rest : List ℕ) → 0 < type → 0 < others h type code rest
unfolding others
nonzero little type code rest t = omega arith
nonzero big type code rest t = omega arith

-- `icmp_dump` prints the checksum of a whole message whose type is not 0 in green where `icmp_input` accepts
-- the checksum, and in red where it does not, but for a checksum of 0xffff, which is accepted and printed
-- in red.
pub checksum_color_lem :
    (h : Host) (type code a b : ℕ) (rest : List ℕ)
    → let bytes = type ∷ code ∷ a ∷ b ∷ rest in
      IsBytes bytes
      → 0 < type
      → length bytes < 65536
      → checksum_color h bytes (length bytes) ≡ (
          if (cksum16 h bytes (length bytes) 0 == 0) && (load16 h a b != 65535) then green else red)
unfolding checksum_color printed_sum calculated_sum words others
checksum_color_lem h type code a b rest v t fits =
    let bytes = type ∷ code ∷ a ∷ b ∷ rest in
    let w = others h type code rest in
    let small : load16 h a b < 65536 = load16-lt h a b v.1.1.0 v.1.1.1.0 in
    let sum : words h bytes ≡ load16 h a b + w = omega arith in
    let le = words-le h bytes v in
    let positive : 0 < w = nonzero h type code rest t in
    let calculated : cksum16 h bytes (length bytes) (2 ^ 32 - load16 h a b) ≡ 65535 - residue w =
      cksum16_below h bytes (load16 h a b) w fits small sum (omega arith) in
    let tested : cksum16 h bytes (length bytes) 0 ≡ 65535 - residue (load16 h a b + w) =
      cksum16-residue h bytes (length bytes) 0 v refl fits (omega arith)
      ∙ ap (λ n. 65535 - residue n) (omega (arith, sum)) in
    rw
      (
        calculated,
        ntoh16_compare h (load16 h a b) (65535 - residue w) small (omega arith),
        tested,
        sums_compare (load16 h a b) w small positive,
      )
      refl
