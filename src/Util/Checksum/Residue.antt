-- ===== src/Util/Checksum/Residue.antt =====
-- The value of `cksum16`: the sum of the words modulo 65535, as a one's complement number.
use llnstack.Base.{
  ℕ, zero, suc, ◌+◌, ◌-◌, ◌*◌, ◌/◌, ◌%◌, ◌^◌, ◌≤◌, ◌<◌, ◌≡◌, refl, arith, List, [], ◌∷◌, All,
  length, take_all,
}
use llnstack.Util.Endian.{Host, load16, load16-lt}
use llnstack.Util.Checksum.{add_words, fold_carries, cksum16}

abbrev pub IsBytes : List ℕ → Type 0
IsBytes = All (λ b. b < 256)

-- The sum with no bound on its size.
unfoldable pub words : Host → List ℕ → ℕ
words h [] = 0
words h (a ∷ []) = a
words h (a ∷ b ∷ rest) = load16 h a b + words h rest

-- 0 stays 0, and any other number is brought into 1 ... 65535 by steps of 65535.
unfoldable pub residue : ℕ → ℕ
residue zero = 0
residue (suc n) = n % 65535 + 1

pub words-le : (h : Host) (bs : List ℕ) → IsBytes bs → words h bs ≤ 32768 * length bs
unfolding words
words-le h [] p = omega arith
words-le h (a ∷ []) p = omega arith
words-le h (a ∷ b ∷ rest) p = omega (arith, words-le h rest p.1.1, load16-lt h a b p.0 p.1.0)

-- No 32-bit addition of the loop wraps.
pub add_words-words :
    (h : Host) (bs : List ℕ) (sum : ℕ)
    → sum + words h bs < 2 ^ 32
    → add_words h bs sum ≡ sum + words h bs
unfolding add_words words
add_words-words h [] sum p = omega arith
add_words-words h (a ∷ []) sum p = omega arith
add_words-words h (a ∷ b ∷ rest) sum p =
    omega (arith, add_words-words h rest ((sum + load16 h a b) % 2 ^ 32) (omega arith))

pub residue-pos : (s : ℕ) → 0 < s → residue s ≡ (s - 1) % 65535 + 1
unfolding residue
residue-pos zero p = absurd (omega arith)
residue-pos (suc n) p = omega arith

pub residue-zero : residue 0 ≡ 0
unfolding residue
residue-zero = refl

residue-eq_step :
    (s t : ℕ) → (s ≡ 0 → t ≡ 0) → (t ≡ 0 → s ≡ 0) → s % 65535 ≡ t % 65535 → residue s ≡ residue t
unfolding residue
residue-eq_step zero zero p q e = refl
residue-eq_step zero (suc t) p q e = absurd (omega (arith, p refl))
residue-eq_step (suc s) zero p q e = absurd (omega (arith, q refl))
residue-eq_step (suc s) (suc t) p q e = omega arith

pub residue-le : (s : ℕ) → residue s ≤ 65535
unfolding residue
residue-le zero = omega arith
residue-le (suc n) = omega arith

residue-fold : (s : ℕ) → residue (s % 65536 + s / 65536) ≡ residue s
residue-fold s = residue-eq_step _ s (λ e. omega arith) (λ e. omega arith) (omega arith)

residue-small : (s : ℕ) → s < 65536 → residue s ≡ s
unfolding residue
residue-small zero p = refl
residue-small (suc n) p = omega arith

-- The loop on the carries has ended after two rounds, whatever fuel is left, at the residue.
pub fold_carries-residue : (s k : ℕ) → s < 2 ^ 32 → fold_carries (suc (suc (suc k))) s ≡ residue s
unfolding fold_carries
fold_carries-residue s k p = ground (
  arith,
  residue-fold s,
  residue-fold (s % 65536 + s / 65536),
  residue-small s,
  residue-small (s % 65536 + s / 65536),
  residue-small ((s % 65536 + s / 65536) % 65536 + (s % 65536 + s / 65536) / 65536),
)

-- The sum of at most 65535 bytes and a 16-bit start fits 32 bits.
words-fits :
    (h : Host) (bs : List ℕ) (init : ℕ)
    → IsBytes bs
    → length bs < 65536
    → init < 65536
    → init + words h bs < 2 ^ 32
words-fits h bs init p q r = omega (arith, words-le h bs p)

-- `cksum16` of a whole buffer of fewer than 65536 bytes, with an initial sum of 16 bits, is the
-- complement of the residue of the sum of its words.
pub cksum16-residue :
    (h : Host) (bs : List ℕ) (count init : ℕ)
    → IsBytes bs
    → count ≡ length bs
    → length bs < 65536
    → init < 65536
    → cksum16 h bs count init ≡ 65535 - residue (init + words h bs)
unfolding cksum16
cksum16-residue h bs count init p e q r = ground (
  arith,
  take_all (count % 65536) bs,
  words-fits h bs init p q r,
  add_words-words h bs init,
  fold_carries-residue (init + words h bs) 0,
  residue-le (init + words h bs),
)
