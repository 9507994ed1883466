-- ===== src/Util/Checksum/Fill.antt =====
-- What the checksum is for: a filled-in sum makes the buffer verify, a change of one word shows,
-- and the two byte orders agree.
use llnstack.Base.{
  ℕ, zero, suc, ◌+◌, ◌-◌, ◌*◌, ◌%◌, ◌<◌, ◌≡◌, refl, ap, ◌⊎◌, arith, List, [], ◌∷◌, ◌++◌, All-append,
  length, length-append,
}
use native.Mathlib.Nat.{zero-add}
use llnstack.Util.Endian.{
  Host, little, big, byteswap16, store16, first_byte, second_byte, load16-store16,
}
use llnstack.Util.Checksum.{cksum16}
use llnstack.Util.Checksum.Residue.{
  IsBytes, words, residue, residue-pos, residue-zero, residue-le, cksum16-residue,
}

pub words-append :
    (h : Host) (xs ys : List ℕ) → length xs % 2 ≡ 0 → words h (xs ++ ys) ≡ words h xs + words h ys
unfolding words
words-append h [] ys e = omega arith
words-append h (a ∷ []) ys e = absurd (omega arith)
words-append h (a ∷ b ∷ xs) ys e = omega (arith, words-append h xs ys (omega arith))

-- A residue and its complement add up to a multiple of 65535 that is not zero.
residue_complement : (s : ℕ) → residue (s + (65535 - residue s)) ≡ 65535
unfolding residue
residue_complement zero = refl
residue_complement (suc n) = omega (
  arith,
  residue-pos (suc n) (omega arith),
  residue-pos (suc n + (65535 - residue (suc n))) (omega arith),
)

residue_detects :
    (t w v : ℕ)
    → w < 65536
    → v < 65536
    → 65535 - residue (t + w) ≡ 0
    → 65535 - residue (t + v) ≡ 0
    → (w ≡ v) ⊎ (((w ≡ 0) × (v ≡ 65535)) ⊎ ((w ≡ 65535) × (v ≡ 0)))
residue_detects t w v bw bv p q =
    ground (arith, residue-pos (t + w), residue-pos (t + v), residue-zero)

-- A buffer with the word `w` in the middle, at an even offset.
abbrev pub with_word : Host → List ℕ → ℕ → List ℕ → List ℕ
with_word h pre w post = pre ++ (first_byte h w ∷ second_byte h w ∷ post)

pub bytes_of_word : (h : Host) (w : ℕ) → (first_byte h w < 256) × (second_byte h w < 256)
bytes_of_word little w = omega arith
bytes_of_word big w = omega arith

module _ (h : Host) (pre post : List ℕ) (init : ℕ) where
  with_word-IsBytes : (w : ℕ) → IsBytes pre → IsBytes post → IsBytes (with_word h pre w post)
  with_word-IsBytes w p q = All-append _ pre _ p ((bytes_of_word h w).0, ((bytes_of_word h w).1, q))

  length-with_word : (w : ℕ) → length (with_word h pre w post) ≡ length pre + length post + 2
  length-with_word w =
      omega (arith, length-append {0} pre (first_byte h w ∷ second_byte h w ∷ post))

  words-with_word :
      (w : ℕ)
      → length pre % 2 ≡ 0
      → w < 65536
      → words h (with_word h pre w post) ≡ words h pre + words h post + w
  unfolding words
  words-with_word w e p =
      omega (
        arith,
        words-append h pre (first_byte h w ∷ second_byte h w ∷ post) e,
        load16-store16 h w p,
      )

  -- The checksum of the buffer as a function of the word in the middle.
  pub cksum16-with_word :
      (w : ℕ)
      → IsBytes pre
      → IsBytes post
      → length pre % 2 ≡ 0
      → length pre + length post + 2 < 65536
      → init < 65536
      → w < 65536
      → cksum16 h (with_word h pre w post) (length pre + length post + 2) init
        ≡ 65535 - residue (init + (words h pre + words h post + w))
  cksum16-with_word w p q e s i b = omega (
    arith,
    cksum16-residue h (with_word h pre w post) (length pre + length post + 2) init
        (with_word-IsBytes w p q) (omega (arith, length-with_word w))
        (omega (arith, length-with_word w)) i,
    ap (λ s. residue (init + s)) (words-with_word w e b),
  )

  -- In a buffer of fewer than 65536 bytes, a checksum taken with the word at some even place at
  -- zero, and then stored in that place, makes the buffer verify.
  pub cksum16-fill :
      IsBytes pre
      → IsBytes post
      → length pre % 2 ≡ 0
      → length pre + length post + 2 < 65536
      → init < 65536
      → let sum = cksum16 h (with_word h pre 0 post) (length pre + length post + 2) init in
        cksum16 h (with_word h pre sum post) (length pre + length post + 2) init ≡ 0
  cksum16-fill p q e s i =
      let s0 = init + (words h pre + words h post) in
      let c = cksum16 h (with_word h pre 0 post) (length pre + length post + 2) init in
      let ec : c ≡ 65535 - residue s0 = omega (
        arith,
        cksum16-with_word 0 p q e s i (omega arith),
        ap residue {x = init + (words h pre + words h post + 0)} {y = s0} (omega arith),
      ) in
      omega (
        arith,
        cksum16-with_word c p q e s i (omega (arith, ec)),
        ec,
        residue_complement s0,
        ap residue {x = init + (words h pre + words h post + c)} {y = s0 + (65535 - residue s0)}
            (omega (arith, ec)),
      )

  -- If the same buffer, of fewer than 65536 bytes, verifies with two words in one even place, the
  -- words are equal or are the two zeros of one's complement.
  pub cksum16_detects :
      (w v : ℕ)
      → IsBytes pre
      → IsBytes post
      → length pre % 2 ≡ 0
      → length pre + length post + 2 < 65536
      → init < 65536
      → w < 65536
      → v < 65536
      → cksum16 h (with_word h pre w post) (length pre + length post + 2) init ≡ 0
      → cksum16 h (with_word h pre v post) (length pre + length post + 2) init ≡ 0
      → (w ≡ v) ⊎ (((w ≡ 0) × (v ≡ 65535)) ⊎ ((w ≡ 65535) × (v ≡ 0)))
  cksum16_detects w v p q e s i bw bv zw zv =
      let t = init + (words h pre + words h post) in
      residue_detects t w v bw bv
        (omega (
          arith,
          cksum16-with_word w p q e s i bw,
          ap residue {x = init + (words h pre + words h post + w)} {y = t + w} (omega arith),
        ))
        (omega (
          arith,
          cksum16-with_word v p q e s i bv,
          ap residue {x = init + (words h pre + words h post + v)} {y = t + v} (omega arith),
        ))

-- The same bytes summed by words of either byte order.
words_orders :
    (bs : List ℕ)
    → length bs % 2 ≡ 0
    → (k : ℕ) × (words big bs + 65535 * k ≡ 256 * words little bs)
      × (words big bs ≡ 0 → words little bs ≡ 0)
unfolding words
words_orders [] e = (0, omega arith, λ z. omega arith)
words_orders (a ∷ []) e = absurd (omega arith)
words_orders (a ∷ b ∷ bs) e =
    let (k, p, z) = words_orders bs (omega arith) in
    (k + b, omega (arith, p), λ q. omega (arith, z (omega (arith, q))))

residue_orders :
    (l b k : ℕ) → b + 65535 * k ≡ 256 * l → (b ≡ 0 → l ≡ 0) → residue b ≡ byteswap16 (residue l)
unfolding residue
residue_orders zero zero k e z = refl
residue_orders zero (suc b) k e z = absurd (omega arith)
residue_orders (suc l) zero k e z = absurd (omega (arith, z refl))
residue_orders (suc l) (suc b) k e z = omega arith

-- On a buffer of fewer than 65536 bytes, an even number, the machines of either byte order compute
-- the same checksum, byte by byte as it is stored.
pub cksum16_orders :
    (bs : List ℕ) (count : ℕ)
    → IsBytes bs
    → count ≡ length bs
    → count % 2 ≡ 0
    → count < 65536
    → store16 big (cksum16 big bs count 0) ≡ store16 little (cksum16 little bs count 0)
cksum16_orders bs count p e v s =
    let (k, q, z) = words_orders bs (omega (arith, e)) in
    let r = residue_orders (words little bs) (words big bs) k q z in
    let cl = cksum16-residue little bs count 0 p e (omega arith) (omega arith) in
    let cb = cksum16-residue big bs count 0 p e (omega arith) (omega arith) in
    let lt = residue-le (words little bs) in
    ground (arith, zero-add (words little bs), zero-add (words big bs), cl, cb, r, lt)
