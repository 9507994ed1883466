-- ===== src/Tests/Util.antt =====
-- The theorems on src/lib/util.c and handler/synchronize.c at concrete inputs.
use llnstack.Base.{ℕ, ◌+◌, ◌-◌, ◌≡◌, refl, none, some, List, [], ◌∷◌, ◌++◌, arith}
use llnstack.Util.Endian.{little, big}
use llnstack.Util.Checksum.{add_words, fold_carries, cksum16}
use llnstack.Util.Checksum.Residue.{IsBytes, words, residue, cksum16-residue}
use llnstack.Util.Checksum.Fill.{with_word}
use llnstack.Util.Queue.{Memory, queue_init, queue_push}
use llnstack.Util.Queue.Refine.{
  Holds, Pops, queue_init-Holds, queue_push-refines, queue_pop-refines,
}

-- Four bytes that do not verify, and an odd number of them.
abbrev bytes : List ℕ
bytes = 69 ∷ 0 ∷ 1 ∷ 44 ∷ []

abbrev odd_bytes : List ℕ
odd_bytes = 7 ∷ 8 ∷ 9 ∷ []

odd_bytes-IsBytes : IsBytes odd_bytes
odd_bytes-IsBytes = (omega arith, (omega arith, (omega arith, tt)))

cksum16_big : cksum16 big bytes 4 0 ≡ 65535 - (17664 + 300)
unfolding cksum16 fold_carries add_words
cksum16_big = refl

cksum16-residue_example :
    cksum16 little odd_bytes 3 5 ≡ 65535 - residue (5 + words little odd_bytes)
cksum16-residue_example =
    cksum16-residue little odd_bytes 3 5 odd_bytes-IsBytes refl (omega arith) (omega arith)

-- The word that makes the buffer with `bytes` before it verify, with and without the other zero.
full_verifies : cksum16 big (with_word big [] 65535 []) 2 0 ≡ 0
unfolding cksum16 fold_carries add_words
full_verifies = refl

abbrev full : ℕ
full = 65535

-- An empty heap with an uninitialised queue.
abbrev memory : Memory ℕ
memory = record { queue = record { head = some 9; tail = none; num = 3 }; cell = λ p. none }

queue_push-refines_example :
    (m' : Memory ℕ) × (queue_push (some 40) (some (queue_init memory)) 5 ≡ some (some m', some 5))
    × Holds m' ([] ++ 5 ∷ [])
unfolding queue_init
queue_push-refines_example =
    queue_push-refines (queue_init memory) [] 40 5 (queue_init-Holds memory) refl

pushed_one :
    (m' : Memory ℕ) × (queue_push (some 40) (some (queue_init memory)) 5 ≡ some (some m', some 5))
    × Holds m' ([] ++ 5 ∷ [])
unfolding queue_init
pushed_one = queue_push-refines (queue_init memory) [] 40 5 (queue_init-Holds memory) refl

queue_pop-refines_example : Pops pushed_one.0 (5 ∷ [])
queue_pop-refines_example = queue_pop-refines pushed_one.0 (5 ∷ []) pushed_one.2
