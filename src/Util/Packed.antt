-- ===== src/Util/Packed.antt =====
-- Packed structs in a buffer of bytes: a field at an offset, and a copy into an array.
use llnstack.Base.{ℕ, zero, suc, List, [], ◌∷◌, ◌++◌, take, drop}
use llnstack.Util.Endian.{Host, load16, load32}

-- The buffer's length is tested before a field is read, so the default is never used.
abbrev pub byte_at : List ℕ → ℕ → ℕ
byte_at [] i = 0
byte_at (b ∷ bs) zero = b
byte_at (b ∷ bs) (suc i) = byte_at bs i

abbrev pub field16 : Host → List ℕ → ℕ → ℕ
field16 h bs i = load16 h (byte_at bs i) (byte_at bs (suc i))

abbrev pub field32 : Host → List ℕ → ℕ → ℕ
field32 h bs i =
    load32 h (byte_at bs i) (byte_at bs (suc i)) (byte_at bs (suc (suc i)))
      (byte_at bs (suc (suc (suc i))))

-- memcpy(dst, src, n) into an array that has room for it.
abbrev pub copy_into : List ℕ → List ℕ → ℕ → List ℕ
copy_into dst src n = take n src ++ drop n dst
