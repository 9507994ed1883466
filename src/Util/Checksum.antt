-- ===== src/Util/Checksum.antt =====
-- `cksum16` of src/lib/util.c, the Internet checksum, over the bytes at `addr`.
pub mod Residue
pub mod Fill
use llnstack.Base.{ℕ, zero, suc, ◌+◌, ◌-◌, ◌/◌, ◌%◌, ◌^◌, true, false, ltb, List, [], ◌∷◌, take}
use llnstack.Util.Endian.{Host, load16}

-- Both loops of the sum over the `count` bytes from `addr`: whole words while more than one byte
-- is left, then the odd byte. `sum` is a `uint32_t`.
unfoldable pub add_words : Host → List ℕ → ℕ → ℕ
add_words h [] sum = sum
add_words h (a ∷ []) sum = (sum + a) % 2 ^ 32
add_words h (a ∷ b ∷ rest) sum = add_words h rest ((sum + load16 h a b) % 2 ^ 32)

-- `while (sum >> 16)`, on fuel.
unfoldable pub fold_carries : ℕ → ℕ → ℕ
fold_carries zero sum = sum
fold_carries (suc fuel) sum = elim (ltb 0 (sum / 65536)) [
  | true ↦ fold_carries fuel (sum % 65536 + sum / 65536)
  | false ↦ sum
]

-- Two rounds suffice for a `uint32_t` (`Residue.fold_carries_ends`).
abbrev pub fold_fuel : ℕ
fold_fuel = 3

-- `count` is a `uint16_t`, and `~(uint16_t)sum` is cut to 16 bits by the return type.
unfoldable pub cksum16 : Host → List ℕ → ℕ → ℕ → ℕ
cksum16 h addr count init =
    65535 - fold_carries fold_fuel (add_words h (take (count % 65536) addr) (init % 2 ^ 32)) % 65536
