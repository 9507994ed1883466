-- ===== src/Dump.antt =====
-- The dumps of messages that src/lib writes to the log, as the text that they write. `full` tells whether
-- HEXDUMP is defined.
pub mod Icmp
pub mod Link
pub mod Colour
use llnstack.Base.{ℕ, List, [], ◌∷◌, ◌++◌}
use llnstack.Ip.Text.{decimal}

-- "%u" of an `unsigned`.
abbrev pub unsigned : ℕ → List ℕ
unsigned n = decimal 10 n []

-- One call of `fprintf`, by its pieces.
abbrev pub printed : List (List ℕ) → List ℕ
printed [] = []
printed (piece ∷ rest) = piece ++ printed rest
