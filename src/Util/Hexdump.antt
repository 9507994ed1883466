-- ===== src/Util/Hexdump.antt =====
-- `hexdump` of src/lib/util.c, as the text that it writes.
pub mod Read
use Prim.Native.Char.{code}
use Prim.Native.String.{String}
use llnstack.Base.{
  ℕ, zero, suc, ◌+◌, ◌-◌, ◌*◌, ◌/◌, ◌%◌, Bool, ◌&&◌, List, [], ◌∷◌, ◌++◌, length, take, drop,
  replicate, ltb, leb, if◌then◌else◌,
}

-- The characters of a text.
abbrev pub chars : String → List ℕ
chars String.[] = []
chars (String.◌∷◌ c s) = code c ∷ chars s

abbrev pub hex_char : ℕ → ℕ
hex_char d = if ltb d 10 then 48 + d else 87 + d

-- "%x" of a number below 16 ^ fuel, in front of `rest`.
unfoldable pub hex_number : ℕ → ℕ → List ℕ → List ℕ
hex_number zero n rest = rest
hex_number (suc fuel) n rest =
    let more = hex_number fuel (n / 16) (hex_char (n % 16) ∷ rest) in
    if ltb n 16 then hex_char n ∷ rest else more

-- "%0<width>x" of an `unsigned`, and of an `int` that is not negative.
unfoldable pub hex_padded : ℕ → ℕ → List ℕ
hex_padded width n =
    let digits = hex_number 8 n [] in replicate (width - length digits) b'0' ++ digits

abbrev pub hex_offset : ℕ → List ℕ
hex_offset n = hex_padded 4 n

-- The first inner loop, with `n` places to go.
unfoldable pub hex_cells : ℕ → List ℕ → List ℕ
hex_cells zero bytes = []
hex_cells (suc n) [] = b' ' ∷ b' ' ∷ b' ' ∷ hex_cells n []
hex_cells (suc n) (b ∷ bytes) = hex_char (b / 16) ∷ hex_char (b % 16) ∷ b' ' ∷ hex_cells n bytes

-- isascii(c) && isprint(c), in the C locale
abbrev pub is_printable : ℕ → Bool
is_printable c = ltb c 128 && (leb 32 c && leb c 126)

-- The second.
unfoldable pub char_cells : ℕ → List ℕ → List ℕ
char_cells zero bytes = []
char_cells (suc n) [] = b' ' ∷ char_cells n []
char_cells (suc n) (b ∷ bytes) = (if is_printable b then b else b'.') ∷ char_cells n bytes

unfoldable pub hex_row : ℕ → List ℕ → List ℕ
hex_row offset bytes =
    chars "| "
    ++ (hex_offset offset
        ++ (chars " | "
            ++ (hex_cells 16 bytes ++ (chars "| " ++ (char_cells 16 bytes ++ chars " |\n")))))

-- The outer loop, `n` rows from the offset on.
unfoldable pub hex_rows : ℕ → ℕ → List ℕ → List ℕ
hex_rows zero offset bytes = []
hex_rows (suc n) offset bytes =
    hex_row offset (take 16 bytes) ++ hex_rows n (offset + 16) (drop 16 bytes)

abbrev pub hex_bar : List ℕ
hex_bar = chars "+------+-------------------------------------------------+------------------+\n"

-- The offset starts at 0 and grows by 16 while it is below the size.
unfoldable pub hexdump : List ℕ → List ℕ
hexdump bytes = hex_bar ++ (hex_rows ((length bytes + 15) / 16) 0 bytes ++ hex_bar)
