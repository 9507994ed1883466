-- ===== src/Util/Hexdump/Read.antt =====
-- A dump is read back.
use mathlib.Core.List.{append_assoc}
use llnstack.Base.{
  ℕ, zero, suc, ◌+◌, ◌-◌, ◌*◌, ◌/◌, ◌%◌, ◌≤◌, ◌<◌, ◌≡◌, refl, sym, ap, ◌∙◌, false, List, [], ◌∷◌,
  ◌++◌, length, length-append, length-replicate, length-take, length-drop, take, drop, drop-append,
  replicate, ltb, ◌==◌, if◌then◌else◌, arith,
}
use llnstack.Util.Checksum.Residue.{IsBytes}
use llnstack.Util.Hexdump.{
  chars, hex_char, hex_number, hex_padded, hex_offset, hex_cells, char_cells, hex_row, hex_rows,
  hex_bar, hexdump,
}

-- The value of a digit that `hex_char` gives.
abbrev hex_value : ℕ → ℕ
hex_value c = if ltb c 58 then c - 48 else c - 87

-- The bytes of the hexadecimal columns, up to the first that is blank.
abbrev pub read_cells : ℕ → List ℕ → List ℕ
read_cells (suc n) (h ∷ l ∷ s ∷ rest) =
    let more = read_cells n rest in
    if h == b' ' then [] else (hex_value h * 16 + hex_value l) ∷ more
read_cells n text = []

-- The length of a row, and of what stands before the columns.
abbrev pub row_length : ℕ
row_length = 78

-- Row by row while a line starts with a bar.
abbrev pub read_rows : ℕ → List ℕ → List ℕ
read_rows zero text = []
read_rows (suc fuel) [] = []
read_rows (suc fuel) (c ∷ text) =
    let more = read_rows fuel (drop (row_length - 1) text) in
    if c == b'|' then read_cells 16 (drop 8 text) ++ more else []

abbrev pub read_dump : List ℕ → List ℕ
read_dump text = read_rows (length text) (drop 78 text)

abbrev bound : ℕ → ℕ
bound zero = 1
bound (suc k) = 16 * bound k

length-hex_number :
    (k fuel n : ℕ) (rest : List ℕ)
    → n < bound (suc k)
    → length (hex_number fuel n rest) ≤ suc k + length rest
unfolding hex_number
length-hex_number k zero n rest p = omega arith
length-hex_number zero (suc fuel) n rest p = ground arith
length-hex_number (suc k) (suc fuel) n rest p =
    ground (arith, length-hex_number k fuel (n / 16) (hex_char (n % 16) ∷ rest))

length-hex_offset : (n : ℕ) → n < 65536 → length (hex_offset n) ≡ 4
unfolding hex_padded
length-hex_offset n p =
    let d = hex_number 8 n [] in
    omega (
      arith,
      length-append (replicate (4 - length d) b'0') d,
      length-replicate {A = ℕ} (4 - length d) b'0',
      length-hex_number 3 8 n [] (omega arith),
    )

length-hex_cells : (n : ℕ) (bytes : List ℕ) → length (hex_cells n bytes) ≡ 3 * n
unfolding hex_cells
length-hex_cells zero bytes = refl
length-hex_cells (suc n) [] = omega (arith, length-hex_cells n [])
length-hex_cells (suc n) (b ∷ bytes) = omega (arith, length-hex_cells n bytes)

length-char_cells : (n : ℕ) (bytes : List ℕ) → length (char_cells n bytes) ≡ n
unfolding char_cells
length-char_cells zero bytes = refl
length-char_cells (suc n) [] = omega (arith, length-char_cells n [])
length-char_cells (suc n) (b ∷ bytes) = omega (arith, length-char_cells n bytes)

cell_read :
    (b : ℕ) → b < 256 → hex_value (hex_char (b / 16)) * 16 + hex_value (hex_char (b % 16)) ≡ b
cell_read b p = ground arith

not_blank : (d : ℕ) → (hex_char d == b' ') ≡ false
not_blank d = ground arith

cells_read :
    (n : ℕ) (bytes rest : List ℕ)
    → IsBytes bytes
    → length bytes ≤ n
    → read_cells n (hex_cells n bytes ++ rest) ≡ bytes
unfolding hex_cells
cells_read zero [] rest v p = refl
cells_read zero (b ∷ bytes) rest v p = absurd (omega arith)
cells_read (suc n) [] rest v p = refl
cells_read (suc n) (b ∷ bytes) rest v p =
    rw (not_blank (b / 16), cell_read b v.0)
      (ap (λ l. b ∷ l) (cells_read n bytes rest v.1 (omega arith)))

IsBytes-take : (n : ℕ) (bytes : List ℕ) → IsBytes bytes → IsBytes (take n bytes)
IsBytes-take zero bytes v = tt
IsBytes-take (suc n) [] v = tt
IsBytes-take (suc n) (b ∷ bytes) v = (v.0, IsBytes-take n bytes v.1)

IsBytes-drop : (n : ℕ) (bytes : List ℕ) → IsBytes bytes → IsBytes (drop n bytes)
IsBytes-drop zero bytes v = v
IsBytes-drop (suc n) [] v = tt
IsBytes-drop (suc n) (b ∷ bytes) v = IsBytes-drop n bytes v.1

-- What stands in a row before and after the hexadecimal columns, but for the first character.
abbrev before : ℕ → List ℕ
before offset = b' ' ∷ (hex_offset offset ++ chars " | ")

abbrev after : List ℕ → List ℕ
after bytes = chars "| " ++ (char_cells 16 bytes ++ chars " |\n")

abbrev row_end : ℕ → List ℕ → List ℕ
row_end offset bytes = before offset ++ (hex_cells 16 bytes ++ after bytes)

hex_row_lem : (offset : ℕ) (bytes : List ℕ) → hex_row offset bytes ≡ b'|' ∷ row_end offset bytes
unfolding hex_row
hex_row_lem offset bytes =
    ap (λ t. b'|' ∷ b' ' ∷ t)
      (sym (append_assoc (hex_offset offset) (chars " | ") (hex_cells 16 bytes ++ after bytes)))

length-before : (offset : ℕ) → offset < 65536 → length (before offset) ≡ 8
length-before offset p =
    omega (arith, length-hex_offset offset p, length-append (hex_offset offset) (chars " | "))

length-row_end : (offset : ℕ) (bytes : List ℕ) → offset < 65536 → length (row_end offset bytes) ≡ 77
length-row_end offset bytes p = omega (
  arith,
  length-before offset p,
  length-append (before offset) (hex_cells 16 bytes ++ after bytes),
  length-append (hex_cells 16 bytes) (after bytes),
  length-append (char_cells 16 bytes) (chars " |\n"),
  length-hex_cells 16 bytes,
  length-char_cells 16 bytes,
)

columns_found :
    (offset : ℕ) (bytes rest : List ℕ)
    → offset < 65536
    → drop 8 (row_end offset bytes ++ rest) ≡ hex_cells 16 bytes ++ (after bytes ++ rest)
columns_found offset bytes rest p =
    let cells = hex_cells 16 bytes in
    ap (drop 8) (
      append_assoc (before offset) (cells ++ after bytes) rest
      ∙ ap (λ t. before offset ++ t) (append_assoc cells (after bytes) rest))
    ∙ drop-append (before offset) (cells ++ (after bytes ++ rest)) 8 (sym (length-before offset p))

row_read :
    (fuel offset : ℕ) (bytes rest : List ℕ)
    → offset < 65536
    → IsBytes bytes
    → length bytes ≤ 16
    → read_rows (suc fuel) (hex_row offset bytes ++ rest) ≡ bytes ++ read_rows fuel rest
row_read fuel offset bytes rest o v p =
    ap (λ row. read_rows (suc fuel) (row ++ rest)) (hex_row_lem offset bytes)
    ∙ ap (λ a. read_cells 16 a ++ read_rows fuel (drop 77 (row_end offset bytes ++ rest)))
        (columns_found offset bytes rest o)
    ∙ ap (λ b. read_cells 16 (hex_cells 16 bytes ++ (after bytes ++ rest)) ++ read_rows fuel b)
        (drop-append (row_end offset bytes) rest 77 (sym (length-row_end offset bytes o)))
    ∙ ap (λ t. t ++ read_rows fuel rest) (cells_read 16 bytes (after bytes ++ rest) v p)

take-drop_lem : (n : ℕ) (xs : List ℕ) → take n xs ++ drop n xs ≡ xs
take-drop_lem zero xs = refl
take-drop_lem (suc n) [] = refl
take-drop_lem (suc n) (x ∷ xs) = ap (λ t. x ∷ t) (take-drop_lem n xs)

rows_read :
    (n fuel offset : ℕ) (bytes : List ℕ)
    → n ≤ fuel
    → offset + 16 * n ≤ 65536
    → length bytes ≤ 16 * n
    → IsBytes bytes
    → read_rows fuel (hex_rows n offset bytes ++ hex_bar) ≡ bytes
unfolding hex_rows
rows_read zero zero offset [] f o p v = refl
rows_read zero (suc fuel) offset [] f o p v = refl
rows_read zero fuel offset (b ∷ bytes) f o p v = absurd (omega arith)
rows_read (suc n) zero offset bytes f o p v = absurd (omega arith)
rows_read (suc n) (suc fuel) offset bytes f o p v =
    let row = take 16 bytes in
    let rest = drop 16 bytes in
    ap (read_rows (suc fuel))
      (append_assoc (hex_row offset row) (hex_rows n (offset + 16) rest) hex_bar)
    ∙ row_read fuel offset row (hex_rows n (offset + 16) rest ++ hex_bar) (omega arith)
        (IsBytes-take 16 bytes v) (omega (arith, length-take 16 bytes))
    ∙ ap (λ t. row ++ t)
        (rows_read n fuel (offset + 16) rest (omega arith) (omega arith)
          (omega (arith, length-drop 16 bytes)) (IsBytes-drop 16 bytes v))
    ∙ take-drop_lem 16 bytes

row_count : (n offset : ℕ) (bytes : List ℕ) → n ≤ length (hex_rows n offset bytes)
unfolding hex_rows hex_row
row_count zero offset bytes = omega arith
row_count (suc n) offset bytes =
    let row = hex_row offset (take 16 bytes) in
    let more = hex_rows n (offset + 16) (drop 16 bytes) in
    omega (arith, length-append row more, row_count n (offset + 16) (drop 16 bytes))

-- The dump has rows of one length.
length-hex_rows :
    (n offset : ℕ) (bytes : List ℕ)
    → offset + 16 * n ≤ 65536
    → length (hex_rows n offset bytes) ≡ row_length * n
unfolding hex_rows
length-hex_rows zero offset bytes o = refl
length-hex_rows (suc n) offset bytes o =
    let row = take 16 bytes in
    omega (
      arith,
      length-append (hex_row offset row) (hex_rows n (offset + 16) (drop 16 bytes)),
      ap length (hex_row_lem offset row),
      length-row_end offset row (omega arith),
      length-hex_rows n (offset + 16) (drop 16 bytes) (omega arith),
    )

-- Of at most 65536 bytes: what stands in the hexadecimal columns of the dump, read row by row up to the first
-- blank place of a row and the first line that is no row, is these bytes in their order; and the dump is as
-- long as two bars and one row, of 78 characters each, for each 16 bytes or part of them.
pub hexdump_round_trip :
    (bytes : List ℕ)
    → IsBytes bytes
    → length bytes ≤ 65536
    → (read_dump (hexdump bytes) ≡ bytes)
      × (length (hexdump bytes) ≡ row_length * (2 + (length bytes + 15) / 16))
unfolding hexdump
hexdump_round_trip bytes v p =
    let n = (length bytes + 15) / 16 in
    let rows = hex_rows n 0 bytes in
    (
      ap (read_rows (length (hex_bar ++ (rows ++ hex_bar))))
            (drop-append hex_bar (rows ++ hex_bar) 78 refl)
          ∙ rows_read n (length (hex_bar ++ (rows ++ hex_bar))) 0 bytes
              (omega (
                arith,
                length-append hex_bar (rows ++ hex_bar),
                length-append rows hex_bar,
                row_count n 0 bytes,
              ))
              (omega arith) (omega arith) v,
      omega (
        arith,
        length-append hex_bar (rows ++ hex_bar),
        length-append rows hex_bar,
        length-hex_rows n 0 bytes (omega arith),
      ),
    )
