-- ===== src/Report/Hexdump/Shown.antt =====
-- A row of `hexdump` in netzer-core/src/hexdump.rs, against a reader of its columns.
use net_zer.Prelude.{
  ℕ, Bytes, Option, none, some, All, IsByte, ◌∷◌, ◌++◌, [], ◌+◌, ◌-◌, ◌≡◌, ◌<◌, ◌≤◌, ◌==◌, ◌&&◌,
  ◌/◌, ◌%◌, zero, suc, arith, refl, length, Bool-cases, inl, inr, ap, ◌^◌, if◌then◌else◌, drop, map,
  leb, false,
}
use net_zer.Report.{hex_digit}
use net_zer.Report.Hex.{hex_value, byte_of, hex_value-hex_digit}
use net_zer.Report.Hexdump.{hex4, hex_columns, missing_columns, ascii_column, row, is_printed}
use net_zer.Report.Hexdump.Columns.{length-columns}
use net_zer.Report.Hexdump.Offset.{read_number, read_number-hex4, length-hex4}

-- The gap in front of the ninth column.
abbrev drop_space : Bytes → Bytes
drop_space [] = []
drop_space (c ∷ cs) = if c == b' ' then cs else []

abbrev skip_gap : ℕ → Bytes → Bytes
skip_gap at text = if at == 8 then drop_space text else text

abbrev no_byte : Option Bytes → Option Bytes
no_byte (some []) = some []
no_byte other = none

-- A column: two digits and a space, or three spaces, behind which no byte may come.
abbrev read_cell : Bytes → Option Bytes → Option Bytes
read_cell (h ∷ l ∷ s ∷ cells) rest =
    if s == b' '
    then if h == b' ' && l == b' ' then no_byte rest else byte_of (hex_value h) (hex_value l) rest
    else none
read_cell other rest = none

abbrev at_end : Bytes → Option Bytes
at_end [] = some []
at_end other = none

-- The bytes that the columns from `at` on show, of which there are `left`.
pub read_columns : (at left : ℕ) → Bytes → Option Bytes
read_columns at zero text = at_end text
read_columns at (suc left) text =
    let cells = skip_gap at text in read_cell cells (read_columns (suc at) left (drop 3 cells))

not_space : (d : ℕ) → d < 16 → (hex_digit d == b' ') ≡ false
not_space d h = ground arith

read_columns-missing : (at m : ℕ) → read_columns at m (missing_columns at m) ≡ some []
unfolding read_columns missing_columns
read_columns-missing at zero = refl
read_columns-missing at (suc m) = elim (Bool-cases (at == 8)) [
  | inl gap ↦ rw gap (ap no_byte (read_columns-missing (suc at) m))
  | inr plain ↦ rw plain (ap no_byte (read_columns-missing (suc at) m))
]

read_cell-byte :
    (b : ℕ) (cells chunk : Bytes) (rest : Option Bytes)
    → b < 256
    → rest ≡ some chunk
    → read_cell (hex_digit (b / 16) ∷ hex_digit (b % 16) ∷ b' ' ∷ cells) rest ≡ some (b ∷ chunk)
read_cell-byte b cells chunk rest h e =
    rw
      (
        not_space (b / 16) (omega arith),
        hex_value-hex_digit (b / 16) (omega arith),
        hex_value-hex_digit (b % 16) (omega arith),
        e,
      )
      (ap (λ (t : ℕ). some (t ∷ chunk)) (omega arith))

read_columns-hex_columns :
    (i m n j : ℕ) (chunk : Bytes)
    → n ≡ length chunk + m
    → j ≡ i + length chunk
    → All IsByte chunk
    → read_columns i n (hex_columns i chunk ++ missing_columns j m) ≡ some chunk
unfolding read_columns hex_columns
read_columns-hex_columns i m n j [] en ej h =
    let all : n ≡ m = omega arith in
    let here : j ≡ i = omega arith in rw (all, here) (read_columns-missing i m)
read_columns-hex_columns i m zero j (b ∷ chunk) en ej h = absurd (omega arith)
read_columns-hex_columns i m (suc n) j (b ∷ chunk) en ej (hb, h) =
    let rest = read_columns-hex_columns (suc i) m n j chunk (omega arith) (omega arith) h in
    let cells = hex_columns (suc i) chunk ++ missing_columns j m in
    elim (Bool-cases (i == 8)) [
      | inl gap ↦ rw gap (read_cell-byte b cells chunk _ hb rest)
      | inr plain ↦ rw plain (read_cell-byte b cells chunk _ hb rest)
    ]

-- A byte in the text column: itself from the space to the tilde, and a full stop otherwise.
abbrev pub shown_char : ℕ → ℕ
shown_char b = if leb 32 b && leb b 126 then b else b'.'

ascii_column-map : (chunk : Bytes) → ascii_column chunk ≡ map shown_char chunk
unfolding ascii_column
ascii_column-map [] = refl
ascii_column-map (b ∷ chunk) =
    let same : is_printed b ≡ (leb 32 b && leb b 126) = ground arith in
    rw (same, ascii_column-map chunk) refl

-- A row that shows the bytes of `chunk`: the offset in at least four hexadecimal digits, 16 columns of
-- three characters with a gap in the middle that read back as exactly the bytes, and the text.
pub record ShowsRow (offset : ℕ) (chunk text : Bytes) : Type 0 where
  pub label : Bytes
  pub columns : Bytes
  pub text_is :
      text
      ≡ b' '
        ∷ b' '
        ∷ (label ++ b' ' ∷ b' ' ∷ (columns ++ b' ' ∷ (map shown_char chunk ++ 0x0A ∷ [])))
  pub label_is : read_number 0 label ≡ some offset
  pub label_long : 4 ≤ length label
  pub columns_are : read_columns 0 16 columns ≡ some chunk
  pub columns_long : length columns ≡ 49

pub row-ShowsRow :
    (offset : ℕ) (chunk : Bytes)
    → offset < 2 ^ 64
    → All IsByte chunk
    → 0 < length chunk
    → length chunk ≤ 16
    → ShowsRow offset chunk (row offset chunk)
unfolding row
row-ShowsRow offset chunk small bytes some_byte short =
    let missing : ℕ = 16 - length chunk in
    record {
      label = hex4 offset;
      columns = hex_columns 0 chunk ++ missing_columns (length chunk) missing;
      text_is = rw (ascii_column-map chunk) refl;
      label_is = read_number-hex4 offset small;
      label_long = length-hex4 offset;
      columns_are =
          read_columns-hex_columns 0 missing 16 (length chunk) chunk (omega arith) (omega arith)
            bytes;
      columns_long = length-columns chunk some_byte short;
    }
