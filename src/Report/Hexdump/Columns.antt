-- ===== src/Report/Hexdump/Columns.antt =====
-- The layout of `hexdump` in netzer-core/src/hexdump.rs: the columns of every row line up.
use net_zer.Prelude.{
  ℕ, Bytes, length, ◌<◌, if◌then◌else◌, ◌≡◌, leb, ◌≤◌, ◌*◌, ◌∷◌, ◌++◌, ◌&&◌, ◌==◌, ◌+◌, ltb, arith,
  [], refl, Bool-cases, suc, inl, zero, inr, ◌-◌, ap, append_assoc, ◌∙◌, length-append,
}
use net_zer.Report.Hexdump.Offset.{length-hex4_small}
use net_zer.Report.Hexdump.{hex_columns, missing_columns, ascii_column, row, hex4}

-- How many of the columns from `i` to before `j` start with the gap.
abbrev gap : ℕ → ℕ → ℕ
gap i j = if leb i 8 && ltb 8 j then 1 else 0

gap_step : (i j : ℕ) → i < j → gap i j ≡ (if i == 8 then 1 else 0) + gap (suc i) j
gap_step i j h = ground arith

length-hex_columns :
    (i : ℕ) (chunk : Bytes)
    → length (hex_columns i chunk) ≡ 3 * length chunk + gap i (i + length chunk)
unfolding hex_columns
length-hex_columns i [] = ground arith
length-hex_columns i (byte ∷ chunk) = elim (Bool-cases (i == 8)) [
  | inl at ↦ rw at (
      grind
        (arith, length-hex_columns (suc i) chunk, gap_step i (suc i + length chunk) (omega arith)))
  | inr off ↦ rw off (
      grind
        (arith, length-hex_columns (suc i) chunk, gap_step i (suc i + length chunk) (omega arith)))
]

length-missing_columns :
    (at missing : ℕ) → length (missing_columns at missing) ≡ 3 * missing + gap at (at + missing)
unfolding missing_columns
length-missing_columns at zero = ground arith
length-missing_columns at (suc missing) =
    grind
      (arith, length-missing_columns (suc at) missing, gap_step at (suc at + missing) (omega arith))

length-ascii_column : (chunk : Bytes) → length (ascii_column chunk) ≡ length chunk
unfolding ascii_column
length-ascii_column [] = refl
length-ascii_column (byte ∷ chunk) = omega (arith, length-ascii_column chunk)

-- A row's text up to its last column.
row_left : ℕ → Bytes → Bytes
row_left offset chunk =
    b' '
    ∷ b' '
    ∷ (hex4 offset
        ++ b' '
          ∷ b' '
          ∷ (hex_columns 0 chunk
              ++ missing_columns (length chunk) (16 - length chunk)
              ++ b' ' ∷ []))

assoc_row :
    (p q r t : Bytes)
    → p ++ b' ' ∷ b' ' ∷ (q ++ r ++ b' ' ∷ t) ≡ (p ++ b' ' ∷ b' ' ∷ (q ++ r ++ b' ' ∷ [])) ++ t
assoc_row p q r t =
    rw (append_assoc p (b' ' ∷ b' ' ∷ (q ++ r ++ b' ' ∷ [])) t, append_assoc (q ++ r) (b' ' ∷ []) t)
      refl

-- The 16 columns and the gap between the eighth and the ninth.
pub length-columns :
    (chunk : Bytes)
    → 0 < length chunk
    → length chunk ≤ 16
    → length (hex_columns 0 chunk ++ missing_columns (length chunk) (16 - length chunk)) ≡ 49
length-columns chunk some_byte short =
    let e3 =
      length-append (hex_columns 0 chunk) (missing_columns (length chunk) (16 - length chunk)) in
    let e4 = length-hex_columns 0 chunk in
    let e5 = length-missing_columns (length chunk) (16 - length chunk) in
    rw (e3, e4, e5) (ground arith)

length-row_left :
    (offset : ℕ) (chunk : Bytes)
    → 0 < length chunk
    → length chunk ≤ 16
    → length (row_left offset chunk) ≡ length (hex4 offset) + 54
unfolding row_left
length-row_left offset chunk some_byte short =
    let hex = hex_columns 0 chunk in
    let pad = missing_columns (length chunk) (16 - length chunk) in
    let e1 = length-append (hex4 offset) (b' ' ∷ b' ' ∷ (hex ++ pad ++ b' ' ∷ [])) in
    let e2 = length-append (hex ++ pad) (b' ' ∷ []) in
    omega (arith, e1, e2, length-columns chunk some_byte short)

-- On every row of 1 to 16 bytes with an offset below 65536, the text column is the last and starts 58
-- characters from the left, however many bytes the row has and whatever its offset is; the row has one
-- character of text for each byte, and the line end.
pub row_columns :
    (offset : ℕ) (chunk : Bytes)
    → offset < 65536
    → 0 < length chunk
    → length chunk ≤ 16
    → (left : Bytes) × (row offset chunk ≡ left ++ (ascii_column chunk ++ 0x0A ∷ []))
      × (length left ≡ 58)
      × (length (ascii_column chunk) ≡ length chunk)
      × (length (row offset chunk) ≡ length chunk + 59)
unfolding row row_left
row_columns offset chunk small some_byte short =
    let left = row_left offset chunk in
    let text = ascii_column chunk ++ 0x0A ∷ [] in
    let e : row offset chunk ≡ left ++ text =
      ap (λ (t : Bytes). b' ' ∷ b' ' ∷ t)
        (assoc_row (hex4 offset) (hex_columns 0 chunk)
          (missing_columns (length chunk) (16 - length chunk)) text) in
    let wide : length left ≡ 58 =
      omega (arith, length-row_left offset chunk some_byte short, length-hex4_small offset small) in
    (
      left,
      e,
      wide,
      length-ascii_column chunk,
      ap length e
          ∙ length-append left text
          ∙ omega (
            arith,
            wide,
            length-append (ascii_column chunk) (0x0A ∷ []),
            length-ascii_column chunk,
          ),
    )
