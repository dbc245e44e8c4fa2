-- ===== src/Report/Hexdump.antt =====
-- `hexdump` of netzer-core/src/hexdump.rs.
pub mod Offset
pub mod Columns
pub mod Shown
pub mod Rows
use net_zer.Prelude.{
  ℕ, Bytes, Bool, length, replicate, ◌∷◌, [], leb, suc, ◌-◌, if◌then◌else◌, ◌++◌, ◌&&◌, ◌/◌, take,
  ◌==◌, ◌||◌, ◌+◌, zero, ◌%◌, drop,
}
use net_zer.Report.{hex_digit, hex2}

-- `{:04x}` of a `usize`: four digits, and more where the number needs them. `n` is a unit of fuel
-- for each digit that could be there.
unfoldable pub hex_digits : ℕ → ℕ → Bytes
hex_digits zero x = []
hex_digits (suc n) x =
    let high = hex_digits n (x / 16) in
    (if x / 16 == 0 then [] else high) ++ hex_digit (x % 16) ∷ []

unfoldable pub hex4 : ℕ → Bytes
hex4 x = let digits = hex_digits 16 x in replicate (4 - length digits) b'0' ++ digits

-- The hex columns of the bytes from position `i` of the chunk on.
unfoldable pub hex_columns : ℕ → Bytes → Bytes
hex_columns i [] = []
hex_columns i (byte ∷ chunk) =
    (if i == 8 then b' ' ∷ [] else []) ++ hex2 byte ++ b' ' ∷ hex_columns (suc i) chunk

-- The loop over the `missing` bytes, from column `at` on: `chunk.len() + i`.
unfoldable pub missing_columns : ℕ → ℕ → Bytes
missing_columns at zero = []
missing_columns at (suc missing) =
    (if at == 8 then b' ' ∷ [] else []) ++ b' ' ∷ b' ' ∷ b' ' ∷ missing_columns (suc at) missing

-- `c.is_ascii_graphic() || c == ' '`
abbrev pub is_printed : ℕ → Bool
is_printed c = (leb b'!' c && leb c b'~') || (c == b' ')

unfoldable pub ascii_column : Bytes → Bytes
ascii_column [] = []
ascii_column (byte ∷ chunk) = (if is_printed byte then byte else b'.') ∷ ascii_column chunk

-- What one turn of the loop pushes.
unfoldable pub row : ℕ → Bytes → Bytes
row offset chunk =
    b' '
    ∷ b' '
    ∷ (hex4 offset
        ++ b' '
          ∷ b' '
          ∷ (hex_columns 0 chunk
              ++ missing_columns (length chunk) (16 - length chunk)
              ++ b' ' ∷ (ascii_column chunk ++ 0x0A ∷ [])))

-- The loop over `chunks(16)`, on the bytes that are left; as many turns as bytes are enough.
unfoldable pub hexdump_loop : ℕ → ℕ → Bytes → Bytes
hexdump_loop zero offset bytes = []
hexdump_loop (suc fuel) offset [] = []
hexdump_loop (suc fuel) offset (byte ∷ bytes) =
    let chunk = take 16 (byte ∷ bytes) in
    row offset chunk ++ hexdump_loop fuel (offset + length chunk) (drop 16 (byte ∷ bytes))

unfoldable pub hexdump : Bytes → Bytes
hexdump bytes = hexdump_loop (length bytes) 0 bytes
