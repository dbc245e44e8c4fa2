-- ===== src/Report/Hexdump/Rows.antt =====
-- The rows of `hexdump` in netzer-core/src/hexdump.rs: which bytes each of them shows.
use net_zer.Prelude.{Bytes, ℕ, [], length, ◌≤◌, ◌≡◌, ◌<◌, ◌++◌, ◌+◌}
use net_zer.Report.Hexdump.Shown.{ShowsRow}

-- `Dump offset bytes out`: `out` is the rows that show `bytes`, the first of them labelled `offset`.
-- Every row but the last has 16 bytes, and the last has 1 to 16.
pub data Dump : ℕ → Bytes → Bytes → Type 0 where
  no_rows : (offset : ℕ) → Dump offset [] []
  last_row :
      (offset : ℕ) (chunk text : Bytes)
      → 0 < length chunk
      → length chunk ≤ 16
      → ShowsRow offset chunk text
      → Dump offset chunk text
  next_row :
      (offset : ℕ) (chunk rest text out : Bytes)
      → length chunk ≡ 16
      → 0 < length rest
      → ShowsRow offset chunk text
      → Dump (offset + 16) rest out
      → Dump offset (chunk ++ rest) (text ++ out)
