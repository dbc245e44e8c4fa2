-- ===== src/Report.antt =====
-- The text helpers of netzer-cli/src/main.rs that shape what a packet's line, its JSON record and its
-- payload show: `truncate`, `escape_json` and `to_hex_string`. A `&str` is the list of its UTF-8 bytes.
pub mod Truncate
pub mod Json
pub mod Hex
pub mod Hexdump
pub mod Pcap
use net_zer.Prelude.{
  ℕ, Bytes, ◌/◌, take, if◌then◌else◌, ◌∷◌, Option, Bool, ltb, [], leb, ◌++◌, ◌==◌, none, min, ◌%◌,
  length, ◌&&◌, ◌||◌, ◌+◌, not, ◌-◌, some, get_or, suc, zero, ascii,
}
use net_zer.Outcome.{Outcome, ok, panic}

-- A byte inside a character, not its first.
abbrev pub is_continuation : ℕ → Bool
is_continuation b = leb 0x80 b && ltb b 0xC0

-- `s.char_indices().nth(n)`: the byte position of the n-th character, for `s` from position `at`.
pub nth_char : Bytes → ℕ → ℕ → Option ℕ
nth_char [] n at = none
nth_char (b ∷ bs) zero at = if is_continuation b then nth_char bs zero (at + 1) else some at
nth_char (b ∷ bs) (suc n) at = nth_char bs (if is_continuation b then suc n else n) (at + 1)

-- `s.is_char_boundary(k)`
abbrev pub is_char_boundary : Bytes → ℕ → Bool
is_char_boundary s k =
    k == 0 || k == length s || (ltb k (length s) && not (is_continuation (get_or s k 0)))

-- `truncate`: `&s[..idx - 3]` panics where `idx` is below 3 or the cut is inside a character.
unfoldable pub truncate : Bytes → ℕ → Outcome Bytes
unfolding nth_char
truncate s max_chars = elim (nth_char s max_chars 0) [
  | none ↦ ok s
  | some idx ↦
      if ltb idx 3
      then panic
      else if is_char_boundary s (idx - 3)
      then ok (take (idx - 3) s ++ ascii "...")
      else panic
]

-- `s.replace(c, with)`
unfoldable pub replace : ℕ → Bytes → Bytes → Bytes
replace c with [] = []
replace c with (b ∷ bs) = (if b == c then with else b ∷ []) ++ replace c with bs

unfoldable pub escape_json : Bytes → Bytes
unfolding replace
escape_json s = replace b'"' (b'\\' ∷ b'"' ∷ []) (replace b'\\' (b'\\' ∷ b'\\' ∷ []) s)

-- One digit of `{:x}`.
abbrev pub hex_digit : ℕ → ℕ
hex_digit d = if ltb d 10 then b'0' + d else b'a' + (d - 10)

-- `{:02x}` of a byte.
abbrev pub hex2 : ℕ → Bytes
hex2 b = hex_digit (b / 16) ∷ hex_digit (b % 16) ∷ []

abbrev pub hex_all : Bytes → Bytes
hex_all [] = []
hex_all (b ∷ bs) = hex2 b ++ hex_all bs

-- The first 256 bytes in hexadecimal.
unfoldable pub to_hex_string : Bytes → Bytes
to_hex_string bytes = hex_all (take (min (length bytes) 256) bytes)
