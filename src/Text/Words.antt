-- ===== src/Text/Words.antt =====
-- Rust's splits of a text: at white space as Unicode has it, and at a byte.

-- How many bytes the white space character at the front takes; 0 if there is none.
use net_zer.Prelude.{
  ℕ, Bytes, List, [], ◌∷◌, suc, ◌++◌, if◌then◌else◌, leb, ◌-◌, ◌==◌, ◌&&◌, ◌||◌, zero,
}

unfoldable pub white_len : Bytes → ℕ
white_len [] = 0
white_len (a ∷ []) = if (leb 0x09 a && leb a 0x0D) || a == 0x20 then 1 else 0
white_len (a ∷ b ∷ []) =
    if (leb 0x09 a && leb a 0x0D) || a == 0x20
    then 1
    else if a == 0xC2 && (b == 0x85 || b == 0xA0)
    then 2
    else 0
white_len (a ∷ b ∷ c ∷ rest) =
    if (leb 0x09 a && leb a 0x0D) || a == 0x20
    then 1
    else if a == 0xC2 && (b == 0x85 || b == 0xA0)
    then 2
    else if a == 0xE1 && b == 0x9A && c == 0x80
    then 3
    else if a == 0xE2
        && b == 0x80
        && ((leb 0x80 c && leb c 0x8A) || c == 0xA8 || c == 0xA9 || c == 0xAF)
    then 3
    else if a == 0xE2 && b == 0x81 && c == 0x9F
    then 3
    else if a == 0xE3 && b == 0x80 && c == 0x80
    then 3
    else 0

-- `trim_start`; `skip` bytes of the character at the front are still to be dropped.
unfoldable pub trim_from : ℕ → Bytes → Bytes
trim_from skip [] = []
trim_from (suc skip) (b ∷ bs) = trim_from skip bs
trim_from zero (b ∷ bs) = elim (white_len (b ∷ bs)) [ zero ↦ b ∷ bs | suc skip ↦ trim_from skip bs ]

unfoldable pub trim_start : Bytes → Bytes
trim_start s = trim_from 0 s

abbrev push_word : Bytes → List Bytes → List Bytes
push_word [] words = words
push_word (b ∷ bs) words = (b ∷ bs) ∷ words

-- `split_whitespace`, with the bytes of the word that has begun; words are not empty.
unfoldable pub words_from : ℕ → Bytes → Bytes → List Bytes
words_from skip word [] = push_word word []
words_from (suc skip) word (b ∷ bs) = words_from skip word bs
words_from zero word (b ∷ bs) = elim (white_len (b ∷ bs)) [
  | zero ↦ words_from 0 (word ++ b ∷ []) bs
  | suc skip ↦ push_word word (words_from skip [] bs)
]

unfoldable pub split_whitespace : Bytes → List Bytes
split_whitespace s = words_from 0 [] s

-- `splitn(n, c)` with the bytes of the piece that has begun, for `n` of 1 or more.
unfoldable pub splitn_from : ℕ → ℕ → Bytes → Bytes → List Bytes
splitn_from n c piece [] = piece ∷ []
splitn_from n c piece (b ∷ bs) =
    let last = (piece ++ b ∷ bs) ∷ [] in
    let cut = piece ∷ splitn_from (n - 1) c [] bs in
    let on = splitn_from n c (piece ++ b ∷ []) bs in
    if leb n 1 then last else if b == c then cut else on

unfoldable pub splitn : ℕ → ℕ → Bytes → List Bytes
splitn n c s = splitn_from n c [] s

-- `join(" ")`
unfoldable pub join_words : List Bytes → Bytes
join_words [] = []
join_words (w ∷ []) = w
join_words (w ∷ v ∷ words) = w ++ (b' ' ∷ join_words (v ∷ words))

-- `trim_end`: what is left is cut where only white space follows.
unfoldable pub trim_end : Bytes → Bytes
trim_end [] = []
trim_end (b ∷ bs) =
    let rest = trim_end bs in elim (trim_start (b ∷ bs)) [ [] ↦ [] | c ∷ cs ↦ b ∷ rest ]

-- `trim`
unfoldable pub trim : Bytes → Bytes
trim s = trim_end (trim_start s)

-- A line without the carriage return at its end.
unfoldable pub strip_return : Bytes → Bytes
strip_return [] = []
strip_return (b ∷ []) = if b == b'\r' then [] else b ∷ []
strip_return (b ∷ c ∷ cs) = b ∷ strip_return (c ∷ cs)

-- `lines`, with the bytes of the line that has begun; what follows the last newline is a line if it is
-- not empty.
unfoldable pub lines_from : Bytes → Bytes → List Bytes
lines_from line [] = push_word line []
lines_from line (b ∷ bs) =
    let cut = strip_return line ∷ lines_from [] bs in
    let on = lines_from (line ++ b ∷ []) bs in if b == b'\n' then cut else on

unfoldable pub lines : Bytes → List Bytes
lines s = lines_from [] s
