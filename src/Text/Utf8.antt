-- ===== src/Text/Utf8.antt =====
-- `std::str::from_utf8`, by the table of well-formed byte sequences of the Unicode standard.

-- The ranges of the bytes that must follow a first byte, or `none` where no sequence begins with it.
use net_zer.Prelude.{
  ℕ, List, Bytes, Bool, Option, if◌then◌else◌, [], ltb, true, some, none, ◌∷◌, ◌==◌, false, leb,
  ◌&&◌,
}

unfoldable pub utf8_follow : ℕ → Option (List (ℕ × ℕ))
utf8_follow b =
    if ltb b 0x80
    then some []
    else if ltb b 0xC2
    then none
    else if ltb b 0xE0
    then some ((0x80, 0xBF) ∷ [])
    else if ltb b 0xF0
    then some
        ((if b == 0xE0 then 0xA0 else 0x80, if b == 0xED then 0x9F else 0xBF) ∷ (0x80, 0xBF) ∷ [])
    else if ltb b 0xF5
    then some (
        (if b == 0xF0 then 0x90 else 0x80, if b == 0xF4 then 0x8F else 0xBF)
        ∷ (0x80, 0xBF)
        ∷ (0x80, 0xBF)
        ∷ [])
    else none

utf8_from : List (ℕ × ℕ) → Bytes → Bool
utf8_from [] [] = true
utf8_from (r ∷ rs) [] = false
utf8_from [] (b ∷ bs) = elim (utf8_follow b) [ none ↦ false | some rs ↦ utf8_from rs bs ]
utf8_from ((lo, hi) ∷ rs) (b ∷ bs) = leb lo b && leb b hi && utf8_from rs bs

-- Whether `from_utf8` accepts the bytes; the text is then the bytes themselves.
unfoldable pub is_utf8 : Bytes → Bool
unfolding utf8_from utf8_follow
is_utf8 = utf8_from []
