-- ===== src/Text/Lossy.antt =====
-- `String::from_utf8_lossy`: each maximal part of a sequence that is not well formed becomes U+FFFD.
use net_zer.Prelude.{ℕ, List, [], Bytes, ◌∷◌, ◌++◌, if◌then◌else◌, leb, ◌&&◌, none, some}
use net_zer.Text.Utf8.{utf8_follow}

abbrev pub replacement : Bytes
replacement = 0xEF ∷ 0xBF ∷ 0xBD ∷ []

-- A character that is begun: the ranges of the bytes that it still wants, and its bytes so far.
pub record Pending : Type 0 where
  pub wanted : List (ℕ × ℕ)
  pub held : Bytes

abbrev pub nothing_pending : Pending
nothing_pending = record { wanted = []; held = [] }

-- A byte where a character begins: what is put out, and what is then pending.
unfoldable pub begin_char : ℕ → Bytes × Pending
begin_char b = elim (utf8_follow b) [
  | none ↦ (replacement, nothing_pending)
  | some [] ↦ (b ∷ [], nothing_pending)
  | some (r ∷ rs) ↦ ([], record { wanted = r ∷ rs; held = b ∷ [] })
]

-- A byte behind `pending`: the next of its character, or the beginning of another after a cut.
unfoldable pub take_byte : List (ℕ × ℕ) → Bytes → ℕ → Bytes × Pending
take_byte [] held b = begin_char b
take_byte ((lo, hi) ∷ []) held b =
    if leb lo b && leb b hi
    then (held ++ b ∷ [], nothing_pending)
    else (let (out, pending) = begin_char b in (replacement ++ out, pending))
take_byte ((lo, hi) ∷ r ∷ rs) held b =
    if leb lo b && leb b hi
    then ([], record { wanted = r ∷ rs; held = held ++ b ∷ [] })
    else (let (out, pending) = begin_char b in (replacement ++ out, pending))

unfoldable pub lossy_from : Pending → Bytes → Bytes
lossy_from pending [] = elim (pending.wanted) [ [] ↦ [] | r ∷ rs ↦ replacement ]
lossy_from pending (b ∷ bs) =
    let (out, later) = take_byte pending.wanted pending.held b in out ++ lossy_from later bs

unfoldable pub from_utf8_lossy : Bytes → Bytes
from_utf8_lossy bytes = lossy_from nothing_pending bytes
