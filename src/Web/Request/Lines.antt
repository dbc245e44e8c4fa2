-- ===== src/Web/Request/Lines.antt =====
-- How netzer-cli/src/web/mod.rs reads the lines of a request of ASCII text.
use net_zer.Prelude.{
  ℕ, Bytes, List, All, ◌<◌, ◌≤◌, ◌++◌, ◌∷◌, ◌≡◌, arith, ap, [], some, ◌≢◌, ◌∙◌, Option, lt→ltb,
  refl, zero, suc, none, sym, append-nil, ◌==◌, false, append_assoc,
}
use net_zer.Text.Utf8.{utf8_follow}
use net_zer.Text.Lossy.{Pending, replacement, lossy_from, begin_char, take_byte, nothing_pending}
use net_zer.Text.Words.{
  white_len, trim_from, trim_start, trim_end, trim, strip_return, lines_from, lines,
}
use net_zer.Web.Request.{crlf}

abbrev IsAsciiText : Bytes → Type 0
IsAsciiText = All (λ c. c < 128)

utf8_follow-ascii : (b : ℕ) → b < 128 → utf8_follow b ≡ some []
unfolding utf8_follow
utf8_follow-ascii b h = rw (lt→ltb b 0x80 h) refl

begin_char-ascii : (b : ℕ) → b < 128 → begin_char b ≡ (b ∷ [], nothing_pending)
unfolding begin_char
begin_char-ascii b h =
    ap
      (λ (f : Option (List (ℕ × ℕ))). elim f as (λ x. Bytes × Pending) [
        | none ↦ (replacement, nothing_pending)
        | some [] ↦ (b ∷ [], nothing_pending)
        | some (r ∷ rs) ↦ ([], record { wanted = r ∷ rs; held = b ∷ [] })
      ])
      (utf8_follow-ascii b h)

pub lossy_ascii : (s : Bytes) → IsAsciiText s → lossy_from nothing_pending s ≡ s
unfolding lossy_from take_byte
lossy_ascii [] h = refl
lossy_ascii (b ∷ bs) (h, hs) =
    ap (λ (t : Bytes × Pending). t.0 ++ lossy_from t.1 bs) (begin_char-ascii b h)
    ∙ ap (◌∷◌ b) (lossy_ascii bs hs)

-- A visible character of ASCII.
abbrev pub IsVisible : ℕ → Type 0
IsVisible c = (33 ≤ c) × (c < 127)

white_len-visible : (c : ℕ) (s : Bytes) → IsVisible c → white_len (c ∷ s) ≡ 0
unfolding white_len
white_len-visible c [] h = ground arith
white_len-visible c (a ∷ []) h = ground arith
white_len-visible c (a ∷ b ∷ s) h = ground arith

trim_start-visible : (c : ℕ) (s : Bytes) → IsVisible c → trim_start (c ∷ s) ≡ c ∷ s
unfolding trim_start trim_from
trim_start-visible c s h =
    ap (λ (n : ℕ). elim n as (λ x. Bytes) [ zero ↦ c ∷ s | suc skip ↦ trim_from skip s ])
      (white_len-visible c s h)

trim_end-visible : (s : Bytes) → All IsVisible s → trim_end s ≡ s
unfolding trim_end
trim_end-visible [] h = refl
trim_end-visible (c ∷ s) (h, hs) =
    ap (λ (t : Bytes). elim t as (λ x. Bytes) [ [] ↦ [] | d ∷ ds ↦ c ∷ trim_end s ])
      (trim_start-visible c s h)
    ∙ ap (◌∷◌ c) (trim_end-visible s hs)

white_len-space : (s : Bytes) → white_len (b' ' ∷ s) ≡ 1
unfolding white_len
white_len-space [] = refl
white_len-space (a ∷ []) = refl
white_len-space (a ∷ b ∷ s) = refl

pub trim-key : (c : ℕ) (s : Bytes) → All IsVisible (c ∷ s) → trim (b' ' ∷ c ∷ s) ≡ c ∷ s
unfolding trim trim_start trim_from
trim-key c s h =
    let led : trim_start (b' ' ∷ c ∷ s) ≡ trim_start (c ∷ s) =
      ap
        (λ (n : ℕ). elim n as (λ x. Bytes) [
          | zero ↦ b' ' ∷ c ∷ s
          | suc skip ↦ trim_from skip (c ∷ s)
        ])
        (white_len-space (c ∷ s)) in
    ap trim_end (led ∙ trim_start-visible c s h.0) ∙ trim_end-visible (c ∷ s) h

-- A line of a request: ASCII, with no newline and no carriage return.
abbrev pub IsLine : Bytes → Type 0
IsLine = All (λ c. (c < 128) × (c ≢ b'\n') × (c ≢ b'\r'))

-- The request with these lines.
abbrev pub wire : List Bytes → Bytes
wire [] = crlf
wire (l ∷ ls) = l ++ (crlf ++ wire ls)

strip_return-append : (l : Bytes) → strip_return (l ++ b'\r' ∷ []) ≡ l
unfolding strip_return
strip_return-append [] = refl
strip_return-append (a ∷ []) = refl
strip_return-append (a ∷ b ∷ l) = ap (◌∷◌ a) (strip_return-append (b ∷ l))

lines_from-line :
    (cur l rest : Bytes)
    → IsLine l
    → lines_from cur (l ++ (crlf ++ rest)) ≡ (cur ++ l) ∷ lines_from [] rest
unfolding lines_from
lines_from-line cur [] rest h =
    ap (λ (t : Bytes). t ∷ lines_from [] rest) (strip_return-append cur ∙ sym (append-nil cur))
lines_from-line cur (c ∷ l) rest ((a, n, r), hs) =
    let other : (c == b'\n') ≡ false = ground (arith, n) in
    rw other (
      lines_from-line (cur ++ c ∷ []) l rest hs
      ∙ ap (λ (t : Bytes). t ∷ lines_from [] rest) (append_assoc cur (c ∷ []) l))

pub lines-wire : (ls : List Bytes) → All IsLine ls → lines (wire ls) ≡ ls ++ [] ∷ []
unfolding lines lines_from strip_return
lines-wire [] h = refl
lines-wire (l ∷ ls) (h, hs) = lines_from-line [] l (wire ls) h ∙ ap (◌∷◌ l) (lines-wire ls hs)
