-- ===== src/Report/Truncate.antt =====
-- `truncate` on ASCII text, and where it panics.
use net_zer.Prelude.{
  ℕ, Bytes, ◌<◌, All, ◌≤◌, ◌≡◌, if◌then◌else◌, ltb, leb, length, some, take, ◌-◌, ◌+◌, ◌++◌, none,
  arith, ascii, Bool-cases, ◌∷◌, inl, suc, inr, [], zero, get_or, ◌∙◌, length-append, ap, false,
  true, ◌⊎◌, Option-cases, refl,
}
use net_zer.Outcome.{ok, panic, get_or-append}
use net_zer.Report.{truncate, nth_char, is_continuation, is_char_boundary}

abbrev pub IsAscii : ℕ → Type 0
IsAscii b = b < 128

nth_char-ascii :
    (s : Bytes) (n at : ℕ)
    → All IsAscii s
    → nth_char s n at ≡ (if ltb n (length s) then some (at + n) else none)
unfolding nth_char
nth_char-ascii [] n at h = ground arith
nth_char-ascii (b ∷ bs) zero at h = ground arith
nth_char-ascii (b ∷ bs) (suc n) at h = ground (arith, nth_char-ascii bs n (at + 1) h.1)

get_or-ascii : (s : Bytes) (i : ℕ) → All IsAscii s → get_or s i 0 < 128
get_or-ascii [] i h = omega arith
get_or-ascii (x ∷ xs) zero h = h.0
get_or-ascii (x ∷ xs) (suc i) h = get_or-ascii xs i h.1

-- An ASCII text of at most `max_chars` characters is unchanged; a longer one is cut to
-- `max_chars - 3` characters and three dots. `max_chars` is 3 or more.
pub truncate-ascii :
    (s : Bytes) (max_chars : ℕ)
    → All IsAscii s
    → 3 ≤ max_chars
    → truncate s max_chars
      ≡ ok (if leb (length s) max_chars then s else take (max_chars - 3) s ++ ascii "...")
unfolding truncate
truncate-ascii s m h three = elim (Bool-cases (ltb m (length s))) [
  | inl long ↦ ground (arith, nth_char-ascii s m 0 h, get_or-ascii s (m - 3) h)
  | inr short ↦ ground (arith, nth_char-ascii s m 0 h)
]

nth_char-append :
    (p s : Bytes) (n at : ℕ)
    → All IsAscii p
    → nth_char (p ++ s) (length p + n) at ≡ nth_char s n (at + length p)
unfolding nth_char
nth_char-append [] s n at h =
    let e : 0 + n ≡ n = omega arith in let f : at + 0 ≡ at = omega arith in rw (e, f)
nth_char-append (b ∷ bs) s n at h =
    let e : suc (length bs) + n ≡ suc (length bs + n) = omega arith in
    let f : at + suc (length bs) ≡ at + 1 + length bs = omega arith in
    rw (e, f) (ground (arith, nth_char-append bs s n (at + 1) h.1))

nth_char_fourth :
    (lead cont x y z : ℕ) (rest : Bytes) (at : ℕ)
    → is_continuation lead ≡ false
    → is_continuation cont ≡ true
    → is_continuation x ≡ false
    → is_continuation y ≡ false
    → is_continuation z ≡ false
    → nth_char (lead ∷ cont ∷ x ∷ y ∷ z ∷ rest) 3 at ≡ some (at + 1 + 1 + 1 + 1)
unfolding nth_char
nth_char_fourth lead cont x y z rest at hl hc hx hy hz =
    rw (hl, nth_char)
      (rw (hc, nth_char) (rw (hx, nth_char) (rw (hy, nth_char) (rw (hz, nth_char)))))

-- A cut inside a character.
truncate_cut :
    (s : Bytes) (m idx : ℕ)
    → nth_char s m 0 ≡ some idx
    → 3 ≤ idx
    → is_char_boundary s (idx - 3) ≡ false
    → truncate s m ≡ panic
unfolding truncate
truncate_cut s m idx e h inside = rw (e, truncate) (rw inside (ground arith))

inside :
    (s : Bytes) (k cont : ℕ)
    → get_or s k 0 ≡ cont
    → 0 < k
    → k < length s
    → (128 ≤ cont) × (cont < 192)
    → is_char_boundary s k ≡ false
inside s k cont e h lt (lo, hi) = rw e (ground arith)

cut_position : (n : ℕ) → n + 4 - 3 ≡ n + 1
cut_position n = omega arith

-- `truncate` panics on `n` ASCII characters, then a character of two bytes, then three ASCII characters or
-- more, when `max_chars` is `n + 3`: the cut falls between the two bytes.
pub truncate_panics :
    (p : Bytes) (lead cont x y z : ℕ) (rest : Bytes)
    → All IsAscii p
    → 192 ≤ lead
    → (128 ≤ cont) × (cont < 192)
    → (x < 128) × (y < 128) × (z < 128)
    → truncate (p ++ (lead ∷ cont ∷ x ∷ y ∷ z ∷ rest)) (length p + 3) ≡ panic
truncate_panics p lead cont x y z rest h l c (hx, hy, hz) =
    let tail : Bytes = lead ∷ cont ∷ x ∷ y ∷ z ∷ rest in
    let nth : nth_char (p ++ tail) (length p + 3) 0 ≡ some (length p + 4) =
      nth_char-append p tail 3 0 h
      ∙ nth_char_fourth lead cont x y z rest (0 + length p) (ground arith) (ground arith)
          (ground arith) (ground arith) (ground arith)
      ∙ ap some (omega arith) in
    truncate_cut (p ++ tail) (length p + 3) (length p + 4) nth (omega arith) (
      inside (p ++ tail) (length p + 4 - 3) cont
        (ap (λ (k : ℕ). get_or (p ++ tail) k 0) (cut_position (length p)) ∙ get_or-append p tail 1)
        (omega arith) (omega (arith, length-append p tail)) c)

-- `truncate` returns a text or panics.
pub truncate-cases :
    (s : Bytes) (m : ℕ) → (truncate s m ≡ panic) ⊎ ((t : Bytes) × (truncate s m ≡ ok t))
unfolding truncate
truncate-cases s m = elim (Option-cases (nth_char s m 0)) [
  | inl e ↦ inr (s, rw (e, truncate))
  | inr (idx, e) ↦ elim (Bool-cases (ltb idx 3)) [
    | inl early ↦ inl (rw (e, truncate) (rw early refl))
    | inr late ↦ elim (Bool-cases (is_char_boundary s (idx - 3))) [
      | inl whole ↦ inr (take (idx - 3) s ++ ascii "...", rw (e, truncate) (rw (late, whole) refl))
      | inr inside ↦ inl (rw (e, truncate) (rw (late, inside) refl))
    ]
  ]
]
