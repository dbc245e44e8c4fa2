-- ===== src/Text/Decimal/ReadBack.antt =====
-- The decimal text of a number is read back as the number.
use net_zer.Prelude.{
  ℕ, Bytes, All, ◌<◌, ◌++◌, ◌∷◌, ◌≡◌, Bool, false, suc, [], leb, arith, ◌*◌, ◌+◌, ◌-◌, ◌∙◌, ◌&&◌,
  Bool-cases, refl, if◌then◌else◌, true, ltb, inl, ltb→lt, inr, ◌/◌, All-append, ◌%◌, append_assoc,
  zero, ap,
}
use net_zer.Text.Decimal.{digits_of, decimal}

abbrev pub is_digit : ℕ → Bool
is_digit c = leb b'0' c && leb c b'9'

-- The digits at the front of a text, on top of the value `acc`, and what follows them.
pub read_digits : ℕ → Bytes → ℕ × Bytes
read_digits acc [] = (acc, [])
read_digits acc (c ∷ cs) =
    let more = read_digits (acc * 10 + (c - b'0')) cs in if is_digit c then more else (acc, c ∷ cs)

-- No digit stands at the front.
abbrev pub NoDigit : Bytes → Type 0
NoDigit [] = Unit
NoDigit (c ∷ cs) = is_digit c ≡ false

read_digits-stop : (acc : ℕ) (rest : Bytes) → NoDigit rest → read_digits acc rest ≡ (acc, rest)
unfolding read_digits
read_digits-stop acc [] h = refl
read_digits-stop acc (c ∷ cs) h = rw h

read_digits-digit :
    (acc d : ℕ) (rest : Bytes)
    → d < 10
    → read_digits acc ((b'0' + d) ∷ rest) ≡ read_digits (acc * 10 + d) rest
unfolding read_digits
read_digits-digit acc d rest h =
    let same : b'0' + d - b'0' ≡ d = omega arith in
    let here : is_digit (b'0' + d) ≡ true = ground arith in rw (here, same) refl

-- The digits in front of a rest: the value moves up by their places.
read_digits-digits_of :
    (fuel n : ℕ) (rest : Bytes)
    → n < fuel
    → read_digits 0 (digits_of fuel n ++ rest) ≡ read_digits n rest
unfolding digits_of
read_digits-digits_of zero n rest h = absurd (omega arith)
read_digits-digits_of (suc fuel) n rest h = elim (Bool-cases (ltb n 10)) [
  | inl small ↦
      let lead : 0 * 10 + n ≡ n = omega arith in
      rw small
        (read_digits-digit 0 n rest (ltb→lt n 10 small) ∙ ap (λ (t : ℕ). read_digits t rest) lead)
  | inr large ↦
      let lower = read_digits-digits_of fuel (n / 10) ((b'0' + n % 10) ∷ rest) (ground arith) in
      let whole : n / 10 * 10 + n % 10 ≡ n = omega arith in
      rw (large, append_assoc (digits_of fuel (n / 10)) ((b'0' + n % 10) ∷ []) rest, lower)
        (rw (read_digits-digit (n / 10) (n % 10) rest (omega arith), whole) refl)
]

-- Reading gives the number and stops at its end.
pub read_digits-decimal :
    (n : ℕ) (rest : Bytes) → NoDigit rest → read_digits 0 (decimal n ++ rest) ≡ (n, rest)
unfolding decimal
read_digits-decimal n rest h =
    read_digits-digits_of (suc n) n rest (omega arith) ∙ read_digits-stop n rest h

IsAscii-digits_of : (fuel n : ℕ) → All (λ b. b < 128) (digits_of fuel n)
unfolding digits_of
IsAscii-digits_of zero n = tt
IsAscii-digits_of (suc fuel) n = elim (Bool-cases (ltb n 10)) [
  | inl small ↦ rw small (let h = ltb→lt n 10 small in omega arith, tt)
  | inr large ↦ rw large (
      All-append (λ b. b < 128) (digits_of fuel (n / 10)) ((b'0' + n % 10) ∷ [])
        (IsAscii-digits_of fuel (n / 10)) (omega arith, tt))
]

pub IsAscii-decimal : (n : ℕ) → All (λ b. b < 128) (decimal n)
unfolding decimal
IsAscii-decimal n = IsAscii-digits_of (suc n) n
