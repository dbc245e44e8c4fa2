-- ===== src/Report/Hexdump/Offset.antt =====
-- The offsets of `hexdump` in netzer-core/src/hexdump.rs: how wide they are, and that they read back.
use net_zer.Prelude.{
  ℕ, Bytes, Option, none, some, ◌∷◌, ◌++◌, [], ◌+◌, ◌*◌, ◌≡◌, ◌<◌, ◌≤◌, ◌/◌, ◌%◌, ◌-◌, ◌==◌, zero,
  suc, arith, Option-cases, sym, false, refl, length, length-append, length-replicate, Bool-cases,
  inl, inr, replicate, ap, ◌∙◌, ◌^◌,
}
use net_zer.Report.{hex_digit}
use net_zer.Report.Hex.{hex_value, hex_value-hex_digit}
use net_zer.Report.Hexdump.{hex_digits, hex4}

abbrev pow16 : ℕ → ℕ
pow16 zero = 1
pow16 (suc n) = 16 * pow16 n

-- The number that digits say, behind a number that is already read.
pub read_number : ℕ → Bytes → Option ℕ
read_number acc [] = some acc
read_number acc (c ∷ cs) = elim (hex_value c) [
  | none ↦ none
  | some d ↦ read_number (acc * 16 + d) cs
]

read_number-snoc :
    (acc x d : ℕ) (ds : Bytes)
    → d < 16
    → read_number acc ds ≡ some x
    → read_number acc (ds ++ hex_digit d ∷ []) ≡ some (x * 16 + d)
unfolding read_number
read_number-snoc acc x d [] h e =
    let same : acc ≡ x = cc in rw (read_number, hex_value-hex_digit d h, same) refl
read_number-snoc acc x d (c ∷ ds) h e = elim (Option-cases (hex_value c)) [
  | inl bad ↦
      let none_is : none ≡ some x =
        sym (
          ap
            (λ (v : Option ℕ). elim v as (λ _. Option ℕ) [
              | none ↦ none
              | some b ↦ read_number (acc * 16 + b) ds
            ])
            bad)
        ∙ e in
      absurd cc
  | inr (b, good) ↦
      rw (read_number, good)
        (read_number-snoc (acc * 16 + b) x d ds h (
          sym (
            ap
              (λ (v : Option ℕ). elim v as (λ _. Option ℕ) [
                | none ↦ none
                | some b ↦ read_number (acc * 16 + b) ds
              ])
              good)
          ∙ e))
]

read_number-hex_digits :
    (n x : ℕ) → x < pow16 (suc n) → read_number 0 (hex_digits (suc n) x) ≡ some x
unfolding hex_digits
read_number-hex_digits zero x h = elim (Bool-cases (x / 16 == 0)) [
  | inl small ↦ rw small (
      read_number-snoc 0 0 (x % 16) [] (omega arith) (unfold read_number in refl)
      ∙ ap some (ground (arith, small)))
  | inr large ↦ absurd (ground (arith, h, large))
]
read_number-hex_digits (suc n) x h = elim (Bool-cases (x / 16 == 0)) [
  | inl small ↦ rw small (
      read_number-snoc 0 0 (x % 16) [] (omega arith) (unfold read_number in refl)
      ∙ ap some (ground (arith, small)))
  | inr large ↦ rw large (
      read_number-snoc 0 (x / 16) (x % 16) (hex_digits (suc n) (x / 16)) (omega arith)
        (read_number-hex_digits n (x / 16) (omega arith))
      ∙ ap some (omega arith))
]

read_number-zeros : (k : ℕ) (ds : Bytes) → read_number 0 (replicate k b'0' ++ ds) ≡ read_number 0 ds
unfolding read_number
read_number-zeros zero ds = refl
read_number-zeros (suc k) ds = read_number-zeros k ds

pub read_number-hex4 : (x : ℕ) → x < 2 ^ 64 → read_number 0 (hex4 x) ≡ some x
unfolding hex4
read_number-hex4 x h =
    read_number-zeros (4 - length (hex_digits 16 x)) (hex_digits 16 x)
    ∙ read_number-hex_digits 15 x (omega arith)

longer :
    (n k x : ℕ)
    → x < pow16 (suc k)
    → (x / 16 == 0) ≡ false
    → ((j y : ℕ) → y < pow16 (suc j) → length (hex_digits n y) ≤ suc j)
    → length (hex_digits n (x / 16) ++ hex_digit (x % 16) ∷ []) ≤ suc k
longer n zero x h large short = absurd (ground (arith, large, h))
longer n (suc k) x h large short = omega (
  arith,
  length-append (hex_digits n (x / 16)) (hex_digit (x % 16) ∷ []),
  short k (x / 16) (omega arith),
)

length-hex_digits : (n k x : ℕ) → x < pow16 (suc k) → length (hex_digits n x) ≤ suc k
unfolding hex_digits
length-hex_digits zero k x h = omega arith
length-hex_digits (suc n) k x h = elim (Bool-cases (x / 16 == 0)) [
  | inl small ↦ rw small (omega arith)
  | inr large ↦ rw large (longer n k x h large (length-hex_digits n))
]

pub length-hex4 : (x : ℕ) → 4 ≤ length (hex4 x)
unfolding hex4
length-hex4 x =
    let ds = hex_digits 16 x in
    omega (
      arith,
      length-append (replicate (4 - length ds) b'0') ds,
      length-replicate {A = ℕ} (4 - length ds) b'0',
    )

pub length-hex4_small : (x : ℕ) → x < 65536 → length (hex4 x) ≡ 4
unfolding hex4
length-hex4_small x h =
    let ds = hex_digits 16 x in
    omega (
      arith,
      length-append (replicate (4 - length ds) b'0') ds,
      length-replicate {A = ℕ} (4 - length ds) b'0',
      length-hex_digits 16 3 x (omega arith),
    )
