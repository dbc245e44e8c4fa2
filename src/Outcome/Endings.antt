-- ===== src/Outcome/Endings.antt =====
-- How a step of the program ends: it returns, or it panics for a known reason. It never ends in an
-- error and never runs for ever.
use net_zer.Prelude.{
  ◌≡◌, refl, Bool, if◌then◌else◌, true, false, ℕ, ◌==◌, Bool-cases, inl, ==_iff, inr, ◌≢◌, arith,
}
use net_zer.Outcome.Defs.{ParseError, Outcome, ok, err, panic, diverge, ◌>>=◌, match_ok}

abbrev pub Ends {ℓ} : {A : Type ℓ} → (A → Type 0) → Type 0 → Outcome A → Type 0
Ends Q T (ok a) = Q a
Ends Q T (err e) = ⊥
Ends Q T panic = T
Ends Q T diverge = ⊥

module _ {ℓ κ} {A : Type ℓ} {B : Type κ} where
  pub Ends-bind :
      (Q : A → Type 0) (R : B → Type 0) (T : Type 0) (m : Outcome A) (f : A → Outcome B)
      → Ends Q T m
      → ((a : A) → Q a → Ends R T (f a))
      → Ends R T (m >>= f)
  Ends-bind Q R T (ok a) f h k = k a h
  Ends-bind Q R T (err e) f h k = h
  Ends-bind Q R T panic f h k = h
  Ends-bind Q R T diverge f h k = h

  -- A step that is known to return.
  pub Ends-returns :
      (R : B → Type 0) (T : Type 0) (m : Outcome A) (a : A) (f : A → Outcome B)
      → m ≡ ok a
      → Ends R T (f a)
      → Ends R T (m >>= f)
  Ends-returns R T m a f e h = rw e h

  -- A match on a result, by what is known of the result.
  pub Ends-match_ok :
      (P : Outcome A → Type 0) (R : B → Type 0) (T : Type 0) (m : Outcome A) (other : Outcome B)
      (f : A → Outcome B)
      → P m
      → Ends R T other
      → ((a : A) → m ≡ ok a → P (ok a) → Ends R T (f a))
      → (m ≡ panic → P panic → T)
      → (P diverge → ⊥)
      → Ends R T (match_ok m other f)
  Ends-match_ok P R T (ok a) other f h o k p d = k a refl h
  Ends-match_ok P R T (err e) other f h o k p d = o
  Ends-match_ok P R T panic other f h o k p d = p refl h
  Ends-match_ok P R T diverge other f h o k p d = d h

-- A result that is an error.
abbrev pub Refused {ℓ} : {A : Type ℓ} → Outcome A → Type ℓ
Refused m = (e : ParseError) × (m ≡ err e)

-- The same, where it matters that the result was an error.
pub Ends-match_else {ℓ κ} :
    {A : Type ℓ} {B : Type κ} (P : Outcome A → Type 0) (R : B → Type 0) (T : Type 0) (m : Outcome A)
    (other : Outcome B) (f : A → Outcome B)
    → P m
    → (Refused m → Ends R T other)
    → ((a : A) → m ≡ ok a → P (ok a) → Ends R T (f a))
    → (m ≡ panic → P panic → T)
    → (P diverge → ⊥)
    → Ends R T (match_ok m other f)
Ends-match_else P R T (ok a) other f h o k p d = k a refl h
Ends-match_else P R T (err e) other f h o k p d = o (e, refl)
Ends-match_else P R T panic other f h o k p d = p refl h
Ends-match_else P R T diverge other f h o k p d = d h

pub Ends-weaken {ℓ} :
    {A : Type ℓ} (Q : A → Type 0) (T U : Type 0) (m : Outcome A) → (T → U) → Ends Q T m → Ends Q U m
Ends-weaken Q T U (ok a) f h = h
Ends-weaken Q T U (err e) f h = h
Ends-weaken Q T U panic f h = f h
Ends-weaken Q T U diverge f h = h

pub Ends-map {ℓ} :
    {A : Type ℓ} (Q R : A → Type 0) (T : Type 0) (m : Outcome A)
    → ((a : A) → Q a → R a)
    → Ends Q T m
    → Ends R T m
Ends-map Q R T (ok a) f h = f a h
Ends-map Q R T (err e) f h = h
Ends-map Q R T panic f h = h
Ends-map Q R T diverge f h = h

pub Ends-if {ℓ} :
    {A : Type ℓ} (Q : A → Type 0) (T : Type 0) (test : Bool) (m n : Outcome A)
    → Ends Q T m
    → Ends Q T n
    → Ends Q T (if test then m else n)
Ends-if Q T true m n h k = h
Ends-if Q T false m n h k = k

-- A test of a number.
pub Ends-when {ℓ} :
    {A : Type ℓ} (Q : A → Type 0) (T : Type 0) (kind k : ℕ) (m n : Outcome A)
    → (kind ≡ k → Ends Q T m)
    → (kind ≢ k → Ends Q T n)
    → Ends Q T (if kind == k then m else n)
Ends-when Q T kind k m n f h = elim (Bool-cases (kind == k)) [
  | inl same ↦ rw same (f ((==_iff kind k).0 same))
  | inr other ↦ rw other (h (ground (arith, other)))
]
