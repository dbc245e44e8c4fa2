-- ===== src/Outcome/Safety.antt =====
-- Safety of a computation: no panic, no end of fuel, and a property of what it returns.
use net_zer.Prelude.{Bool, ℕ, Bytes, ◌<◌, ◌≡◌, length, false, true, get_or, refl}
use net_zer.Outcome.Defs.{Outcome, ◌>>=◌, ◌>>◌, refuse_if, ParseError, ok, err, index}
use net_zer.Outcome.Slices.{index_lt}
use net_zer.Outcome.Loop.{Flow, ◌>>→◌, Round}

abbrev pub Safe {ℓ} : {A : Type ℓ} → (A → Type 0) → Outcome A → Type 0
Safe Q (ok a) = Q a
Safe Q (err e) = Unit
Safe Q _ = ⊥

module _ {ℓ κ} {A : Type ℓ} {B : Type κ} where
  pub Safe-bind :
      (Q : A → Type 0) (R : B → Type 0) (m : Outcome A) (f : A → Outcome B)
      → Safe Q m
      → ((a : A) → Q a → Safe R (f a))
      → Safe R (m >>= f)
  Safe-bind Q R (ok a) f h k = k a h
  Safe-bind Q R (err e) f h k = tt
  Safe-bind Q R Outcome.panic f h k = h
  Safe-bind Q R Outcome.diverge f h k = h

module _ {ℓ} {A : Type ℓ} where
  pub Safe-weaken :
      (Q : A → Type 0) (R : A → Type 0) (m : Outcome A)
      → Safe Q m
      → ((a : A) → Q a → R a)
      → Safe R m
  Safe-weaken Q R (ok a) h k = k a h
  Safe-weaken Q R (err e) h k = tt
  Safe-weaken Q R Outcome.panic h k = h
  Safe-weaken Q R Outcome.diverge h k = h

pub Safe-refuse_if {ℓ} :
    {A : Type ℓ} (R : A → Type 0) (test : Bool) (e : ParseError) (k : Outcome A)
    → (test ≡ false → Safe R k)
    → Safe R (refuse_if test e >> k)
Safe-refuse_if R true e k h = tt
Safe-refuse_if R false e k h = h refl

-- A safe step of a loop's body.
pub Round-step {ℓ κ ι} :
    {S : Type ℓ} {A : Type κ} {B : Type ι} (P : S → Type 0) (Q : A → Type 0) (R : B → Type 0)
    (measure : S → ℕ) (n : ℕ) (m : Outcome B) (f : B → Flow S A)
    → Safe R m
    → ((b : B) → R b → Round P (Safe Q) measure n (f b))
    → Round P (Safe Q) measure n (m >>→ f)
Round-step P Q R measure n (ok b) f h k = k b h
Round-step P Q R measure n (err e) f h k = tt
Round-step P Q R measure n Outcome.panic f h k = h
Round-step P Q R measure n Outcome.diverge f h k = h

pub Safe-index : (b : Bytes) (i : ℕ) → i < length b → Safe (λ x. x ≡ get_or b i 0) (index b i)
Safe-index b i h = rw (index_lt b i h) refl
