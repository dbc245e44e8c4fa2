-- ===== src/Outcome/Loop.antt =====
-- A Rust loop as its body: `next` goes round with new variables, `stop` leaves the loop by `break`,
-- `return`, a failed test or a panic. One rule gives total correctness.
use net_zer.Prelude.{ℕ, zero, suc, ◌<◌, arith, ◌≡◌}
use net_zer.Outcome.Defs.{Outcome, ok, err, panic, diverge}

pub data Flow {ℓ κ} (S : Type ℓ) (A : Type κ) : Type (ℓ ⊔ κ) where
  next : S → Flow S A
  stop : Outcome A → Flow S A

-- A fallible step of the loop body.
infixl 5 ◌>>→◌
abbrev pub ◌>>→◌ {ℓ κ ι} :
    {S : Type ℓ} {A : Type κ} {B : Type ι} → Outcome B → (B → Flow S A) → Flow S A
ok b >>→ f = f b
err e >>→ f = stop (err e)
panic >>→ f = stop panic
diverge >>→ f = stop diverge

unfoldable pub run_loop {ℓ κ} : {S : Type ℓ} {A : Type κ} → ℕ → (S → Flow S A) → S → Outcome A
run_loop zero body s = diverge
run_loop (suc fuel) body s = elim (body s) [ next t ↦ run_loop fuel body t | stop r ↦ r ]

-- What one round must give: the invariant again and a smaller measure, or the postcondition.
abbrev pub Round {ℓ κ ι} :
    {S : Type ℓ} {A : Type κ} (P : S → Type ι) (Q : Outcome A → Type ι) (measure : S → ℕ) (m : ℕ)
    → Flow S A
    → Type ι
Round P Q measure m (next t) = P t × (measure t < m)
Round P Q measure m (stop r) = Q r

-- With a measure below the fuel, and an invariant that every round keeps, the loop ends in its
-- postcondition. A postcondition that excludes `diverge` and `panic` makes this total correctness.
pub run_loop_rule {ℓ κ ι} :
    {S : Type ℓ} {A : Type κ} (P : S → Type ι) (Q : Outcome A → Type ι) (measure : S → ℕ)
    (body : S → Flow S A)
    → ((s : S) → P s → Round P Q measure (measure s) (body s))
    → (fuel : ℕ) (s : S) → measure s < fuel
    → P s
    → Q (run_loop fuel body s)
unfolding run_loop
run_loop_rule P Q measure body keep zero s m h = absurd (omega arith)
run_loop_rule {S} {A} P Q measure body keep (suc fuel) s m h =
    go (body s) (keep s h) (λ t b p. run_loop_rule P Q measure body keep fuel t b p)
  where
    go :
        (r : Flow S A)
        → Round P Q measure (measure s) r
        → ((t : S) → measure t < fuel → P t → Q (run_loop fuel body t))
        → Q (elim r [ next t ↦ run_loop fuel body t | stop r ↦ r ])
    go (next t) k later = later t (omega arith) k.0
    go (stop r) k later = k

-- One round, where it is known what the body gives.
module _ {ℓ κ} {S : Type ℓ} {A : Type κ} (body : S → Flow S A) (fuel : ℕ) (s : S) where
  pub run_loop_stop : (r : Outcome A) → body s ≡ stop r → run_loop (suc fuel) body s ≡ r
  unfolding run_loop
  run_loop_stop r e = rw (e, run_loop)

  pub run_loop_next : (t : S) → body s ≡ next t → run_loop (suc fuel) body s ≡ run_loop fuel body t
  unfolding run_loop
  run_loop_next t e = rw (e, run_loop)
