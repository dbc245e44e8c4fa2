-- ===== src/Stream/Key.antt =====
-- The key of a connection: the same for both directions, and for no other connection.
use net_zer.Prelude.{◌≡◌, Bytes, true, ℕ, ◌↔◌, arith, ◌⊎◌, [], Bool-cases, inl, inr, ◌∷◌, refl}
use Prim.Native.Nat.{Ordering}
use net_zer.Stream.{compare_str, endpoint_lt, StreamKey, new_key, str_eq, key_eq}

abbrev flip : Ordering → Ordering
flip Ordering.lt = Ordering.gt
flip Ordering.eq = Ordering.eq
flip Ordering.gt = Ordering.lt

compare_str_swap : (a b : Bytes) → compare_str b a ≡ flip (compare_str a b)
unfolding compare_str
compare_str_swap [] [] = refl
compare_str_swap [] (y ∷ ys) = refl
compare_str_swap (x ∷ xs) [] = refl
compare_str_swap (x ∷ xs) (y ∷ ys) = ground (arith, compare_str_swap xs ys)

compare_str_eq : (a b : Bytes) → compare_str a b ≡ Ordering.eq → a ≡ b
unfolding compare_str
compare_str_eq [] [] e = refl
compare_str_eq [] (y ∷ ys) e = cc
compare_str_eq (x ∷ xs) [] e = cc
compare_str_eq (x ∷ xs) (y ∷ ys) e = ground (arith, compare_str_eq xs ys)

str_eq_iff : (a b : Bytes) → (str_eq a b ≡ true) ↔ (a ≡ b)
str_eq_iff [] [] = ground arith
str_eq_iff [] (y ∷ ys) = ground arith
str_eq_iff (x ∷ xs) [] = ground arith
str_eq_iff (x ∷ xs) (y ∷ ys) = ground (arith, str_eq_iff xs ys)

pub key_eq_iff : (a b : StreamKey) → (key_eq a b ≡ true) ↔ (a ≡ b)
unfolding key_eq
key_eq_iff a b =
    ground (arith, str_eq_iff a.client_ip b.client_ip, str_eq_iff a.server_ip b.server_ip)

-- The key does not depend on the direction.
pub new_key_symm : (a b : Bytes) (p q : ℕ) → new_key a p b q ≡ new_key b q a p
unfolding new_key endpoint_lt
new_key_symm a b p q = ground (arith, compare_str_swap a b, compare_str_eq a b)

abbrev key_of : Bytes → ℕ → Bytes → ℕ → StreamKey
key_of a p b q = record { client_ip = a; client_port = p; server_ip = b; server_port = q }

new_key-cases :
    (a b : Bytes) (p q : ℕ)
    → (new_key a p b q ≡ key_of a p b q) ⊎ (new_key a p b q ≡ key_of b q a p)
unfolding new_key
new_key-cases a b p q = elim (Bool-cases (endpoint_lt (a, p) (b, q))) [
  | inl e ↦ inl (rw e)
  | inr e ↦ inr (rw e)
]

same_endpoints :
    (a b c d : Bytes) (p q r s : ℕ)
    → new_key a p b q ≡ new_key c r d s
    → ((a ≡ c) × (p ≡ r) × (b ≡ d) × (q ≡ s)) ⊎ ((a ≡ d) × (p ≡ s) × (b ≡ c) × (q ≡ r))
same_endpoints a b c d p q r s e = ground (arith, new_key-cases a b p q, new_key-cases c d r s)

-- Two segments get one key exactly if they run between the same two endpoints, in the same direction
-- or in opposite ones.
pub new_key_iff :
    (a b c d : Bytes) (p q r s : ℕ)
    → (new_key a p b q ≡ new_key c r d s)
      ↔ (((a ≡ c) × (p ≡ r) × (b ≡ d) × (q ≡ s)) ⊎ ((a ≡ d) × (p ≡ s) × (b ≡ c) × (q ≡ r)))
new_key_iff a b c d p q r s = (same_endpoints a b c d p q r s, back)
  where
    back :
        (((a ≡ c) × (p ≡ r) × (b ≡ d) × (q ≡ s)) ⊎ ((a ≡ d) × (p ≡ s) × (b ≡ c) × (q ≡ r)))
        → new_key a p b q ≡ new_key c r d s
    back (inl (e1, e2, e3, e4)) = rw (e1, e2, e3, e4)
    back (inr (e1, e2, e3, e4)) = rw (e1, e2, e3, e4) (new_key_symm d c s r)
