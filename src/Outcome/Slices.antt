-- ===== src/Outcome/Slices.antt =====
-- Reads and slices in range: what they give, by position in an appended list.
use net_zer.Prelude.{
  ℕ, zero, suc, ◌+◌, ◌-◌, ◌≤◌, ◌<◌, ◌≡◌, refl, ap, ◌∙◌, [], ◌∷◌, ◌++◌, Bytes, IsByte, All, le→leb,
  get_or, take, drop, length, length-append, take-length, drop-length, arith, ◌*◌, ltb, false,
  split_at, sym,
}
use net_zer.Outcome.Defs.{
  ok, index, slice, slice_to, slice_from, read_u16, read_array, from_be_bytes, panic,
}

-- A read in range.
pub index_lt : (b : Bytes) (i : ℕ) → i < length b → index b i ≡ ok (get_or b i 0)
unfolding index
index_lt [] i h = absurd (omega arith)
index_lt (x ∷ xs) zero h = refl
index_lt (x ∷ xs) (suc i) h = index_lt xs i (omega arith)

pub get_or-IsByte : (b : Bytes) (i : ℕ) → All IsByte b → get_or b i 0 < 256
get_or-IsByte [] i h = omega arith
get_or-IsByte (x ∷ xs) zero h = h.0
get_or-IsByte (x ∷ xs) (suc i) h = get_or-IsByte xs i h.1

pub get_or-append : (a c : Bytes) (i : ℕ) → get_or (a ++ c) (length a + i) 0 ≡ get_or c i 0
get_or-append [] c i = let e : 0 + i ≡ i = omega arith in rw e
get_or-append (x ∷ a) c i =
    let e : suc (length a) + i ≡ suc (length a + i) = omega arith in rw e (get_or-append a c i)

pub get_or-append_left : (a c : Bytes) (i : ℕ) → i < length a → get_or (a ++ c) i 0 ≡ get_or a i 0
get_or-append_left [] c i h = absurd (omega arith)
get_or-append_left (x ∷ a) c zero h = refl
get_or-append_left (x ∷ a) c (suc i) h = get_or-append_left a c i (omega arith)

-- A read of the byte that stands behind `a`.
pub index-append :
    (a : Bytes) (x : ℕ) (c : Bytes) (i : ℕ) → i ≡ length a → index (a ++ (x ∷ c)) i ≡ ok x
unfolding index
index-append [] x c i e = rw e
index-append (y ∷ a) x c zero e = absurd (omega arith)
index-append (y ∷ a) x c (suc i) e = index-append a x c i (omega arith)

pub slice_le :
    (b : Bytes) (lo hi : ℕ)
    → lo ≤ hi
    → hi ≤ length b
    → slice b lo hi ≡ ok (take (hi - lo) (drop lo b))
unfolding slice
slice_le b lo hi p q = rw (le→leb lo hi p, le→leb hi (length b) q)

pub slice_to_le : (b : Bytes) (n : ℕ) → n ≤ length b → slice_to b n ≡ ok (take n b)
unfolding slice_to
slice_to_le b n p = rw (le→leb n (length b) p)

pub slice_from_le : (b : Bytes) (n : ℕ) → n ≤ length b → slice_from b n ≡ ok (drop n b)
unfolding slice_from
slice_from_le b n p = rw (le→leb n (length b) p)

-- A slice of the part that stands between `a` and `c`.
pub slice-append :
    (a m c : Bytes) (lo hi : ℕ)
    → lo ≡ length a
    → hi ≡ length a + length m
    → slice (a ++ (m ++ c)) lo hi ≡ ok m
slice-append a m c lo hi p q =
    rw (p, q)
      (slice_le (a ++ (m ++ c)) (length a) (length a + length m) (omega arith)
          (omega (arith, length-append a (m ++ c), length-append m c))
        ∙ ap ok (
            rw drop-length (
              let e : length a + length m - length a ≡ length m = omega arith in
              rw e (take-length m c))))

pub slice_to-append : (a c : Bytes) (n : ℕ) → n ≡ length a → slice_to (a ++ c) n ≡ ok a
slice_to-append a c n e =
    rw e
      (slice_to_le (a ++ c) (length a) (omega (arith, length-append a c)) ∙ ap ok (take-length a c))

pub slice_from-append : (a c : Bytes) (n : ℕ) → n ≡ length a → slice_from (a ++ c) n ≡ ok c
slice_from-append a c n e =
    rw e (
      slice_from_le (a ++ c) (length a) (omega (arith, length-append a c))
      ∙ ap ok (drop-length a c))

-- An array that is filled from the part between `a` and `c`.
pub read_array-append :
    (a m c : Bytes) (n lo hi : ℕ)
    → n ≡ length m
    → lo ≡ length a
    → hi ≡ length a + length m
    → read_array n (a ++ (m ++ c)) lo hi ≡ ok m
unfolding read_array
read_array-append a m c n lo hi e p q = rw (slice-append a m c lo hi p q) (ground arith)

pub read_u16-append :
    (a : Bytes) (x y : ℕ) (c : Bytes) (lo hi : ℕ)
    → lo ≡ length a
    → hi ≡ length a + 2
    → read_u16 (a ++ (x ∷ y ∷ c)) lo hi ≡ ok (x * 256 + y)
unfolding read_u16
read_u16-append a x y c lo hi p q =
    rw (read_array-append a (x ∷ y ∷ []) c 2 lo hi refl p q) (ap ok (omega arith))

-- The test at the head of each parser, on a buffer that begins with `n` bytes.
pub not_short : (a c : Bytes) (n : ℕ) → n ≡ length a → ltb (length (a ++ c)) n ≡ false
not_short a c n e = ground (arith, length-append a c)

pub two_of_length : (xs : Bytes) → length xs ≡ 2 → (x : ℕ) × (y : ℕ) × (xs ≡ x ∷ y ∷ [])
two_of_length [] e = absurd (omega arith)
two_of_length (x ∷ []) e = absurd (omega arith)
two_of_length (x ∷ y ∷ []) e = (x, y, refl)
two_of_length (x ∷ y ∷ z ∷ xs) e = absurd (omega arith)

-- The same reads where the buffer is known by an equation.
pub read_array_at :
    (b a m c : Bytes) (n lo hi : ℕ)
    → b ≡ a ++ (m ++ c)
    → length m ≡ n
    → length a ≡ lo
    → lo + n ≡ hi
    → read_array n b lo hi ≡ ok m
read_array_at b a m c n lo hi e p q r =
    rw e (read_array-append a m c n lo hi (sym p) (sym q) (omega arith))

pub read_u16_at :
    (b a m c : Bytes) (lo hi : ℕ)
    → b ≡ a ++ (m ++ c)
    → length m ≡ 2
    → length a ≡ lo
    → lo + 2 ≡ hi
    → read_u16 b lo hi ≡ ok (from_be_bytes m)
unfolding read_u16
read_u16_at b a m c lo hi e p q r = rw (read_array_at b a m c 2 lo hi e p q r)

pub index_at :
    (b a : Bytes) (x : ℕ) (c : Bytes) (i : ℕ) → b ≡ a ++ (x ∷ c) → length a ≡ i → index b i ≡ ok x
index_at b a x c i e p = rw e (index-append a x c i (sym p))

-- A list of `n + m` is a part of `n` and a rest of `m`.
pub split_exact :
    (n m : ℕ) (xs : Bytes)
    → length xs ≡ n + m
    → (part : Bytes) × (rest : Bytes) × (xs ≡ part ++ rest) × (length part ≡ n) × (length rest ≡ m)
split_exact n m xs e =
    let (part, rest, s, p) = split_at n xs (omega arith) in
    (part, rest, s, p, omega (arith, ap length s, length-append part rest))

pub one_of_length : (xs : Bytes) → length xs ≡ 1 → (x : ℕ) × (xs ≡ x ∷ [])
one_of_length [] e = absurd (omega arith)
one_of_length (x ∷ []) e = (x, refl)
one_of_length (x ∷ y ∷ xs) e = absurd (omega arith)

pub cons_of_length : (xs : Bytes) → 0 < length xs → (x : ℕ) × (rest : Bytes) × (xs ≡ x ∷ rest)
cons_of_length [] h = absurd (omega arith)
cons_of_length (x ∷ xs) h = (x, xs, refl)

pub get_or-append_self : (a : Bytes) (x : ℕ) (c : Bytes) → get_or (a ++ (x ∷ c)) (length a) 0 ≡ x
get_or-append_self [] x c = refl
get_or-append_self (y ∷ a) x c = get_or-append_self a x c

take_two :
    (b : Bytes) (i : ℕ)
    → i + 2 ≤ length b
    → take 2 (drop i b) ≡ get_or b i 0 ∷ get_or b (suc i) 0 ∷ []
take_two [] i h = absurd (omega arith)
take_two (x ∷ []) zero h = absurd (omega arith)
take_two (x ∷ y ∷ b) zero h = refl
take_two (x ∷ b) (suc i) h = take_two b i (omega arith)

-- The number in two bytes, by their positions.
pub read_u16_le :
    (b : Bytes) (lo hi : ℕ)
    → lo + 2 ≡ hi
    → hi ≤ length b
    → read_u16 b lo hi ≡ ok (get_or b lo 0 * 256 + get_or b (suc lo) 0)
unfolding read_u16 read_array
read_u16_le b lo hi e h =
    let two : hi - lo ≡ 2 = omega arith in
    rw (slice_le b lo hi (omega arith) h, two, take_two b lo (omega arith)) (ap ok (omega arith))

-- The part that a slice in range gives, and what stands around it.
pub slice_split :
    (b : Bytes) (lo hi : ℕ)
    → lo ≤ hi
    → hi ≤ length b
    → (a : Bytes) × (m : Bytes) × (c : Bytes) × (b ≡ a ++ (m ++ c))
      × (length a ≡ lo)
      × (length m ≡ hi - lo)
      × (slice b lo hi ≡ ok m)
slice_split b lo hi p q =
    let (a, r, e, l) = split_at lo b (omega arith) in
    let (m, c, e2, l2) = split_at (hi - lo) r (omega (arith, ap length e, length-append a r)) in
    let whole : b ≡ a ++ (m ++ c) = e ∙ ap (λ (t : Bytes). a ++ t) e2 in
    (
      a,
      m,
      c,
      whole,
      l,
      l2,
      ap (λ (t : Bytes). slice t lo hi) whole
          ∙ slice-append a m c lo hi (sym l) (omega (arith, l, l2)),
    )

pub three_of_length :
    (xs : Bytes) → length xs ≡ 3 → (x : ℕ) × (y : ℕ) × (z : ℕ) × (xs ≡ x ∷ y ∷ z ∷ [])
three_of_length [] e = absurd (omega arith)
three_of_length (x ∷ []) e = absurd (omega arith)
three_of_length (x ∷ y ∷ []) e = absurd (omega arith)
three_of_length (x ∷ y ∷ z ∷ []) e = (x, y, z, refl)
three_of_length (x ∷ y ∷ z ∷ w ∷ xs) e = absurd (omega arith)

-- A byte of the part that stands behind `a`.
pub get_or_at :
    (b a c : Bytes) (i j : ℕ) → b ≡ a ++ c → length a ≡ i → get_or b (i + j) 0 ≡ get_or c j 0
get_or_at b a c i j e l = rw (e, ← l) (get_or-append a c j)

-- A read out of range.
pub index_ge : (b : Bytes) (i : ℕ) → length b ≤ i → index b i ≡ panic
unfolding index
index_ge [] i h = refl
index_ge (x ∷ xs) zero h = absurd (omega arith)
index_ge (x ∷ xs) (suc i) h = index_ge xs i (omega arith)
