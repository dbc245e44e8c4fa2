-- ===== src/Prelude/Bits.antt =====
-- Masks and shifts on machine words as arithmetic, for the bit operations that the program uses.
use Prim.Native.Nat.{
  ℕ, zero, suc, ◌+◌, ◌*◌, ◌/◌, ◌%◌, ◌^◌, ◌≤◌, ◌<◌, min, max, bit_and, bit_or, digits, bitwise,
  bit_or-bitwise, bit_and-bitwise,
}
use mathlib.Core.Path.{◌≡◌, refl, ◌∙◌, ap}
use mathlib.Core.Bool.{Bool, true, ◌&&◌}
use native.Mathlib.Omega.{arith}
use native.Mathlib.Nat.{pow-suc}
use net_zer.Prelude.Tests.{◌==◌, ==_iff}

-- A test of every number from 0 to before a bound, for tables that evaluation settles.
unfoldable pub holds_below : (ℕ → Bool) → ℕ → Bool
holds_below test zero = true
holds_below test (suc bound) = holds_below test bound && test bound

pub below_lem :
    (test : ℕ → Bool) (bound : ℕ)
    → holds_below test bound ≡ true
    → (x : ℕ) → x < bound
    → test x ≡ true
unfolding holds_below
below_lem test zero table x h = absurd (omega arith)
below_lem test (suc bound) table x h =
    let lower : holds_below test bound ≡ true → x < bound → test x ≡ true =
      λ t. below_lem test bound t x in
    ground (arith, lower)

-- More turns than the first number needs give the same digits.
module _ (ended : ℕ → ℕ) (digit : ℕ → ℕ → ℕ) where
  settle :
      (most turns x y : ℕ)
      → turns ≤ most
      → x ≤ turns
      → digits ended digit turns x y ≡ digits ended digit x x y
  settle most zero zero y few enough = refl
  settle most (suc turns) zero y few enough = refl
  settle most zero (suc x) y few enough = absurd (omega arith)
  settle zero (suc turns) (suc x) y few enough = absurd (omega arith)
  settle (suc most) (suc turns) (suc x) y few enough =
      let long = settle most turns (suc x / 2) (y / 2) (omega arith) (omega arith) in
      let short = settle most x (suc x / 2) (y / 2) (omega arith) (omega arith) in
      rw (long, short) refl

  halved :
      (x y : ℕ)
      → bitwise ended digit (suc x) y
        ≡ bitwise ended digit (suc x / 2) (y / 2) * 2 + digit (suc x % 2) (y % 2)
  halved x y = rw (settle x x (suc x / 2) (y / 2) (omega arith) (omega arith)) refl

or_halved : (x y : ℕ) → bit_or x y ≡ bit_or (x / 2) (y / 2) * 2 + max (x % 2) (y % 2)
or_halved zero y =
    let keep : (t : ℕ) → bit_or 0 t ≡ t = λ t. bit_or-bitwise 0 t in
    omega (arith, keep y, keep (y / 2))
or_halved (suc x) y =
    bit_or-bitwise (suc x) y
    ∙ halved (λ t. t) max x y
    ∙ rw (bit_or-bitwise (suc x / 2) (y / 2)) refl

and_halved : (x y : ℕ) → bit_and x y ≡ bit_and (x / 2) (y / 2) * 2 + min (x % 2) (y % 2)
and_halved zero y =
    let none_left : (t : ℕ) → bit_and 0 t ≡ 0 = λ t. bit_and-bitwise 0 t in
    omega (arith, none_left y, none_left (y / 2))
and_halved (suc x) y =
    bit_and-bitwise (suc x) y
    ∙ halved (λ t. 0) min x y
    ∙ rw (bit_and-bitwise (suc x / 2) (y / 2)) refl

or_nothing : (x most : ℕ) → x ≤ most → bit_or x 0 ≡ x
or_nothing zero most h = bit_or-bitwise 0 0
or_nothing (suc x) zero h = absurd (omega arith)
or_nothing (suc x) (suc most) h =
    omega (arith, or_halved (suc x) 0, or_nothing (suc x / 2) most (omega arith))

and_nothing : (x most : ℕ) → x ≤ most → bit_and x 0 ≡ 0
and_nothing zero most h = bit_and-bitwise 0 0
and_nothing (suc x) zero h = absurd (omega arith)
and_nothing (suc x) (suc most) h =
    omega (arith, and_halved (suc x) 0, and_nothing (suc x / 2) most (omega arith))

two_pow-suc : (k : ℕ) → 2 ^ (suc k) ≡ 2 * 2 ^ k
two_pow-suc k = omega (arith, pow-suc 2 k)

shifted-suc : (k a : ℕ) → a * 2 ^ suc k ≡ 2 * (a * 2 ^ k)
shifted-suc k a = omega (arith, ap (λ (t : ℕ). a * t) (two_pow-suc k))

-- `x << k | b` adds, when `b` fits below the shift.
pub bit_or_shifted : (k a b : ℕ) → b < 2 ^ k → bit_or (a * 2 ^ k) b ≡ a * 2 ^ k + b
bit_or_shifted zero a zero h = or_nothing (a * 2 ^ 0) (a * 2 ^ 0) (omega arith) ∙ omega arith
bit_or_shifted zero a (suc b) h = absurd (omega arith)
bit_or_shifted (suc k) a b h =
    let half : a * 2 ^ suc k / 2 ≡ a * 2 ^ k = omega (arith, shifted-suc k a) in
    or_halved (a * 2 ^ suc k) b
    ∙ rw half
        (omega (arith, shifted-suc k a, bit_or_shifted k a (b / 2) (omega (arith, two_pow-suc k))))

pub bit_or_byte : (a b : ℕ) → b < 256 → bit_or (a * 256) b ≡ a * 256 + b
bit_or_byte a b h = bit_or_shifted 8 a b h

pub low_nibble : (b : ℕ) → b < 256 → bit_and b 0x0F ≡ b % 16
low_nibble b h =
    (==_iff _ _).0 (below_lem (λ x. bit_and x 0x0F == x % 16) 256 (unfold holds_below in refl) b h)

pub top_bit : (b : ℕ) → b < 256 → bit_and b 0x80 ≡ b / 128 * 128
top_bit b h =
    (==_iff _ _).0
      (below_lem (λ x. bit_and x 0x80 == x / 128 * 128) 256 (unfold holds_below in refl) b h)

pub top_two_bits : (b : ℕ) → b < 256 → bit_and b 0xC0 ≡ b / 64 * 64
top_two_bits b h =
    (==_iff _ _).0
      (below_lem (λ x. bit_and x 0xC0 == x / 64 * 64) 256 (unfold holds_below in refl) b h)

three_ones : (x : ℕ) → bit_and x 7 ≡ x % 8
three_ones x = omega (
  arith,
  and_halved x 7,
  and_halved (x / 2) 3,
  and_halved (x / 2 / 2) 1,
  and_nothing (x / 2 / 2 / 2) (x / 2 / 2 / 2) (omega arith),
)

-- A mask of six ones, on a word of any width.
pub low_six : (x : ℕ) → bit_and x 0x3f ≡ x % 64
low_six x = omega (
  arith,
  and_halved x 63,
  and_halved (x / 2) 31,
  and_halved (x / 2 / 2) 15,
  three_ones (x / 2 / 2 / 2),
)
