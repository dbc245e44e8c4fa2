-- ===== src/Outcome/Defs.antt =====
-- The outcome type and its bind, and the slices and reads that panic out of range.
use net_zer.Prelude.{
  ascii, ℕ, ◌+◌, ◌-◌, ◌*◌, ◌&&◌, [], ◌∷◌, Option, none, some, Bytes, leb, if◌then◌else◌, get_elem?,
  take, drop, length, ◌==◌, Bool, true, false,
}

-- netzer-core/src/error.rs
pub data ParseError : Type 0 where
  buffer_too_short invalid_format : ParseError

pub data Outcome {ℓ} (A : Type ℓ) : Type ℓ where
  ok : A → Outcome A
  err : ParseError → Outcome A
  panic : Outcome A
  diverge : Outcome A

infixl 5 ◌>>=◌
abbrev pub ◌>>=◌ {ℓ κ} : {A : Type ℓ} {B : Type κ} → Outcome A → (A → Outcome B) → Outcome B
ok a >>= f = f a
err e >>= f = err e
panic >>= f = panic
diverge >>= f = diverge

abbrev pub or_panic {ℓ} : {A : Type ℓ} → Option A → Outcome A
or_panic none = panic
or_panic (some a) = ok a

-- `buffer[i]`
unfoldable pub index : Bytes → ℕ → Outcome ℕ
index buffer i = or_panic (get_elem? buffer i)

-- `&buffer[lo..hi]`
unfoldable pub slice : Bytes → ℕ → ℕ → Outcome Bytes
slice buffer lo hi =
    if leb lo hi && leb hi (length buffer) then ok (take (hi - lo) (drop lo buffer)) else panic

-- `&buffer[..n]`
unfoldable pub slice_to : Bytes → ℕ → Outcome Bytes
slice_to buffer n = if leb n (length buffer) then ok (take n buffer) else panic

-- `&buffer[n..]`
unfoldable pub slice_from : Bytes → ℕ → Outcome Bytes
slice_from buffer n = if leb n (length buffer) then ok (drop n buffer) else panic

-- `from_be_bytes`, most significant byte first.
abbrev pub from_be_bytes_onto : ℕ → Bytes → ℕ
from_be_bytes_onto acc [] = acc
from_be_bytes_onto acc (b ∷ bs) = from_be_bytes_onto (acc * 256 + b) bs

abbrev pub from_be_bytes : Bytes → ℕ
from_be_bytes = from_be_bytes_onto 0

-- `let mut bytes = [0u8; n]; bytes.copy_from_slice(&buffer[lo..hi])`, which panics where the part
-- does not have the array's size.
unfoldable pub read_array : ℕ → Bytes → ℕ → ℕ → Outcome Bytes
read_array n buffer lo hi = do
  part ← slice buffer lo hi
  if length part == n then ok part else panic

-- `u16::from_be_bytes` of such an array of two.
unfoldable pub read_u16 : Bytes → ℕ → ℕ → Outcome ℕ
read_u16 buffer lo hi = do bytes ← read_array 2 buffer lo hi; ok (from_be_bytes bytes)

-- What the error prints.
pub display : ParseError → Bytes
display buffer_too_short = ascii "buffer is too short to parse the header"
display invalid_format = ascii "invalid header format"

infixl 5 ◌>>◌
abbrev pub ◌>>◌ {ℓ} : {B : Type ℓ} → Outcome (Unit {0}) → Outcome B → Outcome B
m >> k = m >>= λ _. k

-- `if test { return Err(e); }`
abbrev pub refuse_if : Bool → ParseError → Outcome (Unit {0})
refuse_if true e = err e
refuse_if false e = ok tt

-- `match m { Ok(a) => f(a), Err(_) => other }`, and `if let Ok(a) = m`.
abbrev pub match_ok {ℓ κ} :
    {A : Type ℓ} {B : Type κ} → Outcome A → Outcome B → (A → Outcome B) → Outcome B
match_ok (ok a) other f = f a
match_ok (err e) other f = other
match_ok panic other f = panic
match_ok diverge other f = diverge
