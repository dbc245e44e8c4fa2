-- ===== src/Report/Hex.antt =====
-- `to_hex_string` against a decoder of hexadecimal text.
use net_zer.Prelude.{
  Option, ℕ, Bytes, take, some, All, length, if◌then◌else◌, ◌<◌, min, leb, IsByte, ◌∷◌, ◌≡◌, ◌*◌,
  ◌/◌, ◌&&◌, none, arith, ◌+◌, suc, zero, ap, ◌-◌, length-take, ◌%◌, [], refl, ◌==◌, ◌||◌, false,
}
use net_zer.Report.{hex_digit, hex_all, to_hex_string, hex2}

abbrev pub hex_value : ℕ → Option ℕ
hex_value c =
    if leb b'0' c && leb c b'9'
    then some (c - b'0')
    else if leb b'a' c && leb c b'f'
    then some (c - b'a' + 10)
    else none

abbrev pub byte_of : Option ℕ → Option ℕ → Option Bytes → Option Bytes
byte_of (some h) (some l) (some bs) = some ((h * 16 + l) ∷ bs)
byte_of _ _ _ = none

pub decode_hex : Bytes → Option Bytes
decode_hex [] = some []
decode_hex (h ∷ []) = none
decode_hex (h ∷ l ∷ cs) = byte_of (hex_value h) (hex_value l) (decode_hex cs)

pub hex_value-hex_digit : (d : ℕ) → d < 16 → hex_value (hex_digit d) ≡ some d
hex_value-hex_digit d h = ground arith

decode_hex-hex_all : (bs : Bytes) → All IsByte bs → decode_hex (hex_all bs) ≡ some bs
unfolding decode_hex
decode_hex-hex_all [] h = refl
decode_hex-hex_all (b ∷ bs) (hb, hbs) =
    rw
      (
        hex_value-hex_digit (b / 16) (omega arith),
        hex_value-hex_digit (b % 16) (omega arith),
        decode_hex-hex_all bs hbs,
      )
      (ap (λ (t : ℕ). some (t ∷ bs)) (omega arith))

-- The digits are ASCII, and none of them is special in a JSON text.
hex_digit_plain :
    (d : ℕ) → d < 16 → (hex_digit d < 128) × ((hex_digit d == b'"' || hex_digit d == b'\\') ≡ false)
hex_digit_plain d h = (ground arith, ground arith)

pub hex_all_plain :
    (bs : Bytes) → All IsByte bs → All (λ b. (b == b'"' || b == b'\\') ≡ false) (hex_all bs)
hex_all_plain [] h = tt
hex_all_plain (b ∷ bs) (hb, hbs) = (
  (hex_digit_plain (b / 16) (omega arith)).1,
  ((hex_digit_plain (b % 16) (omega arith)).1, hex_all_plain bs hbs),
)

pub hex2_ascii : (b : ℕ) → b < 256 → All (λ c. c < 128) (hex2 b)
hex2_ascii b h =
    ((hex_digit_plain (b / 16) (omega arith)).0, ((hex_digit_plain (b % 16) (omega arith)).0, tt))

All-take : (n : ℕ) (bs : Bytes) → All IsByte bs → All IsByte (take n bs)
All-take zero bs h = tt
All-take (suc n) [] h = tt
All-take (suc n) (b ∷ bs) h = (h.0, All-take n bs h.1)

length-hex_all : (bs : Bytes) → length (hex_all bs) ≡ 2 * length bs
length-hex_all [] = omega arith
length-hex_all (b ∷ bs) = omega (arith, length-hex_all bs)

take-min : (n : ℕ) (bs : Bytes) → take (min (length bs) n) bs ≡ take n bs
take-min zero [] = refl
take-min zero (b ∷ bs) = let e : min (suc (length bs)) 0 ≡ 0 = omega arith in rw e
take-min (suc n) [] = let e : min 0 (suc n) ≡ 0 = omega arith in rw e refl
take-min (suc n) (b ∷ bs) =
    let e : min (suc (length bs)) (suc n) ≡ suc (min (length bs) n) = omega arith in
    rw e (ap (◌∷◌ b) (take-min n bs))

-- For every list of bytes, the text of `to_hex_string` decodes to the first 256 of them, and has two
-- characters for each of those.
pub decode_hex-to_hex_string :
    (bytes : Bytes)
    → All IsByte bytes
    → (decode_hex (to_hex_string bytes) ≡ some (take 256 bytes))
      × (length (to_hex_string bytes) ≡ 2 * min (length bytes) 256)
unfolding to_hex_string
decode_hex-to_hex_string bytes h = rw (take-min 256 bytes) (
  decode_hex-hex_all (take 256 bytes) (All-take 256 bytes h),
  omega (arith, length-hex_all (take 256 bytes), length-take 256 bytes),
)

pub to_hex_string_plain :
    (bytes : Bytes)
    → All IsByte bytes
    → All (λ b. (b == b'"' || b == b'\\') ≡ false) (to_hex_string bytes)
unfolding to_hex_string
to_hex_string_plain bytes h =
    hex_all_plain (take (min (length bytes) 256) bytes) (All-take (min (length bytes) 256) bytes h)
