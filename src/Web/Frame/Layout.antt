-- ===== src/Web/Frame/Layout.antt =====
-- The frame against a reader of RFC 6455 for the frames that a server sends.
use native.Mathlib.Decide.{dec_le}
use net_zer.Prelude.{
  ℕ, Bytes, Option, some, suc, if◌then◌else◌, none, ◌==◌, leb, length, ◌∷◌, ◌*◌, ◌+◌, zero, [], ◌≤◌,
  ◌<◌, ◌/◌, ◌≡◌, ==_iff, false, ◌%◌, ◌^◌, ◌++◌, arith, refl, le→leb, ap,
}
use net_zer.Web.Frame.{to_be_bytes, encode_ws_text_frame}

-- A number of `w` bytes in front of what follows, the high ones first.
take_be : ℕ → ℕ → Bytes → Option (ℕ × Bytes)
take_be zero n bs = some (n, bs)
take_be (suc w) n [] = none
take_be (suc w) n (b ∷ bs) = take_be w (n * 256 + b) bs

-- The payload has to be all that is left.
whole : Option (ℕ × Bytes) → Option Bytes
whole none = none
whole (some (n, bs)) = if n == length bs then some bs else none

-- A final text frame without a mask: a length below 126 stands in its own byte, 126 announces two
-- bytes and 127 eight, which must not hold a length that fits a shorter form.
least : ℕ → Option (ℕ × Bytes) → Option (ℕ × Bytes)
least m none = none
least m (some (n, bs)) = if leb m n then some (n, bs) else none

pub read_ws_text_frame : Bytes → Option Bytes
read_ws_text_frame (first ∷ len ∷ bs) =
    if first == 0x81
    then (if leb len 125
        then whole (some (len, bs))
        else if len == 126
        then whole (least 126 (take_be 2 0 bs))
        else if len == 127
        then whole (least 65536 (take_be 8 0 bs))
        else none)
    else none
read_ws_text_frame _ = none

take_be_two : (n : ℕ) (bs : Bytes) → n < 2 ^ 16 → take_be 2 0 (to_be_bytes 2 n ++ bs) ≡ some (n, bs)
unfolding take_be to_be_bytes
take_be_two n bs h = ap (λ (t : ℕ). some (t, bs)) (omega arith)

-- The next byte of a number and what is above it.
peel : (n k m : ℕ) → n / k / 256 ≡ n / m → n / m * 256 + n / k % 256 ≡ n / k
peel n k m h = omega (arith, h)

take_be_eight :
    (n : ℕ) (bs : Bytes) → n < 2 ^ 64 → take_be 8 0 (to_be_bytes 8 n ++ bs) ≡ some (n, bs)
unfolding take_be to_be_bytes
take_be_eight n bs h =
    let top : 0 * 256 + n / 256 ^ 7 % 256 ≡ n / 256 ^ 7 = omega arith in
    rw
      (
        top,
        peel n (256 ^ 6) (256 ^ 7) (omega arith),
        peel n (256 ^ 5) (256 ^ 6) (omega arith),
        peel n (256 ^ 4) (256 ^ 5) (omega arith),
        peel n (256 ^ 3) (256 ^ 4) (omega arith),
        peel n (256 ^ 2) (256 ^ 3) (omega arith),
        peel n (256 ^ 1) (256 ^ 2) (omega arith),
        peel n (256 ^ 0) (256 ^ 1) (omega arith),
      )
      (ap (λ (t : ℕ). some (t, bs)) (omega arith))

whole_lem : (bs : Bytes) → whole (some (length bs, bs)) ≡ some bs
unfolding whole
whole_lem bs = rw ((==_iff (length bs) (length bs)).1 refl) refl

not_leb : (a b : ℕ) → ¬ (a ≤ b) → leb a b ≡ false
not_leb a b h = ground arith

-- For every payload below 2 ^ 64 bytes, the frame that `encode_ws_text_frame` makes is read back as that
-- payload: it is a final text frame without a mask, and its length is in the shortest of the three forms.
pub read_ws_text_frame-encode_ws_text_frame :
    (payload : Bytes)
    → length payload < 2 ^ 64
    → read_ws_text_frame (encode_ws_text_frame payload) ≡ some payload
unfolding read_ws_text_frame encode_ws_text_frame whole least
read_ws_text_frame-encode_ws_text_frame payload h = elim (dec_le (length payload) 125) [
  | yes short ↦
      let small : length payload % 256 ≡ length payload = omega arith in
      rw (le→leb (length payload) 125 short, small, le→leb (length payload) 125 short)
        (whole_lem payload)
  | no long ↦ elim (dec_le (length payload) 65535) [
    | yes medium ↦
        rw
          (
            not_leb (length payload) 125 long,
            le→leb (length payload) 65535 medium,
            take_be_two (length payload) payload (omega arith),
            le→leb 126 (length payload) (omega arith),
          )
          (whole_lem payload)
    | no large ↦
        rw
          (
            not_leb (length payload) 125 long,
            not_leb (length payload) 65535 large,
            take_be_eight (length payload) payload h,
            le→leb 65536 (length payload) (omega arith),
          )
          (whole_lem payload)
  ]
]
