-- ===== src/Web/Base64/RoundTrip.antt =====
-- The encoding against a decoder of RFC 4648.
use net_zer.Prelude.{
  holds_below, ℕ, Bytes, Option, ◌<◌, Bool, if◌then◌else◌, some, ◌≡◌, false, true, ◌*◌, ◌∷◌, ◌%◌,
  leb, ◌&&◌, ◌==◌, ◌+◌, [], arith, none, bit_or_byte, ap, not, ◌++◌, ◌/◌, ◌-◌, low_six, bit_or, ◌∙◌,
  get_or, below_lem, ◌^◌, All, refl, IsByte,
}
use net_zer.Web.Base64.{alphabet, letter, gather, encode_chunk, base64_encode}

-- The position of a character in the alphabet.
unfoldable sextet : ℕ → Option ℕ
sextet c =
    if leb b'A' c && leb c b'Z'
    then some (c - b'A')
    else if leb b'a' c && leb c b'z'
    then some (c - b'a' + 26)
    else if leb b'0' c && leb c b'9'
    then some (c - b'0' + 52)
    else if c == b'+'
    then some 62
    else if c == b'/'
    then some 63
    else none

abbrev one_byte : Option ℕ → Option ℕ → Option Bytes
one_byte (some s) (some t) = some (((s * 64 + t) / 16) ∷ [])
one_byte _ _ = none

abbrev two_bytes : Option ℕ → Option ℕ → Option ℕ → Option Bytes
two_bytes (some s) (some t) (some u) =
    let v = (s * 64 + t) * 64 + u in some ((v / 1024) ∷ (v / 4 % 256) ∷ [])
two_bytes _ _ _ = none

abbrev three_bytes : Option ℕ → Option ℕ → Option ℕ → Option ℕ → Option Bytes → Option Bytes
three_bytes (some s) (some t) (some u) (some w) (some rest) =
    let v = ((s * 64 + t) * 64 + u) * 64 + w in
    some ((v / 65536) ∷ (v / 256 % 256) ∷ (v % 256) ∷ rest)
three_bytes _ _ _ _ _ = none

abbrev is_end : Bytes → Bool
is_end [] = true
is_end (c ∷ cs) = false

-- Four characters at a time; padding only at the end.
pub base64_decode : Bytes → Option Bytes
base64_decode [] = some []
base64_decode (c ∷ d ∷ e ∷ f ∷ rest) =
    let more = base64_decode rest in
    if f == b'=' && is_end rest
    then (if e == b'='
        then one_byte (sextet c) (sextet d)
        else two_bytes (sextet c) (sextet d) (sextet e))
    else three_bytes (sextet c) (sextet d) (sextet e) (sextet f) more
base64_decode _ = none

-- Every letter has its position, and none is the padding.
abbrev is_letter : ℕ → Option ℕ → ℕ → Bool
is_letter c none i = false
is_letter c (some j) i = j == i && not (c == b'=')

letter_table :
    holds_below (λ i. is_letter (get_or alphabet i 0) (sextet (get_or alphabet i 0)) i) 64 ≡ true
unfolding holds_below sextet
letter_table = refl

is_letter_lem :
    (c : ℕ) (o : Option ℕ) (i : ℕ) → is_letter c o i ≡ true → (o ≡ some i) × ((c == b'=') ≡ false)
is_letter_lem c none i h = cc
is_letter_lem c (some j) i h = ground arith

sextet-letter : (x : ℕ) → (sextet (letter x) ≡ some (x % 64)) × ((letter x == b'=') ≡ false)
unfolding letter
sextet-letter x = rw (low_six x) (
    is_letter_lem (get_or alphabet (x % 64) 0) (sextet (get_or alphabet (x % 64) 0)) (x % 64) (
      below_lem (λ i. is_letter (get_or alphabet i 0) (sextet (get_or alphabet i 0)) i) 64
        letter_table (x % 64) (omega arith)))

gather_one : (x : ℕ) → x < 256 → gather 0 (x ∷ []) ≡ x
unfolding gather
gather_one x hx = bit_or_byte 0 x hx ∙ omega arith

gather_two : (x y : ℕ) → x < 256 → y < 256 → gather 0 (x ∷ y ∷ []) ≡ x * 256 + y
unfolding gather
gather_two x y hx hy = ap (λ (t : ℕ). bit_or (t * 2 ^ 8) y) (gather_one x hx) ∙ bit_or_byte x y hy

gather_three :
    (x y z : ℕ) → x < 256 → y < 256 → z < 256 → gather 0 (x ∷ y ∷ z ∷ []) ≡ (x * 256 + y) * 256 + z
unfolding gather
gather_three x y z hx hy hz =
    ap (λ (t : ℕ). bit_or (t * 2 ^ 8) z) (gather_two x y hx hy) ∙ bit_or_byte (x * 256 + y) z hz

-- The six bits of each letter, from the word of a chunk.
decode_letters :
    (p q r s : ℕ) (rest : Bytes)
    → base64_decode (letter p ∷ letter q ∷ letter r ∷ letter s ∷ rest)
      ≡ three_bytes
          (some (p % 64))
          (some (q % 64))
          (some (r % 64))
          (some (s % 64))
          (base64_decode rest)
unfolding base64_decode
decode_letters p q r s rest =
    rw
      (
        (sextet-letter p).0,
        (sextet-letter q).0,
        (sextet-letter r).0,
        (sextet-letter s).0,
        (sextet-letter s).1,
      )
      refl

decode_letters_two :
    (p q r : ℕ)
    → base64_decode (letter p ∷ letter q ∷ letter r ∷ b'=' ∷ [])
      ≡ two_bytes (some (p % 64)) (some (q % 64)) (some (r % 64))
unfolding base64_decode
decode_letters_two p q r =
    rw ((sextet-letter p).0, (sextet-letter q).0, (sextet-letter r).0, (sextet-letter r).1) refl

decode_letters_one :
    (p q : ℕ)
    → base64_decode (letter p ∷ letter q ∷ b'=' ∷ b'=' ∷ [])
      ≡ one_byte (some (p % 64)) (some (q % 64))
unfolding base64_decode
decode_letters_one p q = rw ((sextet-letter p).0, (sextet-letter q).0) refl

decode-chunk_three :
    (x y z : ℕ) (rest : Bytes)
    → x < 256
    → y < 256
    → z < 256
    → base64_decode (encode_chunk (x ∷ y ∷ z ∷ []) ++ rest)
      ≡ three_bytes
          (some (x / 4))
          (some (x % 4 * 16 + y / 16))
          (some (y % 16 * 4 + z / 64))
          (some (z % 64))
          (base64_decode rest)
unfolding encode_chunk
decode-chunk_three x y z rest hx hy hz =
    let v : ℕ = gather 0 (x ∷ y ∷ z ∷ []) in
    let g = gather_three x y z hx hy hz in
    let e1 : v / 2 ^ 18 % 64 ≡ x / 4 = omega (arith, g) in
    let e2 : v / 2 ^ 12 % 64 ≡ x % 4 * 16 + y / 16 = omega (arith, g) in
    let e3 : v / 2 ^ 6 % 64 ≡ y % 16 * 4 + z / 64 = omega (arith, g) in
    let e4 : v % 64 ≡ z % 64 = omega (arith, g) in
    decode_letters (v / 2 ^ 18) (v / 2 ^ 12) (v / 2 ^ 6) v rest ∙ rw (e1, e2, e3, e4) refl

decode-chunk_two :
    (x y : ℕ)
    → x < 256
    → y < 256
    → base64_decode (encode_chunk (x ∷ y ∷ []))
      ≡ two_bytes (some (x / 4)) (some (x % 4 * 16 + y / 16)) (some (y % 16 * 4))
unfolding encode_chunk
decode-chunk_two x y hx hy =
    let v : ℕ = gather 0 (x ∷ y ∷ []) * 2 ^ 2 in
    let g = gather_two x y hx hy in
    let e1 : v / 2 ^ 12 % 64 ≡ x / 4 = omega (arith, g) in
    let e2 : v / 2 ^ 6 % 64 ≡ x % 4 * 16 + y / 16 = omega (arith, g) in
    let e3 : v % 64 ≡ y % 16 * 4 = omega (arith, g) in
    decode_letters_two (v / 2 ^ 12) (v / 2 ^ 6) v ∙ rw (e1, e2, e3) refl

decode-chunk_one :
    (x : ℕ)
    → x < 256
    → base64_decode (encode_chunk (x ∷ [])) ≡ one_byte (some (x / 4)) (some (x % 4 * 16))
unfolding encode_chunk
decode-chunk_one x hx =
    let v : ℕ = gather 0 (x ∷ []) * 2 ^ 4 in
    let g = gather_one x hx in
    let e1 : v / 2 ^ 6 % 64 ≡ x / 4 = omega (arith, g) in
    let e2 : v % 64 ≡ x % 4 * 16 = omega (arith, g) in
    decode_letters_one (v / 2 ^ 6) v ∙ rw (e1, e2) refl

one_byte_lem : (x : ℕ) → x < 256 → one_byte (some (x / 4)) (some (x % 4 * 16)) ≡ some (x ∷ [])
one_byte_lem x hx = ap (λ (t : ℕ). some (t ∷ [])) (omega arith)

two_bytes_lem :
    (x y : ℕ)
    → x < 256
    → y < 256
    → two_bytes (some (x / 4)) (some (x % 4 * 16 + y / 16)) (some (y % 16 * 4)) ≡ some (x ∷ y ∷ [])
two_bytes_lem x y hx hy =
    let v : ℕ = (x / 4 * 64 + (x % 4 * 16 + y / 16)) * 64 + y % 16 * 4 in
    let e : v ≡ x * 1024 + y * 4 = omega arith in
    let e1 : v / 1024 ≡ x = omega (arith, e) in
    let e2 : v / 4 % 256 ≡ y = omega (arith, e) in rw (e1, e2) refl

three_bytes_lem :
    (x y z : ℕ) (rest : Bytes)
    → x < 256
    → y < 256
    → z < 256
    → three_bytes
        (some (x / 4))
        (some (x % 4 * 16 + y / 16))
        (some (y % 16 * 4 + z / 64))
        (some (z % 64))
        (some rest)
      ≡ some (x ∷ y ∷ z ∷ rest)
three_bytes_lem x y z rest hx hy hz =
    let v : ℕ = ((x / 4 * 64 + (x % 4 * 16 + y / 16)) * 64 + (y % 16 * 4 + z / 64)) * 64 + z % 64 in
    let e : v ≡ x * 65536 + y * 256 + z = omega arith in
    let e1 : v / 65536 ≡ x = omega (arith, e) in
    let e2 : v / 256 % 256 ≡ y = omega (arith, e) in
    let e3 : v % 256 ≡ z = omega (arith, e) in rw (e1, e2, e3) refl

-- For every list of bytes, the text that `base64_encode` makes is decoded back to those bytes by a
-- decoder of the standard alphabet with padding, on each of the three lengths of the last chunk.
pub base64_decode-base64_encode :
    (bs : Bytes) → All IsByte bs → base64_decode (base64_encode bs) ≡ some bs
unfolding base64_encode
base64_decode-base64_encode [] h = unfold base64_decode in refl
base64_decode-base64_encode (x ∷ []) (hx, h) = decode-chunk_one x hx ∙ one_byte_lem x hx
base64_decode-base64_encode (x ∷ y ∷ []) (hx, (hy, h)) =
    decode-chunk_two x y hx hy ∙ two_bytes_lem x y hx hy
base64_decode-base64_encode (x ∷ y ∷ z ∷ rest) (hx, (hy, (hz, h))) =
    decode-chunk_three x y z (base64_encode rest) hx hy hz
    ∙ rw (base64_decode-base64_encode rest h) (three_bytes_lem x y z rest hx hy hz)
