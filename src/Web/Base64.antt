-- ===== src/Web/Base64.antt =====
-- `base64_encode` of netzer-cli/src/web/mod.rs.
pub mod RoundTrip
use net_zer.Prelude.{
  ℕ, Bytes, ascii, if◌then◌else◌, ◌∷◌, get_or, [], length, bit_or, bit_and, ◌++◌, ◌*◌, ◌==◌, ◌^◌,
  ◌/◌,
}

abbrev pub alphabet : Bytes
alphabet = ascii "ABCDEFGHIJKLMNOPQRSTUVWXYZabcdefghijklmnopqrstuvwxyz0123456789+/"

-- `ALPHABET[(x & 0x3f) as usize]`; the mask keeps the position below 64.
unfoldable pub letter : ℕ → ℕ
letter x = get_or alphabet (bit_and x 0x3f) 0

-- `b = (b << 8) | (val as u32)` over a chunk; three bytes fit 32 bits.
unfoldable pub gather : ℕ → Bytes → ℕ
gather b [] = b
gather b (val ∷ chunk) = gather (bit_or (b * 2 ^ 8) val) chunk

-- What one chunk of up to three bytes appends.
unfoldable pub encode_chunk : Bytes → Bytes
encode_chunk chunk =
    let b = gather 0 chunk in
    if length chunk == 3
    then letter (b / 2 ^ 18) ∷ letter (b / 2 ^ 12) ∷ letter (b / 2 ^ 6) ∷ letter b ∷ []
    else if length chunk == 2
    then (let b' = b * 2 ^ 2 in letter (b' / 2 ^ 12) ∷ letter (b' / 2 ^ 6) ∷ letter b' ∷ b'=' ∷ [])
    else if length chunk == 1
    then (let b' = b * 2 ^ 4 in letter (b' / 2 ^ 6) ∷ letter b' ∷ b'=' ∷ b'=' ∷ [])
    else []

-- The loop over `i`, on the bytes from `i` on.
pub base64_encode : Bytes → Bytes
base64_encode [] = []
base64_encode (x ∷ []) = encode_chunk (x ∷ [])
base64_encode (x ∷ y ∷ []) = encode_chunk (x ∷ y ∷ [])
base64_encode (x ∷ y ∷ z ∷ rest) = encode_chunk (x ∷ y ∷ z ∷ []) ++ base64_encode rest
