-- ===== src/Web/Sha1.antt =====
-- `sha1` of netzer-cli/src/web/mod.rs: the digest of the WebSocket handshake.
pub mod Padding
use mathlib.Core.Option
use net_zer.Outcome.{from_be_bytes}
use net_zer.Prelude.{
  Bytes, ℕ, List, ◌∷◌, suc, bit_or, ◌+◌, if◌then◌else◌, ◌^◌, ◌++◌, get_or, Option, [], take, length,
  ◌*◌, ◌%◌, none, leb, ◌-◌, bit_and, drop, bit_xor, ◌/◌, ◌==◌, zero, some,
}
use net_zer.Web.Frame.{to_be_bytes}

-- The `u32` operations. A word `x` is below 2 ^ 32.
abbrev pub wrapping_add : ℕ → ℕ → ℕ
wrapping_add x y = (x + y) % 2 ^ 32

abbrev pub rotate_left : ℕ → ℕ → ℕ
rotate_left x n = bit_or (x * 2 ^ n % 2 ^ 32) (x / 2 ^ (32 - n))

abbrev pub bit_not : ℕ → ℕ
bit_not x = 2 ^ 32 - 1 - x

-- `while (bytes.len() * 8) % 512 != 448 { bytes.push(0x00) }`; a turn a unit of fuel, and 64 turns
-- are enough. `none` is a loop that is still running.
unfoldable pub push_zeros : ℕ → Bytes → Option Bytes
push_zeros zero bytes = none
push_zeros (suc fuel) bytes =
    let more = push_zeros fuel (bytes ++ 0x00 ∷ []) in
    if length bytes * 8 % 512 == 448 then some bytes else more

-- The message, the bit, the zeros and the length in bits.
unfoldable pub pad_message : Bytes → Option Bytes
pad_message bytes =
    Option.map (λ padded. padded ++ to_be_bytes 8 (length bytes * 8 % 2 ^ 64))
      (push_zeros 64 (bytes ++ 0x80 ∷ []))

-- `chunks_exact(64)`, on a list with `n` whole chunks.
unfoldable pub chunks_exact : ℕ → Bytes → List Bytes
chunks_exact zero bytes = []
chunks_exact (suc n) bytes = take 64 bytes ∷ chunks_exact n (drop 64 bytes)

-- The words of the array `w` in order: `w[i]`, which the array starts with 0.
abbrev w_at : List ℕ → ℕ → ℕ
w_at w i = get_or w i 0

-- `w[i]` for `i` from 0 to 15, from the chunk's bytes.
unfoldable pub read_words : ℕ → Bytes → List ℕ
read_words zero chunk = []
read_words (suc n) chunk = from_be_bytes (take 4 chunk) ∷ read_words n (drop 4 chunk)

-- `w[i]` for the next `n` values of `i`, which is the number of the words that are there.
unfoldable pub extend_words : ℕ → List ℕ → List ℕ
extend_words zero w = w
extend_words (suc n) w =
    let i = length w in
    extend_words n (
      w
      ++ rotate_left
          (bit_xor (bit_xor (bit_xor (w_at w (i - 3)) (w_at w (i - 8))) (w_at w (i - 14)))
            (w_at w (i - 16)))
          1
        ∷ [])

-- The five words: `h0` to `h4` between chunks, `a` to `e` inside one.
pub record Sha1State : Type 0 where
  pub a : ℕ
  pub b : ℕ
  pub c : ℕ
  pub d : ℕ
  pub e : ℕ

-- `f` and `k` of step `i`.
unfoldable pub step_function : ℕ → ℕ → ℕ → ℕ → ℕ
step_function i b c d =
    if leb i 19
    then bit_or (bit_and b c) (bit_and (bit_not b) d)
    else if leb i 39
    then bit_xor (bit_xor b c) d
    else if leb i 59
    then bit_or (bit_or (bit_and b c) (bit_and b d)) (bit_and c d)
    else bit_xor (bit_xor b c) d

unfoldable pub step_constant : ℕ → ℕ
step_constant i =
    if leb i 19
    then 0x5A827999
    else if leb i 39
    then 0x6ED9EBA1
    else if leb i 59
    then 0x8F1BBCDC
    else 0xCA62C1D6

-- One step, with `w[i]`.
unfoldable pub sha1_step : ℕ → ℕ → Sha1State → Sha1State
sha1_step i word s =
    let temp =
      wrapping_add
        (wrapping_add
          (wrapping_add (wrapping_add (rotate_left s.a 5) (step_function i s.b s.c s.d)) s.e)
          (step_constant i))
        word in
    record { a = temp; b = s.a; c = rotate_left s.b 30; d = s.c; e = s.d }

-- The steps from `i` on, one for each word.
unfoldable pub sha1_steps : ℕ → List ℕ → Sha1State → Sha1State
sha1_steps i [] s = s
sha1_steps i (word ∷ w) s = sha1_steps (suc i) w (sha1_step i word s)

unfoldable pub add_state : Sha1State → Sha1State → Sha1State
add_state h s = record {
  a = wrapping_add h.a s.a;
  b = wrapping_add h.b s.b;
  c = wrapping_add h.c s.c;
  d = wrapping_add h.d s.d;
  e = wrapping_add h.e s.e;
}

unfoldable pub sha1_chunk : Sha1State → Bytes → Sha1State
sha1_chunk h chunk = add_state h (sha1_steps 0 (extend_words 64 (read_words 16 chunk)) h)

unfoldable pub sha1_chunks : Sha1State → List Bytes → Sha1State
sha1_chunks h [] = h
sha1_chunks h (chunk ∷ chunks) = sha1_chunks (sha1_chunk h chunk) chunks

abbrev pub initial_state : Sha1State
initial_state = record {
  a = 0x67452301;
  b = 0xEFCDAB89;
  c = 0x98BADCFE;
  d = 0x10325476;
  e = 0xC3D2E1F0;
}

unfoldable pub digest : Sha1State → Bytes
digest h =
    to_be_bytes 4 h.a
    ++ to_be_bytes 4 h.b
    ++ to_be_bytes 4 h.c
    ++ to_be_bytes 4 h.d
    ++ to_be_bytes 4 h.e

unfoldable pub sha1 : Bytes → Option Bytes
sha1 message =
    Option.map
      (λ padded. digest (sha1_chunks initial_state (chunks_exact (length padded / 64) padded)))
      (pad_message message)
