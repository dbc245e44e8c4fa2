-- ===== src/Web/Sha1/Padding.antt =====
-- The padding of `sha1` in netzer-cli/src/web/mod.rs, that its loop ends, and the digest's size.
use net_zer.Prelude.{
  ℕ, Bytes, ◌≡◌, ◌-◌, ◌++◌, ◌%◌, length, ◌≢◌, some, ◌+◌, ◌∷◌, ◌*◌, suc, arith, ◌<◌, [], ◌==◌,
  replicate, false, zero, length-append, true, ◌^◌, refl, ap, ==_iff, sym, append-nil, ◌∙◌,
  append_assoc, length-replicate, ◌/◌,
}
use net_zer.Web.Frame.{to_be_bytes}
use net_zer.Web.Sha1.{
  push_zeros, pad_message, sha1, digest, sha1_chunks, initial_state, chunks_exact, Sha1State,
}

-- How many zeros take a message of `n` bytes and the byte 0x80 to 56 bytes in the last chunk.
abbrev pub zeros_of : ℕ → ℕ
zeros_of n = (119 - n % 64) % 64

length-to_be_bytes : (w n : ℕ) → length (to_be_bytes w n) ≡ w
unfolding to_be_bytes
length-to_be_bytes zero n = refl
length-to_be_bytes (suc w) n = omega (arith, length-to_be_bytes w n)

full_test : (n : ℕ) → n % 64 ≡ 56 → (n * 8 % 512 == 448) ≡ true
full_test n h = (==_iff _ _).1 (omega arith)

not_full_test : (n : ℕ) → n % 64 ≢ 56 → (n * 8 % 512 == 448) ≡ false
not_full_test n h = ground arith

push_zeros_enough :
    (fuel k : ℕ) (bytes : Bytes)
    → (length bytes + k) % 64 ≡ 56
    → k < 64
    → k < fuel
    → push_zeros fuel bytes ≡ some (bytes ++ replicate k 0)
unfolding push_zeros
push_zeros_enough zero k bytes e small lt = absurd (omega arith)
push_zeros_enough (suc fuel) zero bytes e small lt =
    rw (full_test (length bytes) (omega arith)) (ap some (sym (append-nil bytes)))
push_zeros_enough (suc fuel) (suc k) bytes e small lt =
    let next =
      push_zeros_enough fuel k (bytes ++ 0 ∷ []) (omega (arith, length-append bytes (0 ∷ [])))
        (omega arith) (omega arith) in
    rw (not_full_test (length bytes) (λ h. omega arith))
      (next ∙ ap some (append_assoc bytes (0 ∷ []) (replicate k 0)))

-- The message that the standard asks for: the bit, `k` zeros, the length in bits.
abbrev pub padded_with : ℕ → Bytes → Bytes
padded_with k bytes =
    (bytes ++ 0x80 ∷ []) ++ replicate k 0 ++ to_be_bytes 8 (length bytes * 8 % 2 ^ 64)

pad_message_lem :
    (bytes : Bytes) → pad_message bytes ≡ some (padded_with (zeros_of (length bytes)) bytes)
unfolding pad_message
pad_message_lem bytes =
    rw
      (push_zeros_enough 64 (zeros_of (length bytes)) (bytes ++ 0x80 ∷ [])
        (omega (arith, length-append bytes (0x80 ∷ []))) (omega arith) (omega arith))
      refl

length_parts : (xs ys zs : Bytes) → length (xs ++ ys ++ zs) ≡ length xs + length ys + length zs
length_parts xs ys zs =
    length-append (xs ++ ys) zs ∙ ap (λ (t : ℕ). t + length zs) (length-append xs ys)

length-padded : (bytes : Bytes) → length (padded_with (zeros_of (length bytes)) bytes) % 64 ≡ 0
length-padded bytes =
    let k = zeros_of (length bytes) in
    let word = to_be_bytes 8 (length bytes * 8 % 2 ^ 64) in
    let front : length (bytes ++ 0x80 ∷ []) ≡ length bytes + 1 = length-append bytes (0x80 ∷ []) in
    let e1 = length_parts (bytes ++ 0x80 ∷ []) (replicate k 0) word in
    let e2 = length-replicate {A = ℕ} k 0 in
    let e3 : length word ≡ 8 = length-to_be_bytes 8 (length bytes * 8 % 2 ^ 64) in
    rw (e1, e2, e3, front) (omega arith)

length-digest : (h : Sha1State) → length (digest h) ≡ 20
unfolding digest to_be_bytes
length-digest h = refl

-- For every message the padding loop ends, with fewer than 64 zeros: the padded message is the message,
-- the byte 0x80, `k` zeros and the length in bits modulo 2 ^ 64 as eight bytes, and it fills whole
-- chunks of 64 bytes. `sha1` returns a digest, of 20 bytes.
pub sha1-Padded :
    (bytes : Bytes)
    → (k : ℕ) × (padded : Bytes) × (out : Bytes) × (k < 64)
      × (pad_message bytes ≡ some padded)
      × (padded ≡ padded_with k bytes)
      × (length padded % 64 ≡ 0)
      × (sha1 bytes ≡ some out)
      × (length out ≡ 20)
unfolding sha1
sha1-Padded bytes =
    let k = zeros_of (length bytes) in
    let padded = padded_with k bytes in
    let final = sha1_chunks initial_state (chunks_exact (length padded / 64) padded) in
    (
      k,
      padded,
      digest final,
      omega arith,
      pad_message_lem bytes,
      refl,
      length-padded bytes,
      rw (pad_message_lem bytes) refl,
      length-digest final,
    )
