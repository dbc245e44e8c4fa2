-- ===== src/Tls/Parse.antt =====
-- `TlsClientHello::parse` on every buffer of bytes: one shape of input makes it panic.
use native.Mathlib.Decide.{dec_le}
use net_zer.Prelude.{
  Bytes, ◌<◌, length, All, IsByte, ◌≡◌, get_or, ◌*◌, arith, ◌+◌, not, ◌==◌, Bool-cases, inl, inr,
  ltb, ℕ,
}
use net_zer.Outcome.{
  Outcome, ok, err, Safe, ◌>>=◌, index, ◌>>=◌, ◌>>◌, refuse_if, invalid_format, index_lt, index_ge,
}
use net_zer.Tls.{TlsClientHello, parse_hello, parse}
use net_zer.Tls.Safety.{IsHost, u16_at_lt, Safe-parse_hello}

-- A handshake record of length 0 and nothing behind it: five bytes, the first 22, the last two 0.
pub record IsEmptyRecord (buffer : Bytes) : Type 0 where
  pub is_five : length buffer ≡ 5
  pub is_handshake : get_or buffer 0 0 ≡ 22
  pub is_empty : get_or buffer 3 0 * 256 + get_or buffer 4 0 ≡ 0

abbrev pub Parsed : Bytes → Outcome TlsClientHello → Type 0
Parsed buffer (ok hello) = IsHost buffer hello.sni × (¬ IsEmptyRecord buffer)
Parsed buffer (err e) = ¬ IsEmptyRecord buffer
Parsed buffer Outcome.panic = IsEmptyRecord buffer
Parsed buffer Outcome.diverge = ⊥

Parsed-hello :
    (buffer : Bytes) (hello : Outcome Bytes)
    → 5 < length buffer
    → Safe (IsHost buffer) hello
    → Parsed buffer (do hostname ← hello; ok (record { sni = hostname }))
Parsed-hello buffer (ok host) long h = (h, λ r. omega (arith, r.is_five))
Parsed-hello buffer (err e) long h = λ r. omega (arith, r.is_five)
Parsed-hello buffer Outcome.panic long h = absurd h
Parsed-hello buffer Outcome.diverge long h = h

Parsed-handshake :
    (buffer : Bytes)
    → All IsByte buffer
    → 5 < length buffer
    → Parsed buffer (do
      handshake_type ← index buffer 5
      refuse_if (not (handshake_type == 1)) invalid_format
      hostname ← parse_hello buffer (5 + 4 + 2 + 32)
      ok (record { sni = hostname }))
Parsed-handshake buffer bytes long =
    rw (index_lt buffer 5 long) (elim (Bool-cases (get_or buffer 5 0 == 1)) [
      | inl e ↦
          rw e (Parsed-hello buffer (parse_hello buffer 43) long (Safe-parse_hello buffer bytes 43))
      | inr e ↦ rw e (λ r. omega (arith, r.is_five))
    ])

-- On every buffer of bytes `parse` ends. It panics exactly on the empty handshake record. Where it
-- gives a name, that is UTF-8 and stands in the buffer behind a name type of 0 and its length in two bytes.
pub parse_tls-Parsed : (buffer : Bytes) → All IsByte buffer → Parsed buffer (parse buffer)
unfolding parse
parse_tls-Parsed buffer bytes = elim (Bool-cases (ltb (length buffer) 5)) [
  | inl short ↦ rw short (λ r. ground (arith, r.is_five))
  | inr e ↦
      rw (e, index_lt buffer 0 (ground arith))
        (elim (Bool-cases (get_or buffer 0 0 == 22)) [
          | inr other ↦ rw other (λ r. ground (arith, r.is_handshake))
          | inl kind ↦
              let len : ℕ = get_or buffer 3 0 * 256 + get_or buffer 4 0 in
              rw (kind, u16_at_lt buffer 3 bytes (ground arith))
                (elim (Bool-cases (ltb (length buffer) (5 + len))) [
                  | inl cut ↦ rw cut (λ r. ground (arith, r.is_five, r.is_empty))
                  | inr whole ↦ rw whole (elim (dec_le 6 (length buffer)) [
                    | yes long ↦ Parsed-handshake buffer bytes long
                    | no short ↦ rw (index_ge buffer 5 (omega arith)) (record {
                      is_five = ground arith;
                      is_handshake = ground arith;
                      is_empty = ground arith;
                    })
                  ])
                ])
        ])
]
