-- ===== src/Header/Icmp/Layout.antt =====
-- The layout of an ICMP header, and `parse` on every buffer.
use net_zer.Prelude.{Bytes, length, ◌≡◌, ℕ, ◌++◌, ◌∷◌, split_at, ◌<◌, sym, arith, refl, []}
use native.Mathlib.Decide.{dec_le}
use net_zer.Outcome.{
  ParseError, Outcome, ok, err, not_short, buffer_too_short, slice_to-append, index-append,
  slice_from-append,
}
use net_zer.Header.Icmp.{IcmpHeader, parse, icmp_type, code}

pub record IsHeader (buffer : Bytes) (header : IcmpHeader) (payload : Bytes) : Type 0 where
  pub kind : ℕ
  pub subcode : ℕ
  pub rest : Bytes
  pub layout : buffer ≡ kind ∷ subcode ∷ (rest ++ payload)
  pub view : header.buffer ≡ kind ∷ subcode ∷ rest
  pub length_rest : length rest ≡ 6
  pub icmp_type_is : icmp_type header ≡ ok kind
  pub code_is : code header ≡ ok subcode

abbrev pub Parsed : Bytes → Outcome (IcmpHeader × Bytes) → Type 0
Parsed buffer (ok (header, payload)) = IsHeader buffer header payload
Parsed buffer (err ParseError.buffer_too_short) = length buffer < 8
Parsed buffer _ = ⊥

parse-append :
    (front payload : Bytes)
    → 8 ≡ length front
    → parse (front ++ payload) ≡ ok (record { buffer = front }, payload)
unfolding parse
parse-append front payload e = rw (
  not_short front payload 8 e,
  slice_to-append front payload 8 e,
  slice_from-append front payload 8 e,
)

parse-short : (buffer : Bytes) → length buffer < 8 → parse buffer ≡ err buffer_too_short
unfolding parse
parse-short buffer h = ground arith

cut-IsHeader :
    (buffer front payload : Bytes)
    → buffer ≡ front ++ payload
    → length front ≡ 8
    → IsHeader buffer (record { buffer = front }) payload
unfolding icmp_type code
cut-IsHeader buffer [] payload e l = absurd (omega arith)
cut-IsHeader buffer (kind ∷ []) payload e l = absurd (omega arith)
cut-IsHeader buffer (kind ∷ subcode ∷ rest) payload e l = record {
  kind = kind;
  subcode = subcode;
  rest = rest;
  layout = e;
  view = refl;
  length_rest = omega arith;
  icmp_type_is = index-append [] kind (subcode ∷ rest) 0 refl;
  code_is = index-append (kind ∷ []) subcode rest 1 refl;
}

-- Every buffer of 8 bytes or more is parsed: the first byte is the type, the second the code, and
-- what follows the 8 bytes is the payload. A shorter buffer is refused as too short. No input makes
-- `parse` or a field read panic.
pub parse_icmp-Parsed : (buffer : Bytes) → Parsed buffer (parse buffer)
parse_icmp-Parsed buffer = elim (dec_le 8 (length buffer)) [
  | yes h ↦
      let (front, payload, e, l) = split_at 8 buffer h in
      rw (e, parse-append front payload (sym l))
        (cut-IsHeader (front ++ payload) front payload refl l)
  | no h ↦ rw (parse-short buffer (omega arith)) (omega arith)
]
