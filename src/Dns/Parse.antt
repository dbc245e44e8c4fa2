-- ===== src/Dns/Parse.antt =====
-- `DnsQuery::parse` on every buffer of bytes.
use net_zer.Prelude.{
  Bytes, All, ℕ, length, ◌≤◌, ◌≢◌, IsByte, [], if◌then◌else◌, get_or, ◌<◌, ◌⊎◌, ◌≡◌, ◌*◌, arith,
  ◌+◌, inl, leb, ◌==◌, Bool-cases, leb→le, inr, ◌∷◌, ap, top_bit, refl,
}
use native.Mathlib.Decide.{dec_le}
use net_zer.Outcome.{
  ParseError, Outcome, ◌>>=◌, ok, err, invalid_format, buffer_too_short, get_or-IsByte, index_lt,
  read_u16_le,
}
use net_zer.Dns.{DnsQuery, is_empty, read_qname, parse}
use net_zer.Dns.Names.{join}
use net_zer.Dns.Scan.{Complete, Cut, Malformed, Qname, read_qname-Qname}

abbrev pub flags : Bytes → ℕ
flags buffer = get_or buffer 2 0

abbrev pub qdcount : Bytes → ℕ
qdcount buffer = get_or buffer 4 0 * 256 + get_or buffer 5 0

-- The two tests on the header: a query, not a response, with a question at least.
pub record Asks (buffer : Bytes) : Type 0 where
  pub has_header : 12 ≤ length buffer
  pub is_query : flags buffer < 128
  pub has_question : 0 < qdcount buffer

pub record IsQuery (buffer : Bytes) (query : DnsQuery) : Type 0 where
  pub asks : Asks buffer
  pub name : Complete buffer query.domain_name
  pub has_label : name.labels ≢ []

-- Why a buffer is refused as invalid.
pub data IsRefused (buffer : Bytes) : Type 0 where
  response : 12 ≤ length buffer → 128 ≤ flags buffer → IsRefused buffer
  no_question : 12 ≤ length buffer → flags buffer < 128 → qdcount buffer ≡ 0 → IsRefused buffer
  malformed : Asks buffer → Malformed buffer → IsRefused buffer
  no_name : Asks buffer → Complete buffer [] → IsRefused buffer

abbrev pub Parsed : Bytes → Outcome DnsQuery → Type 0
Parsed buffer (ok query) = IsQuery buffer query
Parsed buffer (err ParseError.buffer_too_short) = (length buffer < 12) ⊎ (Asks buffer × Cut buffer)
Parsed buffer (err ParseError.invalid_format) = IsRefused buffer
Parsed buffer _ = ⊥

-- What `parse` makes of the name.
unfoldable pub finish : Outcome Bytes → Outcome DnsQuery
finish name = do
  domain ← name
  if is_empty domain then err invalid_format else ok (record { domain_name = domain })

finish-Parsed :
    (buffer : Bytes)
    → Asks buffer
    → (name : Outcome Bytes) → Qname buffer name
    → Parsed buffer (finish name)
unfolding finish
finish-Parsed buffer a (ok []) q = no_name a q
finish-Parsed buffer a (ok (b ∷ bs)) q = record {
  asks = a;
  name = q;
  has_label = λ e. cc (q.is_join, ap join e);
}
finish-Parsed buffer a (err ParseError.buffer_too_short) q = inr (a, q)
finish-Parsed buffer a (err ParseError.invalid_format) q = malformed a q
finish-Parsed buffer a Outcome.panic q = q
finish-Parsed buffer a Outcome.diverge q = q

parse-short : (buffer : Bytes) → length buffer < 12 → parse buffer ≡ err buffer_too_short
unfolding parse
parse-short buffer h = ground arith

-- `parse` on a header, with the mask as a comparison.
pub parse_header :
    (buffer : Bytes)
    → 12 ≤ length buffer
    → flags buffer < 256
    → parse buffer ≡ (
        if leb 128 (flags buffer)
        then err invalid_format
        else if qdcount buffer == 0
        then err invalid_format
        else finish (read_qname buffer))
unfolding parse finish
parse_header buffer h byte =
    rw (index_lt buffer 2 (omega arith), read_u16_le buffer 4 6 refl (omega arith))
      (ground (arith, top_bit (flags buffer) byte))

-- On every buffer of bytes `parse` ends without a panic. It gives a name exactly for a query with a
-- question whose labels, one or more, run from byte 12 up to a root label, each below 192 bytes and UTF-8; the name is
-- those labels with dots between them. It answers "too short" below 12 bytes or where a label is cut
-- off by the end, and "invalid" for a response, no question, a pointer, a label that is no UTF-8 or a
-- name with no label.
pub parse_dns-Parsed : (buffer : Bytes) → All IsByte buffer → Parsed buffer (parse buffer)
parse_dns-Parsed buffer bytes = elim (dec_le 12 (length buffer)) [
  | no h ↦ rw (parse-short buffer (omega arith)) (inl (omega arith))
  | yes h ↦
      rw (parse_header buffer h (get_or-IsByte buffer 2 bytes))
        (elim (Bool-cases (leb 128 (flags buffer))) [
          | inl r ↦ rw r (response h (leb→le _ _ r))
          | inr r ↦ elim (Bool-cases (qdcount buffer == 0)) [
            | inl z ↦ rw (r, z) (no_question h (ground arith) (ground arith))
            | inr z ↦
                rw (r, z)
                  (finish-Parsed buffer
                    (record {
                      has_header = h;
                      is_query = ground arith;
                      has_question = ground arith;
                    })
                    (read_qname buffer) (read_qname-Qname buffer bytes h))
          ]
        ])
]
