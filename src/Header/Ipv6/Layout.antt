-- ===== src/Header/Ipv6/Layout.antt =====
-- The layout of the fixed IPv6 header, and `parse` on every buffer.
use net_zer.Prelude.{
  Bytes, length, ℕ, ◌≡◌, split_at, ◌++◌, ◌<◌, sym, ◌∷◌, arith, [], refl, length-append, ◌∙◌,
  append_assoc, append-nil, ap,
}
use native.Mathlib.Decide.{dec_le}
use net_zer.Outcome.{
  ParseError, Outcome, ok, err, split_exact, buffer_too_short, not_short, two_of_length,
  slice_to-append, slice_from-append, index_at, read_array_at,
}
use net_zer.Header.Ipv6.{Ipv6Header, parse, source, destination, next_header}

pub record IsHeader (buffer : Bytes) (header : Ipv6Header) (payload : Bytes) : Type 0 where
  pub before : Bytes
  pub next : ℕ
  pub hop_limit : ℕ
  pub src : Bytes
  pub dst : Bytes
  pub layout : buffer ≡ before ++ (next ∷ hop_limit ∷ (src ++ (dst ++ payload)))
  pub view : header.buffer ≡ before ++ (next ∷ hop_limit ∷ (src ++ dst))
  pub length_before : length before ≡ 6
  pub length_src : length src ≡ 16
  pub length_dst : length dst ≡ 16
  pub next_header_is : next_header header ≡ ok next
  pub source_is : source header ≡ ok (record { octets = src })
  pub destination_is : destination header ≡ ok (record { octets = dst })

abbrev pub Parsed : Bytes → Outcome (Ipv6Header × Bytes) → Type 0
Parsed buffer (ok (header, payload)) = IsHeader buffer header payload
Parsed buffer (err ParseError.buffer_too_short) = length buffer < 40
Parsed buffer _ = ⊥

parse-append :
    (front payload : Bytes)
    → 40 ≡ length front
    → parse (front ++ payload) ≡ ok (record { buffer = front }, payload)
unfolding parse
parse-append front payload e = rw (
  not_short front payload 40 e,
  slice_to-append front payload 40 e,
  slice_from-append front payload 40 e,
)

parse-short : (buffer : Bytes) → length buffer < 40 → parse buffer ≡ err buffer_too_short
unfolding parse
parse-short buffer h = ground arith

cut-IsHeader :
    (buffer front payload : Bytes)
    → buffer ≡ front ++ payload
    → length front ≡ 40
    → IsHeader buffer (record { buffer = front }) payload
unfolding source destination next_header
cut-IsHeader buffer front payload e l =
    let (before, r1, e1, p1, l1) = split_exact 6 34 front l in
    let (pair, r2, e2, p2, l2) = split_exact 2 32 r1 l1 in
    let (src, dst, e3, p3, l3) = split_exact 16 16 r2 l2 in
    let (next, hop, e4) = two_of_length pair p2 in
    let whole : front ≡ before ++ (next ∷ hop ∷ (src ++ dst)) = cc in
    let upto : Bytes = before ++ (next ∷ hop ∷ []) in
    let long : length upto ≡ 8 = omega (arith, length-append before (next ∷ hop ∷ [])) in
    record {
      before = before;
      next = next;
      hop_limit = hop;
      src = src;
      dst = dst;
      layout = e ∙ ap (λ (t : Bytes). t ++ payload) whole ∙ simp append_assoc;
      view = whole;
      length_before = p1;
      length_src = p3;
      length_dst = l3;
      next_header_is = index_at front before next (hop ∷ (src ++ dst)) 6 whole p1;
      source_is =
          rw (read_array_at front upto src dst 16 8 24 (whole ∙ simp append_assoc) p3 long refl);
      destination_is = rw (
          read_array_at front (upto ++ src) dst [] 16 24 40
            (whole ∙ simp (append_assoc, append-nil)) l3
            (omega (arith, length-append upto src, long)) refl);
    }

-- Every buffer of 40 bytes or more is parsed: byte 6 is the next header, the source is bytes 8 to 23,
-- the destination bytes 24 to 39, and what follows is the payload. A shorter buffer is refused as too
-- short. No input makes `parse` or a field read panic.
pub parse_ipv6-Parsed : (buffer : Bytes) → Parsed buffer (parse buffer)
parse_ipv6-Parsed buffer = elim (dec_le 40 (length buffer)) [
  | yes h ↦
      let (front, payload, e, l) = split_at 40 buffer h in
      rw (e, parse-append front payload (sym l))
        (cut-IsHeader (front ++ payload) front payload refl l)
  | no h ↦ rw (parse-short buffer (omega arith)) (omega arith)
]
