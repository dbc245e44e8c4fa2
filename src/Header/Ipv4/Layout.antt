-- ===== src/Header/Ipv4/Layout.antt =====
-- The layout of an IPv4 header, and `parse` on every buffer.
use net_zer.Prelude.{
  ℕ, Bytes, ◌<◌, ◌≡◌, length, All, get_or, ◌∷◌, ◌%◌, IsByte, ◌++◌, ◌≤◌, ◌*◌, arith, ◌⊎◌, inr, ◌+◌,
  ◌-◌, length-append, inl, split_at, ap, sym, ◌∙◌, append_assoc, [], if◌then◌else◌, refl, ltb, ◌||◌,
  low_nibble,
}
use native.Mathlib.Decide.{dec_le}
use net_zer.Outcome.{
  ParseError, Outcome, index, ok, err, buffer_too_short, invalid_format, split_exact, one_of_length,
  slice_to-append, read_array_at, slice_from-append, index_at, ◌>>=◌, slice_to, slice_from,
}
use net_zer.Header.Ipv4.{Ipv4Header, parse, source, destination, protocol}

pub record IsHeader (buffer : Bytes) (header : Ipv4Header) (payload : Bytes) : Type 0 where
  pub first : ℕ
  pub before : Bytes
  pub proto : ℕ
  pub checksum : Bytes
  pub src : Bytes
  pub dst : Bytes
  pub options : Bytes
  pub view : header.buffer ≡ first ∷ (before ++ (proto ∷ (checksum ++ (src ++ (dst ++ options)))))
  pub layout : buffer ≡ header.buffer ++ payload
  pub length_before : length before ≡ 8
  pub length_checksum : length checksum ≡ 2
  pub length_src : length src ≡ 4
  pub length_dst : length dst ≡ 4
  pub header_len_is : 20 + length options ≡ first % 16 * 4
  pub source_is : source header ≡ ok (record { octets = src })
  pub destination_is : destination header ≡ ok (record { octets = dst })
  pub protocol_is : protocol header ≡ ok proto

-- Where a buffer of 20 bytes or more is refused: the length in its low four bits is below the minimum or past the end.
abbrev pub HasBadLength : Bytes → Type 0
HasBadLength buffer =
    (get_or buffer 0 0 % 16 * 4 < 20) ⊎ (length buffer < get_or buffer 0 0 % 16 * 4)

abbrev pub Parsed : Bytes → Outcome (Ipv4Header × Bytes) → Type 0
Parsed buffer (ok (header, payload)) = IsHeader buffer header payload
Parsed buffer (err ParseError.buffer_too_short) = length buffer < 20
Parsed buffer (err ParseError.invalid_format) = (20 ≤ length buffer) × HasBadLength buffer
Parsed buffer _ = ⊥

parse-short : (buffer : Bytes) → length buffer < 20 → parse buffer ≡ err buffer_too_short
unfolding parse
parse-short buffer h = ground arith

-- `parse` past the first test, with the mask as a remainder.
parse_step :
    (first : ℕ) (more : Bytes)
    → 20 ≤ length (first ∷ more)
    → first < 256
    → parse (first ∷ more) ≡ (
        if ltb (length (first ∷ more)) (first % 16 * 4) || ltb (first % 16 * 4) 20
        then err invalid_format
        else do
          header ← slice_to (first ∷ more) (first % 16 * 4)
          payload ← slice_from (first ∷ more) (first % 16 * 4)
          ok (record { buffer = header }, payload))
unfolding parse index
parse_step first more h b = rw (low_nibble first b) (ground arith)

parse-bad :
    (buffer : Bytes)
    → All IsByte buffer
    → 20 ≤ length buffer
    → HasBadLength buffer
    → parse buffer ≡ err invalid_format
parse-bad [] b h bad = absurd (omega arith)
parse-bad (first ∷ more) b h bad = ground (arith, parse_step first more)

parse-append :
    (first : ℕ) (more payload : Bytes)
    → first < 256
    → length (first ∷ more) ≡ first % 16 * 4
    → 20 ≤ length (first ∷ more)
    → parse ((first ∷ more) ++ payload) ≡ ok (record { buffer = first ∷ more }, payload)
parse-append first more payload b e h = ground (
  arith,
  parse_step first (more ++ payload),
  length-append more payload,
  slice_to-append (first ∷ more) payload (first % 16 * 4) (sym e),
  slice_from-append (first ∷ more) payload (first % 16 * 4) (sym e),
)

-- The fields of a header that is the parts in order.
parts-IsHeader :
    (buffer front payload : Bytes) (first : ℕ) (before : Bytes) (proto : ℕ)
    (checksum src dst options : Bytes)
    → buffer ≡ front ++ payload
    → front ≡ first ∷ (before ++ (proto ∷ (checksum ++ (src ++ (dst ++ options)))))
    → length before ≡ 8
    → length checksum ≡ 2
    → length src ≡ 4
    → length dst ≡ 4
    → 20 + length options ≡ first % 16 * 4
    → IsHeader buffer (record { buffer = front }) payload
unfolding source destination protocol
parts-IsHeader buffer front payload first before proto checksum src dst options e whole p1 p4 p5 p6
      h =
    let upto : Bytes = first ∷ (before ++ (proto ∷ checksum)) in
    let long : length upto ≡ 12 = omega (arith, length-append before (proto ∷ checksum), p1, p4) in
    record {
      first = first;
      before = before;
      proto = proto;
      checksum = checksum;
      src = src;
      dst = dst;
      options = options;
      view = whole;
      layout = e;
      length_before = p1;
      length_checksum = p4;
      length_src = p5;
      length_dst = p6;
      header_len_is = h;
      source_is = rw (
          read_array_at front upto src (dst ++ options) 4 12 16 (whole ∙ simp append_assoc) p5 long
            refl);
      destination_is = rw (
          read_array_at front (upto ++ src) dst options 4 16 20 (whole ∙ simp append_assoc) p6
            (omega (arith, length-append upto src, long, p5)) refl);
      protocol_is =
          index_at front (first ∷ before) proto (checksum ++ (src ++ (dst ++ options))) 9 whole
            (omega (arith, p1));
    }

cut-IsHeader :
    (buffer : Bytes) (first : ℕ) (more payload : Bytes) (size : ℕ)
    → buffer ≡ (first ∷ more) ++ payload
    → 20 + size ≡ first % 16 * 4
    → length more ≡ 19 + size
    → IsHeader buffer (record { buffer = first ∷ more }) payload
cut-IsHeader buffer first more payload size e h l =
    let (before, r1, e1, p1, l1) = split_exact 8 (11 + size) more (omega arith) in
    let (one, r2, e2, p2, l2) = split_exact 1 (10 + size) r1 (omega (arith, l1)) in
    let (proto, e3) = one_of_length one p2 in
    let (checksum, r3, e4, p4, l4) = split_exact 2 (8 + size) r2 (omega (arith, l2)) in
    let (src, r5, e5, p5, l5) = split_exact 4 (4 + size) r3 (omega (arith, l4)) in
    let (dst, options, e6, p6, l6) = split_exact 4 size r5 (omega (arith, l5)) in
    let tail : r2 ≡ checksum ++ (src ++ (dst ++ options)) =
      e4 ∙ ap (λ (t : Bytes). checksum ++ t) (e5 ∙ ap (λ (t : Bytes). src ++ t) e6) in
    let middle : r1 ≡ proto ∷ (checksum ++ (src ++ (dst ++ options))) =
      e2 ∙ ap (λ (t : Bytes). t ++ r2) e3 ∙ ap (◌∷◌ proto) tail in
    parts-IsHeader buffer (first ∷ more) payload first before proto checksum src dst options e
      (ap (◌∷◌ first) (e1 ∙ ap (λ (t : Bytes). before ++ t) middle)) p1 p4 p5 p6 (omega (arith, l6))

parse-good :
    (buffer : Bytes)
    → All IsByte buffer
    → 20 ≤ get_or buffer 0 0 % 16 * 4
    → get_or buffer 0 0 % 16 * 4 ≤ length buffer
    → Parsed buffer (parse buffer)
parse-good [] b h fits = absurd (omega arith)
parse-good (first ∷ more) b h fits =
    let (rest, payload, e, l) = split_at (first % 16 * 4 - 1) more (omega arith) in
    let whole : first ∷ more ≡ (first ∷ rest) ++ payload = ap (◌∷◌ first) e in
    rw (whole, parse-append first rest payload b.0 (omega (arith, l)) (omega (arith, l)))
      (cut-IsHeader _ first rest payload (first % 16 * 4 - 20) refl (omega arith)
        (omega (arith, l)))

-- On every buffer of bytes: a buffer below 20 bytes is refused as too short; one whose header length
-- (four times the low four bits of its first byte) is below 20 or past the end is refused as invalid;
-- any other is cut at the header length, and the protocol and the two addresses are the parts of
-- the layout. No input makes `parse` or a field read panic.
pub parse_ipv4-Parsed : (buffer : Bytes) → All IsByte buffer → Parsed buffer (parse buffer)
parse_ipv4-Parsed buffer b = elim (dec_le 20 (length buffer)) [
  | yes h ↦ elim (dec_le 20 (get_or buffer 0 0 % 16 * 4)) [
    | yes p ↦ elim (dec_le (get_or buffer 0 0 % 16 * 4) (length buffer)) [
      | yes q ↦ parse-good buffer b p q
      | no q ↦ rw (parse-bad buffer b h (inr (omega arith))) (h, inr (omega arith))
    ]
    | no p ↦ rw (parse-bad buffer b h (inl (omega arith))) (h, inl (omega arith))
  ]
  | no h ↦ rw (parse-short buffer (omega arith)) (omega arith)
]
