-- ===== src/Header/Ethernet/Layout.antt =====
-- The layout of an Ethernet II frame, and `parse` on every buffer.
use net_zer.Prelude.{
  Bytes, ◌≡◌, ℕ, length, ◌<◌, split_at, ◌++◌, arith, append_assoc, ◌∷◌, ◌*◌, ap, [], sym, ◌+◌,
  length-append, refl, All, IsByte, ◌∙◌, All-append_right, subst,
}
use native.Mathlib.Decide.{dec_le}
use net_zer.Outcome.{
  ParseError, Outcome, ok, err, buffer_too_short, not_short, read_array-append, slice_to-append,
  slice_from-append, two_of_length, read_u16-append,
}
use net_zer.Header.Ethernet.{EthernetFrame, from_u16, parse, destination, source, ethertype}

-- The fields of a frame, in the order in which they stand on the wire.
pub record IsFrame (buffer : Bytes) (frame : EthernetFrame) (payload : Bytes) : Type 0 where
  pub dst : Bytes
  pub src : Bytes
  pub hi : ℕ
  pub lo : ℕ
  pub layout : buffer ≡ dst ++ (src ++ (hi ∷ lo ∷ payload))
  pub length_dst : length dst ≡ 6
  pub length_src : length src ≡ 6
  pub destination_is : destination frame ≡ ok (record { octets = dst })
  pub source_is : source frame ≡ ok (record { octets = src })
  pub ethertype_is : ethertype frame ≡ ok (from_u16 (hi * 256 + lo))

abbrev pub Parsed : Bytes → Outcome (EthernetFrame × Bytes) → Type 0
Parsed buffer (ok (frame, payload)) = IsFrame buffer frame payload
Parsed buffer (err ParseError.buffer_too_short) = length buffer < 14
Parsed buffer _ = ⊥

parse-append :
    (front payload : Bytes)
    → 14 ≡ length front
    → parse (front ++ payload) ≡ ok (record { buffer = front }, payload)
unfolding parse
parse-append front payload e = rw (
  not_short front payload 14 e,
  slice_to-append front payload 14 e,
  slice_from-append front payload 14 e,
)

parse-short : (buffer : Bytes) → length buffer < 14 → parse buffer ≡ err buffer_too_short
unfolding parse
parse-short buffer h = ground arith

module _ (dst src payload : Bytes) (hi lo : ℕ) (d : length dst ≡ 6) (s : length src ≡ 6) where
  abbrev front : Bytes
  front = dst ++ (src ++ (hi ∷ lo ∷ []))

  front-IsFrame : IsFrame (front ++ payload) (record { buffer = front }) payload
  unfolding destination source ethertype
  front-IsFrame = record {
    dst = dst;
    src = src;
    hi = hi;
    lo = lo;
    layout = simp append_assoc;
    length_dst = d;
    length_src = s;
    destination_is =
        rw (read_array-append [] dst (src ++ (hi ∷ lo ∷ [])) 6 0 6 (sym d) refl (omega arith));
    source_is = rw (read_array-append dst src (hi ∷ lo ∷ []) 6 6 12 (sym s) (sym d) (omega arith));
    ethertype_is = rw (← append_assoc dst src (hi ∷ lo ∷ [])) (
        rw (
          read_u16-append (dst ++ src) hi lo [] 12 14 (omega (arith, length-append dst src))
            (omega (arith, length-append dst src))));
  }

-- Every buffer of 14 bytes or more is parsed, and the fields of the frame are the bytes of the layout.
-- A shorter one is refused as too short. No input makes `parse` or a field read panic.
pub parse_ethernet-Parsed : (buffer : Bytes) → Parsed buffer (parse buffer)
parse_ethernet-Parsed buffer = elim (dec_le 14 (length buffer)) [
  | yes h ↦
      let (front', payload, e, l) = split_at 14 buffer h in
      let (dst, rest, e1, l1) = split_at 6 front' (omega arith) in
      let (src, rest2, e2, l2) =
        split_at 6 rest (omega (arith, ap length e1, length-append dst rest)) in
      let (hi, lo, e3) = two_of_length rest2 (
        omega
          (arith, ap length e1, ap length e2, length-append dst rest, length-append src rest2)) in
      let whole : front' ≡ dst ++ (src ++ (hi ∷ lo ∷ [])) = cc in
      rw (e, parse-append front' payload (sym l), whole) (front-IsFrame dst src payload hi lo l1 l2)
  | no h ↦ rw (parse-short buffer (omega arith)) (omega arith)
]

-- The bytes of a payload are bytes of the frame.
pub frame_payload :
    {packet : Bytes} (frame : EthernetFrame) (payload : Bytes) (h : IsFrame packet frame payload)
    → All IsByte packet
    → All IsByte payload
frame_payload {packet} frame payload h bytes =
    let front : Bytes = h.dst ++ (h.src ++ (h.hi ∷ h.lo ∷ [])) in
    let whole : packet ≡ front ++ payload = h.layout ∙ simp append_assoc in
    All-append_right IsByte front payload (subst (All IsByte) whole bytes)
