-- ===== src/Header/Udp/Layout.antt =====
-- The layout of a UDP header, and `parse` on every buffer.
use net_zer.Prelude.{
  Bytes, length, ◌≡◌, ◌++◌, ◌<◌, split_at, sym, append_assoc, arith, refl, [], ◌∙◌, ap,
}
use native.Mathlib.Decide.{dec_le}
use net_zer.Outcome.{
  ParseError, Outcome, ok, err, buffer_too_short, split_exact, not_short, from_be_bytes,
  slice_to-append, read_u16_at, slice_from-append,
}
use net_zer.Header.Udp.{UdpHeader, parse, source_port, destination_port}

pub record IsHeader (buffer : Bytes) (header : UdpHeader) (payload : Bytes) : Type 0 where
  pub src : Bytes
  pub dst : Bytes
  pub length_and_checksum : Bytes
  pub layout : buffer ≡ src ++ (dst ++ (length_and_checksum ++ payload))
  pub view : header.buffer ≡ src ++ (dst ++ length_and_checksum)
  pub length_src : length src ≡ 2
  pub length_dst : length dst ≡ 2
  pub length_rest : length length_and_checksum ≡ 4
  pub source_port_is : source_port header ≡ ok (from_be_bytes src)
  pub destination_port_is : destination_port header ≡ ok (from_be_bytes dst)

abbrev pub Parsed : Bytes → Outcome (UdpHeader × Bytes) → Type 0
Parsed buffer (ok (header, payload)) = IsHeader buffer header payload
Parsed buffer (err ParseError.buffer_too_short) = length buffer < 8
Parsed buffer _ = ⊥

parse-append :
    (front payload : Bytes)
    → 8 ≡ length front
    → parse (front ++ payload) ≡ ok (record { buffer = front }, payload)
unfolding parse
parse-append front payload e = rw (
  not_short front payload 8 e,
  slice_to-append front payload 8 e,
  slice_from-append front payload 8 e,
)

parse-short : (buffer : Bytes) → length buffer < 8 → parse buffer ≡ err buffer_too_short
unfolding parse
parse-short buffer h = ground arith

cut-IsHeader :
    (buffer front payload : Bytes)
    → buffer ≡ front ++ payload
    → length front ≡ 8
    → IsHeader buffer (record { buffer = front }) payload
unfolding source_port destination_port
cut-IsHeader buffer front payload e l =
    let (src, rest, e1, p, l1) = split_exact 2 6 front l in
    let (dst, tail, e2, q, l2) = split_exact 2 4 rest l1 in
    let whole : front ≡ src ++ (dst ++ tail) = cc in
    record {
      src = src;
      dst = dst;
      length_and_checksum = tail;
      layout = e ∙ ap (λ (t : Bytes). t ++ payload) whole ∙ simp append_assoc;
      view = whole;
      length_src = p;
      length_dst = q;
      length_rest = l2;
      source_port_is = read_u16_at front [] src (dst ++ tail) 0 2 whole p refl refl;
      destination_port_is = read_u16_at front src dst tail 2 4 whole q p refl;
    }

-- Every buffer of 8 bytes or more is parsed, and the ports are the first two pairs of bytes, most
-- significant first; what follows the 8 bytes is the payload. A shorter buffer is refused as too short. No input makes `parse` or a
-- port read panic.
pub parse_udp-Parsed : (buffer : Bytes) → Parsed buffer (parse buffer)
parse_udp-Parsed buffer = elim (dec_le 8 (length buffer)) [
  | yes h ↦
      let (front, payload, e, l) = split_at 8 buffer h in
      rw (e, parse-append front payload (sym l))
        (cut-IsHeader (front ++ payload) front payload refl l)
  | no h ↦ rw (parse-short buffer (omega arith)) (omega arith)
]
