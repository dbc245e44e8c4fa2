-- ===== src/Header/Tcp/Layout.antt =====
-- The layout of a TCP header, and `parse` on every buffer.
use net_zer.Prelude.{
  Bytes, ◌≤◌, ◌≡◌, ℕ, ◌<◌, length, ◌⊎◌, split_at, get_or, inr, ◌++◌, ◌-◌, ◌+◌, arith, ◌/◌, ◌∷◌, ap,
  length-append, ◌*◌, inl, ◌∙◌, append_assoc, subst, sym, refl, [],
}
use native.Mathlib.Decide.{dec_le}
use net_zer.Outcome.{
  ParseError, Outcome, ok, err, invalid_format, buffer_too_short, split_exact, index_lt,
  from_be_bytes, get_or-append_left, cons_of_length, slice_to-append, get_or-append_self,
  read_u16_at, slice_from-append,
}
use net_zer.Header.Tcp.{TcpHeader, parse, source_port, destination_port}

pub record IsHeader (buffer : Bytes) (header : TcpHeader) (payload : Bytes) : Type 0 where
  pub src : Bytes
  pub dst : Bytes
  pub numbers : Bytes
  pub offset : ℕ
  pub rest : Bytes
  pub view : header.buffer ≡ src ++ (dst ++ (numbers ++ (offset ∷ rest)))
  pub layout : buffer ≡ header.buffer ++ payload
  pub length_src : length src ≡ 2
  pub length_dst : length dst ≡ 2
  pub length_numbers : length numbers ≡ 8
  pub header_len_is : length header.buffer ≡ offset / 16 * 4
  pub at_least : 20 ≤ length header.buffer
  pub source_port_is : source_port header ≡ ok (from_be_bytes src)
  pub destination_port_is : destination_port header ≡ ok (from_be_bytes dst)

-- The header's length as byte 12 gives it, in its high four bits.
abbrev pub stated_len : Bytes → ℕ
stated_len buffer = get_or buffer 12 0 / 16 * 4

abbrev pub HasBadLength : Bytes → Type 0
HasBadLength buffer = (stated_len buffer < 20) ⊎ (length buffer < stated_len buffer)

abbrev pub Parsed : Bytes → Outcome (TcpHeader × Bytes) → Type 0
Parsed buffer (ok (header, payload)) = IsHeader buffer header payload
Parsed buffer (err ParseError.buffer_too_short) = length buffer < 20
Parsed buffer (err ParseError.invalid_format) = (20 ≤ length buffer) × HasBadLength buffer
Parsed buffer _ = ⊥

parse-short : (buffer : Bytes) → length buffer < 20 → parse buffer ≡ err buffer_too_short
unfolding parse
parse-short buffer h = ground arith

parse-bad :
    (buffer : Bytes) → 20 ≤ length buffer → HasBadLength buffer → parse buffer ≡ err invalid_format
unfolding parse
parse-bad buffer h bad = rw (index_lt buffer 12 (omega arith)) (ground arith)

parse-append :
    (front payload : Bytes)
    → length front ≡ stated_len front
    → 20 ≤ length front
    → parse (front ++ payload) ≡ ok (record { buffer = front }, payload)
unfolding parse
parse-append front payload e h =
    let long : length (front ++ payload) ≡ length front + length payload =
      length-append front payload in
    rw
      (
        index_lt (front ++ payload) 12 (omega (arith, long)),
        get_or-append_left front payload 12 (omega arith),
      )
      (ground (
        arith,
        long,
        slice_to-append front payload (stated_len front) (sym e),
        slice_from-append front payload (stated_len front) (sym e),
      ))

parts-IsHeader :
    (buffer front payload src dst numbers : Bytes) (offset : ℕ) (rest : Bytes)
    → buffer ≡ front ++ payload
    → front ≡ src ++ (dst ++ (numbers ++ (offset ∷ rest)))
    → length src ≡ 2
    → length dst ≡ 2
    → length numbers ≡ 8
    → length front ≡ stated_len front
    → 20 ≤ length front
    → IsHeader buffer (record { buffer = front }) payload
unfolding source_port destination_port
parts-IsHeader buffer front payload src dst numbers offset rest e whole p q r l h =
    let upto : Bytes = src ++ (dst ++ numbers) in
    let long : length upto ≡ 12 =
      omega (arith, length-append src (dst ++ numbers), length-append dst numbers) in
    let split : front ≡ upto ++ (offset ∷ rest) = whole ∙ simp append_assoc in
    let byte : get_or (upto ++ (offset ∷ rest)) 12 0 ≡ offset =
      rw (← long) (get_or-append_self upto offset rest) in
    record {
      src = src;
      dst = dst;
      numbers = numbers;
      offset = offset;
      rest = rest;
      view = whole;
      layout = e;
      length_src = p;
      length_dst = q;
      length_numbers = r;
      header_len_is =
          l ∙ ap (λ (t : ℕ). t / 16 * 4) (ap (λ (t : Bytes). get_or t 12 0) split ∙ byte);
      at_least = h;
      source_port_is = read_u16_at front [] src _ 0 2 whole p refl refl;
      destination_port_is = read_u16_at front src dst _ 2 4 whole q p refl;
    }

cut-IsHeader :
    (buffer front payload : Bytes)
    → buffer ≡ front ++ payload
    → length front ≡ stated_len front
    → 20 ≤ length front
    → IsHeader buffer (record { buffer = front }) payload
cut-IsHeader buffer front payload e l h =
    let size : ℕ = length front - 4 in
    let (src, r1, e1, p1, l1) = split_exact 2 (2 + size) front (omega arith) in
    let (dst, r2, e2, p2, l2) = split_exact 2 size r1 l1 in
    let (numbers, r3, e3, p3, l3) = split_exact 8 (size - 8) r2 (omega (arith, l2)) in
    let (offset, rest, e4) = cons_of_length r3 (omega (arith, l3)) in
    parts-IsHeader buffer front payload src dst numbers offset rest e
      (e1
        ∙ ap (λ (t : Bytes). src ++ t)
            (e2 ∙ ap (λ (t : Bytes). dst ++ t) (e3 ∙ ap (λ (t : Bytes). numbers ++ t) e4)))
      p1 p2 p3 l h

parse-good :
    (buffer : Bytes)
    → 20 ≤ stated_len buffer
    → stated_len buffer ≤ length buffer
    → Parsed buffer (parse buffer)
parse-good buffer h fits =
    let (front, payload, e, l) = split_at (stated_len buffer) buffer fits in
    let same : stated_len buffer ≡ stated_len front =
      ap (λ (t : ℕ). t / 16 * 4)
        (ap (λ (t : Bytes). get_or t 12 0) e
          ∙ get_or-append_left front payload 12 (omega (arith, l))) in
    let long : 20 ≤ length front = omega (arith, l) in
    subst (λ b. Parsed b (parse b)) (sym e)
      (rw (parse-append front payload (l ∙ same) long)
        (cut-IsHeader (front ++ payload) front payload refl (l ∙ same) long))

-- On every buffer: one below 20 bytes is refused as too short; one whose header length (four times
-- the high four bits of byte 12) is below 20 or past the end is refused as invalid; any other is cut
-- at the header length, and the ports are the first two pairs of bytes. No input makes `parse` or a
-- port read panic.
pub parse_tcp-Parsed : (buffer : Bytes) → Parsed buffer (parse buffer)
parse_tcp-Parsed buffer = elim (dec_le 20 (length buffer)) [
  | yes h ↦ elim (dec_le 20 (stated_len buffer)) [
    | yes p ↦ elim (dec_le (stated_len buffer) (length buffer)) [
      | yes q ↦ parse-good buffer p q
      | no q ↦ rw (parse-bad buffer h (inr (omega arith))) (h, inr (omega arith))
    ]
    | no p ↦ rw (parse-bad buffer h (inl (omega arith))) (h, inl (omega arith))
  ]
  | no h ↦ rw (parse-short buffer (omega arith)) (omega arith)
]
