-- ===== src/Header/Arp/Layout.antt =====
-- The layout of an ARP packet, and `parse` on every buffer.
use net_zer.Prelude.{
  Bytes, length, ◌≡◌, ◌++◌, split_at, ◌<◌, sym, arith, refl, length-append, ◌∙◌, append_assoc, [],
  append-nil, ap,
}
use native.Mathlib.Decide.{dec_le}
use net_zer.Outcome.{
  ParseError, Outcome, ok, err, split_exact, not_short, buffer_too_short, from_be_bytes,
  slice_to-append, read_u16_at, read_array_at,
}
use net_zer.Header.Arp.{
  ArpPacket, parse, hardware_type, protocol_type, opcode, sender_mac, sender_ip, target_mac,
  target_ip,
}

-- The seven fields that are read, in their order, and the two length bytes between them.
pub record IsHeader (buffer : Bytes) (packet : ArpPacket) : Type 0 where
  pub hardware : Bytes
  pub protocol : Bytes
  pub sizes : Bytes
  pub operation : Bytes
  pub mac1 : Bytes
  pub ip1 : Bytes
  pub mac2 : Bytes
  pub ip2 : Bytes
  pub trailer : Bytes
  pub layout :
      buffer
      ≡ hardware
        ++ (protocol ++ (sizes ++ (operation ++ (mac1 ++ (ip1 ++ (mac2 ++ (ip2 ++ trailer)))))))
  pub lengths_types :
      (length hardware ≡ 2) × (length protocol ≡ 2) × (length sizes ≡ 2) × (length operation ≡ 2)
  pub lengths_sender : (length mac1 ≡ 6) × (length ip1 ≡ 4)
  pub lengths_target : (length mac2 ≡ 6) × (length ip2 ≡ 4)
  pub hardware_type_is : hardware_type packet ≡ ok (from_be_bytes hardware)
  pub protocol_type_is : protocol_type packet ≡ ok (from_be_bytes protocol)
  pub opcode_is : opcode packet ≡ ok (from_be_bytes operation)
  pub sender_mac_is : sender_mac packet ≡ ok (record { octets = mac1 })
  pub sender_ip_is : sender_ip packet ≡ ok (record { octets = ip1 })
  pub target_mac_is : target_mac packet ≡ ok (record { octets = mac2 })
  pub target_ip_is : target_ip packet ≡ ok (record { octets = ip2 })

abbrev pub Parsed : Bytes → Outcome ArpPacket → Type 0
Parsed buffer (ok header) = IsHeader buffer header
Parsed buffer (err ParseError.buffer_too_short) = length buffer < 28
Parsed buffer _ = ⊥

parse-append :
    (front trailer : Bytes)
    → 28 ≡ length front
    → parse (front ++ trailer) ≡ ok (record { buffer = front })
unfolding parse
parse-append front trailer e = rw (not_short front trailer 28 e, slice_to-append front trailer 28 e)

parse-short : (buffer : Bytes) → length buffer < 28 → parse buffer ≡ err buffer_too_short
unfolding parse
parse-short buffer h = ground arith

-- The fields of a packet that is the eight parts in order.
parts-IsHeader :
    (buffer front trailer a b c d f g h k : Bytes)
    → buffer ≡ front ++ trailer
    → front ≡ a ++ (b ++ (c ++ (d ++ (f ++ (g ++ (h ++ k))))))
    → (length a ≡ 2) × (length b ≡ 2) × (length c ≡ 2) × (length d ≡ 2)
    → (length f ≡ 6) × (length g ≡ 4)
    → (length h ≡ 6) × (length k ≡ 4)
    → IsHeader buffer (record { buffer = front })
unfolding hardware_type protocol_type opcode sender_mac sender_ip target_mac target_ip
parts-IsHeader buffer front trailer a b c d f g h k e whole (pa, pb, pc, pd) (pf, pg) (ph, pk) =
    let types : Bytes = a ++ (b ++ c) in
    let long_types : length types ≡ 6 =
      omega (arith, length-append a (b ++ c), length-append b c) in
    let head : Bytes = types ++ d in
    let long_head : length head ≡ 8 = omega (arith, length-append types d, long_types) in
    let sender : Bytes = head ++ (f ++ g) in
    let long_sender : length sender ≡ 18 =
      omega (arith, length-append head (f ++ g), length-append f g, long_head) in
    record {
      hardware = a;
      protocol = b;
      sizes = c;
      operation = d;
      mac1 = f;
      ip1 = g;
      mac2 = h;
      ip2 = k;
      trailer = trailer;
      layout = e ∙ ap (λ (t : Bytes). t ++ trailer) whole ∙ simp append_assoc;
      lengths_types = (pa, pb, pc, pd);
      lengths_sender = (pf, pg);
      lengths_target = (ph, pk);
      hardware_type_is = read_u16_at front [] a _ 0 2 whole pa refl refl;
      protocol_type_is = read_u16_at front a b _ 2 4 whole pb pa refl;
      opcode_is =
          read_u16_at front types d (f ++ (g ++ (h ++ k))) 6 8 (whole ∙ simp append_assoc) pd
            long_types refl;
      sender_mac_is = rw (
          read_array_at front head f (g ++ (h ++ k)) 6 8 14 (whole ∙ simp append_assoc) pf long_head
            refl);
      sender_ip_is = rw (
          read_array_at front (head ++ f) g (h ++ k) 4 14 18 (whole ∙ simp append_assoc) pg
            (omega (arith, length-append head f, long_head)) refl);
      target_mac_is =
          rw (
            read_array_at front sender h k 6 18 24 (whole ∙ simp append_assoc) ph long_sender refl);
      target_ip_is = rw (
          read_array_at front (sender ++ h) k [] 4 24 28 (whole ∙ simp (append_assoc, append-nil))
            pk (omega (arith, length-append sender h, long_sender)) refl);
    }

cut-IsHeader :
    (buffer front trailer : Bytes)
    → buffer ≡ front ++ trailer
    → length front ≡ 28
    → IsHeader buffer (record { buffer = front })
cut-IsHeader buffer front trailer e l =
    let (a, r1, e1, pa, l1) = split_exact 2 26 front l in
    let (b, r2, e2, pb, l2) = split_exact 2 24 r1 l1 in
    let (c, r3, e3, pc, l3) = split_exact 2 22 r2 l2 in
    let (d, r4, e4, pd, l4) = split_exact 2 20 r3 l3 in
    let (f, r5, e5, pf, l5) = split_exact 6 14 r4 l4 in
    let (g, r6, e6, pg, l6) = split_exact 4 10 r5 l5 in
    let (h, k, e7, ph, pk) = split_exact 6 4 r6 l6 in
    parts-IsHeader buffer front trailer a b c d f g h k e (cc) (pa, pb, pc, pd) (pf, pg) (ph, pk)

-- Every buffer of 28 bytes or more is parsed, and its fields are the parts of the layout, in order;
-- bytes behind the 28 are ignored. A shorter buffer is refused as too short. No input makes `parse` or
-- a field read panic.
pub parse_arp-Parsed : (buffer : Bytes) → Parsed buffer (parse buffer)
parse_arp-Parsed buffer = elim (dec_le 28 (length buffer)) [
  | yes h ↦
      let (front, trailer, e, l) = split_at 28 buffer h in
      rw (e, parse-append front trailer (sym l))
        (cut-IsHeader (front ++ trailer) front trailer refl l)
  | no h ↦ rw (parse-short buffer (omega arith)) (omega arith)
]
