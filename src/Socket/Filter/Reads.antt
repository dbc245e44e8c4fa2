-- ===== src/Socket/Filter/Reads.antt =====
-- The bytes that the port filter of netzer-socket/src/socket.rs reads in a frame with an IPv4 packet.
use net_zer.Prelude.{
  Bytes, ◌≡◌, ℕ, get_elem?, ◌++◌, length, some, arith, ◌+◌, ◌∷◌, ◌∙◌, ◌%◌, ◌*◌, [], subst, suc, ◌⊎◌,
  append_assoc, length-append, get_or, ap, sym, ◌==◌, refl, zero, ◌||◌, inl, inr,
}
use net_zer.Outcome.{from_be_bytes}
use net_zer.Header.Ethernet.{EthernetFrame}
use net_zer.Header.Ethernet.Layout.{IsFrame}
use net_zer.Header.Ipv4.{Ipv4Header}
use net_zer.Header.Ipv4.Layout.{IsHeader as IsIpv4}
use net_zer.Socket.Filter.{half_at}
use net_zer.Socket.Filter.Port.{keeps_port, ip_length}

get_elem?-append :
    (front rest : Bytes) (n i : ℕ)
    → length front ≡ n
    → get_elem? (front ++ rest) (n + i) ≡ get_elem? rest i
get_elem?-append [] rest n i e = let z : n + i ≡ i = omega arith in rw z refl
get_elem?-append (x ∷ front) rest zero i e = absurd (omega arith)
get_elem?-append (x ∷ front) rest (suc n) i e =
    let z : suc n + i ≡ suc (n + i) = omega arith in
    rw z (get_elem?-append front rest n i (omega arith))

byte_at-append :
    (p front rest : Bytes) (b n : ℕ)
    → p ≡ front ++ (b ∷ rest)
    → length front ≡ n
    → get_elem? p n ≡ some b
byte_at-append p front rest b n e l =
    let z : n + 0 ≡ n = omega arith in
    rw e (
      subst (λ (k : ℕ). get_elem? (front ++ (b ∷ rest)) k ≡ some b) z
        (get_elem?-append front (b ∷ rest) n 0 l))

half_of_two :
    (p front rest : Bytes) (hi lo n : ℕ)
    → p ≡ front ++ (hi ∷ lo ∷ rest)
    → length front ≡ n
    → half_at p n ≡ some (hi * 256 + lo)
half_of_two p front rest hi lo n e l =
    let second : get_elem? p (n + 1) ≡ some lo =
      rw e (get_elem?-append front (hi ∷ lo ∷ rest) n 1 l) in
    rw (byte_at-append p front (lo ∷ rest) hi n e l, second) refl

from_two : (hi lo : ℕ) → hi * 256 + lo ≡ from_be_bytes (hi ∷ lo ∷ [])
from_two hi lo = omega arith

half_at-append :
    (p front pair rest : Bytes) (n : ℕ)
    → p ≡ front ++ (pair ++ rest)
    → length front ≡ n
    → length pair ≡ 2
    → half_at p n ≡ some (from_be_bytes pair)
half_at-append p front [] rest n e l two = absurd (omega arith)
half_at-append p front (hi ∷ []) rest n e l two = absurd (omega arith)
half_at-append p front (hi ∷ lo ∷ []) rest n e l two =
    half_of_two p front rest hi lo n e l ∙ ap some (from_two hi lo)
half_at-append p front (hi ∷ lo ∷ x ∷ more) rest n e l two = absurd (omega arith)

get_or_of : (p : Bytes) (i b : ℕ) → get_elem? p i ≡ some b → get_or p i 0 ≡ b
get_or_of [] i b e = absurd cc
get_or_of (x ∷ p) zero b e = cc
get_or_of (x ∷ p) (suc i) b e = get_or_of p i b e

-- An Ethernet frame with an IPv4 packet in which two pairs of bytes lead the payload.
module _ (packet inside payload sp dp rest : Bytes) (frame : EthernetFrame) (header : Ipv4Header)
    (f : IsFrame packet frame inside) (h : IsIpv4 inside header payload)
    (ports : payload ≡ sp ++ (dp ++ rest)) (two_sp : length sp ≡ 2) (two_dp : length dp ≡ 2) where
  abbrev addresses : Bytes
  addresses = f.dst ++ f.src

  abbrev before_ip : Bytes
  before_ip = addresses ++ (f.hi ∷ f.lo ∷ [])

  length-before_ip : length before_ip ≡ 14
  length-before_ip = omega (
    arith,
    length-append addresses (f.hi ∷ f.lo ∷ []),
    length-append f.dst f.src,
    f.length_dst,
    f.length_src,
  )

  packet_view : packet ≡ before_ip ++ inside
  packet_view = f.layout ∙ simp append_assoc

  kind_read : half_at packet 12 ≡ some (f.hi * 256 + f.lo)
  kind_read =
      half_of_two packet addresses inside f.hi f.lo 12 (f.layout ∙ simp append_assoc)
        (omega (arith, length-append f.dst f.src, f.length_dst, f.length_src))

  abbrev after_proto : Bytes
  after_proto = h.checksum ++ (h.src ++ (h.dst ++ h.options))

  inside_view : inside ≡ h.first ∷ (h.before ++ (h.proto ∷ (after_proto ++ payload)))
  inside_view = h.layout ∙ ap (λ (t : Bytes). t ++ payload) h.view ∙ simp append_assoc

  first_read : get_elem? packet 14 ≡ some h.first
  first_read =
      byte_at-append packet before_ip (h.before ++ (h.proto ∷ (after_proto ++ payload))) h.first 14
        (packet_view ∙ ap (λ (t : Bytes). before_ip ++ t) inside_view) length-before_ip

  proto_read : get_elem? packet 23 ≡ some h.proto
  proto_read =
      byte_at-append packet (before_ip ++ (h.first ∷ h.before)) (after_proto ++ payload) h.proto 23
        (packet_view ∙ ap (λ (t : Bytes). before_ip ++ t) inside_view ∙ simp append_assoc)
        (omega
          (arith, length-append before_ip (h.first ∷ h.before), length-before_ip, h.length_before))

  length-header : length header.buffer ≡ h.first % 16 * 4
  length-header =
      let pieces : length header.buffer ≡ length (h.first ∷ (h.before ++ (h.proto ∷ after_proto))) =
        ap length h.view in
      omega (
        arith,
        pieces,
        length-append h.before (h.proto ∷ after_proto),
        length-append h.checksum (h.src ++ (h.dst ++ h.options)),
        length-append h.src (h.dst ++ h.options),
        length-append h.dst h.options,
        h.length_before,
        h.length_checksum,
        h.length_src,
        h.length_dst,
        h.header_len_is,
      )

  ip_length_read : ip_length packet ≡ h.first % 16 * 4
  ip_length_read = rw (get_or_of packet 14 h.first first_read) refl

  source_read : half_at packet (ip_length packet + 14) ≡ some (from_be_bytes sp)
  source_read =
      half_at-append packet (before_ip ++ header.buffer) sp (dp ++ rest) (ip_length packet + 14)
        (packet_view
          ∙ ap (λ (t : Bytes). before_ip ++ t)
              (h.layout ∙ ap (λ (t : Bytes). header.buffer ++ t) ports)
          ∙ sym (append_assoc before_ip header.buffer (sp ++ (dp ++ rest))))
        (omega (
          arith,
          length-append before_ip header.buffer,
          length-before_ip,
          length-header,
          ip_length_read,
        ))
        two_sp

  destination_read : half_at packet (ip_length packet + 16) ≡ some (from_be_bytes dp)
  destination_read =
      half_at-append packet ((before_ip ++ header.buffer) ++ sp) dp rest (ip_length packet + 16)
        (packet_view
          ∙ ap (λ (t : Bytes). before_ip ++ t)
              (h.layout ∙ ap (λ (t : Bytes). header.buffer ++ t) ports)
          ∙ simp append_assoc)
        (omega (
          arith,
          length-append before_ip header.buffer,
          length-append (before_ip ++ header.buffer) sp,
          length-before_ip,
          length-header,
          ip_length_read,
          two_sp,
        ))
        two_dp

  pub keeps_port_lem :
      (port : ℕ)
      → f.hi * 256 + f.lo ≡ 0x0800
      → (h.proto ≡ 6) ⊎ (h.proto ≡ 17)
      → keeps_port port packet ≡ (from_be_bytes sp == port || from_be_bytes dp == port)
  unfolding keeps_port
  keeps_port_lem port ip (inl tcp) =
      rw (kind_read, ip, proto_read, tcp, source_read, destination_read) refl
  keeps_port_lem port ip (inr udp) =
      rw (kind_read, ip, proto_read, udp, source_read, destination_read) refl
