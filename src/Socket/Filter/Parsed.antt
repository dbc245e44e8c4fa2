-- ===== src/Socket/Filter/Parsed.antt =====
-- The port filter of netzer-socket/src/socket.rs against the parsers of netzer-core: the ports that the
-- filter compares are those that the parsers read.
use net_zer.Prelude.{
  Bytes, ◌≡◌, ℕ, ◌++◌, length, arith, ◌+◌, ◌∷◌, ◌∙◌, ◌*◌, subst, ◌⊎◌, append_assoc, ap, ◌==◌, refl,
  ◌||◌, inl, inr, List, All, IsByte, if◌then◌else◌, Bool,
}
use net_zer.Outcome.{Outcome, ok, from_be_bytes}
use net_zer.Header.Ethernet.{EthernetFrame, EtherType, from_u16, ethertype, parse as parse_ethernet}
use net_zer.Header.Ethernet.Layout.{
  frame_payload, IsFrame, Parsed as ParsedFrame, parse_ethernet-Parsed,
}
use net_zer.Header.Ipv4.{Ipv4Header, protocol, parse as parse_ipv4}
use net_zer.Header.Ipv4.Layout.{IsHeader as IsIpv4, Parsed as ParsedIpv4, parse_ipv4-Parsed}
use net_zer.Header.Tcp.{
  TcpHeader, source_port as tcp_source, destination_port as tcp_destination, parse as parse_tcp,
}
use net_zer.Header.Tcp.Layout.{Parsed as ParsedTcp, parse_tcp-Parsed}
use net_zer.Header.Udp.{
  UdpHeader, source_port as udp_source, destination_port as udp_destination, parse as parse_udp,
}
use net_zer.Header.Udp.Layout.{Parsed as ParsedUdp, parse_udp-Parsed}
use net_zer.Socket.Filter.{SockFilter, filter_port, IsMachine}
use net_zer.Socket.Filter.Port.{filter_port-keeps}
use net_zer.Socket.Filter.Reads.{keeps_port_lem}

from_u16-ipv4 : (n : ℕ) → from_u16 n ≡ EtherType.ipv4 → n ≡ 0x0800
unfolding from_u16
from_u16-ipv4 n e = ground arith

ok_injective {ℓ} : {A : Type ℓ} (a b : A) (m : Outcome A) → m ≡ ok a → m ≡ ok b → a ≡ b
ok_injective a b m e k = cc

-- A frame of bytes that the parsers take apart as IPv4 inside Ethernet.
module _ (exec : List SockFilter → ℕ → ℕ → Bytes → ℕ) (m : IsMachine exec) (port a x : ℕ)
    (packet inside payload : Bytes) (frame : EthernetFrame) (header : Ipv4Header)
    (bytes : All IsByte packet) (parsed_frame : parse_ethernet packet ≡ ok (frame, inside))
    (is_ipv4 : ethertype frame ≡ ok EtherType.ipv4)
    (parsed_header : parse_ipv4 inside ≡ ok (header, payload)) where
  frame_view : IsFrame packet frame inside
  frame_view = subst (ParsedFrame packet) parsed_frame (parse_ethernet-Parsed packet)

  header_view : IsIpv4 inside header payload
  header_view =
      subst (ParsedIpv4 inside) parsed_header
        (parse_ipv4-Parsed inside (frame_payload frame inside frame_view bytes))

  kept_by_ports :
      (sp dp rest : Bytes) (proto : ℕ)
      → payload ≡ sp ++ (dp ++ rest)
      → length sp ≡ 2
      → length dp ≡ 2
      → protocol header ≡ ok proto
      → (proto ≡ 6) ⊎ (proto ≡ 17)
      → exec (filter_port port) a x packet
        ≡ (if from_be_bytes sp == port || from_be_bytes dp == port then 65535 else 0)
  kept_by_ports sp dp rest proto e two_sp two_dp p is =
      let same : proto ≡ header_view.proto =
        ok_injective proto header_view.proto (protocol header) p header_view.protocol_is in
      let kind : frame_view.hi * 256 + frame_view.lo ≡ 0x0800 =
        from_u16-ipv4 (frame_view.hi * 256 + frame_view.lo) (
          ok_injective (from_u16 (frame_view.hi * 256 + frame_view.lo)) EtherType.ipv4
            (ethertype frame) frame_view.ethertype_is is_ipv4) in
      filter_port-keeps exec m port a x packet
      ∙ ap (λ (b : Bool). if b then 65535 else 0)
          (keeps_port_lem packet inside payload sp dp rest frame header frame_view header_view e
            two_sp two_dp port kind (subst (λ (n : ℕ). (n ≡ 6) ⊎ (n ≡ 17)) same is))

  -- Where the parsers of netzer-core read a frame of bytes as Ethernet, IPv4 of any header length and TCP,
  -- the port filter, on a machine that runs the instructions as documented, keeps the whole frame exactly
  -- when the source port or the destination port that `TcpHeader` gives is the wanted one.
  pub filter_port-tcp :
      (tcp : TcpHeader) (body : Bytes) (src dst : ℕ)
      → protocol header ≡ ok 6
      → parse_tcp payload ≡ ok (tcp, body)
      → tcp_source tcp ≡ ok src
      → tcp_destination tcp ≡ ok dst
      → exec (filter_port port) a x packet ≡ (if src == port || dst == port then 65535 else 0)
  filter_port-tcp tcp body src dst p parsed s d =
      let t : ParsedTcp payload (ok (tcp, body)) =
        subst (ParsedTcp payload) parsed (parse_tcp-Parsed payload) in
      rw
        (
          ok_injective src (from_be_bytes t.src) (tcp_source tcp) s t.source_port_is,
          ok_injective dst (from_be_bytes t.dst) (tcp_destination tcp) d t.destination_port_is,
        )
        (kept_by_ports t.src t.dst ((t.numbers ++ (t.offset ∷ t.rest)) ++ body) 6
          (t.layout ∙ ap (λ (u : Bytes). u ++ body) t.view ∙ simp append_assoc) t.length_src
          t.length_dst p (inl refl))

  -- The same for UDP, with the ports that `UdpHeader` gives.
  pub filter_port-udp :
      (udp : UdpHeader) (body : Bytes) (src dst : ℕ)
      → protocol header ≡ ok 17
      → parse_udp payload ≡ ok (udp, body)
      → udp_source udp ≡ ok src
      → udp_destination udp ≡ ok dst
      → exec (filter_port port) a x packet ≡ (if src == port || dst == port then 65535 else 0)
  filter_port-udp udp body src dst p parsed s d =
      let t : ParsedUdp payload (ok (udp, body)) =
        subst (ParsedUdp payload) parsed (parse_udp-Parsed payload) in
      rw
        (
          ok_injective src (from_be_bytes t.src) (udp_source udp) s t.source_port_is,
          ok_injective dst (from_be_bytes t.dst) (udp_destination udp) d t.destination_port_is,
        )
        (kept_by_ports t.src t.dst (t.length_and_checksum ++ body) 17 t.layout t.length_src
          t.length_dst p (inr refl))
