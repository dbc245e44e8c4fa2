-- ===== src/Examples/Frames.antt =====
-- A frame that several runs share: TCP over IPv4 with a request of HTTP, to port 80.
use net_zer.Prelude.{◌≡◌, ◌++◌, Bytes, All, ℕ, ◌∷◌, IsByte, ascii, refl, [], arith}
use net_zer.Outcome.{ok, slice_to, slice_from, index, read_u16, read_array, slice}
use net_zer.Header.Ethernet.{EthernetFrame, EtherType, ethertype, from_u16, parse as parse_ethernet}
use net_zer.Header.Ipv4.{Ipv4Header, protocol, parse as parse_ipv4}
use net_zer.Header.Tcp.{TcpHeader, source_port, destination_port, parse as parse_tcp}
use net_zer.Header.Udp.{
  UdpHeader, source_port as udp_source, destination_port as udp_destination, parse as parse_udp,
}

abbrev pub ethernet_front : Bytes
ethernet_front =
    0x00 ∷ 0x11 ∷ 0x22 ∷ 0x33 ∷ 0x44 ∷ 0x55 ∷ 0xaa ∷ 0xbb ∷ 0xcc ∷ 0xdd ∷ 0xee ∷ 0xff ∷ 0x08 ∷ 0x00
    ∷ []

abbrev pub ipv4_front : ℕ → Bytes
ipv4_front proto =
    0x45 ∷ 0x00 ∷ 0x00 ∷ 0x2c ∷ 0x00 ∷ 0x01 ∷ 0x00 ∷ 0x00 ∷ 0x40 ∷ proto ∷ 0x00 ∷ 0x00 ∷ 0x0a ∷ 0x00
    ∷ 0x00 ∷ 0x01 ∷ 0x0a ∷ 0x00 ∷ 0x00 ∷ 0x02 ∷ []

abbrev pub tcp_front : Bytes
tcp_front =
    0xc0 ∷ 0x00 ∷ 0x00 ∷ 0x50 ∷ 0x00 ∷ 0x00 ∷ 0x00 ∷ 0x01 ∷ 0x00 ∷ 0x00 ∷ 0x00 ∷ 0x00 ∷ 0x50 ∷ 0x18
    ∷ 0x10 ∷ 0x00 ∷ 0x00 ∷ 0x00 ∷ 0x00 ∷ 0x00 ∷ []

abbrev pub tcp_payload : Bytes
tcp_payload = ascii "GET "

abbrev pub segment : Bytes
segment = tcp_front ++ tcp_payload

abbrev pub tcp_packet : Bytes
tcp_packet = ipv4_front 6 ++ segment

abbrev pub tcp_frame : Bytes
tcp_frame = ethernet_front ++ tcp_packet

abbrev pub udp_front : Bytes
udp_front = 0xc0 ∷ 0x00 ∷ 0x00 ∷ 0x35 ∷ 0x00 ∷ 0x0a ∷ 0x00 ∷ 0x00 ∷ []

abbrev pub udp_packet : Bytes
udp_packet = ipv4_front 17 ++ (udp_front ++ (0x01 ∷ 0x02 ∷ []))

abbrev pub udp_frame : Bytes
udp_frame = ethernet_front ++ udp_packet

pub tcp_frame-bytes : All IsByte tcp_frame
tcp_frame-bytes = ground arith

pub udp_frame-bytes : All IsByte udp_frame
udp_frame-bytes = ground arith

abbrev pub front_frame : EthernetFrame
front_frame = record { buffer = ethernet_front }

pub tcp_frame-parsed : parse_ethernet tcp_frame ≡ ok (front_frame, tcp_packet)
unfolding parse_ethernet slice_to slice_from
tcp_frame-parsed = refl

pub udp_frame-parsed : parse_ethernet udp_frame ≡ ok (front_frame, udp_packet)
unfolding parse_ethernet slice_to slice_from
udp_frame-parsed = refl

pub front_frame-ipv4 : ethertype front_frame ≡ ok EtherType.ipv4
unfolding ethertype from_u16 read_u16 read_array slice
front_frame-ipv4 = refl

abbrev pub header_of : ℕ → Ipv4Header
header_of proto = record { buffer = ipv4_front proto }

pub tcp_packet-parsed : parse_ipv4 tcp_packet ≡ ok (header_of 6, segment)
unfolding parse_ipv4 index slice_to slice_from
tcp_packet-parsed = refl

pub udp_packet-parsed : parse_ipv4 udp_packet ≡ ok (header_of 17, udp_front ++ (0x01 ∷ 0x02 ∷ []))
unfolding parse_ipv4 index slice_to slice_from
udp_packet-parsed = refl

pub header_of-protocol : (proto : ℕ) → protocol (header_of proto) ≡ ok proto
unfolding protocol index
header_of-protocol proto = refl

abbrev pub tcp_header : TcpHeader
tcp_header = record { buffer = tcp_front }

pub segment-parsed : parse_tcp segment ≡ ok (tcp_header, tcp_payload)
unfolding parse_tcp index slice_to slice_from
segment-parsed = refl

pub tcp_header-ports : (source_port tcp_header ≡ ok 0xc000) × (destination_port tcp_header ≡ ok 80)
unfolding source_port destination_port read_u16 read_array slice
tcp_header-ports = (refl, refl)

abbrev pub udp_header : UdpHeader
udp_header = record { buffer = udp_front }

pub datagram-parsed :
    parse_udp (udp_front ++ (0x01 ∷ 0x02 ∷ [])) ≡ ok (udp_header, 0x01 ∷ 0x02 ∷ [])
unfolding parse_udp slice_to slice_from
datagram-parsed = refl

pub udp_header-ports : (udp_source udp_header ≡ ok 0xc000) × (udp_destination udp_header ≡ ok 53)
unfolding udp_source udp_destination read_u16 read_array slice
udp_header-ports = (refl, refl)
