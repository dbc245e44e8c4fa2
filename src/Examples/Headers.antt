-- ===== src/Examples/Headers.antt =====
-- The header parsers on concrete packets.
use net_zer.Outcome.{err, buffer_too_short}
use net_zer.Prelude.{arith, replicate, Bytes, ◌≡◌, ◌∷◌, [], refl, take, some}
use net_zer.Header.Ethernet.Layout.{Parsed as ParsedEthernet, parse_ethernet-Parsed}
use net_zer.Header.Ethernet.{parse as parse_ethernet}
use net_zer.Header.Ipv4.Layout.{Parsed as ParsedIpv4, parse_ipv4-Parsed}
use net_zer.Header.Ipv4.{parse as parse_ipv4}
use net_zer.Header.Ipv6.Layout.{Parsed as ParsedIpv6, parse_ipv6-Parsed}
use net_zer.Header.Ipv6.{ipv6_text, parse as parse_ipv6}
use net_zer.Header.Arp.Layout.{Parsed as ParsedArp, parse_arp-Parsed}
use net_zer.Header.Arp.{parse as parse_arp}
use net_zer.Header.Icmp.Layout.{Parsed as ParsedIcmp, parse_icmp-Parsed}
use net_zer.Header.Icmp.{parse as parse_icmp}
use net_zer.Header.Mac.{mac_text}
use net_zer.Header.Mac.ReadBack.{read_octets, read_octets-mac_text}
use net_zer.Header.Ipv6.ReadBack.{read_groups, read_groups-ipv6_text}
use net_zer.Header.Udp.Layout.{Parsed as ParsedUdp, parse_udp-Parsed}
use net_zer.Header.Udp.{parse as parse_udp}
use net_zer.Header.Tcp.Layout.{Parsed as ParsedTcp, parse_tcp-Parsed}
use net_zer.Header.Tcp.{parse as parse_tcp}

-- The frame of the test in netzer-core/src/ethernet.rs.
abbrev ethernet_bytes : Bytes
ethernet_bytes =
    0x00 ∷ 0x11 ∷ 0x22 ∷ 0x33 ∷ 0x44 ∷ 0x55 ∷ 0xaa ∷ 0xbb ∷ 0xcc ∷ 0xdd ∷ 0xee ∷ 0xff ∷ 0x08 ∷ 0x00
    ∷ 0xde ∷ 0xad ∷ 0xbe ∷ 0xef ∷ []

parse_ethernet-Parsed_example : ParsedEthernet ethernet_bytes (parse_ethernet ethernet_bytes)
parse_ethernet-Parsed_example = parse_ethernet-Parsed ethernet_bytes

-- A header with one word of options.
abbrev ipv4_bytes : Bytes
ipv4_bytes =
    0x46 ∷ 0x00 ∷ 0x00 ∷ 0x1a ∷ 0x00 ∷ 0x01 ∷ 0x00 ∷ 0x00 ∷ 0x40 ∷ 0x06 ∷ 0x00 ∷ 0x00 ∷ 0xc0 ∷ 0xa8
    ∷ 0x01 ∷ 0x0a ∷ 0x08 ∷ 0x08 ∷ 0x08 ∷ 0x08 ∷ 0x01 ∷ 0x01 ∷ 0x01 ∷ 0x00 ∷ 0xde ∷ 0xad ∷ []

parse_ipv4-Parsed_example : ParsedIpv4 ipv4_bytes (parse_ipv4 ipv4_bytes)
parse_ipv4-Parsed_example = parse_ipv4-Parsed ipv4_bytes (ground arith)

-- A neighbour message between two link-local addresses.
abbrev ipv6_bytes : Bytes
ipv6_bytes =
    0x60 ∷ 0x00 ∷ 0x00 ∷ 0x00 ∷ 0x00 ∷ 0x01 ∷ 0x3a ∷ 0xff ∷ 0xfe ∷ 0x80 ∷ 0x00 ∷ 0x00 ∷ 0x00 ∷ 0x00
    ∷ 0x00 ∷ 0x00 ∷ 0x00 ∷ 0x00 ∷ 0x00 ∷ 0x00 ∷ 0x00 ∷ 0x00 ∷ 0x00 ∷ 0x01 ∷ 0xff ∷ 0x02 ∷ 0x00
    ∷ 0x00 ∷ 0x00 ∷ 0x00 ∷ 0x00 ∷ 0x00 ∷ 0x00 ∷ 0x00 ∷ 0x00 ∷ 0x00 ∷ 0x00 ∷ 0x00 ∷ 0x00 ∷ 0x02
    ∷ 0x80 ∷ []

parse_ipv6-Parsed_example : ParsedIpv6 ipv6_bytes (parse_ipv6 ipv6_bytes)
parse_ipv6-Parsed_example = parse_ipv6-Parsed ipv6_bytes

-- A request with two bytes of padding behind it.
abbrev arp_bytes : Bytes
arp_bytes =
    0x00 ∷ 0x01 ∷ 0x08 ∷ 0x00 ∷ 0x06 ∷ 0x04 ∷ 0x00 ∷ 0x01 ∷ 0x01 ∷ 0x02 ∷ 0x03 ∷ 0x04 ∷ 0x05 ∷ 0x06
    ∷ 0x0a ∷ 0x00 ∷ 0x00 ∷ 0x01 ∷ 0x00 ∷ 0x00 ∷ 0x00 ∷ 0x00 ∷ 0x00 ∷ 0x00 ∷ 0x0a ∷ 0x00 ∷ 0x00
    ∷ 0x02 ∷ 0x00 ∷ 0x00 ∷ []

parse_arp-Parsed_example : ParsedArp arp_bytes (parse_arp arp_bytes)
parse_arp-Parsed_example = parse_arp-Parsed arp_bytes

-- An echo request.
abbrev icmp_bytes : Bytes
icmp_bytes = 0x08 ∷ 0x00 ∷ 0x00 ∷ 0x00 ∷ 0x00 ∷ 0x01 ∷ 0x00 ∷ 0x01 ∷ 0x61 ∷ []

parse_icmp-Parsed_example : ParsedIcmp icmp_bytes (parse_icmp icmp_bytes)
parse_icmp-Parsed_example = parse_icmp-Parsed icmp_bytes

-- A datagram to port 53.
abbrev udp_bytes : Bytes
udp_bytes = 0x30 ∷ 0x39 ∷ 0x00 ∷ 0x35 ∷ 0x00 ∷ 0x09 ∷ 0x00 ∷ 0x00 ∷ 0xab ∷ []

parse_udp-Parsed_example : ParsedUdp udp_bytes (parse_udp udp_bytes)
parse_udp-Parsed_example = parse_udp-Parsed udp_bytes

-- A segment to port 80.
abbrev tcp_bytes : Bytes
tcp_bytes =
    0x1f ∷ 0x90 ∷ 0x00 ∷ 0x50 ∷ 0x00 ∷ 0x00 ∷ 0x00 ∷ 0x00 ∷ 0x00 ∷ 0x00 ∷ 0x00 ∷ 0x00 ∷ 0x50 ∷ 0x18
    ∷ 0x01 ∷ 0x00 ∷ 0x00 ∷ 0x00 ∷ 0x00 ∷ 0x00 ∷ 0x47 ∷ 0x45 ∷ []

parse_tcp-Parsed_example : ParsedTcp tcp_bytes (parse_tcp tcp_bytes)
parse_tcp-Parsed_example = parse_tcp-Parsed tcp_bytes

short_frame : parse_ethernet (replicate 10 0) ≡ err buffer_too_short
unfolding parse_ethernet
short_frame = refl

read_octets-mac_text_example :
    read_octets (mac_text (record { octets = take 6 ethernet_bytes }))
    ≡ some (take 6 ethernet_bytes)
read_octets-mac_text_example =
    read_octets-mac_text (record { octets = take 6 ethernet_bytes }) refl (ground arith)

read_groups-ipv6_text_example :
    read_groups (ipv6_text (record { octets = take 16 ipv6_bytes })) ≡ some (take 16 ipv6_bytes)
read_groups-ipv6_text_example =
    read_groups-ipv6_text (record { octets = take 16 ipv6_bytes }) refl (ground arith)
