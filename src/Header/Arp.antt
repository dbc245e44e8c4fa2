-- ===== src/Header/Arp.antt =====
-- netzer-core/src/arp.rs: an ARP packet for Ethernet and IPv4.
pub mod Layout
use net_zer.Prelude.{ℕ, Bytes, if◌then◌else◌, ltb, length}
use net_zer.Header.Ethernet.{MacAddress}
use net_zer.Header.Ipv4.{Ipv4Address}
use net_zer.Outcome.{Outcome, read_u16, err, buffer_too_short, ◌>>=◌, read_array, slice_to, ok}

abbrev pub arp_header_len : ℕ
arp_header_len = 28

pub record ArpPacket : Type 0 where
  pub buffer : Bytes

unfoldable pub parse : Bytes → Outcome ArpPacket
parse buffer =
    if ltb (length buffer) arp_header_len
    then err buffer_too_short
    else do header ← slice_to buffer arp_header_len; ok (record { buffer = header })

unfoldable pub hardware_type : ArpPacket → Outcome ℕ
hardware_type header = read_u16 header.buffer 0 2

unfoldable pub protocol_type : ArpPacket → Outcome ℕ
protocol_type header = read_u16 header.buffer 2 4

unfoldable pub opcode : ArpPacket → Outcome ℕ
opcode header = read_u16 header.buffer 6 8

unfoldable pub sender_mac : ArpPacket → Outcome MacAddress
sender_mac header = do octets ← read_array 6 header.buffer 8 14; ok (record { octets = octets })

unfoldable pub sender_ip : ArpPacket → Outcome Ipv4Address
sender_ip header = do octets ← read_array 4 header.buffer 14 18; ok (record { octets = octets })

unfoldable pub target_mac : ArpPacket → Outcome MacAddress
target_mac header = do octets ← read_array 6 header.buffer 18 24; ok (record { octets = octets })

unfoldable pub target_ip : ArpPacket → Outcome Ipv4Address
target_ip header = do octets ← read_array 4 header.buffer 24 28; ok (record { octets = octets })
