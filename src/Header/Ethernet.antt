-- ===== src/Header/Ethernet.antt =====
-- netzer-core/src/ethernet.rs and the address of mac.rs.
pub mod Layout
use net_zer.Prelude.{ℕ, Bytes, ltb, ◌==◌, if◌then◌else◌, length}
use net_zer.Outcome.{
  Outcome, ok, err, buffer_too_short, ◌>>=◌, slice_to, slice_from, read_array, read_u16,
}

pub record MacAddress : Type 0 where
  pub octets : Bytes

abbrev pub ethernet_header_len : ℕ
ethernet_header_len = 14

pub data EtherType : Type 0 where
  ipv4 ipv6 arp : EtherType
  other : ℕ → EtherType

-- `EtherType::from(u16)`
unfoldable pub from_u16 : ℕ → EtherType
from_u16 val =
    if val == 0x0800
    then ipv4
    else if val == 0x0806
    then arp
    else if val == 0x86DD
    then ipv6
    else other val

pub record EthernetFrame : Type 0 where
  pub buffer : Bytes

unfoldable pub parse : Bytes → Outcome (EthernetFrame × Bytes)
parse buffer = if ltb (length buffer) ethernet_header_len then err buffer_too_short else do
  header ← slice_to buffer ethernet_header_len
  payload ← slice_from buffer ethernet_header_len
  ok (record { buffer = header }, payload)

unfoldable pub destination : EthernetFrame → Outcome MacAddress
destination frame = do mac ← read_array 6 frame.buffer 0 6; ok (record { octets = mac })

unfoldable pub source : EthernetFrame → Outcome MacAddress
source frame = do mac ← read_array 6 frame.buffer 6 12; ok (record { octets = mac })

unfoldable pub ethertype : EthernetFrame → Outcome EtherType
ethertype frame = do val ← read_u16 frame.buffer 12 14; ok (from_u16 val)
