-- ===== src/Header/Ipv4.antt =====
-- netzer-core/src/ipv4.rs: the IPv4 header with its options.
pub mod Layout
pub mod ReadBack
use net_zer.Prelude.{ℕ, Bytes, if◌then◌else◌, ltb, length, bit_and, ◌*◌, ◌||◌, ◌∷◌, [], ◌++◌}
use net_zer.Text.Decimal.{decimal}
use net_zer.Outcome.{
  Outcome, index, err, buffer_too_short, ◌>>=◌, read_array, ok, invalid_format, slice_to,
  slice_from,
}

pub record Ipv4Address : Type 0 where
  pub octets : Bytes

abbrev pub ipv4_header_min_len : ℕ
ipv4_header_min_len = 20

pub record Ipv4Header : Type 0 where
  pub buffer : Bytes

unfoldable pub parse : Bytes → Outcome (Ipv4Header × Bytes)
parse buffer = if ltb (length buffer) ipv4_header_min_len then err buffer_too_short else do
  first ← index buffer 0
  let ihl = bit_and first 0x0F
  let header_len = ihl * 4
  if ltb (length buffer) header_len || ltb header_len ipv4_header_min_len
      then err invalid_format
      else do
        header ← slice_to buffer header_len
        payload ← slice_from buffer header_len
        ok (record { buffer = header }, payload)

unfoldable pub source : Ipv4Header → Outcome Ipv4Address
source header = do octets ← read_array 4 header.buffer 12 16; ok (record { octets = octets })

unfoldable pub destination : Ipv4Header → Outcome Ipv4Address
destination header = do octets ← read_array 4 header.buffer 16 20; ok (record { octets = octets })

unfoldable pub protocol : Ipv4Header → Outcome ℕ
protocol header = index header.buffer 9

-- The octets in decimal, a dot between two of them.
unfoldable pub dot_separated : Bytes → Bytes
dot_separated [] = []
dot_separated (b ∷ []) = decimal b
dot_separated (b ∷ c ∷ bs) = decimal b ++ (b'.' ∷ dot_separated (c ∷ bs))

-- `Display`, of an address of 4 octets.
unfoldable pub ipv4_text : Ipv4Address → Bytes
ipv4_text address = dot_separated address.octets
