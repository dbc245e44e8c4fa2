-- ===== src/Header/Ipv6.antt =====
-- netzer-core/src/ipv6.rs: the fixed IPv6 header.
pub mod Layout
pub mod ReadBack
use net_zer.Prelude.{ℕ, Bytes, if◌then◌else◌, ltb, length, ◌∷◌, [], ◌++◌}
use net_zer.Report.{hex2}
use net_zer.Outcome.{
  Outcome, index, err, buffer_too_short, ◌>>=◌, slice_to, read_array, ok, slice_from,
}

pub record Ipv6Address : Type 0 where
  pub octets : Bytes

abbrev pub ipv6_header_len : ℕ
ipv6_header_len = 40

pub record Ipv6Header : Type 0 where
  pub buffer : Bytes

unfoldable pub parse : Bytes → Outcome (Ipv6Header × Bytes)
parse buffer = if ltb (length buffer) ipv6_header_len then err buffer_too_short else do
  header ← slice_to buffer ipv6_header_len
  payload ← slice_from buffer ipv6_header_len
  ok (record { buffer = header }, payload)

unfoldable pub source : Ipv6Header → Outcome Ipv6Address
source header = do octets ← read_array 16 header.buffer 8 24; ok (record { octets = octets })

unfoldable pub destination : Ipv6Header → Outcome Ipv6Address
destination header = do octets ← read_array 16 header.buffer 24 40; ok (record { octets = octets })

unfoldable pub next_header : Ipv6Header → Outcome ℕ
next_header header = index header.buffer 6

-- Two octets in hexadecimal for each group, a colon between two groups.
unfoldable pub colon_groups : Bytes → Bytes
colon_groups (a ∷ b ∷ []) = hex2 a ++ hex2 b
colon_groups (a ∷ b ∷ c ∷ rest) = (hex2 a ++ hex2 b) ++ (b':' ∷ colon_groups (c ∷ rest))
colon_groups _ = []

-- `Display`, of an address of 16 octets.
unfoldable pub ipv6_text : Ipv6Address → Bytes
ipv6_text address = colon_groups address.octets
