-- ===== src/Header/Icmp.antt =====
-- netzer-core/src/icmp.rs: the ICMP and ICMPv6 header.
pub mod Layout
use net_zer.Prelude.{Bytes, ℕ, if◌then◌else◌, ltb, length}
use net_zer.Outcome.{Outcome, index, err, buffer_too_short, ◌>>=◌, slice_to, slice_from, ok}

abbrev pub icmp_header_len : ℕ
icmp_header_len = 8

pub record IcmpHeader : Type 0 where
  pub buffer : Bytes

unfoldable pub parse : Bytes → Outcome (IcmpHeader × Bytes)
parse buffer = if ltb (length buffer) icmp_header_len then err buffer_too_short else do
  header ← slice_to buffer icmp_header_len
  payload ← slice_from buffer icmp_header_len
  ok (record { buffer = header }, payload)

unfoldable pub icmp_type : IcmpHeader → Outcome ℕ
icmp_type header = index header.buffer 0

unfoldable pub code : IcmpHeader → Outcome ℕ
code header = index header.buffer 1
