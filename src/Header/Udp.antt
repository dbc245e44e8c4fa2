-- ===== src/Header/Udp.antt =====
-- netzer-core/src/udp.rs: the UDP header.
pub mod Layout
use net_zer.Prelude.{Bytes, ℕ, if◌then◌else◌, ltb, length}
use net_zer.Outcome.{Outcome, read_u16, err, buffer_too_short, ◌>>=◌, slice_to, slice_from, ok}

abbrev pub udp_header_len : ℕ
udp_header_len = 8

pub record UdpHeader : Type 0 where
  pub buffer : Bytes

unfoldable pub parse : Bytes → Outcome (UdpHeader × Bytes)
parse buffer = if ltb (length buffer) udp_header_len then err buffer_too_short else do
  header ← slice_to buffer udp_header_len
  payload ← slice_from buffer udp_header_len
  ok (record { buffer = header }, payload)

unfoldable pub source_port : UdpHeader → Outcome ℕ
source_port header = read_u16 header.buffer 0 2

unfoldable pub destination_port : UdpHeader → Outcome ℕ
destination_port header = read_u16 header.buffer 2 4
