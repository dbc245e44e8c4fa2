-- ===== src/Header/Tcp.antt =====
-- netzer-core/src/tcp.rs: the TCP header with its options.
pub mod Layout
use net_zer.Prelude.{Bytes, ℕ, if◌then◌else◌, ltb, length, ◌/◌, ◌^◌, ◌*◌, ◌||◌}
use net_zer.Outcome.{
  Outcome, read_u16, err, buffer_too_short, ◌>>=◌, index, invalid_format, slice_to, slice_from, ok,
}

abbrev pub tcp_header_min_len : ℕ
tcp_header_min_len = 20

pub record TcpHeader : Type 0 where
  pub buffer : Bytes

unfoldable pub parse : Bytes → Outcome (TcpHeader × Bytes)
parse buffer = if ltb (length buffer) tcp_header_min_len then err buffer_too_short else do
  byte ← index buffer 12
  let data_offset = byte / 2 ^ 4
  let header_len = data_offset * 4
  if ltb (length buffer) header_len || ltb header_len tcp_header_min_len
      then err invalid_format
      else do
        header ← slice_to buffer header_len
        payload ← slice_from buffer header_len
        ok (record { buffer = header }, payload)

unfoldable pub source_port : TcpHeader → Outcome ℕ
source_port header = read_u16 header.buffer 0 2

unfoldable pub destination_port : TcpHeader → Outcome ℕ
destination_port header = read_u16 header.buffer 2 4
