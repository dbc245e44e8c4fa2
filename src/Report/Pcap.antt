-- ===== src/Report/Pcap.antt =====
-- `PcapWriter` of netzer-cli/src/main.rs: the file that it writes, as the bytes that are in it. The
-- clock is the caller's, and the native byte order is the little-endian one.
pub mod ReadBack
use net_zer.Prelude.{ℕ, ◌++◌, Bytes, replicate, ◌%◌, [], ◌^◌, suc, length, ◌∷◌, ◌/◌, zero}

-- `to_ne_bytes` of a word of `w` bytes.
unfoldable pub to_ne_bytes : ℕ → ℕ → Bytes
to_ne_bytes zero n = []
to_ne_bytes (suc w) n = (n % 256) ∷ to_ne_bytes w (n / 256)

pub record PcapWriter : Type 0 where
  pub file : Bytes

-- The 24 bytes of the header; those at 8 to 15 stay 0.
unfoldable pub create : PcapWriter
create = record {
  file =
      to_ne_bytes 4 0xa1b2c3d4
      ++ to_ne_bytes 2 2
      ++ to_ne_bytes 2 4
      ++ replicate 8 0
      ++ to_ne_bytes 4 65535
      ++ to_ne_bytes 4 1;
}

-- `as_secs() as u32`, `subsec_micros() as u32` and `len() as u32`, then the packet.
unfoldable pub write_packet : ℕ → ℕ → Bytes → PcapWriter → PcapWriter
write_packet secs micros packet writer =
    let sec = secs % 2 ^ 32 in
    let usec = micros % 2 ^ 32 in
    let len = length packet % 2 ^ 32 in
    record {
      file =
          writer.file
          ++ (to_ne_bytes 4 sec ++ to_ne_bytes 4 usec ++ to_ne_bytes 4 len ++ to_ne_bytes 4 len)
          ++ packet;
    }
