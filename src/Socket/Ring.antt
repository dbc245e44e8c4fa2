-- ===== src/Socket/Ring.antt =====
-- `recv_block` of `RingSocket` in netzer-socket/src/socket.rs, over the bytes of the mapping. A read
-- outside the mapping, which Rust leaves undefined, is a panic here.
pub mod Walk
pub mod Polled
pub mod Block
use net_zer.Outcome.{Outcome, ok, panic, slice, index, ◌>>=◌}
use net_zer.Prelude.{
  Bool, ℕ, Bytes, List, [], ◌∷◌, ◌++◌, ◌+◌, ◌*◌, ◌%◌, zero, suc, ltb, leb, ◌==◌, ◌&&◌,
  if◌then◌else◌, take, drop, true, false,
}
use net_zer.Socket.Raw.{RingSocket, block_size, block_nr}

-- The little-endian numbers at an address.
unfoldable pub u16_at : Bytes → ℕ → Outcome ℕ
u16_at memory at = do a ← index memory at; b ← index memory (at + 1); ok (a + 256 * b)

unfoldable pub u32_at : Bytes → ℕ → Outcome ℕ
u32_at memory at = do lo ← u16_at memory at; hi ← u16_at memory (at + 2); ok (lo + 65536 * hi)

-- The size of `Tpacket3Hdr`: six words, four halves and 8 bytes.
abbrev pub header_size : ℕ
header_size = 40

-- The offsets of the fields that are read: in `TpacketBlockDesc`, and in `Tpacket3Hdr`.
abbrev pub at_block_status : ℕ
at_block_status = 8

abbrev pub at_num_pkts : ℕ
at_num_pkts = 12

abbrev pub at_first_pkt : ℕ
at_first_pkt = 16

abbrev pub at_next_offset : ℕ
at_next_offset = 0

abbrev pub at_snaplen : ℕ
at_snaplen = 12

abbrev pub at_mac : ℕ
at_mac = 24

module _ {S : Type 0} (callback : Bytes → S → Outcome S) (memory : Bytes) (block_base : ℕ) where
  -- The frame of a header at `pkt_offset`, if it lies inside the block and has a byte.
  unfoldable pub visit : ℕ → S → Outcome S
  visit pkt_offset s = do
    snaplen ← u32_at memory (block_base + pkt_offset + at_snaplen)
    mac_offset ← u16_at memory (block_base + pkt_offset + at_mac)
    let start = block_base + (pkt_offset + mac_offset)
    if leb (pkt_offset + mac_offset + snaplen) block_size && ltb 0 snaplen
        then (slice memory start (start + snaplen) >>= λ frame_data. callback frame_data s)
        else ok s

  -- `for _ in 0..num_pkts`
  unfoldable pub walk : ℕ → ℕ → S → Outcome S
  walk zero pkt_offset s = ok s
  walk (suc n) pkt_offset s = if ltb block_size (pkt_offset + header_size) then ok s else do
    s' ← visit pkt_offset s
    next ← u32_at memory (block_base + pkt_offset + at_next_offset)
    if next == 0 then ok s' else walk n (pkt_offset + next) s'

-- What a call of `poll` comes back with: an error, or the mapping as it is then.
pub data Poll : Type 0 where
  poll_failed : (error : ℕ) → Poll
  polled : (memory : Bytes) → Poll

-- Whether the wait for a block ends, and how; `waiting` is a wait that is longer than the list of calls.
pub data Wait : Type 0 where
  ready : (memory : Bytes) → Wait
  wait_failed : (error : ℕ) → Wait
  waiting : Wait

-- `status & TP_STATUS_USER != 0`
abbrev pub is_user : ℕ → Bool
is_user status = status % 2 == 1

abbrev pub after_poll : Poll → (Bytes → Outcome Wait) → Outcome Wait
after_poll (poll_failed error) go = ok (wait_failed error)
after_poll (polled memory) go = go memory

-- The loop over `poll`.
unfoldable pub wait_from : ℕ → Bytes → List Poll → Outcome Wait
wait_from block_base memory [] = do
  status ← u32_at memory (block_base + at_block_status)
  if is_user status then ok (ready memory) else ok waiting
wait_from block_base memory (poll ∷ more) = do
  status ← u32_at memory (block_base + at_block_status)
  if is_user status
      then ok (ready memory)
      else after_poll poll (λ next. wait_from block_base next more)

-- `write_volatile` of `TP_STATUS_KERNEL`
unfoldable pub release : Bytes → ℕ → Bytes
release memory block_base =
    take (block_base + at_block_status) memory
    ++ (0 ∷ 0 ∷ 0 ∷ 0 ∷ drop (block_base + at_block_status + 4) memory)

-- How a call of `recv_block` ends: it is still waiting, it returns an error and the mapping is as it was,
-- or it has handled a block.
pub data Received (S : Type 0) : Type 0 where
  blocked : Received S
  recv_failed : (error : ℕ) → Received S
  received : (ring : RingSocket) (memory : Bytes) (s : S) → Received S

module _ {S : Type 0} (callback : Bytes → S → Outcome S) where
  unfoldable pub take_block : RingSocket → Bytes → S → Outcome (Received S)
  take_block ring memory s = do
    let block_base = ring.current_block * block_size
    num_pkts ← u32_at memory (block_base + at_num_pkts)
    pkt_offset ← u32_at memory (block_base + at_first_pkt)
    s' ← walk callback memory block_base num_pkts pkt_offset s
    ok (
        received (record ring { current_block = (ring.current_block + 1) % block_nr })
          (release memory block_base) s')

  unfoldable pub after_wait : RingSocket → S → Wait → Outcome (Received S)
  after_wait ring s (ready memory) = take_block ring memory s
  after_wait ring s (wait_failed error) = ok (recv_failed error)
  after_wait ring s waiting = ok blocked

  unfoldable pub recv_block : RingSocket → Bytes → List Poll → S → Outcome (Received S)
  recv_block ring memory polls s =
      wait_from (ring.current_block * block_size) memory polls >>= after_wait ring s
