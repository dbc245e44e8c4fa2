-- ===== src/Socket/Raw.antt =====
-- `RawSocket` of netzer-socket/src/socket.rs, and the opening of its `RingSocket`.
pub mod Held
use net_zer.Prelude.{
  ℕ, Bytes, List, Option, Bool, none, some, [], ◌∷◌, ◌++◌, ◌+◌, ◌-◌, ◌*◌, ◌/◌, ◌%◌, ◌^◌, length,
  take, replicate, ltb, ◌==◌, ◌||◌, if◌then◌else◌, false, ascii,
}
use net_zer.Socket.Filter.{SockFilter, filter_port, filter_proto}
use net_zer.Socket.System.{
  Sys, done, returns, failed, gives, fails, Reply, nul_in_name, invalid_input, checked, step,
  open_socket, get_index, bind, set_filter, set_version, set_ring, map_ring, unmap_ring, receive,
  close, TpacketReq, after_all,
}

-- Whether `CString::new` refuses the text.
unfoldable pub has_nul : Bytes → Bool
has_nul [] = false
has_nul (b ∷ bs) = b == 0 || has_nul bs

-- The 16 bytes of `ifr_name`: the name and the zero behind it, over zeros, as far as they fit.
unfoldable pub ifr_name : Bytes → Bytes
ifr_name name = take 16 (name ++ replicate 16 0)

-- A `RawSocket` is its descriptor.
unfoldable pub raw_new : Bytes → Sys ℕ
raw_new interface_name = checked (open_socket 17 3 0x0300) [] λ fd.
    if has_nul interface_name
    then done (failed nul_in_name)
    else if ltb 16 (length interface_name + 1)
    then done (failed (invalid_input (ascii "Interface name too long")))
    else checked (get_index fd (ifr_name interface_name)) (close fd ∷ [])
        λ index. checked (bind fd 17 0x0300 index) (close fd ∷ []) λ bound. done (returns fd)

unfoldable pub recv : ℕ → ℕ → Sys ℕ
recv fd size = checked (receive fd size) [] λ res. done (returns res)

-- The last lines of both `attach_filter_` functions; `len` is a `u16`.
unfoldable pub attach : ℕ → List SockFilter → Sys Unit
attach fd filter =
    checked (set_filter fd (length filter % 2 ^ 16) filter) [] λ res. done (returns tt)

unfoldable pub attach_filter_port : ℕ → ℕ → Sys Unit
attach_filter_port fd port = attach fd (filter_port port)

-- The `match` with its error, then the last lines.
unfoldable pub attach_program : ℕ → Option (List SockFilter) → Sys Unit
attach_program fd none = done (failed (invalid_input (ascii "Unsupported protocol for BPF")))
attach_program fd (some filter) = attach fd filter

unfoldable pub attach_filter_proto : (lower : Bytes → Bytes) → ℕ → Bytes → Sys Unit
attach_filter_proto lower fd proto = attach_program fd (filter_proto lower proto)

-- `Drop for RawSocket`
unfoldable pub raw_drop : ℕ → Sys Unit
raw_drop fd = after_all (close fd ∷ []) (done (returns tt))

abbrev pub block_size : ℕ
block_size = 2 ^ 22

abbrev pub block_nr : ℕ
block_nr = 8

abbrev pub frame_size : ℕ
frame_size = 2 ^ 11

abbrev pub block_timeout_ms : ℕ
block_timeout_ms = 10

pub record RingSocket : Type 0 where
  pub fd : ℕ
  pub ring_ptr : ℕ
  pub ring_size : ℕ
  pub current_block : ℕ

abbrev pub geometry : TpacketReq
geometry = record {
  tp_block_size = block_size;
  tp_block_nr = block_nr;
  tp_frame_size = frame_size;
  tp_frame_nr = block_size / frame_size * block_nr;
  tp_retire_blk_tov = block_timeout_ms;
  tp_sizeof_priv = 0;
  tp_feature_req_word = 0;
}

-- What `ifr_ifru` holds after a call whose result is not looked at: a call that fails leaves the 0.
unfoldable pub index_or_zero : Reply → ℕ
index_or_zero (gives index) = index
index_or_zero (fails e) = 0

unfoldable pub ring_new : Bytes → Sys RingSocket
ring_new interface_name = checked (open_socket 17 3 0x0300) [] λ fd.
    checked (set_version fd 2) (close fd ∷ []) λ versioned.
      checked (set_ring fd geometry) (close fd ∷ []) λ sized.
        checked (map_ring fd (block_size * block_nr)) (close fd ∷ []) λ ring_ptr.
          if has_nul interface_name
          then done (failed nul_in_name)
          else step (get_index fd (ifr_name interface_name)) λ reply.
            checked (bind fd 17 0x0300 (index_or_zero reply))
              (unmap_ring ring_ptr (block_size * block_nr) ∷ close fd ∷ [])
              λ bound. done (
                returns (record {
                  fd = fd;
                  ring_ptr = ring_ptr;
                  ring_size = block_size * block_nr;
                  current_block = 0;
                }))

-- `Drop for RingSocket`
unfoldable pub ring_drop : RingSocket → Sys Unit
ring_drop ring =
    after_all (unmap_ring ring.ring_ptr ring.ring_size ∷ close ring.fd ∷ []) (done (returns tt))
