-- ===== src/Socket/Ring/Block.antt =====
-- A call of `recv_block` of netzer-socket/src/socket.rs: what it gives to the callback, and the ring after it.
use net_zer.Outcome.{◌>>=◌, ok, Outcome, index, index_at, slice, slice_le}
use net_zer.Socket.Ring.Walk.{Chain, deliver, walk-Chain, InBlock, u32_at-returns}
use net_zer.Prelude.{
  ◌<◌, Bytes, ℕ, List, length, ◌+◌, ◌≡◌, ◌≤◌, ◌*◌, All, [], ◌∷◌, IsByte, arith, length-append,
  append_assoc, length-take, ◌++◌, drop, take, append-nil, length-drop, All-append, refl, All-take,
  All-drop, ◌%◌, ◌-◌, sym, ◌∙◌, subst,
}
use net_zer.Socket.Raw.{RingSocket, block_size, block_nr}
use net_zer.Socket.Ring.{
  at_block_status, at_num_pkts, at_first_pkt, u32_at, Poll, Wait, ready, wait_failed, waiting,
  release, Received, blocked, recv_failed, received, take_block, after_wait, recv_block, u16_at,
}
use net_zer.Socket.Ring.Polled.{IsMapping, IsPoll, IsRing, WaitsTo, Mapped, wait_from-WaitsTo}

module _ (base : ℕ) (room : base + block_size ≤ block_size * block_nr) where
  module _ (memory : Bytes) (m : IsMapping memory) where
    abbrev status_at : ℕ
    status_at = base + at_block_status

    abbrev front : Bytes
    front = take status_at memory

    abbrev back : Bytes
    back = drop (status_at + 4) memory

    length-front : length front ≡ status_at
    length-front = omega (arith, length-take status_at memory, m.0)

    release-IsMapping : IsMapping (release memory base)
    unfolding release
    release-IsMapping = (
      omega (
        arith,
        length-append front (0 ∷ 0 ∷ 0 ∷ 0 ∷ back),
        length-front,
        length-drop (status_at + 4) memory,
        m.0,
      ),
      All-append IsByte front (0 ∷ 0 ∷ 0 ∷ 0 ∷ back) (All-take IsByte status_at memory m.1) (
        omega arith,
        (omega arith, (omega arith, (omega arith, All-drop IsByte (status_at + 4) memory m.1))),
      ),
    )

    zero_at :
        (zeros rest : Bytes) (i : ℕ)
        → release memory base ≡ (front ++ zeros) ++ (0 ∷ rest)
        → status_at + length zeros ≡ i
        → index (release memory base) i ≡ ok 0
    zero_at zeros rest i e l =
        index_at (release memory base) (front ++ zeros) 0 rest i e
          (omega (arith, length-append front zeros, length-front, l))

    release-free : u32_at (release memory base) status_at ≡ ok 0
    unfolding u32_at u16_at release
    release-free =
        rw
          (
            zero_at [] (0 ∷ 0 ∷ 0 ∷ back) status_at (simp append-nil) (omega arith),
            zero_at (0 ∷ []) (0 ∷ 0 ∷ back) (status_at + 1)
                (sym (append_assoc front (0 ∷ []) (0 ∷ 0 ∷ 0 ∷ back))) (omega arith),
            zero_at (0 ∷ 0 ∷ []) (0 ∷ back) (status_at + 2)
                (sym (append_assoc front (0 ∷ 0 ∷ []) (0 ∷ 0 ∷ back))) (omega arith),
            zero_at (0 ∷ 0 ∷ 0 ∷ []) back (status_at + 2 + 1)
                (sym (append_assoc front (0 ∷ 0 ∷ 0 ∷ []) (0 ∷ back))) (omega arith),
          )
          refl

InBlock-IsByte :
    (memory : Bytes) (base : ℕ) (frame : Bytes)
    → All IsByte memory
    → base + block_size ≤ length memory
    → InBlock memory base frame
    → All IsByte frame
InBlock-IsByte memory base frame bytes room i =
    let stop : ℕ = i.start + length frame in
    let part : Bytes = take (stop - i.start) (drop i.start memory) in
    let cut : slice memory i.start stop ≡ ok part =
      slice_le memory i.start stop (omega arith) (omega (arith, i.inside)) in
    let e : ok part ≡ ok frame = sym cut ∙ i.bytes_are in
    let same : part ≡ frame = cc in
    subst (All IsByte) same (
      All-take IsByte (stop - i.start) (drop i.start memory) (All-drop IsByte i.start memory bytes))

-- The mapping with zeros in the four bytes of the block's status.
abbrev pub handed_back : Bytes → ℕ → Bytes
handed_back memory base = take (base + 8) memory ++ (0 ∷ 0 ∷ 0 ∷ 0 ∷ drop (base + 8 + 4) memory)

-- What the callback is owed of every frame.
abbrev pub IsFrame : Bytes → Type 0
IsFrame frame = All IsByte frame × (0 < length frame) × (length frame ≤ block_size)

-- What the block of `ring` brings when the wait is over: the frames of its chain, all of them inside the
-- block, and a mapping in which the block is handed back.
abbrev pub Brings : RingSocket → Wait → List Bytes → Type 0
Brings ring (ready memory) frames =
    (num_pkts : ℕ) × (first : ℕ) × (u32_at memory (ring.current_block * block_size + 12)
      ≡ ok num_pkts)
    × (u32_at memory (ring.current_block * block_size + 16) ≡ ok first)
    × Chain memory (ring.current_block * block_size) num_pkts first frames
    × All (InBlock memory (ring.current_block * block_size)) frames
    × All IsFrame frames
    × IsMapping (handed_back memory (ring.current_block * block_size))
    × (u32_at (handed_back memory (ring.current_block * block_size))
          (ring.current_block * block_size + 8)
        ≡ ok 0)
Brings ring other frames = frames ≡ []

abbrev pub next_ring : RingSocket → RingSocket
next_ring ring = record ring { current_block = (ring.current_block + 1) % 8 }

All-IsFrame :
    (memory : Bytes) (base : ℕ) (frames : List Bytes)
    → All IsByte memory
    → base + block_size ≤ length memory
    → All (InBlock memory base) frames
    → All IsFrame frames
All-IsFrame memory base [] bytes room h = tt
All-IsFrame memory base (f ∷ fs) bytes room (i, h) = (
  (InBlock-IsByte memory base f bytes room i, i.not_empty, omega (arith, i.inside, i.from_base)),
  All-IsFrame memory base fs bytes room h,
)

module _ {S : Type 0} (callback : Bytes → S → Outcome S) where
  -- The end of a call whose wait ends with `w` and whose block has these frames.
  abbrev pub end_of_call : RingSocket → Wait → List Bytes → S → Outcome (Received S)
  end_of_call ring (ready memory) frames s = deliver callback frames s >>= λ s'.
      ok (received (next_ring ring) (handed_back memory (ring.current_block * block_size)) s')
  end_of_call ring (wait_failed error) frames s = ok (recv_failed error)
  end_of_call ring waiting frames s = ok blocked

  take_block-Brings :
      (ring : RingSocket) (memory : Bytes)
      → IsRing ring
      → IsMapping memory
      → (frames : List Bytes) × Brings ring (ready memory) frames
        × ((s : S) → take_block callback ring memory s ≡ end_of_call ring (ready memory) frames s)
  unfolding take_block release
  take_block-Brings ring memory w m =
      let base : ℕ = ring.current_block * block_size in
      let room : base + block_size ≤ block_size * block_nr = omega arith in
      let long : base + block_size ≤ length memory = omega (arith, m.0) in
      let (num_pkts, e) = u32_at-returns memory (base + at_num_pkts) (omega (arith, m.0)) in
      let (first, k) = u32_at-returns memory (base + at_first_pkt) (omega (arith, m.0)) in
      let (frames, chain, all, walked) = walk-Chain callback memory base long num_pkts first in
      (
        frames,
        (
          num_pkts,
          first,
          e,
          k,
          chain,
          all,
          All-IsFrame memory base frames m.1 long all,
          release-IsMapping base room memory m,
          release-free base room memory m,
        ),
        λ s. rw (e, k, walked s) refl,
      )

  after_wait-Brings :
      (ring : RingSocket) (w : Wait)
      → IsRing ring
      → Mapped w
      → (frames : List Bytes) × Brings ring w frames
        × ((s : S) → after_wait callback ring s w ≡ end_of_call ring w frames s)
  unfolding after_wait
  after_wait-Brings ring (ready memory) v m = take_block-Brings ring memory v m
  after_wait-Brings ring (wait_failed error) v m = ([], refl, λ s. refl)
  after_wait-Brings ring waiting v m = ([], refl, λ s. refl)

  pub recv_block-Brings :
      (ring : RingSocket) (memory : Bytes) (polls : List Poll)
      → IsRing ring
      → IsMapping memory
      → All IsPoll polls
      → (w : Wait) × (frames : List Bytes) × WaitsTo
          (ring.current_block * block_size)
          memory
          polls
          w
        × Brings ring w frames
        × ((s : S) → recv_block callback ring memory polls s ≡ end_of_call ring w frames s)
  unfolding recv_block
  recv_block-Brings ring memory polls v m p =
      let base : ℕ = ring.current_block * block_size in
      let (w, waits, mapped, e) = wait_from-WaitsTo base (omega arith) memory polls m p in
      let (frames, brings, k) = after_wait-Brings ring w v mapped in
      (w, frames, waits, brings, λ s. rw e (k s))

  -- From a ring whose current block is one of its eight, whatever bytes the system writes into the mapping,
  -- `recv_block` reads nothing outside the mapping and does this: it waits for the first mapping, as it
  -- is and then as it is after each `poll`, in which the block's status has the user's bit. An error
  -- of `poll` before that is returned, and a wait that is longer than the list is still waiting. Then
  -- the callback gets, in order, exactly the frames of the chain of headers in that block, which ends
  -- behind the number of packets that the block says, at a link of 0 or at the block's end; each frame
  -- lies inside the current block and has at least one byte. When the callback has returned from all of
  -- them, the ring is at the next of the eight blocks and the block is handed back with status 0.
  pub recv_block-exact :
      (ring : RingSocket) (memory : Bytes) (polls : List Poll) (s : S)
      → IsRing ring
      → IsMapping memory
      → All IsPoll polls
      → (w : Wait) × (frames : List Bytes) × WaitsTo
          (ring.current_block * block_size)
          memory
          polls
          w
        × Brings ring w frames
        × (recv_block callback ring memory polls s ≡ end_of_call ring w frames s)
  recv_block-exact ring memory polls s v m p =
      let (w, frames, waits, brings, e) = recv_block-Brings ring memory polls v m p in
      (w, frames, waits, brings, e s)
