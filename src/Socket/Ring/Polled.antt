-- ===== src/Socket/Ring/Polled.antt =====
-- The wait of `recv_block` of netzer-socket/src/socket.rs for a block that is the user's.
use net_zer.Prelude.{
  ◌≢◌, ==_iff, ◌<◌, Bytes, ℕ, List, length, ◌+◌, ◌≡◌, ◌≤◌, ◌*◌, All, [], ◌∷◌, IsByte, arith,
  if◌then◌else◌, Bool-cases, inl, inr, refl, ◌%◌, ◌∙◌,
}
use net_zer.Outcome.{ok, Outcome}
use net_zer.Socket.Raw.{RingSocket, block_size, block_nr}
use net_zer.Socket.Ring.{
  at_block_status, u32_at, Poll, poll_failed, polled, Wait, ready, wait_failed, waiting, is_user,
  wait_from,
}
use net_zer.Socket.Ring.Walk.{u32_at-returns}

-- The mapping has the size of the ring and holds bytes.
abbrev pub IsMapping : Bytes → Type 0
IsMapping memory = (length memory ≡ block_size * block_nr) × All IsByte memory

abbrev pub IsPoll : Poll → Type 0
IsPoll (poll_failed error) = Unit
IsPoll (polled memory) = IsMapping memory

-- The current block is one of the ring's.
abbrev pub IsRing : RingSocket → Type 0
IsRing ring = ring.current_block < block_nr

-- The wait at the block at `base`: the mapping as it is, and then as it is after each call of `poll`, up
-- to one in which the block is the user's, or an error.
pub data WaitsTo (base : ℕ) : Bytes → List Poll → Wait → Type 0 where
  at_once :
      (memory : Bytes) (polls : List Poll) (status : ℕ)
      → u32_at memory (base + 8) ≡ ok status
      → status % 2 ≡ 1
      → WaitsTo base memory polls (ready memory)
  no_poll_left :
      (memory : Bytes) (status : ℕ)
      → u32_at memory (base + 8) ≡ ok status
      → status % 2 ≢ 1
      → WaitsTo base memory [] waiting
  on_error :
      (memory : Bytes) (error : ℕ) (more : List Poll) (status : ℕ)
      → u32_at memory (base + 8) ≡ ok status
      → status % 2 ≢ 1
      → WaitsTo base memory (poll_failed error ∷ more) (wait_failed error)
  once_more :
      (memory next : Bytes) (more : List Poll) (w : Wait) (status : ℕ)
      → u32_at memory (base + 8) ≡ ok status
      → status % 2 ≢ 1
      → WaitsTo base next more w
      → WaitsTo base memory (polled next ∷ more) w

abbrev pub Mapped : Wait → Type 0
Mapped (ready m) = IsMapping m
Mapped other = Unit

module _ (base : ℕ) (room : base + block_size ≤ block_size * block_nr) where
  abbrev pub WaitEnd : Bytes → List Poll → Type 0
  WaitEnd memory polls =
      (w : Wait) × WaitsTo base memory polls w × Mapped w × (wait_from base memory polls ≡ ok w)

  status_at-returns :
      (memory : Bytes)
      → IsMapping memory
      → (status : ℕ) × (u32_at memory (base + at_block_status) ≡ ok status)
  status_at-returns memory m = u32_at-returns memory (base + at_block_status) (omega (arith, m.0))

  user_or :
      (memory : Bytes) (polls : List Poll) (status : ℕ) (other : Outcome Wait)
      → IsMapping memory
      → u32_at memory (base + at_block_status) ≡ ok status
      → wait_from base memory polls ≡ (if is_user status then ok (ready memory) else other)
      → (status % 2 ≢ 1 → (w : Wait) × WaitsTo base memory polls w × Mapped w × (other ≡ ok w))
      → WaitEnd memory polls
  user_or memory polls status other m e k h = elim (Bool-cases (is_user status)) [
    | inl user ↦ (
      ready memory,
      at_once memory polls status e ((==_iff (status % 2) 1).0 user),
      m,
      k ∙ rw user refl,
    )
    | inr kernel ↦
        let (w, waits, mapped, l) = h (ground (arith, kernel)) in
        (w, waits, mapped, k ∙ rw kernel l)
  ]

  pub wait_from-WaitsTo :
      (memory : Bytes) (polls : List Poll)
      → IsMapping memory
      → All IsPoll polls
      → WaitEnd memory polls
  unfolding wait_from
  wait_from-WaitsTo memory [] m h =
      let (status, e) = status_at-returns memory m in
      user_or memory [] status (ok waiting) m e (rw e refl)
        (λ kernel. (waiting, no_poll_left memory status e kernel, tt, refl))
  wait_from-WaitsTo memory (poll_failed error ∷ more) m h =
      let (status, e) = status_at-returns memory m in
      user_or memory (poll_failed error ∷ more) status (ok (wait_failed error)) m e (rw e refl)
        (λ kernel. (wait_failed error, on_error memory error more status e kernel, tt, refl))
  wait_from-WaitsTo memory (polled next ∷ more) m (p, h) =
      let (status, e) = status_at-returns memory m in
      let (w, waits, mapped, k) = wait_from-WaitsTo next more p h in
      user_or memory (polled next ∷ more) status (wait_from base next more) m e (rw e refl)
        (λ kernel. (w, once_more memory next more w status e kernel waits, mapped, k))
