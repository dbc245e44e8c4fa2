-- ===== src/Cli/Capture/Loop.antt =====
-- The capture loop of netzer-cli/src/main.rs that calls `recv_block`, and the frames that its calls bring.
use net_zer.Prelude.{
  ℕ, Bytes, All, List, length, ◌<◌, Bool, ◌∷◌, ◌≡◌, ◌^◌, [], ◌++◌, ◌+◌, arith, All-append, refl,
  sym, ◌∙◌, ◌*◌,
}
use net_zer.Outcome.{Outcome, ok, ◌>>=◌, err, panic, diverge}
use net_zer.Report.Pcap.ReadBack.{PcapPacket}
use net_zer.Socket.Raw.{RingSocket, block_size}
use net_zer.Socket.Ring.{
  Poll, Received, blocked, recv_failed, received, recv_block, Wait, ready, waiting, wait_failed,
}
use net_zer.Socket.Ring.Polled.{IsMapping, IsPoll, IsRing, WaitsTo}
use net_zer.Socket.Ring.Block.{
  Brings, IsFrame, next_ring, end_of_call, handed_back, recv_block-Brings,
}
use net_zer.Socket.Ring.Walk.{deliver, deliver-append}
use net_zer.Cli.Line.{Style, Session}
use net_zer.Cli.Process.{Clock, process_packet}
use net_zer.Cli.Captured.{as_written}

-- A session, and how many frames it has had: the clock of the next is the one at that number.
pub record Progress : Type 0 where
  pub seen : ℕ
  pub session : Session

-- A call of `recv_block`: the mapping as it is then, and what its calls of `poll` come back with.
pub record RecvCall : Type 0 where
  pub memory : Bytes
  pub polls : List Poll

module _ (paint : Style → Bytes → Bytes) (show_hexdump : Bool) (now : ℕ → Clock) where
  -- The closure that `main` hands to `recv_block`.
  unfoldable pub on_frame : Bytes → Progress → Outcome Progress
  on_frame frame p = do
    session ← process_packet paint show_hexdump (now p.seen) frame (length frame) p.session
    ok (record { seen = p.seen + 1; session = session })

  -- What the loop goes on with.
  abbrev after_call :
      Received Progress
      → RingSocket
      → Progress
      → (RingSocket → Progress → Outcome Progress)
      → Outcome Progress
  after_call blocked ring p go = ok p
  after_call (recv_failed error) ring p go = go ring p
  after_call (received ring' memory p') ring p go = go ring' p'

  -- The loop, over the calls that it makes; a call that does not come back is the last. The line about
  -- an error goes to the standard error.
  unfoldable pub capture_ring : List RecvCall → RingSocket → Progress → Outcome Progress
  capture_ring [] ring p = ok p
  capture_ring (call ∷ more) ring p = do
    end ← recv_block on_frame ring call.memory call.polls p
    after_call end ring p (capture_ring more)

-- What the system does in a call: the mapping keeps its size and holds bytes.
abbrev pub IsCall : RecvCall → Type 0
IsCall call = IsMapping call.memory × All IsPoll call.polls

-- A clock of 32 bits.
abbrev pub IsClock : (ℕ → Clock) → Type 0
IsClock now = (n : ℕ) → ((now n).secs < 2 ^ 32) × ((now n).micros < 2 ^ 32)

-- The frames that a list of calls brings, from a ring on: those of each block, in order. A call that
-- is still waiting is the last.
pub data Heard : RingSocket → List RecvCall → List Bytes → Type 0 where
  no_calls : (ring : RingSocket) → Heard ring [] []
  still_waiting :
      (ring : RingSocket) (call : RecvCall) (more : List RecvCall)
      → WaitsTo (ring.current_block * block_size) call.memory call.polls waiting
      → Heard ring (call ∷ more) []
  poll_error :
      (ring : RingSocket) (call : RecvCall) (more : List RecvCall) (frames : List Bytes) (error : ℕ)
      → WaitsTo (ring.current_block * block_size) call.memory call.polls (wait_failed error)
      → Heard ring more frames
      → Heard ring (call ∷ more) frames
  block :
      (ring : RingSocket) (call : RecvCall) (more : List RecvCall) (memory : Bytes)
      (frames rest : List Bytes)
      → WaitsTo (ring.current_block * block_size) call.memory call.polls (ready memory)
      → Brings ring (ready memory) frames
      → Heard (next_ring ring) more rest
      → Heard ring (call ∷ more) (frames ++ rest)

-- The frames as they are in the pcap file, with the clock of each: the first is number `n`.
abbrev pub stamped : (ℕ → Clock) → ℕ → List Bytes → List PcapPacket
stamped now n [] = []
stamped now n (frame ∷ frames) = as_written (now n) frame ∷ stamped now (n + 1) frames

bind-end :
    {A B C : Type 0} (m : Outcome A) (f : A → B) (g : B → Outcome C) (h : A → Outcome C)
    → ((a : A) → g (f a) ≡ h a)
    → ((m >>= λ a. ok (f a)) >>= g) ≡ (m >>= h)
bind-end (ok a) f g h e = e a
bind-end (err e) f g h k = refl
bind-end panic f g h k = refl
bind-end diverge f g h k = refl

module _ (paint : Style → Bytes → Bytes) (show_hexdump : Bool) (now : ℕ → Clock) where
  -- The loop is the closure on the frames that the calls bring.
  unfoldable pub Delivers : RingSocket → List RecvCall → Type 0
  Delivers ring calls =
      (frames : List Bytes) × Heard ring calls frames
      × All IsFrame frames
      × ((p : Progress)
          → capture_ring paint show_hexdump now calls ring p
            ≡ deliver (on_frame paint show_hexdump now) frames p)

  call-Delivers :
      (call : RecvCall) (more : List RecvCall) (ring : RingSocket) (w : Wait) (frames : List Bytes)
      → WaitsTo (ring.current_block * block_size) call.memory call.polls w
      → Brings ring w frames
      → ((p : Progress)
          → recv_block (on_frame paint show_hexdump now) ring call.memory call.polls p
            ≡ end_of_call (on_frame paint show_hexdump now) ring w frames p)
      → Delivers ring more
      → Delivers (next_ring ring) more
      → Delivers ring (call ∷ more)
  unfolding Delivers capture_ring
  call-Delivers call more ring waiting frames waits b e same moved =
      ([], still_waiting ring call more waits, tt, λ p. rw (e p) refl)
  call-Delivers call more ring (wait_failed error) frames waits b e (rest, heard, all, k) moved =
      (rest, poll_error ring call more rest error waits heard, all, λ p. rw (e p) (k p))
  call-Delivers call more ring (ready memory) frames waits b e same (rest, heard, all, k) =
      let on = on_frame paint show_hexdump now in
      let (num_pkts, first, e1, e2, chain, inside, good, mapping, free) = b in
      (
        frames ++ rest,
        block ring call more memory frames rest waits b heard,
        All-append IsFrame frames rest good all,
        λ p. rw (e p) (
            bind-end (deliver on frames p)
              (λ p'.
                received (next_ring ring) (handed_back memory (ring.current_block * block_size)) p')
              _ (deliver on rest) k
            ∙ sym (deliver-append on frames rest p)),
      )

  pub calls-Delivers :
      (calls : List RecvCall) (ring : RingSocket)
      → All IsCall calls
      → IsRing ring
      → Delivers ring calls
  unfolding Delivers capture_ring
  calls-Delivers [] ring h v = ([], no_calls ring, tt, λ p. refl)
  calls-Delivers (call ∷ more) ring (h, hs) v =
      let (w, frames, waits, brings, e) =
        recv_block-Brings (on_frame paint show_hexdump now) ring call.memory call.polls v h.0 h.1 in
      call-Delivers call more ring w frames waits brings e (calls-Delivers more ring hs v)
        (calls-Delivers more (next_ring ring) hs (omega arith))
