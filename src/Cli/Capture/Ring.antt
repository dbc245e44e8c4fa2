-- ===== src/Cli/Capture/Ring.antt =====
-- What the capture loop of netzer-cli/src/main.rs that calls `recv_block` leaves.
use net_zer.Prelude.{
  ℕ, Bytes, All, List, length, Bool, ◌∷◌, ◌≡◌, IsByte, [], ◌+◌, arith, inl, inr, subst,
}
use net_zer.Outcome.{Ends, Ends-bind, Ends-map, Ends-weaken}
use net_zer.Report.{to_hex_string}
use net_zer.Report.Pcap.ReadBack.{PcapPacket, Fits}
use net_zer.Socket.Raw.{RingSocket}
use net_zer.Socket.Ring.Polled.{IsRing}
use net_zer.Socket.Ring.Block.{IsFrame}
use net_zer.Socket.Ring.Walk.{deliver}
use net_zer.Cli.Line.{Style, Session}
use net_zer.Cli.Args.{Args, open_session}
use net_zer.Cli.Process.{Clock}
use net_zer.Cli.Processed.{Processed, FrameTrigger}
use net_zer.Cli.Processed.Frame.{process_packet-Ends}
use net_zer.Cli.Captured.{
  Captured, Captured-refl, Captured-trans, as_written, Processed-Captured, TriggerIn,
}
use net_zer.Cli.Capture.Run.{Left, Captured-Left}
use net_zer.Cli.Capture.Loop.{
  Progress, RecvCall, on_frame, capture_ring, IsCall, IsClock, Heard, stamped, Delivers,
  calls-Delivers,
}

module _ (paint : Style → Bytes → Bytes) (show_hexdump : Bool) (now : ℕ → Clock) where
  -- From number `n` on, the session is what the frames leave.
  abbrev After : ℕ → List Bytes → Session → Progress → Type 0
  After n frames s p = (p.seen ≡ n + length frames) × Captured (stamped now n frames) s p.session

  on_frame-After :
      (frame : Bytes) (p : Progress)
      → All IsByte frame
      → Ends
          (After p.seen (frame ∷ []) p.session)
          (FrameTrigger frame)
          (on_frame paint show_hexdump now frame p)
  unfolding on_frame
  on_frame-After frame p bytes =
      let P =
        Processed paint show_hexdump (now p.seen) frame (length frame) (to_hex_string frame)
          p.session in
      Ends-bind P (After p.seen (frame ∷ []) p.session) (FrameTrigger frame) _ _
        (process_packet-Ends paint show_hexdump (now p.seen) (length frame) p.session frame bytes)
        (λ t d. (
          omega arith,
          Processed-Captured paint show_hexdump (now p.seen) frame (length frame) _ p.session t d,
        ))

  deliver-After :
      (frames : List Bytes) (p : Progress)
      → All IsFrame frames
      → Ends
          (After p.seen frames p.session)
          (TriggerIn (stamped now p.seen frames))
          (deliver (on_frame paint show_hexdump now) frames p)
  deliver-After [] p h = (omega arith, Captured-refl p.session)
  deliver-After (frame ∷ frames) p (h, hs) =
      let T : Type 0 = TriggerIn (stamped now p.seen (frame ∷ frames)) in
      let on = on_frame paint show_hexdump now in
      Ends-bind (After p.seen (frame ∷ []) p.session) (After p.seen (frame ∷ frames) p.session) T _
        _
        (Ends-weaken (After p.seen (frame ∷ []) p.session) (FrameTrigger frame) T _ inl
          (on_frame-After frame p h.0))
        (λ p' (l, c).
          let next : p'.seen ≡ p.seen + 1 = omega (arith, l) in
          let rest : List PcapPacket = stamped now (p.seen + 1) frames in
          Ends-map (After (p.seen + 1) frames p'.session) (After p.seen (frame ∷ frames) p.session)
            T _
            (λ p'' (l', c'). (
              omega (arith, l'),
              Captured-trans (as_written (now p.seen) frame ∷ []) rest p.session p'.session
                  p''.session c c',
            ))
            (Ends-weaken (After (p.seen + 1) frames p'.session) (TriggerIn rest) T _ inr (
              subst
                (λ (n : ℕ).
                  Ends (After n frames p'.session) (TriggerIn (stamped now n frames))
                    (deliver on frames p'))
                next (deliver-After frames p' hs))))

stamped-Fits :
    (now : ℕ → Clock) (n : ℕ) (frames : List Bytes)
    → IsClock now
    → All IsFrame frames
    → All Fits (stamped now n frames)
stamped-Fits now n [] clock h = tt
stamped-Fits now n (frame ∷ frames) clock (h, hs) =
    (((clock n).0, (clock n).1, omega (arith, h.2)), stamped-Fits now (n + 1) frames clock hs)

-- The loop over the ring, from the session that `main` opens and a ring whose current block is one of its
-- eight, over any list of calls in which the mapping keeps its size and holds bytes, with a clock of 32
-- bits: the frames are those of the chains of headers in the blocks that the calls wait for, in order,
-- up to the end of the list or to a call that is still waiting. The loop runs to there, or it
-- panics and one of these frames is in `FrameTrigger`. At the end the callback has had all of them, and
-- the two files, the messages and the tracker are what these frames leave, in the sense of `Left`: the
-- pcap file, if one was asked for, is read back as exactly them, with the clock of each.
pub capture_ring-Left :
    (paint : Style → Bytes → Bytes) (args : Args) (shown : Bytes) (now : ℕ → Clock)
    (calls : List RecvCall) (ring : RingSocket)
    → IsClock now
    → All IsCall calls
    → IsRing ring
    → (frames : List Bytes) × Heard ring calls frames
      × Ends
          (λ p. (p.seen ≡ length frames) × Left args (stamped now 0 frames) p.session)
          (TriggerIn (stamped now 0 frames))
          (capture_ring paint args.hexdump now calls ring
            (record { seen = 0; session = open_session args shown }))
unfolding Delivers
capture_ring-Left paint args shown now calls ring clock h v =
    let s : Session = open_session args shown in
    let (frames, heard, all, e) = calls-Delivers paint args.hexdump now calls ring h v in
    let start : Progress = record { seen = 0; session = s } in
    (
      frames,
      heard,
      rw (e start) (
          Ends-map (After paint args.hexdump now 0 frames s)
            (λ p. (p.seen ≡ length frames) × Left args (stamped now 0 frames) p.session)
            (TriggerIn (stamped now 0 frames)) _
            (λ p (l, c). (
              omega (arith, l),
              Captured-Left args shown (stamped now 0 frames) p.session
                  (stamped-Fits now 0 frames clock all) c,
            ))
            (deliver-After paint args.hexdump now frames start all)),
    )
