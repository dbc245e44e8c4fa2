-- ===== src/Examples/Captures.antt =====
-- Captures of concrete frames.
use net_zer.Prelude.{
  All, true, [], ℕ, List, Bytes, ascii, ◌+◌, arith, ◌∷◌, ◌++◌, ◌≡◌, ◌*◌, replicate, length-append,
  length, IsByte, some, suc, length-replicate, refl, All-append, zero,
}
use net_zer.Outcome.{Ends, Outcome, ok}
use net_zer.Report.{escape_json}
use net_zer.Socket.Raw.{RingSocket, block_size, block_nr}
use net_zer.Socket.Ring.{poll_failed, polled, recv_block, Wait}
use net_zer.Socket.Ring.Polled.{IsMapping, WaitsTo}
use net_zer.Socket.Ring.Block.{Brings, end_of_call, recv_block-exact}
use net_zer.Cli.Line.{Style, Session}
use net_zer.Cli.Args.{open_session}
use net_zer.Cli.JsonWriter.{web_message}
use net_zer.Cli.JsonWriter.ReadBack.{Fields, read_message, read_message-web_message}
use net_zer.Cli.Process.{Clock}
use net_zer.Cli.Processed.{Processed}
use net_zer.Cli.Captured.{TriggerIn}
use net_zer.Cli.Capture.{Received, frame, failed, capture}
use net_zer.Cli.Capture.Run.{IsRead, frames_of, Left, capture-Left}
use net_zer.Cli.Capture.Ring.{capture_ring-Left}
use net_zer.Cli.Capture.Loop.{IsCall, RecvCall, Heard, stamped, capture_ring}
use net_zer.Examples.Frames.{tcp_frame, tcp_frame-bytes, udp_frame}
use net_zer.Examples.Sockets.{all_args}

-- A terminal without colours.
abbrev uncoloured : Style → Bytes → Bytes
uncoloured style text = text

abbrev noon : Clock
noon = record { secs = 1700000000; micros = 250000; time_str = ascii "12:00:00.250" }

abbrev opened : Session
opened = open_session all_args []

-- A frame, an error, and a frame at the front of a longer buffer.
abbrev calls : List Received
calls = frame noon 58 tcp_frame ∷ failed 4 ∷ frame noon 44 (udp_frame ++ 0 ∷ 0 ∷ []) ∷ []

calls-fit : All IsRead calls
calls-fit = ((tcp_frame-bytes, omega arith), (tt, ((ground arith, omega arith), tt)))

capture-Left_example :
    Ends
      (Left all_args (frames_of calls))
      (TriggerIn (frames_of calls))
      (capture uncoloured true calls (open_session all_args []))
unfolding frames_of
capture-Left_example =
    capture-Left uncoloured all_args [] calls calls-fit
      ((omega arith, omega arith, omega arith), ((omega arith, omega arith, omega arith), tt))

-- The kernel's mapping with the first block ready, and one packet in it at offset 48: two bytes, 40 behind
-- its header's start.
abbrev block_front : Bytes
block_front =
    1
    ∷ 0
    ∷ 0
    ∷ 0
    ∷ 48
    ∷ 0
    ∷ 0
    ∷ 0
    ∷ 1
    ∷ 0
    ∷ 0
    ∷ 0
    ∷ 1
    ∷ 0
    ∷ 0
    ∷ 0
    ∷ 48
    ∷ 0
    ∷ 0
    ∷ 0
    ∷ (replicate 40 0 ++ 2 ∷ 0 ∷ 0 ∷ 0 ∷ (replicate 8 0 ++ 40 ∷ 0 ∷ []))

unfoldable mapping : ℕ → Bytes
mapping n = block_front ++ replicate n 0

zeros-bytes : (n : ℕ) → All IsByte (replicate n 0)
zeros-bytes zero = tt
zeros-bytes (suc n) = (omega arith, zeros-bytes n)

mapping-IsMapping : (n : ℕ) → 74 + n ≡ block_size * block_nr → IsMapping (mapping n)
unfolding mapping
mapping-IsMapping n e = (
  omega (arith, length-append block_front (replicate n 0), length-replicate {A = ℕ} n 0, e),
  All-append IsByte block_front (replicate n 0) (omega arith) (zeros-bytes n),
)

abbrev rest_len : ℕ
rest_len = 33554358

abbrev fresh_ring : RingSocket
fresh_ring = record {
  fd = 3;
  ring_ptr = 4096;
  ring_size = block_size * block_nr;
  current_block = 0;
}

-- A callback that keeps the frames.
abbrev keep_frame : Bytes → List Bytes → Outcome (List Bytes)
keep_frame bytes frames = ok (bytes ∷ frames)

recv_block-exact_example :
    (w : Wait) × (frames : List Bytes) × WaitsTo
      (fresh_ring.current_block * block_size)
      (mapping rest_len)
      (polled (mapping rest_len) ∷ [])
      w
    × Brings fresh_ring w frames
    × (recv_block keep_frame fresh_ring (mapping rest_len) (polled (mapping rest_len) ∷ []) []
        ≡ end_of_call keep_frame fresh_ring w frames [])
recv_block-exact_example =
    recv_block-exact keep_frame fresh_ring (mapping rest_len) (polled (mapping rest_len) ∷ []) []
      (omega arith) (mapping-IsMapping rest_len (omega arith))
      (mapping-IsMapping rest_len (omega arith), tt)

abbrev ring_calls : List RecvCall
ring_calls =
    record { memory = mapping rest_len; polls = [] }
    ∷ record { memory = mapping rest_len; polls = poll_failed 4 ∷ [] }
    ∷ []

ring_calls-IsCall : All IsCall ring_calls
ring_calls-IsCall = (
  (mapping-IsMapping rest_len (omega arith), tt),
  ((mapping-IsMapping rest_len (omega arith), (tt, tt)), tt),
)

capture_ring-Left_example :
    (frames : List Bytes) × Heard fresh_ring ring_calls frames
    × Ends
        (λ p. (p.seen ≡ length frames) × Left all_args (stamped (λ n. noon) 0 frames) p.session)
        (TriggerIn (stamped (λ n. noon) 0 frames))
        (capture_ring uncoloured true
          (λ n. noon)
          ring_calls
          fresh_ring
          (record { seen = 0; session = open_session all_args [] }))
capture_ring-Left_example =
    capture_ring-Left uncoloured all_args [] (λ n. noon) ring_calls fresh_ring
      (λ n. (omega arith, omega arith)) ring_calls-IsCall (omega arith)

abbrev dns_fields : Fields
dns_fields = record {
  timestamp = ascii "12:00:00.250";
  proto = ascii "DNS";
  src = ascii "10.0.0.1:53";
  dst = ascii "10.0.0.2:49152";
  info = ascii "Query: \"a\\b\"";
  size = 44;
}

read_message-web_message_example :
    read_message (
      web_message dns_fields.timestamp
        (escape_json dns_fields.proto)
        dns_fields.src
        dns_fields.dst
        dns_fields.info
        dns_fields.size
        (ascii "0a0b"))
    ≡ some (dns_fields, ascii "0a0b")
read_message-web_message_example =
    read_message-web_message dns_fields (ascii "0a0b") (refl, (refl, (refl, (refl, tt))))
