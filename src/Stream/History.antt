-- ===== src/Stream/History.antt =====
-- What `feed` returns over a whole capture, against the payloads that it was given.
use net_zer.Prelude.{
  Option, ◌++◌, List, Bytes, ◌≡◌, if◌then◌else◌, [], ◌∷◌, some, none, Bool-cases, append-nil, inr,
  inl, true, sym, refl, ap, if_elim, ◌∙◌, append_assoc, ◌+◌, false,
}
use net_zer.Stream.{
  StreamKey, TcpStream, TcpStreamTracker, Segment, segment_key, insert, entry_or, feed,
  append_payload, should_flush, key_eq, is_nil,
}
use net_zer.Stream.Key.{key_eq_iff}

abbrev pub prepend :
    Option (StreamKey × Bytes) → List (StreamKey × Bytes) → List (StreamKey × Bytes)
prepend none outs = outs
prepend (some o) outs = o ∷ outs

-- The tracker after the segments, and what `feed` returned, in order.
abbrev pub run_feeds : TcpStreamTracker → List Segment → TcpStreamTracker × List (StreamKey × Bytes)
run_feeds tracker [] = (tracker, [])
run_feeds tracker (s ∷ ss) =
    let (next, out) = feed tracker s in
    let (last, outs) = run_feeds next ss in (last, prepend out outs)

-- The bytes of the connection `key` that wait in the tracker, that were returned, and that came in.
abbrev pub waiting : StreamKey → TcpStreamTracker → Bytes
waiting key tracker = (entry_or key (tracker.streams key)).payload

abbrev pub returned : StreamKey → List (StreamKey × Bytes) → Bytes
returned key [] = []
returned key ((k, text) ∷ outs) =
    if key_eq k key then text ++ returned key outs else returned key outs

abbrev pub received : StreamKey → List Segment → Bytes
received key [] = []
received key (s ∷ ss) =
    if key_eq (segment_key s) key then s.payload ++ received key ss else received key ss

abbrev mine : StreamKey → Segment → Bytes
mine key s = if key_eq (segment_key s) key then s.payload else []

abbrev shown : StreamKey → Option (StreamKey × Bytes) → Bytes
shown key none = []
shown key (some (k, text)) = if key_eq k key then text else []

waiting-insert :
    (tracker : TcpStreamTracker) (k key : StreamKey) (stream : TcpStream)
    → key_eq k key ≡ true
    → waiting key (record tracker { streams = insert k stream tracker.streams }) ≡ stream.payload
waiting-insert tracker k key stream same =
    ap (λ (t : Option TcpStream). (entry_or key t).payload)
      (if_elim (λ (t : Option TcpStream). t ≡ some stream) (key_eq k key) _ _ (λ _. refl)
        (λ other. cc))

waiting_other :
    (tracker : TcpStreamTracker) (k key : StreamKey) (stream : TcpStream)
    → key_eq k key ≡ false
    → waiting key (record tracker { streams = insert k stream tracker.streams })
      ≡ waiting key tracker
waiting_other tracker k key stream other =
    ap (λ (t : Option TcpStream). (entry_or key t).payload)
      (if_elim (λ (t : Option TcpStream). t ≡ tracker.streams key) (key_eq k key) _ _ (λ same. cc)
        (λ _. refl))

append_payload_balance :
    (tracker : TcpStreamTracker) (k : StreamKey) (stream : TcpStream) (payload : Bytes)
    (key : StreamKey)
    → stream.payload ≡ waiting k tracker
    → waiting key tracker ++ (if key_eq k key then payload else [])
      ≡ shown key (append_payload tracker k stream payload).1
        ++ waiting key (append_payload tracker k stream payload).0
unfolding append_payload
append_payload_balance tracker k stream payload key e =
    elim (Bool-cases (should_flush tracker.flush_threshold (stream.payload ++ payload))) [
      | inl flush ↦ elim (Bool-cases (key_eq k key)) [
        | inr other ↦
            rw (flush, other, append-nil)
              (sym (
                waiting_other tracker k key (record stream { payload = []; packet_count = 0 })
                  other))
        | inl same ↦
            rw (flush, same)
              (ap (λ (t : Bytes). t ++ payload) (own same)
                ∙ sym (append-nil (stream.payload ++ payload))
                ∙ ap (λ (t : Bytes). (stream.payload ++ payload) ++ t)
                    (sym (
                      waiting-insert tracker k key
                        (record stream { payload = []; packet_count = 0 }) same)))
      ]
      | inr keep ↦ elim (Bool-cases (key_eq k key)) [
        | inr other ↦
            rw (keep, other, append-nil)
              (sym (
                waiting_other tracker k key
                  (record stream {
                    payload = stream.payload ++ payload;
                    packet_count = stream.packet_count + 1;
                  })
                  other))
        | inl same ↦
            rw (keep, same)
              (ap (λ (t : Bytes). t ++ payload) (own same)
                ∙ sym (
                    waiting-insert tracker k key
                      (record stream {
                        payload = stream.payload ++ payload;
                        packet_count = stream.packet_count + 1;
                      })
                      same))
      ]
    ]
  where
    own : key_eq k key ≡ true → waiting key tracker ≡ stream.payload
    own same = ap (λ j. waiting j tracker) (sym ((key_eq_iff k key).0 same)) ∙ sym e

feed_balance :
    (tracker : TcpStreamTracker) (s : Segment) (key : StreamKey)
    → waiting key tracker ++ mine key s
      ≡ shown key (feed tracker s).1 ++ waiting key (feed tracker s).0
unfolding feed
feed_balance tracker s key = elim (Bool-cases (is_nil s.payload)) [
  | inl empty ↦ rw empty (nothing s.payload empty)
  | inr more ↦ rw more (append_payload_balance tracker (segment_key s) _ s.payload key refl)
]
  where
    nothing :
        (payload : Bytes)
        → is_nil payload ≡ true
        → waiting key tracker ++ (if key_eq (segment_key s) key then payload else [])
          ≡ waiting key tracker
    nothing [] e =
        if_elim (λ (t : Bytes). waiting key tracker ++ t ≡ waiting key tracker)
          (key_eq (segment_key s) key) [] [] (λ _. append-nil _) (λ _. append-nil _)
    nothing (b ∷ bs) e = cc

received_cons :
    (key : StreamKey) (s : Segment) (ss : List Segment)
    → received key (s ∷ ss) ≡ mine key s ++ received key ss
received_cons key s ss = elim (Bool-cases (key_eq (segment_key s) key)) [
  | inl e ↦ rw e
  | inr e ↦ rw e
]

returned-prepend :
    (key : StreamKey) (out : Option (StreamKey × Bytes)) (outs : List (StreamKey × Bytes))
    → returned key (prepend out outs) ≡ shown key out ++ returned key outs
returned-prepend key none outs = refl
returned-prepend key (some (k, text)) outs = elim (Bool-cases (key_eq k key)) [
  | inl e ↦ rw e
  | inr e ↦ rw e
]

-- For every connection, the bytes that waited and the payloads that came in, in order, are the bytes
-- that `feed` returned for it, in order, and the bytes that still wait. Nothing is lost, doubled,
-- reordered or given to another connection, whenever the flushes happen.
pub run_feeds_balance :
    (segments : List Segment) (tracker : TcpStreamTracker) (key : StreamKey)
    → waiting key tracker ++ received key segments
      ≡ returned key (run_feeds tracker segments).1 ++ waiting key (run_feeds tracker segments).0
run_feeds_balance [] tracker key = append-nil _
run_feeds_balance (s ∷ ss) tracker key =
    let next : TcpStreamTracker = (feed tracker s).0 in
    let out : Option (StreamKey × Bytes) = (feed tracker s).1 in
    rw (received_cons key s ss, returned-prepend key out (run_feeds next ss).1)
      (sym (append_assoc (waiting key tracker) (mine key s) (received key ss))
        ∙ ap (λ (t : Bytes). t ++ received key ss) (feed_balance tracker s key)
        ∙ append_assoc (shown key out) (waiting key next) (received key ss)
        ∙ ap (λ (t : Bytes). shown key out ++ t) (run_feeds_balance ss next key)
        ∙ sym (append_assoc (shown key out) _ _))
