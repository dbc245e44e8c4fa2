-- ===== src/Stream/Buffers.antt =====
-- The buffers between two calls of `feed`.
use net_zer.Prelude.{
  ℕ, ◌<◌, ◌≡◌, Option, Bytes, arith, some, false, length, none, ◌++◌, ◌+◌, ◌≤◌, ◌↔◌, [], refl, ◌∷◌,
  Bool-cases, inr, suc, inl, subst, length-append, ap,
}
use net_zer.Stream.{
  StreamKey, TcpStream, TcpStreamTracker, Segment, segment_key, new_stream, new_tracker, insert,
  entry_or, feed, append_payload, should_flush, key_eq, is_http_request, starts_with, is_nil, clear,
}
use net_zer.Stream.Key.{key_eq_iff}

-- A stream of the map: filed under its own key, holding less than would be shown, and counting the
-- segments of its payload.
pub record IsPending (threshold : ℕ) (key : StreamKey) (stream : TcpStream) : Type 0 where
  pub own_key : stream.key ≡ key
  pub held_back : should_flush threshold stream.payload ≡ false
  pub below : length stream.payload < threshold
  pub counted : stream.packet_count ≤ length stream.payload
  pub empty_iff : (stream.packet_count ≡ 0) ↔ (stream.payload ≡ [])

abbrev pub IsPending? : ℕ → StreamKey → Option TcpStream → Type 0
IsPending? threshold key none = Unit
IsPending? threshold key (some stream) = IsPending threshold key stream

pub record IsValid (tracker : TcpStreamTracker) : Type 0 where
  pub positive : 0 < tracker.flush_threshold
  pub pending : (key : StreamKey) → IsPending? tracker.flush_threshold key (tracker.streams key)

IsPending-flushed :
    (threshold : ℕ) (key : StreamKey) (stream : TcpStream)
    → 0 < threshold
    → stream.key ≡ key
    → IsPending threshold key (record stream { payload = []; packet_count = 0 })
unfolding should_flush is_http_request starts_with
IsPending-flushed threshold key stream h e = record {
  own_key = e;
  held_back = ground arith;
  below = h;
  counted = omega arith;
  empty_iff = ((λ e. refl), (λ e. refl));
}

IsPending-empty :
    (threshold : ℕ) (key : StreamKey) → 0 < threshold → IsPending threshold key (new_stream key)
IsPending-empty threshold key h = IsPending-flushed threshold key (new_stream key) h refl

IsPending-more :
    (threshold : ℕ) (key : StreamKey) (stream : TcpStream) (payload : Bytes)
    → IsPending threshold key stream
    → is_nil payload ≡ false
    → should_flush threshold (stream.payload ++ payload) ≡ false
    → IsPending threshold key (record stream {
      payload = stream.payload ++ payload;
      packet_count = stream.packet_count + 1;
    })
unfolding should_flush
IsPending-more threshold key stream [] p n h = cc
IsPending-more threshold key stream (b ∷ bs) p n h =
    let long : length (stream.payload ++ (b ∷ bs)) ≡ length stream.payload + suc (length bs) =
      length-append stream.payload (b ∷ bs) in
    record {
      own_key = p.own_key;
      held_back = h;
      below = ground arith;
      counted = omega (arith, long);
      empty_iff = ((λ e. absurd (omega arith)), (λ e. absurd (omega (arith, ap length e, long))));
    }

IsPending-entry :
    (threshold : ℕ) (key : StreamKey) (found : Option TcpStream)
    → 0 < threshold
    → IsPending? threshold key found
    → IsPending threshold key (entry_or key found)
IsPending-entry threshold key none h p = IsPending-empty threshold key h
IsPending-entry threshold key (some stream) h p = p

IsPending-insert :
    (threshold : ℕ) (key : StreamKey) (stream : TcpStream) (streams : StreamKey → Option TcpStream)
    → IsPending threshold key stream
    → ((k : StreamKey) → IsPending? threshold k (streams k))
    → (k : StreamKey) → IsPending? threshold k (insert key stream streams k)
IsPending-insert threshold key stream streams p ps k = elim (Bool-cases (key_eq key k)) [
  | inr other ↦ rw other (ps k)
  | inl same ↦ rw same (subst (λ j. IsPending threshold j stream) ((key_eq_iff key k).0 same) p)
]

append_payload-IsValid :
    (tracker : TcpStreamTracker) (key : StreamKey) (stream : TcpStream) (payload : Bytes)
    → IsValid tracker
    → IsPending tracker.flush_threshold key stream
    → is_nil payload ≡ false
    → IsValid (append_payload tracker key stream payload).0
unfolding append_payload
append_payload-IsValid tracker key stream payload v p n =
    elim (Bool-cases (should_flush tracker.flush_threshold (stream.payload ++ payload))) [
      | inl flush ↦ rw flush (record {
        positive = v.positive;
        pending =
            IsPending-insert tracker.flush_threshold key _ tracker.streams
              (IsPending-flushed tracker.flush_threshold key stream v.positive p.own_key) v.pending;
      })
      | inr keep ↦ rw keep (record {
        positive = v.positive;
        pending =
            IsPending-insert tracker.flush_threshold key _ tracker.streams
              (IsPending-more tracker.flush_threshold key stream payload p n keep) v.pending;
      })
    ]

-- `feed` keeps the tracker valid: the threshold is positive, and every stream in the map is filed under its
-- own key, would not be shown yet, is shorter than the threshold, counts no more segments than it has
-- bytes, and counts none exactly when it is empty.
pub feed-IsValid :
    (tracker : TcpStreamTracker) (s : Segment) → IsValid tracker → IsValid (feed tracker s).0
unfolding feed
feed-IsValid tracker s v = elim (Bool-cases (is_nil s.payload)) [
  | inl empty ↦ rw empty v
  | inr more ↦ rw more (
      append_payload-IsValid tracker (segment_key s) _ s.payload v
        (IsPending-entry tracker.flush_threshold (segment_key s) _ v.positive
          (v.pending (segment_key s)))
        more)
]

pub new_tracker-IsValid : IsValid new_tracker
new_tracker-IsValid = record { positive = omega arith; pending = λ k. tt }

pub clear-IsValid : (tracker : TcpStreamTracker) → IsValid tracker → IsValid (clear tracker)
unfolding clear
clear-IsValid tracker v = record { positive = v.positive; pending = λ k. tt }
