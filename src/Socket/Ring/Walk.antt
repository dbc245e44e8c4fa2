-- ===== src/Socket/Ring/Walk.antt =====
-- The walk of netzer-socket/src/socket.rs over a block: which frames it hands to the callback. The walk is
-- compared with the chain of headers as it lies in memory.
use net_zer.Prelude.{
  Bytes, ℕ, ◌≤◌, ◌+◌, length, ◌≡◌, ◌<◌, arith, ◌*◌, refl, get_or, take, Bool-cases, suc, ltb, ◌-◌,
  All-append, ==_iff, ap, ◌∙◌, ◌∷◌, ◌++◌, [], List, All, ◌⊎◌, ◌≢◌, leb, ◌&&◌, inl, drop, inr,
  length-take, ◌==◌, zero, length-drop, subst, sym,
}
use net_zer.Outcome.{err, panic, diverge, ◌>>=◌, Outcome, ok, slice, index_lt, slice_le}
use net_zer.Socket.Raw.{block_size}
use net_zer.Socket.Ring.{u16_at, u32_at, header_size, visit, walk}

-- A frame of the block at `block_base`: bytes of the mapping, at least one, none outside the block.
pub record InBlock (memory : Bytes) (block_base : ℕ) (frame : Bytes) : Type 0 where
  pub start : ℕ
  pub from_base : block_base ≤ start
  pub inside : start + length frame ≤ block_base + block_size
  pub not_empty : 0 < length frame
  pub bytes_are : slice memory start (start + length frame) ≡ ok frame

pub u16_at-returns :
    (memory : Bytes) (at : ℕ) → at + 2 ≤ length memory → (n : ℕ) × (u16_at memory at ≡ ok n)
unfolding u16_at
u16_at-returns memory at h = (
  get_or memory at 0 + 256 * get_or memory (at + 1) 0,
  rw (index_lt memory at (omega arith), index_lt memory (at + 1) (omega arith)) refl,
)

pub u32_at-returns :
    (memory : Bytes) (at : ℕ) → at + 4 ≤ length memory → (n : ℕ) × (u32_at memory at ≡ ok n)
unfolding u32_at
u32_at-returns memory at h =
    let (lo, e) = u16_at-returns memory at (omega arith) in
    let (hi, k) = u16_at-returns memory (at + 2) (omega arith) in (lo + 65536 * hi, rw (e, k) refl)

frame-InBlock :
    (memory : Bytes) (block_base : ℕ)
    → block_base + block_size ≤ length memory
    → (offset mac len : ℕ) → offset + mac + len ≤ block_size
    → 0 < len
    → (frame : Bytes) × (slice memory
          (block_base + (offset + mac))
          (block_base + (offset + mac) + len)
        ≡ ok frame)
      × InBlock memory block_base frame
      × (frame ≡ take len (drop (block_base + offset + mac) memory))
frame-InBlock memory block_base room offset mac len fits some_byte =
    let start : ℕ = block_base + offset + mac in
    let from : block_base + (offset + mac) ≡ start = omega arith in
    let size : start + len - start ≡ len = omega arith in
    let frame : Bytes = take len (drop start memory) in
    let cut : slice memory start (start + len) ≡ ok frame =
      slice_le memory start (start + len) (omega arith) (omega arith)
      ∙ ap (λ (n : ℕ). ok (take n (drop start memory))) size in
    let l : length frame ≡ len =
      omega (arith, length-take len (drop start memory), length-drop start memory) in
    (
      frame,
      ap (λ (n : ℕ). slice memory n (n + len)) from ∙ cut,
      record {
        start = start;
        from_base = omega arith;
        inside = omega (arith, l);
        not_empty = omega (arith, l);
        bytes_are = subst (λ (n : ℕ). slice memory start (start + n) ≡ ok frame) (sym l) cut;
      },
      refl,
    )

-- The frame of the header at `offset`: `len` bytes, `mac` behind the header's start. None where it is
-- empty or does not lie inside the block.
pub data FrameAt (memory : Bytes) (block_base offset : ℕ) : List Bytes → Type 0 where
  shown :
      (len mac : ℕ)
      → u32_at memory (block_base + offset + 12) ≡ ok len
      → u16_at memory (block_base + offset + 24) ≡ ok mac
      → 0 < len
      → offset + mac + len ≤ block_size
      → FrameAt memory block_base offset (take len (drop (block_base + offset + mac) memory) ∷ [])
  left_out :
      (len mac : ℕ)
      → u32_at memory (block_base + offset + 12) ≡ ok len
      → u16_at memory (block_base + offset + 24) ≡ ok mac
      → (len ≡ 0) ⊎ (block_size < offset + mac + len)
      → FrameAt memory block_base offset []

-- The frames of the chain of at most `num_pkts` headers from `offset` on: it ends at a header that
-- does not lie inside the block, and behind one that links to 0.
pub data Chain (memory : Bytes) (block_base : ℕ) : ℕ → ℕ → List Bytes → Type 0 where
  no_more : (offset : ℕ) → Chain memory block_base 0 offset []
  past_block :
      (num_pkts offset : ℕ)
      → block_size < offset + 40
      → Chain memory block_base (suc num_pkts) offset []
  unlinked :
      (num_pkts offset : ℕ) (frames : List Bytes)
      → offset + 40 ≤ block_size
      → FrameAt memory block_base offset frames
      → u32_at memory (block_base + offset + 0) ≡ ok 0
      → Chain memory block_base (suc num_pkts) offset frames
  linked :
      (num_pkts offset next : ℕ) (frames more : List Bytes)
      → offset + 40 ≤ block_size
      → FrameAt memory block_base offset frames
      → u32_at memory (block_base + offset + 0) ≡ ok next
      → next ≢ 0
      → Chain memory block_base num_pkts (offset + next) more
      → Chain memory block_base (suc num_pkts) offset (frames ++ more)

bind-ext :
    {A B : Type 0} (m : Outcome A) (f g : A → Outcome B)
    → ((a : A) → f a ≡ g a)
    → (m >>= f) ≡ (m >>= g)
bind-ext (ok a) f g h = h a
bind-ext (err e) f g h = refl
bind-ext panic f g h = refl
bind-ext diverge f g h = refl

module _ {S : Type 0} (callback : Bytes → S → Outcome S) where
  -- A callback that is called with these frames, in order, up to the first that it does not take.
  abbrev pub deliver : List Bytes → S → Outcome S
  deliver [] s = ok s
  deliver (frame ∷ frames) s = callback frame s >>= deliver frames

  bind-deliver_nil : (m : Outcome S) → (m >>= deliver []) ≡ m
  bind-deliver_nil (ok s) = refl
  bind-deliver_nil (err e) = refl
  bind-deliver_nil panic = refl
  bind-deliver_nil diverge = refl

  deliver-bind :
      (m : Outcome S) (fs gs : List Bytes)
      → ((s : S) → deliver (fs ++ gs) s ≡ (deliver fs s >>= deliver gs))
      → (m >>= deliver (fs ++ gs)) ≡ ((m >>= deliver fs) >>= deliver gs)
  deliver-bind (ok s) fs gs h = h s
  deliver-bind (err e) fs gs h = refl
  deliver-bind panic fs gs h = refl
  deliver-bind diverge fs gs h = refl

  pub deliver-append :
      (fs gs : List Bytes) (s : S) → deliver (fs ++ gs) s ≡ (deliver fs s >>= deliver gs)
  deliver-append [] gs s = refl
  deliver-append (f ∷ fs) gs s = deliver-bind (callback f s) fs gs (deliver-append fs gs)

  module _ (memory : Bytes) (block_base : ℕ) (room : block_base + block_size ≤ length memory) where
    visit-FrameAt :
        (offset : ℕ)
        → offset + header_size ≤ block_size
        → (frames : List Bytes) × FrameAt memory block_base offset frames
          × All (InBlock memory block_base) frames
          × ((s : S) → visit callback memory block_base offset s ≡ deliver frames s)
    unfolding visit
    visit-FrameAt offset h =
        let (len, e) = u32_at-returns memory (block_base + offset + 12) (omega arith) in
        let (mac, k) = u16_at-returns memory (block_base + offset + 24) (omega arith) in
        elim (Bool-cases (leb (offset + mac + len) block_size && ltb 0 len)) [
          | inr skip ↦
              ([], left_out len mac e k (ground (arith, skip)), tt, λ s. rw (e, k, skip) refl)
          | inl fits ↦
              let inside : offset + mac + len ≤ block_size = ground (arith, fits) in
              let filled : 0 < len = ground (arith, fits) in
              let (frame, cut, i, is) =
                frame-InBlock memory block_base room offset mac len inside filled in
              (
                frame ∷ [],
                rw is (shown len mac e k filled inside),
                (i, tt),
                λ s. rw (e, k, fits, cut) (sym (bind-deliver_nil (callback frame s))),
              )
        ]

    -- The walk comes to an end however many packets the block says, never reads outside the mapping,
    -- and gives the callback the frames of the chain, all of which lie in the block.
    pub walk-Chain :
        (num_pkts offset : ℕ)
        → (frames : List Bytes) × Chain memory block_base num_pkts offset frames
          × All (InBlock memory block_base) frames
          × ((s : S) → walk callback memory block_base num_pkts offset s ≡ deliver frames s)
    unfolding walk
    walk-Chain zero offset = ([], no_more offset, tt, λ s. refl)
    walk-Chain (suc n) offset = elim (Bool-cases (ltb block_size (offset + header_size))) [
      | inl past ↦ ([], past_block n offset (ground (arith, past)), tt, λ s. rw past refl)
      | inr here ↦
          let inside : offset + header_size ≤ block_size = ground (arith, here) in
          let (frames, at, all, e) = visit-FrameAt offset inside in
          let (next, k) = u32_at-returns memory (block_base + offset + 0) (omega arith) in
          elim (Bool-cases (next == 0)) [
            | inl last ↦ (
              frames,
              unlinked n offset frames inside at (k ∙ ap ok ((==_iff next 0).0 last)),
              all,
              λ s.
                  rw (here, e s)
                    (bind-ext (deliver frames s) _ (deliver []) (λ s'. rw (k, last) refl)
                      ∙ bind-deliver_nil (deliver frames s)),
            )
            | inr on ↦
                let (more, chain, all', e') = walk-Chain n (offset + next) in
                (
                  frames ++ more,
                  linked n offset next frames more inside at k (ground (arith, on)) chain,
                  All-append (InBlock memory block_base) frames more all all',
                  λ s.
                      rw (here, e s)
                        (bind-ext (deliver frames s) _ (deliver more) (λ s'. rw (k, on) (e' s'))
                          ∙ sym (deliver-append frames more s)),
                )
          ]
    ]
