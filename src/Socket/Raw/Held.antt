-- ===== src/Socket/Raw/Held.antt =====
-- What `RawSocket::new` and `RingSocket::new` of netzer-socket/src/socket.rs leave open.
use net_zer.Prelude.{
  take, replicate, Bytes, ℕ, List, [], ◌≡◌, ◌∷◌, true, ==_iff, ltb, length, refl, ◌≤◌, ◌+◌, arith,
  ◌*◌, ◌++◌, ascii, All, false, Bool-cases, ◌≢◌, ◌==◌, inl, inr, subst, Bool, ◌||◌,
}
use net_zer.Socket.System.{
  IoResult, returns, failed, os, nul_in_name, invalid_input, invalid_data, Trace, Every, Every-if,
  Every-checked, unmap_ring, fails, close, done, Reply, held, mapped, without, gives, open_socket,
  get_index, bind, set_version, set_ring, map_ring,
}
use net_zer.Socket.Raw.{
  RingSocket, has_nul, ifr_name, raw_new, ring_new, geometry, block_size, block_nr, index_or_zero,
}

without_head : (n : ℕ) (ns : List ℕ) → without n (n ∷ ns) ≡ ns
without_head n ns = rw ((==_iff n n).1 refl) refl

-- Exactly one descriptor is open.
abbrev pub OneHeld : Trace → Type 0
OneHeld trace = (fd : ℕ) × (held [] trace ≡ fd ∷ [])

-- A name that an interface can have: no zero byte, and 15 bytes at most.
abbrev pub NoNul : Bytes → Type 0
NoNul = All (λ b. b ≢ 0)

has_nul-NoNul : (name : Bytes) → has_nul name ≡ false → NoNul name
unfolding has_nul
has_nul-NoNul [] h = tt
has_nul-NoNul (b ∷ bs) h = elim (Bool-cases (b == 0)) [
  | inl zero_byte ↦ absurd (ground (arith, h, zero_byte))
  | inr other ↦ (
    ground (arith, other),
    has_nul-NoNul bs (subst (λ (c : Bool). (c || has_nul bs) ≡ false) other h),
  )
]

-- The name, and zeros behind it, as far as 16 bytes go.
abbrev pub name_field : Bytes → Bytes
name_field name = take 16 (name ++ replicate 16 0)

abbrev pub RawEnd : Bytes → Trace → IoResult ℕ → Type 0
RawEnd name trace (returns fd) =
    NoNul name
    × (length name ≤ 15)
    × (index : ℕ) × (bound : ℕ) × (trace
        ≡ (open_socket 17 3 0x0300, gives fd)
          ∷ (get_index fd (name_field name), gives index)
          ∷ (bind fd 17 0x0300 index, gives bound)
          ∷ [])
RawEnd name trace (failed (os e)) = held [] trace ≡ []
RawEnd name trace (failed nul_in_name) = (has_nul name ≡ true) × OneHeld trace
RawEnd name trace (failed (invalid_input message)) = (16 ≤ length name) × OneHeld trace
RawEnd name trace (failed (invalid_data message)) = ⊥

pub raw_new-Every : (name : Bytes) → Every (RawEnd name) [] (raw_new name)
unfolding raw_new held ifr_name
raw_new-Every name =
    Every-checked (RawEnd name) [] (open_socket 17 3 0x0300) [] _ (λ e. refl)
      (λ fd.
        let past : Trace = (open_socket 17 3 0x0300, gives fd) ∷ [] in
        Every-if (RawEnd name) past (has_nul name) (done (failed nul_in_name)) _
          (λ h. (h, (fd, refl)))
          (λ clean.
            Every-if (RawEnd name) past (ltb 16 (length name + 1))
              (done (failed (invalid_input (ascii "Interface name too long")))) _
              (λ h. (ground arith, (fd, refl)))
              (λ fits.
                Every-checked (RawEnd name) past (get_index fd (ifr_name name)) (close fd ∷ []) _
                  (λ e closed. without_head fd [])
                  (λ index.
                    Every-checked (RawEnd name)
                      (past ++ (get_index fd (ifr_name name), gives index) ∷ [])
                      (bind fd 17 0x0300 index) (close fd ∷ []) _ (λ e closed. without_head fd [])
                      (λ bound.
                        (has_nul-NoNul name clean, ground (arith, fits), index, bound, refl))))))

-- The four calls with which a ring comes about: eight blocks of four megabytes, in frames of two
-- kilobytes, mapped as a whole.
abbrev pub ring_calls : (fd versioned sized ptr : ℕ) → Trace
ring_calls fd versioned sized ptr =
    (open_socket 17 3 0x0300, gives fd)
    ∷ (set_version fd 2, gives versioned)
    ∷ (
      set_ring fd (record {
        tp_block_size = 4194304;
        tp_block_nr = 8;
        tp_frame_size = 2048;
        tp_frame_nr = 16384;
        tp_retire_blk_tov = 10;
        tp_sizeof_priv = 0;
        tp_feature_req_word = 0;
      }),
      gives sized,
    )
    ∷ (map_ring fd 33554432, gives ptr)
    ∷ []

-- The index behind the question for it: the answer, or 0 where there is an error.
abbrev pub Finds : Reply → ℕ → Type 0
Finds (gives n) index = index ≡ n
Finds (fails e) index = index ≡ 0

index_or_zero-Finds : (r : Reply) → Finds r (index_or_zero r)
unfolding index_or_zero
index_or_zero-Finds (gives n) = refl
index_or_zero-Finds (fails e) = refl

abbrev pub RingEnd : Bytes → Trace → IoResult RingSocket → Type 0
RingEnd name trace (returns ring) =
    (held [] trace ≡ ring.fd ∷ [])
    × (mapped [] trace ≡ ring.ring_ptr ∷ [])
    × (ring.ring_size ≡ 33554432)
    × (ring.current_block ≡ 0)
    × NoNul name
    × (versioned : ℕ) × (sized : ℕ) × (found : Reply) × (index : ℕ) × (bound : ℕ) × Finds found
        index
    × (trace
        ≡ ring_calls ring.fd versioned sized ring.ring_ptr
          ++ (get_index ring.fd (name_field name), found)
            ∷ (bind ring.fd 17 0x0300 index, gives bound)
            ∷ [])
RingEnd name trace (failed (os e)) = (held [] trace ≡ []) × (mapped [] trace ≡ [])
RingEnd name trace (failed nul_in_name) =
    (has_nul name ≡ true)
    × OneHeld trace
    × ((ptr : ℕ) × (mapped [] trace ≡ ptr ∷ []))
    × ((fd : ℕ) × (versioned : ℕ) × (sized : ℕ) × (ptr : ℕ) × (trace
          ≡ ring_calls fd versioned sized ptr))
RingEnd name trace (failed (invalid_input message)) = ⊥
RingEnd name trace (failed (invalid_data message)) = ⊥

pub ring_new-Every : (name : Bytes) → Every (RingEnd name) [] (ring_new name)
unfolding ring_new held mapped ifr_name
ring_new-Every name =
    Every-checked (RingEnd name) [] (open_socket 17 3 0x0300) [] _ (λ e. (refl, refl))
      (λ fd.
        let p1 : Trace = (open_socket 17 3 0x0300, gives fd) ∷ [] in
        Every-checked (RingEnd name) p1 (set_version fd 2) (close fd ∷ []) _
          (λ e closed. (without_head fd [], refl))
          (λ versioned.
            let p2 : Trace = p1 ++ (set_version fd 2, gives versioned) ∷ [] in
            Every-checked (RingEnd name) p2 (set_ring fd geometry) (close fd ∷ []) _
              (λ e closed. (without_head fd [], refl))
              (λ sized.
                let p3 : Trace = p2 ++ (set_ring fd geometry, gives sized) ∷ [] in
                Every-checked (RingEnd name) p3 (map_ring fd (block_size * block_nr))
                  (close fd ∷ []) _ (λ e closed. (without_head fd [], refl))
                  (λ ptr.
                    let p4 : Trace = p3 ++ (map_ring fd (block_size * block_nr), gives ptr) ∷ [] in
                    Every-if (RingEnd name) p4 (has_nul name) (done (failed nul_in_name)) _
                      (λ h. (h, (fd, refl), (ptr, refl), (fd, versioned, sized, ptr, refl)))
                      (λ clean found.
                        Every-checked (RingEnd name)
                          (p4 ++ (get_index fd (ifr_name name), found) ∷ [])
                          (bind fd 17 0x0300 (index_or_zero found))
                          (unmap_ring ptr (block_size * block_nr) ∷ close fd ∷ []) _
                          (λ e unmapped closed. (without_head fd [], without_head ptr []))
                          (λ bound. (
                            refl,
                            refl,
                            refl,
                            refl,
                            has_nul-NoNul name clean,
                            versioned,
                            sized,
                            found,
                            index_or_zero found,
                            bound,
                            index_or_zero-Finds found,
                            refl,
                          )))))))
