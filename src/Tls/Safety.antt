-- ===== src/Tls/Safety.antt =====
-- Where the reads of the parser stand, and what it returns.
use net_zer.Prelude.{
  Bytes, ℕ, All, IsByte, ◌≡◌, ◌++◌, ◌+◌, ◌∷◌, ◌≤◌, length, get_or, ◌*◌, true, arith, ap,
  bit_or_byte, refl, ◌∙◌, append_assoc, [], sym, Option, ◌-◌, some, none, Bool-cases, leb, inr, inl,
  if_elim, ◌<◌, suc, ltb, leb→le, ◌==◌,
}
use native.Mathlib.Nat.{add-zero}
use net_zer.Outcome.{
  Flow, Safe, ok, index_lt, slice, slice_split, split_exact, get_or-IsByte, three_of_length,
  get_or_at, Round, Safe-refuse_if, run_loop_rule, Round-step, buffer_too_short,
}
use net_zer.Text.Utf8.{is_utf8}
use net_zer.Tls.{
  u16_at, name_body, find_name, extension_body, find_sni, parse_hello, after_name, take_extension,
  take_name, skip_ciphers, parse_extensions, skip_methods,
}

-- A host name of the buffer: UTF-8 bytes, behind a name type of 0 and two bytes that hold their number.
pub record IsHost (buffer host : Bytes) : Type 0 where
  pub before : Bytes
  pub hi : ℕ
  pub lo : ℕ
  pub after : Bytes
  pub layout : buffer ≡ before ++ (0 ∷ hi ∷ lo ∷ (host ++ after))
  pub length_host : length host ≡ hi * 256 + lo
  pub is_text : is_utf8 host ≡ true

pub u16_at_lt :
    (b : Bytes) (i : ℕ)
    → All IsByte b
    → i + 2 ≤ length b
    → u16_at b i ≡ ok (get_or b i 0 * 256 + get_or b (i + 1) 0)
unfolding u16_at
u16_at_lt b i bytes h =
    rw (index_lt b i (omega arith), index_lt b (i + 1) (omega arith))
      (ap ok (bit_or_byte (get_or b i 0) (get_or b (i + 1) 0) (get_or-IsByte b (i + 1) bytes)))

parts-IsHost :
    (buffer before host after : Bytes) (x hi lo i len : ℕ)
    → buffer ≡ before ++ (x ∷ hi ∷ lo ∷ (host ++ after))
    → length before ≡ i
    → length host ≡ len
    → get_or buffer i 0 ≡ 0
    → len ≡ get_or buffer (i + 1) 0 * 256 + get_or buffer (i + 1 + 1) 0
    → is_utf8 host ≡ true
    → IsHost buffer host
parts-IsHost buffer before host after x hi lo i len layout p l z e text =
    let at : (j : ℕ) → get_or buffer (i + j) 0 ≡ get_or (x ∷ hi ∷ lo ∷ (host ++ after)) j 0 =
      λ j. get_or_at buffer before (x ∷ hi ∷ lo ∷ (host ++ after)) i j layout p in
    let same : i + 1 + 1 ≡ i + 2 = omega arith in
    let third : get_or buffer (i + 1 + 1) 0 ≡ lo = ap (λ (t : ℕ). get_or buffer t 0) same ∙ at 2 in
    let zero_is : x ≡ 0 = sym (at 0) ∙ ap (λ (t : ℕ). get_or buffer t 0) (add-zero i) ∙ z in
    record {
      before = before;
      hi = hi;
      lo = lo;
      after = after;
      layout = layout ∙ ap (λ (t : ℕ). before ++ (t ∷ hi ∷ lo ∷ (host ++ after))) zero_is;
      length_host = omega (arith, l, e, at 1, third);
      is_text = text;
    }

module _ (buffer : Bytes) (bytes : All IsByte buffer) where
  Safe-u16_at :
      (i : ℕ)
      → i + 2 ≤ length buffer
      → Safe (λ n. n ≡ get_or buffer i 0 * 256 + get_or buffer (i + 1) 0) (u16_at buffer i)
  Safe-u16_at i h = rw (u16_at_lt buffer i bytes h) refl

  -- The name that a slice in range gives, behind three bytes.
  Safe-hostname :
      (i len : ℕ)
      → i + 3 + len ≤ length buffer
      → get_or buffer i 0 ≡ 0
      → len ≡ get_or buffer (i + 1) 0 * 256 + get_or buffer (i + 1 + 1) 0
      → Safe (λ host. is_utf8 host ≡ true → IsHost buffer host) (slice buffer (i + 3) (i + 3 + len))
  Safe-hostname i len h z e =
      let (a, host, c, whole, la, lh, s) =
        slice_split buffer (i + 3) (i + 3 + len) (omega arith) h in
      let (before, three, e1, p1, l1) = split_exact i 3 a la in
      let (x, y, w, e2) = three_of_length three l1 in
      let layout : buffer ≡ before ++ (x ∷ y ∷ w ∷ (host ++ c)) =
        whole
        ∙ ap (λ (t : Bytes). t ++ (host ++ c)) (e1 ∙ ap (λ (t : Bytes). before ++ t) e2)
        ∙ append_assoc before (x ∷ y ∷ w ∷ []) (host ++ c) in
      rw s (λ text.
        parts-IsHost buffer before host c x y w i len layout p1 (omega (arith, lh)) z e text)

  -- What the inner loop returns: nothing, or a host name.
  abbrev Found : Option Bytes → Type 0
  Found none = Unit
  Found (some host) = IsHost buffer host

  module _ (sni_end : ℕ) (h : sni_end ≤ length buffer) where
    abbrev NameRound : ℕ → Flow ℕ (Option Bytes) → Type 0
    NameRound offset = Round (λ _. Unit {0}) (Safe Found) (λ t. sni_end - t) (sni_end - offset)

    Round_take_name :
        (offset name_type len : ℕ)
        → offset + 3 ≤ sni_end
        → name_type ≡ get_or buffer offset 0
        → len ≡ get_or buffer (offset + 1) 0 * 256 + get_or buffer (offset + 1 + 1) 0
        → NameRound offset (take_name buffer sni_end (offset + 3) name_type len)
    unfolding take_name
    Round_take_name offset name_type len room t e =
        elim (Bool-cases (ltb sni_end (offset + 3 + len))) [
          | inl past ↦ rw past tt
          | inr inside ↦ elim (Bool-cases (name_type == 0)) [
            | inr other ↦ rw (inside, other) (tt, ground arith)
            | inl zero_type ↦
                rw (inside, zero_type)
                  (Round-step (λ _. Unit {0}) Found
                    (λ host. is_utf8 host ≡ true → IsHost buffer host) (λ k. sni_end - k)
                    (sni_end - offset) (slice buffer (offset + 3) (offset + 3 + len)) _
                    (Safe-hostname offset len (ground arith) (ground arith) e)
                    (λ host good. if_elim (NameRound offset) (is_utf8 host) _ _ good (λ _. tt)))
          ]
        ]

    Round_name : (offset : ℕ) → Unit {0} → NameRound offset (name_body buffer sni_end offset)
    unfolding name_body
    Round_name offset u = elim (Bool-cases (leb (offset + 3) sni_end)) [
      | inr e ↦ rw e tt
      | inl e ↦
          let room : offset + 3 ≤ sni_end = leb→le _ _ e in
          rw
            (
              e,
              index_lt buffer offset (omega arith),
              u16_at_lt buffer (offset + 1) bytes (omega arith),
            )
            (Round_take_name offset (get_or buffer offset 0) _ room refl refl)
    ]

  Safe-find_name :
      (offset ext_len : ℕ)
      → offset + ext_len ≤ length buffer
      → Safe Found (find_name buffer offset ext_len)
  unfolding find_name
  Safe-find_name offset ext_len h = Safe-refuse_if Found (ltb ext_len 2) _ _ (λ _.
      run_loop_rule (λ _. Unit {0}) (Safe Found) (λ t. offset + ext_len - t) _
        (Round_name (offset + ext_len) h) (suc (length buffer)) (offset + 2) (omega arith) tt)

  module _ (end : ℕ) (h : end ≤ length buffer) where
    abbrev ExtensionRound : ℕ → Flow ℕ Bytes → Type 0
    ExtensionRound offset =
        Round (λ _. Unit {0}) (Safe (IsHost buffer)) (λ t. end - t) (end - offset)

    Round_after_name :
        (offset target : ℕ) (found : Option Bytes)
        → end - target < end - offset
        → Found found
        → ExtensionRound offset (after_name target found)
    Round_after_name offset target none less f = (tt, less)
    Round_after_name offset target (some host) less f = f

    Round_take_extension :
        (offset ext_type len : ℕ)
        → offset + 4 ≤ end
        → ExtensionRound offset (take_extension buffer end (offset + 4) ext_type len)
    unfolding take_extension
    Round_take_extension offset ext_type len room = elim (Bool-cases (ltb end (offset + 4 + len))) [
      | inl past ↦ rw past tt
      | inr inside ↦ elim (Bool-cases (ext_type == 0)) [
        | inr other ↦ rw (inside, other) (tt, ground arith)
        | inl sni ↦
            rw (inside, sni)
              (Round-step (λ _. Unit {0}) (IsHost buffer) Found (λ t. end - t) (end - offset)
                (find_name buffer (offset + 4) len) (after_name (offset + 4 + len))
                (Safe-find_name (offset + 4) len (ground arith))
                (λ found f. Round_after_name offset (offset + 4 + len) found (omega arith) f))
      ]
    ]

    Round_extension :
        (offset : ℕ) → Unit {0} → ExtensionRound offset (extension_body buffer end offset)
    unfolding extension_body
    Round_extension offset u = elim (Bool-cases (leb (offset + 4) end)) [
      | inr e ↦ rw e tt
      | inl e ↦
          let room : offset + 4 ≤ end = leb→le _ _ e in
          rw
            (
              e,
              u16_at_lt buffer offset bytes (omega arith),
              u16_at_lt buffer (offset + 2) bytes (omega arith),
            )
            (Round_take_extension offset _ _ room)
    ]

  Safe-find_sni :
      (end offset : ℕ) → end ≤ length buffer → Safe (IsHost buffer) (find_sni buffer end offset)
  unfolding find_sni
  Safe-find_sni end offset h =
      run_loop_rule (λ _. Unit {0}) (Safe (IsHost buffer)) (λ t. end - t) _ (Round_extension end h)
        (suc (length buffer)) offset (omega arith) tt

  -- Each read past a test is in range.
  Safe-parse_extensions : (i : ℕ) → Safe (IsHost buffer) (parse_extensions buffer i)
  unfolding parse_extensions
  Safe-parse_extensions i = elim (Bool-cases (ltb (length buffer) (i + 2))) [
    | inl e ↦ rw e tt
    | inr e ↦
        let len : ℕ = get_or buffer i 0 * 256 + get_or buffer (i + 1) 0 in
        rw (e, u16_at_lt buffer i bytes (ground arith))
          (Safe-refuse_if (IsHost buffer) (ltb (length buffer) (i + 2 + len)) buffer_too_short
            (find_sni buffer (i + 2 + len) (i + 2))
            (λ inside. Safe-find_sni (i + 2 + len) (i + 2) (ground arith)))
  ]

  Safe-skip_methods : (i : ℕ) → Safe (IsHost buffer) (skip_methods buffer i)
  unfolding skip_methods
  Safe-skip_methods i = elim (Bool-cases (ltb (length buffer) (i + 1))) [
    | inl e ↦ rw e tt
    | inr e ↦ rw (e, index_lt buffer i (ground arith)) (Safe-parse_extensions _)
  ]

  Safe-skip_ciphers : (i : ℕ) → Safe (IsHost buffer) (skip_ciphers buffer i)
  unfolding skip_ciphers
  Safe-skip_ciphers i = elim (Bool-cases (ltb (length buffer) (i + 2))) [
    | inl e ↦ rw e tt
    | inr e ↦ rw (e, u16_at_lt buffer i bytes (ground arith)) (Safe-skip_methods _)
  ]

  pub Safe-parse_hello : (i : ℕ) → Safe (IsHost buffer) (parse_hello buffer i)
  unfolding parse_hello
  Safe-parse_hello i = elim (Bool-cases (leb (length buffer) i)) [
    | inl e ↦ rw e tt
    | inr e ↦ rw (e, index_lt buffer i (ground arith)) (Safe-skip_ciphers _)
  ]
