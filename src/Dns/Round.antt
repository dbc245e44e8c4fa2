-- ===== src/Dns/Round.antt =====
-- One round of the loop over the labels of the question's name.
use net_zer.Prelude.{
  Bytes, ℕ, ◌≡◌, length, ◌++◌, ◌<◌, [], ◌∷◌, ◌≤◌, if◌then◌else◌, arith, ◌+◌, length-append,
  append_assoc, top_two_bits,
}
use net_zer.Outcome.{
  stop, next, ok, err, buffer_too_short, index-append, invalid_format, slice, slice-append,
}
use net_zer.Text.Utf8.{is_utf8}
use net_zer.Dns.{push_label, qname_body}

-- One round, by what stands behind the offset.
module _ (front : Bytes) (offset : ℕ) (domain : Bytes) (at : offset ≡ length front) where
  pub round_end : qname_body (front ++ []) (offset, domain) ≡ stop (ok domain)
  unfolding qname_body
  round_end = ground (arith, length-append front [])

  pub round_root :
      (rest : Bytes) → qname_body (front ++ (0 ∷ rest)) (offset, domain) ≡ stop (ok domain)
  unfolding qname_body
  round_root rest =
      rw (index-append front 0 rest offset at) (ground (arith, length-append front (0 ∷ rest)))

  pub round_pointer :
      (b : ℕ) (rest : Bytes)
      → b < 256
      → 192 ≤ b
      → qname_body (front ++ (b ∷ rest)) (offset, domain) ≡ stop (err invalid_format)
  unfolding qname_body
  round_pointer b rest byte h =
      rw (index-append front b rest offset at)
        (ground (arith, length-append front (b ∷ rest), top_two_bits b byte))

  pub round_cut :
      (b : ℕ) (rest : Bytes)
      → 0 < b
      → b < 192
      → length rest ≤ b
      → qname_body (front ++ (b ∷ rest)) (offset, domain) ≡ stop (err buffer_too_short)
  unfolding qname_body
  round_cut b rest pos h short =
      rw (index-append front b rest offset at)
        (ground (arith, length-append front (b ∷ rest), top_two_bits b (omega arith)))

  pub round_label :
      (label rest : Bytes)
      → 0 < length label
      → length label < 192
      → 0 < length rest
      → qname_body (front ++ (length label ∷ (label ++ rest))) (offset, domain) ≡ (
          if is_utf8 label
          then next (offset + 1 + length label, push_label domain label)
          else stop (err invalid_format))
  unfolding qname_body
  round_label label rest pos h more =
      let part : slice (front ++ (length label ∷ (label ++ rest))) (offset + 1)
            (offset + 1 + length label)
          ≡ ok label =
        rw (shift) (
          slice-append (front ++ (length label ∷ [])) label rest (offset + 1)
            (offset + 1 + length label) (omega (arith, length-append front (length label ∷ [])))
            (omega (arith, length-append front (length label ∷ [])))) in
      rw (index-append front (length label) (label ++ rest) offset at) (
        ground (
          arith,
          part,
          length-append front (length label ∷ (label ++ rest)),
          length-append label rest,
          top_two_bits (length label) (omega arith),
        ))
    where
      shift :
          front ++ (length label ∷ (label ++ rest))
          ≡ (front ++ (length label ∷ [])) ++ (label ++ rest)
      shift = simp append_assoc
