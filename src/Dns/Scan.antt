-- ===== src/Dns/Scan.antt =====
-- The loop over the labels of the question's name, on every buffer.
use net_zer.Prelude.{
  Bytes, ℕ, List, length, ◌∷◌, ◌++◌, ◌≡◌, ◌<◌, ◌+◌, ◌∙◌, ◌≤◌, [], ◌-◌, ◌⊎◌, All, false,
  append_assoc, ap, append-nil, All-append, arith, IsByte, sym, inl, Bool-cases, length-append,
  split_at, suc, inr, refl, All-append_right, subst, zero,
}
use native.Mathlib.Decide.{dec_le}
use net_zer.Outcome.{
  ParseError, Outcome, Flow, ok, err, Round, stop, run_loop_rule, next, invalid_format,
  buffer_too_short,
}
use net_zer.Text.Utf8.{is_utf8}
use net_zer.Dns.{push_label, qname_body, read_qname}
use net_zer.Dns.Names.{IsLabel, wire, join, wire-append, push_label-join}
use net_zer.Dns.Round.{round_end, round_root, round_pointer, round_cut, round_label}

-- The buffer is a header of 12 bytes, the labels that were read, and the suffix.
pub record Reached (buffer : Bytes) (labels : List Bytes) (suffix : Bytes) : Type 0 where
  pub front : Bytes
  pub layout : buffer ≡ front ++ (wire labels ++ suffix)
  pub length_front : length front ≡ 12
  pub are_labels : All IsLabel labels

-- What the loop's outcome says of the buffer: the name ends at the root label (or at once, where the
-- header is all there is), a label is cut off, or a length is a pointer's or a label is no text.
pub record Complete (buffer domain : Bytes) : Type 0 where
  pub labels : List Bytes
  pub suffix : Bytes
  pub reached : Reached buffer labels suffix
  pub is_join : domain ≡ join labels
  pub ends : ((rest : Bytes) × (suffix ≡ 0 ∷ rest)) ⊎ ((labels ≡ []) × (suffix ≡ []))

pub record Cut (buffer : Bytes) : Type 0 where
  pub labels : List Bytes
  pub len : ℕ
  pub rest : Bytes
  pub reached : Reached buffer labels (len ∷ rest)
  pub is_len : (0 < len) × (len < 192)
  pub short : length rest ≤ len

pub record Malformed (buffer : Bytes) : Type 0 where
  pub labels : List Bytes
  pub len : ℕ
  pub rest : Bytes
  pub reached : Reached buffer labels (len ∷ rest)
  pub why :
      (192 ≤ len)
      ⊎ ((label : Bytes) × (after : Bytes) × (rest ≡ label ++ after)
          × (length label ≡ len)
          × (is_utf8 label ≡ false))

abbrev pub Qname : Bytes → Outcome Bytes → Type 0
Qname buffer (ok domain) = Complete buffer domain
Qname buffer (err ParseError.buffer_too_short) = Cut buffer
Qname buffer (err ParseError.invalid_format) = Malformed buffer
Qname buffer _ = ⊥

-- The loop's invariant.
record Scanned (buffer : Bytes) (s : ℕ × Bytes) : Type 0 where
  labels : List Bytes
  suffix : Bytes
  reached : Reached buffer labels suffix
  offset_is : s.0 ≡ 12 + length (wire labels)
  domain_is : s.1 ≡ join labels
  more : (labels ≡ []) ⊎ (0 < length suffix)

Reached-snoc :
    {buffer : Bytes} {labels : List Bytes} (label rest : Bytes)
    → IsLabel label
    → Reached buffer labels (length label ∷ (label ++ rest))
    → Reached buffer (labels ++ (label ∷ [])) rest
Reached-snoc {buffer} {labels} label rest h r = record {
  front = r.front;
  layout =
      r.layout
      ∙ ap (λ (t : Bytes). r.front ++ t)
          (rw (wire-append labels (label ∷ [])) (simp (append_assoc, append-nil)));
  length_front = r.length_front;
  are_labels = All-append IsLabel labels (label ∷ []) r.are_labels (h, tt);
}

-- The bytes before the offset.
abbrev passed :
    {buffer : Bytes} {labels : List Bytes} {suffix : Bytes} → Reached buffer labels suffix → Bytes
passed {labels = labels} r = r.front ++ wire labels

passed_layout :
    {buffer : Bytes} {labels : List Bytes} {suffix : Bytes} (r : Reached buffer labels suffix)
    → buffer ≡ passed r ++ suffix
passed_layout r = r.layout ∙ simp append_assoc

abbrev Keeps : Bytes → ℕ × Bytes → Type 0
Keeps buffer s =
    Round (Scanned buffer) (Qname buffer) (λ t. length buffer - t.0) (length buffer - s.0)
      (qname_body buffer s)

-- Carries a round on the laid-out buffer over to the buffer, with what the round must give.
keep_by :
    {buffer : Bytes} {labels : List Bytes} {suffix : Bytes} (r : Reached buffer labels suffix)
    (s : ℕ × Bytes) (result : Flow (ℕ × Bytes) Bytes)
    → qname_body (passed r ++ suffix) s ≡ result
    → Round (Scanned buffer) (Qname buffer) (λ t. length buffer - t.0) (length buffer - s.0) result
    → Keeps buffer s
keep_by {buffer} r s result e k =
    let body : qname_body buffer s ≡ result = ap (λ b. qname_body b s) (passed_layout r) ∙ e in
    rw body k

length-passed :
    {buffer : Bytes} {labels : List Bytes} {suffix : Bytes} (r : Reached buffer labels suffix)
    → (length (passed r) ≡ 12 + length (wire labels))
      × (length buffer ≡ length (passed r) + length suffix)
length-passed {labels = labels} {suffix = suffix} r = (
  omega (arith, length-append r.front (wire labels), r.length_front),
  ap length (passed_layout r) ∙ length-append (passed r) suffix,
)

-- The round at a label that is whole.
keep_label :
    (buffer : Bytes) (offset : ℕ) (domain : Bytes) (labels : List Bytes) (label rest : Bytes)
    (r : Reached buffer labels (length label ∷ (label ++ rest)))
    → offset ≡ 12 + length (wire labels)
    → domain ≡ join labels
    → 0 < length label
    → length label < 192
    → 0 < length rest
    → Keeps buffer (offset, domain)
keep_label buffer offset domain labels label rest r o d pos h more =
    let (lp, lb) = length-passed r in
    let round = round_label (passed r) offset domain (o ∙ sym lp) label rest pos h more in
    elim (Bool-cases (is_utf8 label)) [
      | inl text ↦
          let good : IsLabel label = record { not_empty = pos; not_pointer = h; is_text = text } in
          keep_by r (offset, domain) (next (offset + 1 + length label, push_label domain label))
            (round ∙ rw text)
            (
              record {
                labels = labels ++ (label ∷ []);
                suffix = rest;
                reached = Reached-snoc label rest good r;
                offset_is = rw (wire-append labels (label ∷ [])) (
                    omega (
                      arith,
                      length-append (wire labels) (length label ∷ (label ++ [])),
                      length-append label [],
                    ));
                domain_is =
                    ap (λ (t : Bytes). push_label t label) d
                    ∙ push_label-join labels label r.are_labels;
                more = inr more;
              },
              omega (arith, lb, length-append label rest),
            )
      | inr bad ↦
          keep_by r (offset, domain) (stop (err invalid_format)) (round ∙ rw bad)
            (record {
              labels = labels;
              len = length label;
              rest = label ++ rest;
              reached = r;
              why = inr (label, rest, refl, refl, bad);
            })
    ]

-- The round at any byte.
keep_byte :
    (buffer : Bytes) (offset : ℕ) (domain : Bytes) (labels : List Bytes) (len : ℕ) (rest : Bytes)
    (r : Reached buffer labels (len ∷ rest))
    → len < 256
    → offset ≡ 12 + length (wire labels)
    → domain ≡ join labels
    → Keeps buffer (offset, domain)
keep_byte buffer offset domain labels zero rest r byte o d =
    keep_by r (offset, domain) (stop (ok domain))
      (round_root (passed r) offset domain (o ∙ sym (length-passed r).0) rest)
      (record {
        labels = labels;
        suffix = 0 ∷ rest;
        reached = r;
        is_join = d;
        ends = inl (rest, refl);
      })
keep_byte buffer offset domain labels (suc n) rest r byte o d =
    let at : offset ≡ length (passed r) = o ∙ sym (length-passed r).0 in
    elim (dec_le 192 (suc n)) [
      | yes h ↦
          keep_by r (offset, domain) (stop (err invalid_format))
            (round_pointer (passed r) offset domain at (suc n) rest byte h)
            (record { labels = labels; len = suc n; rest = rest; reached = r; why = inl h })
      | no h ↦ elim (dec_le (length rest) (suc n)) [
        | yes q ↦
            keep_by r (offset, domain) (stop (err buffer_too_short))
              (round_cut (passed r) offset domain at (suc n) rest (omega arith) (omega arith) q)
              (record {
                labels = labels;
                len = suc n;
                rest = rest;
                reached = r;
                is_len = (omega arith, omega arith);
                short = q;
              })
        | no q ↦
            let (label, after, e, l) = split_at (suc n) rest (omega arith) in
            let whole : suc n ∷ rest ≡ length label ∷ (label ++ after) = cc in
            keep_label buffer offset domain labels label after
              (subst (Reached buffer labels) whole r) o d (omega (arith, l)) (omega (arith, l))
              (omega (arith, ap length e, length-append label after, l))
      ]
    ]

keep : (buffer : Bytes) → All IsByte buffer → (s : ℕ × Bytes) → Scanned buffer s → Keeps buffer s
keep buffer bytes (offset, domain) c = go c.suffix c.reached c.more
  where
    go :
        (suffix : Bytes)
        → Reached buffer c.labels suffix
        → (c.labels ≡ []) ⊎ (0 < length suffix)
        → Keeps buffer (offset, domain)
    go [] r (inl none_read) =
        keep_by r (offset, domain) (stop (ok domain))
          (round_end (passed r) offset domain (c.offset_is ∙ sym (length-passed r).0))
          (record {
            labels = c.labels;
            suffix = [];
            reached = r;
            is_join = c.domain_is;
            ends = inr (none_read, refl);
          })
    go [] r (inr h) = absurd (omega arith)
    go (len ∷ rest) r m =
        let tail =
          All-append_right IsByte (passed r) (len ∷ rest)
            (subst (All IsByte) (passed_layout r) bytes) in
        keep_byte buffer offset domain c.labels len rest r tail.0 c.offset_is c.domain_is

-- Reading the name ends on every buffer of bytes that holds a header, and its outcome says how the
-- labels behind the header end.
pub read_qname-Qname :
    (buffer : Bytes) → All IsByte buffer → 12 ≤ length buffer → Qname buffer (read_qname buffer)
unfolding read_qname
read_qname-Qname buffer bytes h =
    let (front, suffix, e, l) = split_at 12 buffer h in
    run_loop_rule (Scanned buffer) (Qname buffer) (λ t. length buffer - t.0) (qname_body buffer)
      (keep buffer bytes) (suc (length buffer)) (12, []) (omega arith)
      (record {
        labels = [];
        suffix = suffix;
        reached = record { front = front; layout = e; length_front = l; are_labels = tt };
        offset_is = refl;
        domain_is = refl;
        more = inl refl;
      })
