-- ===== src/Dns/RoundTrip.antt =====
-- A query that is written label by label is read back.
use net_zer.Prelude.{
  ℕ, Bytes, List, ◌∷◌, length, All, ◌≡◌, ◌++◌, ◌<◌, arith, [], sym, suc, length-append, ap,
  append-nil, append_assoc, ◌+◌, All-append, ◌∙◌, zero, get_or,
}
use net_zer.Outcome.{run_loop, ok, run_loop_stop, next, get_or-append_left, run_loop_next}
use net_zer.Dns.{qname_body, read_qname, parse}
use net_zer.Dns.Names.{IsLabel, wire, join, push_label-join, is_empty-join}
use net_zer.Dns.Round.{round_root, round_label}
use net_zer.Dns.Parse.{flags, qdcount, finish, parse_header}

-- The loop over the labels that are left, with the labels that were read in `done`.
run-wire :
    (labels done : List Bytes) (pre rest : Bytes) (offset fuel : ℕ)
    → All IsLabel done
    → All IsLabel labels
    → offset ≡ length pre
    → length (wire labels) < fuel
    → run_loop fuel (qname_body (pre ++ (wire labels ++ (0 ∷ rest)))) (offset, join done)
      ≡ ok (join (done ++ labels))
run-wire labels done pre rest offset zero hd hl o f = absurd (omega arith)
run-wire [] done pre rest offset (suc fuel) hd hl o f =
    run_loop_stop _ fuel _ _ (round_root pre offset (join done) o rest)
    ∙ ap ok (ap join (sym (append-nil done)))
run-wire (l ∷ ls) done pre rest offset (suc fuel) hd (h, hs) o f =
    let after : Bytes = wire ls ++ (0 ∷ rest) in
    let shape : pre ++ (wire (l ∷ ls) ++ (0 ∷ rest)) ≡ pre ++ (length l ∷ (l ++ after)) =
      simp append_assoc in
    let regroup : pre ++ (length l ∷ (l ++ after)) ≡ (pre ++ (length l ∷ l)) ++ after =
      simp append_assoc in
    let round : qname_body (pre ++ (length l ∷ (l ++ after))) (offset, join done)
        ≡ next (offset + 1 + length l, join (done ++ (l ∷ []))) =
      rw (
        round_label pre offset (join done) o l after h.not_empty h.not_pointer
            (omega (arith, length-append (wire ls) (0 ∷ rest))),
        h.is_text,
        push_label-join done l hd,
      ) in
    rw shape (
      run_loop_next _ fuel _ _ round
      ∙ rw regroup (
          run-wire ls (done ++ (l ∷ [])) (pre ++ (length l ∷ l)) rest (offset + 1 + length l) fuel
            (All-append IsLabel done (l ∷ []) hd (h, tt)) hs
            (omega (arith, length-append pre (length l ∷ l)))
            (omega (arith, length-append l (wire ls))))
      ∙ ap ok (ap join (append_assoc done (l ∷ []) ls)))

read_qname-wire :
    (front : Bytes) (labels : List Bytes) (rest : Bytes)
    → length front ≡ 12
    → All IsLabel labels
    → read_qname (front ++ (wire labels ++ (0 ∷ rest))) ≡ ok (join labels)
unfolding read_qname
read_qname-wire front labels rest l h = run-wire labels [] front rest 12 _ tt h (sym l) (
    omega (
      arith,
      length-append front (wire labels ++ (0 ∷ rest)),
      length-append (wire labels) (0 ∷ rest),
    ))

-- A query with a header of 12 bytes, the response bit clear and a question count that is not 0, and
-- with one label or more, each of 1 to 191 bytes of UTF-8, ended by the root label, is parsed into those labels
-- joined by dots, whatever follows.
pub parse_dns-wire :
    (front : Bytes) (label : Bytes) (labels : List Bytes) (rest : Bytes)
    → length front ≡ 12
    → flags front < 128
    → 0 < qdcount front
    → All IsLabel (label ∷ labels)
    → parse (front ++ (wire (label ∷ labels) ++ (0 ∷ rest)))
      ≡ ok (record { domain_name = join (label ∷ labels) })
unfolding finish
parse_dns-wire front label labels rest l f q h =
    let tail : Bytes = wire (label ∷ labels) ++ (0 ∷ rest) in
    let same : (i : ℕ) → i < 12 → get_or (front ++ tail) i 0 ≡ get_or front i 0 =
      λ i b. get_or-append_left front tail i (omega arith) in
    let e2 = same 2 (omega arith) in
    let e4 = same 4 (omega arith) in
    let e5 = same 5 (omega arith) in
    rw
      (
        parse_header (front ++ tail) (omega (arith, length-append front tail)) (omega (arith, e2)),
        read_qname-wire front (label ∷ labels) rest l h,
      )
      (ground (arith, e2, e4, e5, is_empty-join (label ∷ labels) h))
