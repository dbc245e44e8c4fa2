-- ===== src/Socket/Filter/Port.antt =====
-- Which frames the port filter of netzer-socket/src/socket.rs keeps.
use net_zer.Prelude.{
  Bytes, List, ℕ, Option, get_or, Bool, get_elem?, false, ◌%◌, ◌&&◌, ◌≡◌, ◌*◌, some, not, drop,
  ◌||◌, ◌==◌, true, ◌+◌, if◌then◌else◌, none, ◌≤◌, arith, Bool-cases, Option-cases, inl, ◌∷◌, refl,
  inr, suc, [], zero,
}
use net_zer.Socket.Filter.{SockFilter, filter_port, half_at, IsMachine}

-- Whether a field is there and has the value.
abbrev pub says : Option ℕ → ℕ → Bool
says none n = false
says (some m) n = m == n

abbrev pub present : Option ℕ → Bool
present none = false
present (some n) = true

-- How long the IPv4 header of the frame is, by its first byte.
abbrev pub ip_length : Bytes → ℕ
ip_length p = get_or p 14 0 % 16 * 4

-- A frame with a type; of those with IPv4, one with a protocol; of those with TCP or UDP, one with a
-- source port, where it or the destination port is the wanted one.
unfoldable pub keeps_port : ℕ → Bytes → Bool
keeps_port port p =
    present (half_at p 12)
    && (not (says (half_at p 12) 0x0800)
        || (present (get_elem? p 23)
            && (not (says (get_elem? p 23) 6 || says (get_elem? p 23) 17)
                || (present (half_at p (ip_length p + 14))
                    && (says (half_at p (ip_length p + 14)) port
                        || says (half_at p (ip_length p + 16)) port)))))

elem_before :
    (p : Bytes) (i j y : ℕ) → i ≤ j → get_elem? p j ≡ some y → get_elem? p i ≡ some (get_or p i 0)
elem_before [] i j y h e = absurd (cc)
elem_before (x ∷ p) zero j y h e = refl
elem_before (x ∷ p) (suc i) zero y h e = absurd (omega arith)
elem_before (x ∷ p) (suc i) (suc j) y h e = elem_before p i j y (omega arith) e

first_byte :
    (p : Bytes) (proto : ℕ)
    → get_elem? p 23 ≡ some proto
    → (first : ℕ) × (get_elem? p 14 ≡ some first) × (get_or p 14 0 ≡ first)
first_byte p proto e = (get_or p 14 0, elem_before p 14 23 proto (omega arith) e, refl)

module _ (exec : List SockFilter → ℕ → ℕ → Bytes → ℕ) (m : IsMachine exec) where
  -- The last instruction but four on: the source port `s` is loaded, and the header takes `x` bytes.
  source_checked :
      (port s x : ℕ) (p : Bytes)
      → exec (drop 7 (filter_port port)) s x p
        ≡ (if s == port || says (half_at p (x + 16)) port then 65535 else 0)
  unfolding filter_port
  source_checked port s x p = elim (Bool-cases (s == port)) [
    | inl same ↦ rw (m.jump_equal, same, m.keep) refl
    | inr other ↦
        rw (m.jump_equal, other, m.load_half_indexed)
          (elim (Option-cases (half_at p (x + 16))) [
            | inl short ↦ rw short refl
            | inr (d, e) ↦
                rw (e, m.jump_equal)
                  (elim (Bool-cases (d == port)) [
                    | inl same ↦ rw (same, m.keep) refl
                    | inr differs ↦ rw (differs, m.keep) refl
                  ])
          ])
  ]

  ports_checked :
      (port a x first : ℕ) (p : Bytes)
      → get_elem? p 14 ≡ some first
      → exec (drop 5 (filter_port port)) a x p ≡ (
          if present (half_at p (first % 16 * 4 + 14))
            && (says (half_at p (first % 16 * 4 + 14)) port
                || says (half_at p (first % 16 * 4 + 16)) port)
          then 65535
          else 0)
  unfolding filter_port
  ports_checked port a x first p e =
      rw (m.load_header_length, e, m.load_half_indexed)
        (elim (Option-cases (half_at p (first % 16 * 4 + 14))) [
          | inl short ↦ rw short refl
          | inr (s, e2) ↦ rw e2 (source_checked port s (first % 16 * 4) p)
        ])

  proto_checked :
      (port proto x first : ℕ) (p : Bytes)
      → get_elem? p 14 ≡ some first
      → exec (drop 3 (filter_port port)) proto x p ≡ (
          if not (proto == 6 || proto == 17)
            || (present (half_at p (first % 16 * 4 + 14))
                && (says (half_at p (first % 16 * 4 + 14)) port
                    || says (half_at p (first % 16 * 4 + 16)) port))
          then 65535
          else 0)
  unfolding filter_port
  proto_checked port proto x first p e = elim (Bool-cases (proto == 6)) [
    | inl tcp ↦ rw (m.jump_equal, tcp) (ports_checked port proto x first p e)
    | inr more ↦
        rw (m.jump_equal, more, m.jump_equal)
          (elim (Bool-cases (proto == 17)) [
            | inl udp ↦ rw udp (ports_checked port proto x first p e)
            | inr other ↦ rw (other, m.keep) refl
          ])
  ]

  -- On a machine that runs the instructions as documented, from any registers, the port filter keeps the
  -- whole of a frame or nothing of it. It keeps every frame whose type is not IPv4, every IPv4 frame whose
  -- protocol is neither TCP nor UDP, and of TCP and UDP those that have the port as their source or as
  -- their destination port, read behind a header as long as its first byte says. It keeps no frame that is
  -- too short for a field that it has to read.
  pub filter_port-keeps :
      (port a x : ℕ) (p : Bytes)
      → exec (filter_port port) a x p ≡ (if keeps_port port p then 65535 else 0)
  unfolding filter_port keeps_port
  filter_port-keeps port a x p = rw m.load_half (elim (Option-cases (half_at p 12)) [
    | inl short ↦ rw short refl
    | inr (kind, e) ↦
        rw (e, m.jump_equal)
          (elim (Bool-cases (kind == 0x0800)) [
            | inl ip ↦
                rw (ip, m.load_byte)
                  (elim (Option-cases (get_elem? p 23)) [
                    | inl cut ↦ rw cut refl
                    | inr (proto, e2) ↦
                        let (first, e3, e4) = first_byte p proto e2 in
                        rw (e2, e4) (proto_checked port proto x first p e3)
                  ])
            | inr other ↦ rw (other, m.keep) refl
          ])
  ])
