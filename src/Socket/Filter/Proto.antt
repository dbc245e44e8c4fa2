-- ===== src/Socket/Filter/Proto.antt =====
-- Which frames the protocol filters of netzer-socket/src/socket.rs keep.
use net_zer.Prelude.{
  Bytes, List, ℕ, ◌≡◌, Bool, Option, if◌then◌else◌, true, ◌&&◌, not, ascii, Bool-cases,
  Option-cases, [], ◌||◌, some, inl, ◌∷◌, inr, none, ◌==◌, ap, get_elem?, refl, ==_iff, false,
}
use mathlib.Core.Option
use net_zer.Stream.{str_eq}
use net_zer.Socket.Filter.{SockFilter, filter_ipv4, filter_arp, filter_proto, half_at, IsMachine}
use net_zer.Socket.Filter.Port.{says, present}

-- A frame with a type; of those with IPv4, one with the protocol `number`.
unfoldable pub keeps_ipv4 : ℕ → Bytes → Bool
keeps_ipv4 number p =
    present (half_at p 12) && (not (says (half_at p 12) 0x0800) || says (get_elem? p 23) number)

-- A frame whose type is ARP.
unfoldable pub keeps_arp : Bytes → Bool
keeps_arp p = says (half_at p 12) 0x0806

-- The test that a name in lower case stands for.
unfoldable pub keeps_proto : Bytes → Option (Bytes → Bool)
keeps_proto name =
    if str_eq name (ascii "arp")
    then some keeps_arp
    else if str_eq name (ascii "icmp")
    then some (keeps_ipv4 1)
    else if str_eq name (ascii "tcp")
    then some (keeps_ipv4 6)
    else if str_eq name (ascii "udp")
    then some (keeps_ipv4 17)
    else none

str_eq→≡ : (s t : Bytes) → str_eq s t ≡ true → s ≡ t
str_eq→≡ [] [] h = refl
str_eq→≡ [] (y ∷ ys) h = absurd cc
str_eq→≡ (x ∷ xs) [] h = absurd cc
str_eq→≡ (x ∷ xs) (y ∷ ys) h = elim (Bool-cases (x == y)) [
  | inl same ↦ rw ((==_iff x y).0 same, str_eq→≡ xs ys (rw (← h, same) refl)) refl
  | inr other ↦ absurd (let e : false ≡ true = rw (← h, other) refl in cc)
]

module _ (exec : List SockFilter → ℕ → ℕ → Bytes → ℕ) (m : IsMachine exec) where
  filter_ipv4-keeps :
      (number a x : ℕ) (p : Bytes)
      → exec (filter_ipv4 number) a x p ≡ (if keeps_ipv4 number p then 65535 else 0)
  unfolding filter_ipv4 keeps_ipv4
  filter_ipv4-keeps number a x p = rw m.load_half (elim (Option-cases (half_at p 12)) [
    | inl short ↦ rw short refl
    | inr (kind, e) ↦
        rw (e, m.jump_equal)
          (elim (Bool-cases (kind == 0x0800)) [
            | inl ip ↦
                rw (ip, m.load_byte)
                  (elim (Option-cases (get_elem? p 23)) [
                    | inl cut ↦ rw cut refl
                    | inr (proto, e2) ↦
                        rw (e2, m.jump_equal)
                          (elim (Bool-cases (proto == number)) [
                            | inl same ↦ rw (same, m.keep) refl
                            | inr differs ↦ rw (differs, m.keep) refl
                          ])
                  ])
            | inr other ↦ rw (other, m.keep) refl
          ])
  ])

  filter_arp-keeps :
      (a x : ℕ) (p : Bytes) → exec filter_arp a x p ≡ (if keeps_arp p then 65535 else 0)
  unfolding filter_arp keeps_arp
  filter_arp-keeps a x p = rw m.load_half (elim (Option-cases (half_at p 12)) [
    | inl short ↦ rw short refl
    | inr (kind, e) ↦
        rw (e, m.jump_equal)
          (elim (Bool-cases (kind == 0x0806)) [
            | inl same ↦ rw (same, m.keep) refl
            | inr other ↦ rw (other, m.keep) refl
          ])
  ])

  -- On a machine that runs the instructions as documented, from any registers, and for every text: the
  -- program that `attach_filter_proto` attaches keeps the whole of a frame or nothing of it, as the test
  -- that the text in lower case stands for says, and there is a program exactly where there is a test. The
  -- test for ARP is the frame's type; those for TCP, UDP and ICMP keep every frame whose type is not IPv4,
  -- and of the IPv4 frames those with the protocol's number.
  pub filter_proto-keeps :
      (lower : Bytes → Bytes) (proto : Bytes) (a x : ℕ) (p : Bytes)
      → Option.map (λ program. exec program a x p) (filter_proto lower proto)
        ≡ Option.map
            (λ (test : Bytes → Bool). if test p then 65535 else 0)
            (keeps_proto (lower proto))
  unfolding filter_proto keeps_proto
  filter_proto-keeps lower proto a x p = elim (Bool-cases (str_eq (lower proto) (ascii "tcp"))) [
    | inl tcp ↦ rw (str_eq→≡ (lower proto) (ascii "tcp") tcp) (ap some (filter_ipv4-keeps 6 a x p))
    | inr t ↦ rw t (elim (Bool-cases (str_eq (lower proto) (ascii "udp"))) [
      | inl udp ↦
          rw (str_eq→≡ (lower proto) (ascii "udp") udp) (ap some (filter_ipv4-keeps 17 a x p))
      | inr u ↦ rw u (elim (Bool-cases (str_eq (lower proto) (ascii "icmp"))) [
        | inl icmp ↦
            rw (str_eq→≡ (lower proto) (ascii "icmp") icmp) (ap some (filter_ipv4-keeps 1 a x p))
        | inr i ↦ rw i (elim (Bool-cases (str_eq (lower proto) (ascii "arp"))) [
          | inl arp ↦ rw arp (ap some (filter_arp-keeps a x p))
          | inr other ↦ rw other refl
        ])
      ])
    ])
  ]
