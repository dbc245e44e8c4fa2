-- ===== src/Socket/Filter.antt =====
-- The filter programs of netzer-socket/src/socket.rs. The machine that runs them is the kernel's: here
-- is what its documentation says of the instructions that the programs use.
pub mod Port
pub mod Proto
pub mod Reads
pub mod Parsed
use net_zer.Stream.{str_eq}
use net_zer.Prelude.{
  ℕ, Bytes, List, Option, none, some, [], ◌∷◌, ◌+◌, ◌*◌, ◌%◌, ◌≡◌, ◌==◌, if◌then◌else◌, get_elem?,
  drop, ascii, Bool, true, false, ◌&&◌,
}

-- `libc::sock_filter`
pub record SockFilter : Type 0 where
  pub code : ℕ
  pub jt : ℕ
  pub jf : ℕ
  pub k : ℕ

abbrev pub instr : ℕ → ℕ → ℕ → ℕ → SockFilter
instr code jt jf k = record { code = code; jt = jt; jf = jf; k = k }

-- The `vec!` of `attach_filter_port`.
unfoldable pub filter_port : ℕ → List SockFilter
filter_port port =
    instr 0x28 0 8 12
    ∷ instr 0x15 0 8 0x0800
    ∷ instr 0x30 0 0 23
    ∷ instr 0x15 1 0 6
    ∷ instr 0x15 0 5 17
    ∷ instr 0xb1 0 0 14
    ∷ instr 0x48 0 0 14
    ∷ instr 0x15 2 0 port
    ∷ instr 0x48 0 0 16
    ∷ instr 0x15 0 1 port
    ∷ instr 0x06 0 0 65535
    ∷ instr 0x06 0 0 0
    ∷ []

-- The `vec!` of the arms `"tcp"`, `"udp"` and `"icmp"` of `attach_filter_proto`, which differ in one number.
unfoldable pub filter_ipv4 : ℕ → List SockFilter
filter_ipv4 number =
    instr 0x28 0 3 12
    ∷ instr 0x15 0 2 0x0800
    ∷ instr 0x30 0 0 23
    ∷ instr 0x15 0 1 number
    ∷ instr 0x06 0 0 65535
    ∷ instr 0x06 0 0 0
    ∷ []

-- The `vec!` of the arm `"arp"`.
unfoldable pub filter_arp : List SockFilter
filter_arp =
    instr 0x28 0 1 12 ∷ instr 0x15 0 1 0x0806 ∷ instr 0x06 0 0 65535 ∷ instr 0x06 0 0 0 ∷ []

-- The `match` of `attach_filter_proto`; `none` is its error. `lower` is `to_lowercase` of the standard
-- library.
unfoldable pub filter_proto : (lower : Bytes → Bytes) → Bytes → Option (List SockFilter)
filter_proto lower proto =
    let name = lower proto in
    if str_eq name (ascii "tcp")
    then some (filter_ipv4 6)
    else if str_eq name (ascii "udp")
    then some (filter_ipv4 17)
    else if str_eq name (ascii "icmp")
    then some (filter_ipv4 1)
    else if str_eq name (ascii "arp")
    then some filter_arp
    else none

-- The two bytes at `k`, most significant first, where the packet has them.
abbrev pub pair_up : Option ℕ → Option ℕ → Option ℕ
pair_up (some hi) (some lo) = some (hi * 256 + lo)
pair_up _ _ = none

abbrev pub half_at : Bytes → ℕ → Option ℕ
half_at p k = pair_up (get_elem? p k) (get_elem? p (k + 1))

-- A load past the end of the packet ends the program with 0.
abbrev pub loaded : Option ℕ → (ℕ → ℕ) → ℕ
loaded none go = 0
loaded (some n) go = go n

-- `exec rest a x packet` is what the machine gives back from the first instruction of `rest` on, with
-- the accumulator `a` and the index register `x`: how many bytes of the packet to keep. All jumps go
-- forward, so that what is left of a program is all that it needs.
pub record IsMachine (exec : List SockFilter → ℕ → ℕ → Bytes → ℕ) : Type 0 where
  pub load_half :
      (jt jf k : ℕ) (rest : List SockFilter) (a x : ℕ) (p : Bytes)
      → exec (instr 0x28 jt jf k ∷ rest) a x p ≡ loaded (half_at p k) (λ h. exec rest h x p)
  pub load_byte :
      (jt jf k : ℕ) (rest : List SockFilter) (a x : ℕ) (p : Bytes)
      → exec (instr 0x30 jt jf k ∷ rest) a x p ≡ loaded (get_elem? p k) (λ b. exec rest b x p)
  pub load_half_indexed :
      (jt jf k : ℕ) (rest : List SockFilter) (a x : ℕ) (p : Bytes)
      → exec (instr 0x48 jt jf k ∷ rest) a x p ≡ loaded (half_at p (x + k)) (λ h. exec rest h x p)
  pub load_header_length :
      (jt jf k : ℕ) (rest : List SockFilter) (a x : ℕ) (p : Bytes)
      → exec (instr 0xb1 jt jf k ∷ rest) a x p
        ≡ loaded (get_elem? p k) (λ b. exec rest a (b % 16 * 4) p)
  pub jump_equal :
      (jt jf k : ℕ) (rest : List SockFilter) (a x : ℕ) (p : Bytes)
      → exec (instr 0x15 jt jf k ∷ rest) a x p
        ≡ (if a == k then exec (drop jt rest) a x p else exec (drop jf rest) a x p)
  pub keep :
      (jt jf k : ℕ) (rest : List SockFilter) (a x : ℕ) (p : Bytes)
      → exec (instr 0x06 jt jf k ∷ rest) a x p ≡ k
