-- ===== src/Cli/Startup/Steps.antt =====
-- The steps at the start of `main` in netzer-cli/src/main.rs, and the calls of each.
use net_zer.Prelude.{
  Option, Bytes, ℕ, some, [], List, none, true, ◌++◌, ◌∷◌, append-nil, false, ◌≡◌, subst, refl, sym,
  ap, ◌%◌, ◌^◌, length,
}
use net_zer.Socket.Filter.{SockFilter, filter_port, filter_proto}
use net_zer.Socket.System.{
  IoResult, returns, failed, IoError, Sys, done, Trace, Every, Every-bind, Every-behind, Every-if,
  Every-checked, Every-map, ◌>>=◌, set_filter, create_file, write_all, gives,
}
use net_zer.Socket.Raw.{
  raw_new, ring_new, attach, attach_program, attach_filter_port, attach_filter_proto,
}
use net_zer.Socket.Raw.Held.{RawEnd, RingEnd, raw_new-Every, ring_new-Every}
use net_zer.Report.Pcap.{create, to_ne_bytes}
use net_zer.Cli.Args.{Args}
use net_zer.Cli.Startup.{
  Opened, raw_socket, ring_socket, open_socket_for, attach_port, attach_proto, attach_for,
  create_pcap_for, create_json_for,
}

-- The programs that the two arguments ask for.
unfoldable pub port_filters : Option ℕ → List (List SockFilter)
port_filters none = []
port_filters (some port) = filter_port port ∷ []

abbrev pub at_most_one : Option (List SockFilter) → List (List SockFilter)
at_most_one none = []
at_most_one (some filter) = filter ∷ []

unfoldable pub proto_filters : (Bytes → Bytes) → Option Bytes → List (List SockFilter)
proto_filters lower none = []
proto_filters lower (some proto) = at_most_one (filter_proto lower proto)

unfoldable pub wanted_filters : (Bytes → Bytes) → Args → Opened → List (List SockFilter)
wanted_filters lower args (raw_socket fd) =
    port_filters args.filter_port ++ proto_filters lower args.filter_proto
wanted_filters lower args (ring_socket ring) = []

-- What holds of the calls of a step that returns.
abbrev pub Made : {A : Type 0} → (Trace → A → Type 0) → Trace → IoResult A → Type 0
Made P t (returns a) = P t a
Made P t (failed e) = Unit

-- One step, and another behind its calls.
pub Every-then :
    {A B : Type 0} (P : Trace → IoResult A → Type 0) (Q : Trace → IoResult B → Type 0)
    (past : Trace) (m : Sys A) (f : A → Sys B)
    → Every P [] m
    → ((own : Trace) (a : A) → P own (returns a) → Every Q (past ++ own) (f a))
    → ((now : Trace) (e : IoError) → Q now (failed e))
    → Every Q past (m >>= f)
Every-then P Q past m f h k e =
    Every-bind (λ t r. (own : Trace) × (t ≡ past ++ own) × P own r) Q past m f
      (subst (λ (t : Trace). Every (λ t r. (own : Trace) × (t ≡ past ++ own) × P own r) t m)
        (append-nil past) (Every-behind P past [] m h))
      (λ now a (own, same, p). subst (λ (t : Trace). Every Q t (f a)) (sym same) (k own a p))
      (λ now x u. e now x)

-- The calls that open the socket that the arguments ask for, by their interface.
abbrev pub OpenedBy : Args → Trace → Opened → Type 0
OpenedBy args t (raw_socket fd) = (args.ring_buffer ≡ false) × RawEnd args.interface t (returns fd)
OpenedBy args t (ring_socket ring) =
    (args.ring_buffer ≡ true) × RingEnd args.interface t (returns ring)

pub open_socket_for-OpenedBy :
    (args : Args) → Every (Made (OpenedBy args)) [] (open_socket_for args)
unfolding open_socket_for
open_socket_for-OpenedBy args =
    Every-if (Made (OpenedBy args)) [] args.ring_buffer _ _
      (λ ring.
        Every-bind (RingEnd args.interface) (Made (OpenedBy args)) [] (ring_new args.interface)
          (λ r. done (returns (ring_socket r))) (ring_new-Every args.interface)
          (λ now r b. (ring, b)) (λ now e u. tt))
      (λ raw.
        Every-bind (RawEnd args.interface) (Made (OpenedBy args)) [] (raw_new args.interface)
          (λ fd. done (returns (raw_socket fd))) (raw_new-Every args.interface)
          (λ now fd b. (raw, b)) (λ now e u. tt))

-- The calls that attach these programs, in order, none of which failed.
abbrev pub Attached : ℕ → List (List SockFilter) → Trace → Type 0
Attached fd [] t = t ≡ []
Attached fd (filter ∷ filters) t =
    (n : ℕ) × (rest : Trace) × (t ≡ (set_filter fd (length filter % 2 ^ 16) filter, gives n) ∷ rest)
    × Attached fd filters rest

Attached-append :
    (fd : ℕ) (fs gs : List (List SockFilter)) (s t : Trace)
    → Attached fd fs s
    → Attached fd gs t
    → Attached fd (fs ++ gs) (s ++ t)
Attached-append fd [] gs s t e h = rw e h
Attached-append fd (f ∷ fs) gs s t (n, rest, e, k) h =
    (n, rest ++ t, ap (λ (u : Trace). u ++ t) e, Attached-append fd fs gs rest t k h)

module _ (lower : Bytes → Bytes) (fd : ℕ) where
  attach-Attached :
      (filter : List SockFilter)
      → Every (Made (λ t _. Attached fd (filter ∷ []) t)) [] (attach fd filter)
  unfolding attach
  attach-Attached filter =
      Every-checked (Made (λ t _. Attached fd (filter ∷ []) t)) []
        (set_filter fd (length filter % 2 ^ 16) filter) [] _ (λ e. tt) (λ n. (n, [], refl, refl))

  attach_port-Attached :
      (port : Option ℕ)
      → Every (Made (λ t _. Attached fd (port_filters port) t)) [] (attach_port fd port)
  unfolding attach_port attach_filter_port port_filters
  attach_port-Attached none = refl
  attach_port-Attached (some port) = attach-Attached (filter_port port)

  attach_program-Attached :
      (program : Option (List SockFilter))
      → Every (Made (λ t _. Attached fd (at_most_one program) t)) [] (attach_program fd program)
  unfolding attach_program
  attach_program-Attached none = tt
  attach_program-Attached (some filter) = attach-Attached filter

  attach_proto-Attached :
      (proto : Option Bytes)
      → Every
          (Made (λ t _. Attached fd (proto_filters lower proto) t))
          []
          (attach_proto lower fd proto)
  unfolding attach_proto attach_filter_proto proto_filters
  attach_proto-Attached none = refl
  attach_proto-Attached (some proto) = attach_program-Attached (filter_proto lower proto)

-- The descriptor that programs go to; the ring's gets none.
abbrev pub fd_of : Opened → ℕ
fd_of (raw_socket fd) = fd
fd_of (ring_socket ring) = ring.fd

pub attach_for-Attached :
    (lower : Bytes → Bytes) (args : Args) (opened : Opened)
    → Every
        (Made (λ t _. Attached (fd_of opened) (wanted_filters lower args opened) t))
        []
        (attach_for lower args opened)
unfolding attach_for wanted_filters
attach_for-Attached lower args (raw_socket fd) =
    let ports = port_filters args.filter_port in
    let protos = proto_filters lower args.filter_proto in
    Every-then (Made (λ t _. Attached fd ports t)) (Made (λ t _. Attached fd (ports ++ protos) t))
      [] (attach_port fd args.filter_port) (λ _. attach_proto lower fd args.filter_proto)
      (attach_port-Attached lower fd args.filter_port)
      (λ s _ a.
        Every-map (λ t r. (own : Trace) × (t ≡ s ++ own) × Made (λ t _. Attached fd protos t) own r)
          (Made (λ t _. Attached fd (ports ++ protos) t)) s
          (attach_proto lower fd args.filter_proto) (both s ports protos a)
          (subst
            (λ (u : Trace).
              Every
                (λ t r. (own : Trace) × (t ≡ s ++ own) × Made (λ t _. Attached fd protos t) own r) u
                (attach_proto lower fd args.filter_proto))
            (append-nil s)
            (Every-behind (Made (λ t _. Attached fd protos t)) s []
              (attach_proto lower fd args.filter_proto)
              (attach_proto-Attached lower fd args.filter_proto))))
      (λ now e. tt)
  where
    both :
        (s : Trace) (fs gs : List (List SockFilter))
        → Attached fd fs s
        → (now : Trace) (r : IoResult Unit)
        → (own : Trace) × (now ≡ s ++ own) × Made (λ t _. Attached fd gs t) own r
        → Made (λ t _. Attached fd (fs ++ gs) t) now r
    both s fs gs a now (returns _) (own, e, b) =
        subst (Attached fd (fs ++ gs)) (sym e) (Attached-append fd fs gs s own a b)
    both s fs gs a now (failed x) u = tt
attach_for-Attached lower args (ring_socket ring) = refl

-- The header of a pcap file: its number, version 2.4, two words of zero, the longest packet, and Ethernet.
abbrev pub pcap_header : Bytes
pcap_header =
    0xD4 ∷ 0xC3 ∷ 0xB2 ∷ 0xA1 ∷ 2 ∷ 0 ∷ 4 ∷ 0 ∷ 0 ∷ 0 ∷ 0 ∷ 0 ∷ 0 ∷ 0 ∷ 0 ∷ 0 ∷ 0xFF ∷ 0xFF ∷ 0 ∷ 0
    ∷ 1 ∷ 0 ∷ 0 ∷ 0 ∷ []

-- The pcap file, with the 24 bytes of its header, and the JSON file, where they are asked for.
abbrev pub CreatedPcap : Option Bytes → Trace → Type 0
CreatedPcap none t = t ≡ []
CreatedPcap (some path) t =
    (file : ℕ) × (written : ℕ) × (t
      ≡ (create_file path, gives file) ∷ (write_all file pcap_header, gives written) ∷ [])

abbrev pub CreatedJson : Option Bytes → Trace → Type 0
CreatedJson none t = t ≡ []
CreatedJson (some path) t = (file : ℕ) × (t ≡ (create_file path, gives file) ∷ [])

pub create_pcap_for-Created :
    (path : Option Bytes) → Every (Made (λ t _. CreatedPcap path t)) [] (create_pcap_for path)
unfolding create_pcap_for create to_ne_bytes
create_pcap_for-Created none = refl
create_pcap_for-Created (some path) =
    let P : Trace → IoResult Unit → Type 0 = Made (λ t _. CreatedPcap (some path) t) in
    Every-checked P [] (create_file path) [] _ (λ e. tt)
      (λ file.
        Every-checked P ((create_file path, gives file) ∷ []) (write_all file create.file) [] _
          (λ e. tt) (λ written. (file, written, refl)))

pub create_json_for-Created :
    (path : Option Bytes) → Every (Made (λ t _. CreatedJson path t)) [] (create_json_for path)
unfolding create_json_for
create_json_for-Created none = refl
create_json_for-Created (some path) =
    Every-checked (Made (λ t _. CreatedJson (some path) t)) [] (create_file path) [] _ (λ e. tt)
      (λ file. (file, refl))
