-- ===== src/Cli/Startup.antt =====
-- The start of `main` in netzer-cli/src/main.rs, up to the drop of privileges. An error ends the program
-- with the code 1.
pub mod Steps
pub mod Order
use net_zer.Prelude.{ℕ, Bytes, Option, Bool, none, some, [], ◌∷◌, if◌then◌else◌}
use net_zer.Report.Pcap.{create}
use net_zer.Socket.System.{Sys, done, returns, checked, create_file, write_all, ◌>>=◌}
use net_zer.Socket.Raw.{RingSocket, raw_new, ring_new, attach_filter_port, attach_filter_proto}
use net_zer.Socket.Privileges.{drop_privileges}
use net_zer.Cli.Args.{Args}

-- `raw_socket` and `ring_socket`, of which one is there.
pub data Opened : Type 0 where
  raw_socket : (fd : ℕ) → Opened
  ring_socket : (ring : RingSocket) → Opened

unfoldable pub open_socket_for : Args → Sys Opened
open_socket_for args =
    if args.ring_buffer
    then (ring_new args.interface >>= λ ring. done (returns (ring_socket ring)))
    else (raw_new args.interface >>= λ fd. done (returns (raw_socket fd)))

unfoldable pub attach_port : ℕ → Option ℕ → Sys Unit
attach_port fd none = done (returns tt)
attach_port fd (some port) = attach_filter_port fd port

unfoldable pub attach_proto : (Bytes → Bytes) → ℕ → Option Bytes → Sys Unit
attach_proto lower fd none = done (returns tt)
attach_proto lower fd (some proto) = attach_filter_proto lower fd proto

-- `if let Some(ref sock) = raw_socket { .. }`
unfoldable pub attach_for : (Bytes → Bytes) → Args → Opened → Sys Unit
attach_for lower args (raw_socket fd) =
    attach_port fd args.filter_port >>= λ _. attach_proto lower fd args.filter_proto
attach_for lower args (ring_socket ring) = done (returns tt)

-- `PcapWriter::create`, with its header.
unfoldable pub create_pcap_for : Option Bytes → Sys Unit
create_pcap_for none = done (returns tt)
create_pcap_for (some path) =
    checked (create_file path) []
      λ file. checked (write_all file create.file) [] λ written. done (returns tt)

unfoldable pub create_json_for : Option Bytes → Sys Unit
create_json_for none = done (returns tt)
create_json_for (some path) = checked (create_file path) [] λ file. done (returns tt)

unfoldable pub startup :
    (lower : Bytes → Bytes) → Args → (sudo_uid sudo_gid : Option Bytes) → Sys Opened
startup lower args sudo_uid sudo_gid = open_socket_for args >>= λ opened.
    attach_for lower args opened >>= λ _. create_pcap_for args.export_pcap >>= λ _.
    create_json_for args.export_json >>= λ _.
    drop_privileges sudo_uid sudo_gid >>= λ _. done (returns opened)
