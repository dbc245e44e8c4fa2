-- ===== src/Cli/Startup/Order.antt =====
-- The order of the calls at the start of `main` in netzer-cli/src/main.rs.
use net_zer.Prelude.{Option, Bytes, [], List, ◌++◌, ◌≡◌, refl}
use net_zer.Socket.Filter.{SockFilter}
use net_zer.Socket.System.{IoResult, returns, failed, Trace, Every}
use net_zer.Socket.Privileges.{drop_privileges}
use net_zer.Socket.Privileges.Order.{PrivilegesEnd, drop_privileges-Every}
use net_zer.Cli.Args.{Args}
use net_zer.Cli.Startup.{
  Opened, open_socket_for, attach_for, create_pcap_for, create_json_for, startup,
}
use net_zer.Cli.Startup.Steps.{
  Made, Every-then, OpenedBy, open_socket_for-OpenedBy, Attached, fd_of, attach_for-Attached,
  wanted_filters, CreatedPcap, CreatedJson, create_pcap_for-Created, create_json_for-Created,
}

-- A start that returns: the calls that open the socket, attach the programs and create the files, and
-- then those of `drop_privileges`.
abbrev pub Started :
    (Bytes → Bytes) → Args → (sudo_uid sudo_gid : Option Bytes) → Trace → IoResult Opened → Type 0
Started lower args sudo_uid sudo_gid trace (returns opened) =
    (opening : Trace) × (attached : Trace) × (pcap : Trace) × (json : Trace) × (dropped : Trace)
    × (trace ≡ (((opening ++ attached) ++ pcap) ++ json) ++ dropped)
    × OpenedBy args opening opened
    × Attached (fd_of opened) (wanted_filters lower args opened) attached
    × CreatedPcap args.export_pcap pcap
    × CreatedJson args.export_json json
    × PrivilegesEnd sudo_uid sudo_gid dropped (returns tt)
Started lower args sudo_uid sudo_gid trace (failed e) = Unit

-- Whatever the system answers, a start of the program that comes to the capture loop has made exactly
-- these calls, in this order, none of which failed but perhaps the ring's question for the index: those
-- that open the socket that the arguments ask for, by the interface's name; without the ring, those that
-- attach the programs that the arguments ask for, the port's before the protocol's, and with the ring
-- none; the creation of the pcap file and the write of its header of 24 bytes, and the creation of the
-- JSON file, each where it was asked for; and last those of `drop_privileges`, which has returned.
pub startup-Started :
    (lower : Bytes → Bytes) (args : Args) (sudo_uid sudo_gid : Option Bytes)
    → Every (Started lower args sudo_uid sudo_gid) [] (startup lower args sudo_uid sudo_gid)
unfolding startup
startup-Started lower args sudo_uid sudo_gid =
    let Q : Trace → IoResult Opened → Type 0 = Started lower args sudo_uid sudo_gid in
    Every-then (Made (OpenedBy args)) Q [] (open_socket_for args) _ (open_socket_for-OpenedBy args)
      (λ t1 opened b1.
        let W : List (List SockFilter) = wanted_filters lower args opened in
        Every-then (Made (λ t _. Attached (fd_of opened) W t)) Q t1 (attach_for lower args opened) _
          (attach_for-Attached lower args opened)
          (λ t2 u2 b2.
            Every-then (Made (λ t _. CreatedPcap args.export_pcap t)) Q (t1 ++ t2)
              (create_pcap_for args.export_pcap) _ (create_pcap_for-Created args.export_pcap)
              (λ t3 u3 b3.
                Every-then (Made (λ t _. CreatedJson args.export_json t)) Q ((t1 ++ t2) ++ t3)
                  (create_json_for args.export_json) _ (create_json_for-Created args.export_json)
                  (λ t4 u4 b4.
                    Every-then (PrivilegesEnd sudo_uid sudo_gid) Q (((t1 ++ t2) ++ t3) ++ t4)
                      (drop_privileges sudo_uid sudo_gid) _
                      (drop_privileges-Every sudo_uid sudo_gid)
                      (λ t5 u5 b5. (t1, t2, t3, t4, t5, refl, b1, b2, b3, b4, b5)) (λ t e. tt))
                  (λ t e. tt))
              (λ t e. tt))
          (λ t e. tt))
      (λ t e. tt)
