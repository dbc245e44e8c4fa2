-- ===== src/Examples/Sockets.antt =====
-- The opening of sockets, the start of the program and the drop of privileges, on concrete arguments.
use net_zer.Prelude.{some, ascii, none, true, [], false}
use net_zer.Socket.System.{Every}
use net_zer.Socket.Privileges.{drop_privileges}
use net_zer.Socket.Privileges.Order.{PrivilegesEnd, drop_privileges-Every}
use net_zer.Cli.Args.{Args}
use net_zer.Cli.Startup.{startup}
use net_zer.Cli.Startup.Order.{Started, startup-Started}

drop_privileges-Every_example :
    Every
      (PrivilegesEnd (some (ascii "1000")) (some (ascii "100")))
      []
      (drop_privileges (some (ascii "1000")) (some (ascii "100")))
drop_privileges-Every_example = drop_privileges-Every (some (ascii "1000")) (some (ascii "100"))

-- A capture with every option.
abbrev pub all_args : Args
all_args = record {
  interface = ascii "eth0";
  filter_port = some 443;
  filter_proto = some (ascii "tcp");
  export_pcap = some (ascii "out.pcap");
  export_json = some (ascii "out.json");
  hexdump = true;
  follow_streams = true;
  ring_buffer = false;
  serve = true;
  port = 7070;
}

startup-Started_example :
    Every (Started (λ text. text) all_args none none) [] (startup (λ text. text) all_args none none)
startup-Started_example = startup-Started (λ text. text) all_args none none
