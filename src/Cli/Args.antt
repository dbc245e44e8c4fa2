-- ===== src/Cli/Args.antt =====
-- The arguments of netzer-cli/src/main.rs, and the session that `main` opens with them.
use net_zer.Prelude.{Bool, Bytes, ℕ, Option, [], some, none, if◌then◌else◌}
use mathlib.Core.Option
use net_zer.Report.Pcap.{create as create_pcap}
use net_zer.Stream.{new_tracker}
use net_zer.Cli.Line.{Session}
use net_zer.Cli.JsonWriter.{create as create_json}

pub record Args : Type 0 where
  pub interface : Bytes
  pub filter_port : Option ℕ
  pub filter_proto : Option Bytes
  pub export_pcap : Option Bytes
  pub export_json : Option Bytes
  pub hexdump : Bool
  pub follow_streams : Bool
  pub ring_buffer : Bool
  pub serve : Bool
  pub port : ℕ

-- The writers and the tracker before the loop, where the files could be created; `shown` is what the
-- terminal says until then.
unfoldable pub open_session : Args → Bytes → Session
open_session args shown = record {
  pcap = Option.map (λ path. create_pcap) args.export_pcap;
  json = Option.map (λ path. create_json) args.export_json;
  tracker = if args.follow_streams then some new_tracker else none;
  web = if args.serve then some [] else none;
  terminal = shown;
}
