-- ===== src/Cli/Icmp.antt =====
-- `handle_icmp` and `handle_icmpv6` of netzer-cli/src/main.rs.
use net_zer.Outcome.{Outcome, ◌>>=◌, match_ok, ok}
use net_zer.Prelude.{Bytes, ℕ, ascii, if◌then◌else◌, ◌==◌, ◌++◌}
use net_zer.Header.Icmp.{IcmpHeader, parse, icmp_type, code}
use net_zer.Text.Decimal.{decimal}
use net_zer.Cli.Line.{Style, Session, bright_red, bold_red, pad_right, print_packet_line, broadcast}
use net_zer.Cli.JsonWriter.{log_packet, web_message}

-- `format!("Type {}", t)`
abbrev pub type_text : ℕ → Bytes
type_text t = ascii "Type " ++ decimal t

unfoldable pub icmp_info : IcmpHeader → Outcome Bytes
icmp_info icmp_header = do
  kind ← icmp_type icmp_header
  if kind == 0
      then ok (ascii "Echo Reply (0)")
      else if kind == 3
      then (do
        subcode ← code icmp_header
        ok (ascii "Dest Unreachable (" ++ (decimal subcode ++ ascii ")")))
      else if kind == 8
      then ok (ascii "Echo Request (8)")
      else if kind == 11
      then ok (ascii "Time Exceeded")
      else ok (type_text kind)

unfoldable pub icmpv6_text : ℕ → Bytes
icmpv6_text kind =
    if kind == 1
    then ascii "Dest Unreachable"
    else if kind == 2
    then ascii "Packet Too Big"
    else if kind == 3
    then ascii "Time Exceeded"
    else if kind == 128
    then ascii "Echo Request (Ping)"
    else if kind == 129
    then ascii "Echo Reply (Ping)"
    else if kind == 133
    then ascii "Router Solicitation"
    else if kind == 134
    then ascii "Router Advertisement"
    else if kind == 135
    then ascii "Neighbor Solicitation"
    else if kind == 136
    then ascii "Neighbor Advertisement"
    else type_text kind

module _ (paint : Style → Bytes → Bytes) where
  -- The line, the record and the message, with the protocol's name in each.
  unfoldable pub report_icmp :
      (shown logged : Bytes) → Bytes → Bytes → Bytes → Bytes → ℕ → Bytes → Session → Session
  report_icmp shown logged src_ip dst_ip info_raw time_str size raw_hex session =
      let proto_colored = paint bold_red (pad_right 5 shown) in
      let info_colored = paint bright_red (pad_right 35 info_raw) in
      let printed =
        print_packet_line paint time_str proto_colored src_ip dst_ip info_colored size session in
      broadcast (web_message time_str shown src_ip dst_ip info_raw size raw_hex)
        (log_packet time_str logged src_ip dst_ip info_raw size printed)

  unfoldable pub handle_icmp : Bytes → Bytes → Bytes → Bytes → ℕ → Bytes → Session → Outcome Session
  handle_icmp src_ip dst_ip payload time_str size raw_hex session =
      match_ok (parse payload) (ok session) (λ (icmp_header, _). do
        info_raw ← icmp_info icmp_header
        ok (
            report_icmp (ascii "ICMP") (ascii "ICMP") src_ip dst_ip info_raw time_str size raw_hex
              session))

  unfoldable pub handle_icmpv6 :
      Bytes → Bytes → Bytes → Bytes → ℕ → Bytes → Session → Outcome Session
  handle_icmpv6 src_ip dst_ip payload time_str size raw_hex session =
      match_ok (parse payload) (ok session) (λ (icmp_header, _). do
        kind ← icmp_type icmp_header
        ok (
            report_icmp (ascii "ICMP6") (ascii "ICMPv6") src_ip dst_ip (icmpv6_text kind) time_str
              size raw_hex session))
