-- ===== src/Cli/Udp.antt =====
-- `handle_udp` of netzer-cli/src/main.rs.
use net_zer.Outcome.{Outcome, match_ok, ok, ◌>>=◌}
use net_zer.Prelude.{ℕ, Bytes, true, Bool, ascii, if◌then◌else◌, ◌==◌, ◌||◌, false, ◌++◌, ◌∷◌}
use net_zer.Dns.{DnsQuery, parse as parse_dns}
use net_zer.Header.Udp.{parse, source_port, destination_port}
use net_zer.Report.{truncate, escape_json}
use net_zer.Text.Decimal.{decimal}
use net_zer.Cli.Line.{
  Style, Session, bright_black, bold_blue, bold_yellow, pad_right, print_packet_line, broadcast,
}
use net_zer.Cli.JsonWriter.{log_packet, web_message}

-- What is found out about a datagram: `info_raw` and `is_dns`.
pub record UdpInfo : Type 0 where
  pub info_raw : Bytes
  pub is_dns : Bool

abbrev pub dns_line : Bytes → UdpInfo
dns_line info = record { info_raw = info; is_dns = true }

-- The branch of port 53, on what the DNS parser answers.
unfoldable pub dns_info : Outcome DnsQuery → Outcome UdpInfo
dns_info query =
    match_ok query (ok (dns_line (ascii "DNS")))
      (λ dns. do name ← truncate dns.domain_name 30; ok (dns_line (ascii "DNS: " ++ name)))

unfoldable pub udp_info : ℕ → ℕ → Bytes → Outcome UdpInfo
udp_info src_port dst_port udp_payload =
    if dst_port == 53 || src_port == 53
    then dns_info (parse_dns udp_payload)
    else ok (record { info_raw = ascii "-"; is_dns = false })

module _ (paint : Style → Bytes → Bytes) where
  -- The line, the record and the message of a datagram.
  unfoldable pub report_udp : Bytes → Bytes → UdpInfo → Bytes → ℕ → Bytes → Session → Session
  report_udp src dst info time_str size raw_hex session =
      let proto_colored = paint bold_blue (pad_right 5 (ascii "UDP")) in
      let info_colored =
        paint (if info.is_dns then bold_yellow else bright_black) (pad_right 35 info.info_raw) in
      let printed =
        print_packet_line paint time_str proto_colored src dst info_colored size session in
      let logged = log_packet time_str (ascii "UDP") src dst info.info_raw size printed in
      let proto_name = if info.is_dns then ascii "DNS" else ascii "UDP" in
      broadcast (web_message time_str (escape_json proto_name) src dst info.info_raw size raw_hex)
        logged

  unfoldable pub handle_udp : Bytes → Bytes → Bytes → Bytes → ℕ → Bytes → Session → Outcome Session
  handle_udp src_ip dst_ip payload time_str size raw_hex session =
      match_ok (parse payload) (ok session) (λ (udp_header, udp_payload). do
        src_port ← source_port udp_header
        dst_port ← destination_port udp_header
        let src = src_ip ++ (b':' ∷ decimal src_port)
        let dst = dst_ip ++ (b':' ∷ decimal dst_port)
        info ← udp_info src_port dst_port udp_payload
        ok (report_udp src dst info time_str size raw_hex session))
