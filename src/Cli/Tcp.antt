-- ===== src/Cli/Tcp.antt =====
-- `handle_tcp` of netzer-cli/src/main.rs.
use net_zer.Outcome.{Outcome, match_ok, ok, ◌>>=◌}
use net_zer.Prelude.{List, ℕ, Bytes, ascii, Bool, false, if◌then◌else◌, ◌||◌, ◌==◌, true, ◌++◌, ◌∷◌}
use net_zer.Header.Tcp.{parse, source_port, destination_port}
use net_zer.Report.{truncate, escape_json}
use net_zer.Stream.{starts_with, str_eq}
use net_zer.Text.Decimal.{decimal}
use net_zer.Text.Lossy.{from_utf8_lossy}
use net_zer.Text.Words.{trim_start, split_whitespace, splitn, join_words}
use net_zer.Tls.{TlsClientHello, parse as parse_tls}
use net_zer.Cli.Line.{
  Style, Session, bright_black, bright_green, bold_magenta, bold_green, bold_cyan, pad_right,
  print_packet_line, broadcast,
}
use net_zer.Cli.JsonWriter.{log_packet, web_message}

-- What is found out about a segment: `info_raw`, `is_tls` and `is_http`.
pub record TcpInfo : Type 0 where
  pub info_raw : Bytes
  pub is_tls : Bool
  pub is_http : Bool

abbrev pub encrypted : TcpInfo
encrypted = record { info_raw = ascii "[ENCRYPTED]"; is_tls = false; is_http = false }

abbrev pub http_line : Bytes → TcpInfo
http_line info = record { info_raw = info; is_tls = false; is_http = true }

unfoldable pub is_request : Bytes → Bool
is_request trimmed =
    starts_with trimmed (ascii "GET ")
    || starts_with trimmed (ascii "POST ")
    || starts_with trimmed (ascii "PUT ")
    || starts_with trimmed (ascii "DELETE ")
    || starts_with trimmed (ascii "PATCH ")
    || starts_with trimmed (ascii "OPTIONS ")
    || starts_with trimmed (ascii "HEAD ")

-- `parts[0]` and `parts[1]`, where there are two parts.
unfoldable pub request_info : List Bytes → TcpInfo
request_info (first ∷ second ∷ parts) = http_line (first ++ (b' ' ∷ second))
request_info _ = http_line (ascii "[HTTP Request]")

-- `parts[1..].join(" ")`, where there are two parts.
unfoldable pub response_info : List Bytes → TcpInfo
response_info (first ∷ second ∷ parts) = http_line (join_words (second ∷ parts))
response_info _ = http_line (ascii "[HTTP Response]")

unfoldable pub http_info : Bytes → TcpInfo
http_info payload_str =
    let trimmed = trim_start payload_str in
    if is_request trimmed
    then request_info (split_whitespace trimmed)
    else if starts_with trimmed (ascii "HTTP/")
    then response_info (splitn 3 b' ' trimmed)
    else encrypted

-- The branch of port 443, on what the TLS parser answers.
unfoldable pub tls_info : Outcome TlsClientHello → Outcome TcpInfo
tls_info hello = match_ok hello (ok encrypted) (λ tls. do
  domain_buf ← truncate tls.sni 35
  ok (record { info_raw = domain_buf; is_tls = true; is_http = false }))

unfoldable pub tcp_info : ℕ → Bytes → Outcome TcpInfo
tcp_info dst_port tcp_payload =
    if dst_port == 443
    then tls_info (parse_tls tcp_payload)
    else ok (http_info (from_utf8_lossy tcp_payload))

-- `proto_log` and `proto_name`.
unfoldable pub proto_name : TcpInfo → Bytes
proto_name info =
    if info.is_tls then ascii "TLS" else if info.is_http then ascii "HTTP" else ascii "TCP"

module _ (paint : Style → Bytes → Bytes) where
  unfoldable pub proto_colored : TcpInfo → Bytes
  proto_colored info =
      paint (if info.is_tls then bold_magenta else if info.is_http then bold_green else bold_cyan)
        (pad_right 5 (proto_name info))

  unfoldable pub info_colored : TcpInfo → Bytes
  info_colored info =
      paint
        (if str_eq info.info_raw (ascii "[ENCRYPTED]")
          then bright_black
          else if info.is_http
          then bright_green
          else bold_magenta)
        (pad_right 35 info.info_raw)

  -- The line, the record and the message of a segment.
  unfoldable pub report_tcp : Bytes → Bytes → TcpInfo → Bytes → ℕ → Bytes → Session → Session
  report_tcp src dst info time_str size raw_hex session =
      let printed =
        print_packet_line paint time_str (proto_colored info) src dst (info_colored info) size
          session in
      let logged = log_packet time_str (proto_name info) src dst info.info_raw size printed in
      broadcast
        (web_message time_str (escape_json (proto_name info)) src dst info.info_raw size raw_hex)
        logged

  unfoldable pub handle_tcp : Bytes → Bytes → Bytes → Bytes → ℕ → Bytes → Session → Outcome Session
  handle_tcp src_ip dst_ip payload time_str size raw_hex session =
      match_ok (parse payload) (ok session) (λ (tcp_header, tcp_payload). do
        src_port ← source_port tcp_header
        dst_port ← destination_port tcp_header
        let src = src_ip ++ (b':' ∷ decimal src_port)
        let dst = dst_ip ++ (b':' ∷ decimal dst_port)
        info ← tcp_info dst_port tcp_payload
        ok (report_tcp src dst info time_str size raw_hex session))
