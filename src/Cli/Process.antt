-- ===== src/Cli/Process.antt =====
-- `process_packet` of netzer-cli/src/main.rs: a captured frame through all layers.
use net_zer.Outcome.{Outcome, match_ok, ok, ◌>>=◌}
use net_zer.Prelude.{
  ℕ, Bytes, Option, [], if◌then◌else◌, ◌∷◌, Bool, suc, some, ◌||◌, ◌++◌, zero, ascii, none, ◌==◌,
  map,
}
use mathlib.Core.Option
use net_zer.Header.Ethernet.{EtherType, ipv4, ipv6, arp, other, ethertype, parse as parse_ethernet}
use net_zer.Header.Ipv4.{
  source as ipv4_source, destination as ipv4_destination, protocol, ipv4_text, parse as parse_ipv4,
}
use net_zer.Header.Ipv6.{
  source as ipv6_source, destination as ipv6_destination, next_header, ipv6_text,
  parse as parse_ipv6,
}
use net_zer.Header.Tcp.{source_port, destination_port, parse as parse_tcp}
use net_zer.Report.{to_hex_string}
use net_zer.Report.Hexdump.{hexdump, is_printed}
use net_zer.Report.Pcap.{write_packet}
use net_zer.Stream.{TcpStreamTracker, Segment, StreamKey, feed}
use net_zer.Cli.Line.{Style, Session, bright_black, bright_blue, bright_white, println}
use net_zer.Cli.Tcp.{handle_tcp}
use net_zer.Cli.Udp.{handle_udp}
use net_zer.Cli.Icmp.{handle_icmp, handle_icmpv6}
use net_zer.Cli.Arp.{handle_arp}

-- What the clock says while a frame is processed: to the pcap writer, and as `%H:%M:%S%.3f`.
pub record Clock : Type 0 where
  pub secs : ℕ
  pub micros : ℕ
  pub time_str : Bytes

-- `c as char`, pushed to a `String`: two bytes of UTF-8 from 0x80 on; here only ASCII is kept.
abbrev pub printable_char : ℕ → ℕ
printable_char b = if is_printed b || b == b'\n' || b == b'\r' then b else b'.'

-- `n` times `─`.
abbrev pub dashes : ℕ → Bytes
dashes zero = []
dashes (suc n) = 0xE2 ∷ 0x94 ∷ 0x80 ∷ dashes n

abbrev pub opening_rule : Bytes
opening_rule = b' ' ∷ (dashes 3 ++ (ascii " Stream Reassembly " ++ dashes 92))

abbrev pub closing_rule : Bytes
closing_rule = b' ' ∷ dashes 114

module _ (paint : Style → Bytes → Bytes) where
  -- What is printed of the bytes that the tracker returns.
  unfoldable pub print_stream : Option (StreamKey × Bytes) → Session → Session
  print_stream none session = session
  print_stream (some (key, gathered)) session = println (paint bright_blue closing_rule) (
      println (paint bright_white (map printable_char gathered))
        (println (paint bright_blue opening_rule) session))

  -- `if let Some(tracker) = stream_tracker { if let Some(..) = tracker.feed(..) { .. } }`
  unfoldable pub feed_tracker : Option TcpStreamTracker → Segment → Session → Session
  feed_tracker none segment session = session
  feed_tracker (some tracker) segment session =
      let (tracker', out) = feed tracker segment in
      print_stream out (record session { tracker = some tracker' })

  -- TCP over IPv4: the tracker first, where the segment has a header, then the handler.
  unfoldable pub process_tcp : Bytes → Bytes → Bytes → Bytes → ℕ → Bytes → Session → Outcome Session
  process_tcp src_ip dst_ip ip_payload time_str size raw_hex session =
      match_ok (parse_tcp ip_payload)
        (handle_tcp paint src_ip dst_ip ip_payload time_str size raw_hex session)
        (λ (tcp_header, tcp_payload). do
          src_port ← source_port tcp_header
          dst_port ← destination_port tcp_header
          let segment : Segment = record {
            src_ip = src_ip;
            src_port = src_port;
            dst_ip = dst_ip;
            dst_port = dst_port;
            payload = tcp_payload;
          }
          handle_tcp paint src_ip dst_ip ip_payload time_str size raw_hex
              (feed_tracker session.tracker segment session))

  unfoldable pub process_ipv4 : Bytes → Bytes → ℕ → Bytes → Session → Outcome Session
  process_ipv4 payload time_str size raw_hex session =
      match_ok (parse_ipv4 payload) (ok session) (λ (ipv4_header, ip_payload). do
        source ← ipv4_source ipv4_header
        destination ← ipv4_destination ipv4_header
        kind ← protocol ipv4_header
        let src_ip = ipv4_text source
        let dst_ip = ipv4_text destination
        if kind == 6
            then process_tcp src_ip dst_ip ip_payload time_str size raw_hex session
            else if kind == 17
            then handle_udp paint src_ip dst_ip ip_payload time_str size raw_hex session
            else if kind == 1
            then handle_icmp paint src_ip dst_ip ip_payload time_str size raw_hex session
            else ok session)

  unfoldable pub process_ipv6 : Bytes → Bytes → ℕ → Bytes → Session → Outcome Session
  process_ipv6 payload time_str size raw_hex session =
      match_ok (parse_ipv6 payload) (ok session) (λ (ipv6_header, ip_payload). do
        source ← ipv6_source ipv6_header
        destination ← ipv6_destination ipv6_header
        kind ← next_header ipv6_header
        let src_ip = ipv6_text source
        let dst_ip = ipv6_text destination
        if kind == 6
            then handle_tcp paint src_ip dst_ip ip_payload time_str size raw_hex session
            else if kind == 17
            then handle_udp paint src_ip dst_ip ip_payload time_str size raw_hex session
            else if kind == 58
            then handle_icmpv6 paint src_ip dst_ip ip_payload time_str size raw_hex session
            else ok session)

  unfoldable pub process_payload : EtherType → Bytes → Bytes → ℕ → Bytes → Session → Outcome Session
  process_payload ipv4 payload = process_ipv4 payload
  process_payload ipv6 payload = process_ipv6 payload
  process_payload arp payload = handle_arp paint payload
  process_payload (other kind) payload = λ time_str size raw_hex session. ok session

  -- The frame to the pcap file, and its dump to the terminal.
  unfoldable pub record_frame : Bool → Clock → Bytes → Session → Session
  record_frame show_hexdump clock packet session =
      let kept = record session {
        pcap = Option.map (write_packet clock.secs clock.micros packet) session.pcap;
      } in
      if show_hexdump then println (paint bright_black (hexdump packet)) kept else kept

  unfoldable pub process_packet : Bool → Clock → Bytes → ℕ → Session → Outcome Session
  process_packet show_hexdump clock packet size session =
      let kept = record_frame show_hexdump clock packet session in
      match_ok (parse_ethernet packet) (ok kept) (λ (eth_frame, payload). do
        kind ← ethertype eth_frame
        process_payload kind payload clock.time_str size (to_hex_string packet) kept)
