-- ===== src/Cli/Reported.antt =====
-- What a handler of netzer-cli/src/main.rs does to a session when it reports a packet.
use net_zer.Prelude.{
  Bytes, ℕ, ascii, ◌≡◌, ◌++◌, ◌⊎◌, if◌then◌else◌, ◌∷◌, [], refl, ap, sym, append_assoc, List, inl,
  inr, replicate, ◌-◌,
}
use mathlib.Core.Option
use net_zer.Report.{escape_json}
use net_zer.Stream.{str_eq}
use net_zer.Text.Decimal.{decimal}
use net_zer.Cli.Line.{
  Style, Session, packet_line, print_packet_line, broadcast, pad_right, bold_blue, bold_yellow,
  bold_red, bright_red, bright_black, bright_yellow, bold_magenta, bright_green, column_gap,
  bold_green, char_count, bold_cyan,
}
use net_zer.Cli.JsonWriter.{log_packet, web_message}
use net_zer.Cli.JsonWriter.ReadBack.{Fields, add_line}
use net_zer.Cli.Tcp.{TcpInfo, report_tcp, proto_name, proto_colored, info_colored}
use net_zer.Cli.Udp.{UdpInfo, report_udp}
use net_zer.Cli.Icmp.{report_icmp}
use net_zer.Cli.Arp.{report_arp}

-- The message to the dashboard that says `f` and shows the frame.
abbrev pub message_of : Fields → Bytes → Bytes
message_of f raw_hex =
    web_message f.timestamp (escape_json f.proto) f.src f.dst f.info f.size raw_hex

-- A column of the terminal: the text, and spaces up to the width.
abbrev pub column : ℕ → Bytes → Bytes
column width text = text ++ replicate (width - char_count text) b' '

abbrev pub join_columns : List Bytes → Bytes
join_columns [] = []
join_columns (c ∷ []) = c
join_columns (c ∷ d ∷ cs) = c ++ (column_gap ++ join_columns (d ∷ cs))

-- A packet's line: a space, the six columns with a bar between each two, and the line's end.
abbrev pub report_line : (time proto src dst info size : Bytes) → Bytes
report_line time proto src dst info size =
    b' ' ∷ (join_columns (time ∷ proto ∷ src ∷ dst ∷ info ∷ size ∷ []) ++ b'\n' ∷ [])

-- One line on the terminal, one record in the JSON file if there is one, and one message to the
-- dashboard if there is one. The record and the message say the same but for the protocol's name, and
-- the line says what one of them says, but for what ARP shows in place of its text; the pcap file and
-- the tracker are as they were.
pub record OneReport (paint : Style → Bytes → Bytes) (time_str : Bytes) (size : ℕ) (raw_hex : Bytes)
    (s t : Session) : Type 0 where
  pub logged : Fields
  pub sent_proto : Bytes
  pub shown_proto : Bytes
  pub shown_info : Bytes
  pub proto_style : Style
  pub info_style : Style
  pub at_time : logged.timestamp ≡ time_str
  pub of_size : logged.size ≡ size
  pub shown_proto_is : (shown_proto ≡ logged.proto) ⊎ (shown_proto ≡ sent_proto)
  pub shown_info_is : (shown_info ≡ logged.info) ⊎ (logged.proto ≡ ascii "ARP")
  pub terminal_is :
      t.terminal
      ≡ s.terminal
        ++ report_line
            (paint bright_black (column 14 time_str))
            (paint proto_style (column 5 shown_proto))
            (paint bright_green (column 21 logged.src))
            (paint bright_red (column 21 logged.dst))
            (paint info_style (column 35 shown_info))
            (paint bright_yellow (column 6 (decimal size ++ ascii " B")))
  pub json_is : t.json ≡ Option.map (add_line logged) s.json
  pub web_is :
      t.web
      ≡ Option.map
          (λ sent. sent ++ message_of (record logged { proto = sent_proto }) raw_hex ∷ [])
          s.web
  pub pcap_is : t.pcap ≡ s.pcap
  pub tracker_is : t.tracker ≡ s.tracker

-- A packet is reported once, or, for the reason `Skip`, not at all.
abbrev pub Handled :
    Type 0 → (Style → Bytes → Bytes) → Bytes → ℕ → Bytes → Session → Session → Type 0
Handled Skip paint time_str size raw_hex s t =
    (Skip × (t ≡ s)) ⊎ OneReport paint time_str size raw_hex s t

module _ (paint : Style → Bytes → Bytes) (time_str : Bytes) (size : ℕ) (raw_hex : Bytes)
    (s : Session) where
  -- The three steps that every handler ends with.
  module _ (proto_style info_style : Style)
      (shown_proto proto_logged proto_text src dst info shown_info : Bytes) where
    reported : Session
    reported = broadcast (web_message time_str proto_text src dst info size raw_hex) (
        log_packet time_str proto_logged src dst info size (
          print_packet_line paint time_str (paint proto_style (pad_right 5 shown_proto)) src dst
            (paint info_style (pad_right 35 shown_info)) size s))

    reported-OneReport :
        (proto_sent : Bytes)
        → escape_json proto_sent ≡ proto_text
        → (shown_proto ≡ proto_logged) ⊎ (shown_proto ≡ proto_sent)
        → (shown_info ≡ info) ⊎ (proto_logged ≡ ascii "ARP")
        → OneReport paint time_str size raw_hex s reported
    unfolding reported broadcast log_packet print_packet_line packet_line pad_right
    reported-OneReport proto_sent e shown_proto_is shown_info_is = record {
      logged = record {
        timestamp = time_str;
        proto = proto_logged;
        src = src;
        dst = dst;
        info = info;
        size = size;
      };
      sent_proto = proto_sent;
      shown_proto = shown_proto;
      shown_info = shown_info;
      proto_style = proto_style;
      info_style = info_style;
      shown_proto_is = shown_proto_is;
      shown_info_is = shown_info_is;
      at_time = refl;
      of_size = refl;
      terminal_is = ap (λ (t : Bytes). s.terminal ++ (b' ' ∷ t)) (simp append_assoc);
      json_is = refl;
      web_is =
          ap
            (λ (t : Bytes).
              Option.map (λ sent. sent ++ web_message time_str t src dst info size raw_hex ∷ [])
                s.web)
            (sym e);
      pcap_is = refl;
      tracker_is = refl;
    }

  pub report_tcp-OneReport :
      (src dst : Bytes) (info : TcpInfo)
      → OneReport paint time_str size raw_hex s
          (report_tcp paint src dst info time_str size raw_hex s)
  unfolding report_tcp reported proto_colored info_colored
  report_tcp-OneReport src dst info =
      reported-OneReport
        (if info.is_tls then bold_magenta else if info.is_http then bold_green else bold_cyan)
        (if str_eq info.info_raw (ascii "[ENCRYPTED]")
          then bright_black
          else if info.is_http
          then bright_green
          else bold_magenta)
        (proto_name info) (proto_name info) (escape_json (proto_name info)) src dst info.info_raw
        info.info_raw (proto_name info) refl (inl refl) (inl refl)

  pub report_udp-OneReport :
      (src dst : Bytes) (info : UdpInfo)
      → OneReport paint time_str size raw_hex s
          (report_udp paint src dst info time_str size raw_hex s)
  unfolding report_udp reported
  report_udp-OneReport src dst info =
      let name : Bytes = if info.is_dns then ascii "DNS" else ascii "UDP" in
      reported-OneReport bold_blue (if info.is_dns then bold_yellow else bright_black) (ascii "UDP")
        (ascii "UDP") (escape_json name) src dst info.info_raw info.info_raw name refl (inl refl)
        (inl refl)

  pub report_icmp-OneReport :
      (shown logged src dst info : Bytes)
      → escape_json shown ≡ shown
      → OneReport paint time_str size raw_hex s
          (report_icmp paint shown logged src dst info time_str size raw_hex s)
  unfolding report_icmp reported
  report_icmp-OneReport shown logged src dst info plain =
      reported-OneReport bold_red bright_red shown logged shown src dst info info shown plain
        (inr refl) (inl refl)

  pub report_arp-OneReport :
      (src dst info shown : Bytes)
      → OneReport paint time_str size raw_hex s
          (report_arp paint src dst info shown time_str size raw_hex s)
  unfolding report_arp reported escape_json
  report_arp-OneReport src dst info shown =
      reported-OneReport bold_yellow bright_yellow (ascii "ARP") (ascii "ARP") (ascii "ARP") src dst
        info shown (ascii "ARP") refl (inl refl) (inr refl)
