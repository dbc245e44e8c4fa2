-- ===== src/Cli/Line.antt =====
-- `print_packet_line` of netzer-cli/src/main.rs, and the session that the handlers write to.
use net_zer.Prelude.{
  ℕ, Option, Bytes, ◌∷◌, List, ◌++◌, ascii, replicate, if◌then◌else◌, [], ◌+◌, ◌-◌,
}
use mathlib.Core.Option
use net_zer.Report.{is_continuation}
use net_zer.Report.Pcap.{PcapWriter}
use net_zer.Stream.{TcpStreamTracker}
use net_zer.Text.Decimal.{decimal}

-- The styles of the crate `colored` that the program uses, alone or with `bold`.
pub data Style : Type 0 where
  bright_black bright_green bright_red bright_yellow bright_blue bright_white : Style
  bold_magenta bold_green bold_cyan bold_blue bold_red bold_yellow : Style

pub record JsonWriter : Type 0 where
  pub file : Bytes

-- The writers that `main` hands to `process_packet`, the terminal's text, and the messages that went
-- to the channel of the web server.
pub record Session : Type 0 where
  pub pcap : Option PcapWriter
  pub json : Option JsonWriter
  pub tracker : Option TcpStreamTracker
  pub web : Option (List Bytes)
  pub terminal : Bytes

-- How many characters a text has.
unfoldable pub char_count : Bytes → ℕ
char_count [] = 0
char_count (b ∷ bs) = (if is_continuation b then 0 else 1) + char_count bs

-- `{:<w}`
unfoldable pub pad_right : ℕ → Bytes → Bytes
pad_right w s = s ++ replicate (w - char_count s) b' '

-- ` │ `
abbrev pub column_gap : Bytes
column_gap = 0x20 ∷ 0xE2 ∷ 0x94 ∷ 0x82 ∷ 0x20 ∷ []

-- What `println!` adds to the terminal.
abbrev pub println : Bytes → Session → Session
println line session = record session { terminal = session.terminal ++ (line ++ b'\n' ∷ []) }

module _ (paint : Style → Bytes → Bytes) where
  unfoldable pub packet_line : Bytes → Bytes → Bytes → Bytes → Bytes → ℕ → Bytes
  packet_line time_str proto src dst info size =
      let time_colored = paint bright_black (pad_right 14 time_str) in
      let src_colored = paint bright_green (pad_right 21 src) in
      let dst_colored = paint bright_red (pad_right 21 dst) in
      let size_colored = paint bright_yellow (pad_right 6 (decimal size ++ ascii " B")) in
      b' '
      ∷ (time_colored
          ++ (column_gap
              ++ (proto
                  ++ (column_gap
                      ++ (src_colored
                          ++ (column_gap
                              ++ (dst_colored
                                  ++ (column_gap ++ (info ++ (column_gap ++ size_colored))))))))))

  unfoldable pub print_packet_line : Bytes → Bytes → Bytes → Bytes → Bytes → ℕ → Session → Session
  print_packet_line time_str proto src dst info size =
      println (packet_line time_str proto src dst info size)

-- `server.broadcast(&msg)`, where there is a server: the message goes to the channel.
unfoldable pub broadcast : Bytes → Session → Session
broadcast msg session = record session { web = Option.map (λ sent. sent ++ msg ∷ []) session.web }
