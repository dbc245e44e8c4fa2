-- ===== src/Cli/Arp.antt =====
-- `handle_arp` of netzer-cli/src/main.rs.
use net_zer.Outcome.{Outcome, ◌>>=◌, match_ok, ok}
use net_zer.Prelude.{Bytes, ℕ, ascii, if◌then◌else◌, ◌==◌, ◌++◌}
use net_zer.Header.Arp.{ArpPacket, parse, opcode, sender_mac, sender_ip, target_mac, target_ip}
use net_zer.Header.Ipv4.{ipv4_text}
use net_zer.Header.Mac.{mac_text}
use net_zer.Report.{truncate}
use net_zer.Text.Decimal.{decimal}
use net_zer.Cli.Line.{
  Style, Session, bright_yellow, bold_yellow, pad_right, print_packet_line, broadcast,
}
use net_zer.Cli.JsonWriter.{log_packet, web_message}

unfoldable pub arp_info : ArpPacket → Outcome Bytes
arp_info arp = do
  op ← opcode arp
  if op == 1
      then (do
        wanted ← target_ip arp
        asking ← sender_ip arp
        ok (ascii "Who has " ++ (ipv4_text wanted ++ (ascii "? Tell " ++ ipv4_text asking))))
      else if op == 2
      then (do
        ip ← sender_ip arp
        mac ← sender_mac arp
        ok (ipv4_text ip ++ (ascii " is at " ++ mac_text mac)))
      else ok (ascii "Opcode " ++ decimal op)

module _ (paint : Style → Bytes → Bytes) where
  -- The line, which shows the information cut to `shown`, the record and the message.
  unfoldable pub report_arp :
      Bytes → Bytes → (info_raw shown : Bytes) → Bytes → ℕ → Bytes → Session → Session
  report_arp src dst info_raw shown time_str size raw_hex session =
      let proto_colored = paint bold_yellow (pad_right 5 (ascii "ARP")) in
      let info_colored = paint bright_yellow (pad_right 35 shown) in
      let printed =
        print_packet_line paint time_str proto_colored src dst info_colored size session in
      broadcast (web_message time_str (ascii "ARP") src dst info_raw size raw_hex)
        (log_packet time_str (ascii "ARP") src dst info_raw size printed)

  unfoldable pub handle_arp : Bytes → Bytes → ℕ → Bytes → Session → Outcome Session
  handle_arp payload time_str size raw_hex session = match_ok (parse payload) (ok session) (λ arp.
      do
        info_raw ← arp_info arp
        src ← sender_mac arp
        dst ← target_mac arp
        shown ← truncate info_raw 35
        ok (report_arp (mac_text src) (mac_text dst) info_raw shown time_str size raw_hex session))
