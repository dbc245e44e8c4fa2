-- ===== src/Cli/Safety/Arp.antt =====
-- `handle_arp` of netzer-cli/src/main.rs on every packet: it never panics.
use net_zer.Outcome.{
  Refused, Ends-match_else, from_be_bytes, Ends, Ends-if, Ends-bind, Ends-returns,
}
use net_zer.Prelude.{
  Bytes, ℕ, ◌++◌, All, IsByte, All-append, ◌<◌, ◌≡◌, inl, arith, ◌∙◌, ◌==◌, inr, append_assoc,
  ascii, All-append_left, refl, All-append_right, subst,
}
use net_zer.Header.Arp.{ArpPacket, parse}
use net_zer.Header.Arp.Layout.{IsHeader, Parsed, parse_arp-Parsed}
use net_zer.Header.Ipv4.{ipv4_text}
use net_zer.Header.Ipv4.ReadBack.{IsAscii-ipv4_text}
use net_zer.Header.Mac.ReadBack.{IsAscii-mac_text}
use net_zer.Report.Truncate.{truncate-ascii}
use net_zer.Text.Decimal.ReadBack.{IsAscii-decimal}
use net_zer.Cli.Line.{Style, Session}
use net_zer.Cli.Reported.{Handled, report_arp-OneReport}
use net_zer.Cli.Arp.{arp_info, handle_arp}

abbrev IsAsciiText : Bytes → Type 0
IsAsciiText = All (λ c. c < 128)

ascii_prefix : (p t : Bytes) → IsAsciiText p → IsAsciiText t → IsAsciiText (p ++ t)
ascii_prefix p t = All-append (λ c. c < 128) p t

arp_info-Ends :
    {buffer : Bytes} (arp : ArpPacket) (h : IsHeader buffer arp)
    → All IsByte h.mac1
    → Ends IsAsciiText ⊥ (arp_info arp)
unfolding arp_info
arp_info-Ends arp h mac =
    rw (h.opcode_is, h.target_ip_is, h.sender_ip_is, h.sender_mac_is)
      (Ends-if IsAsciiText ⊥ (from_be_bytes h.operation == 1) _ _
        (ascii_prefix (ascii "Who has ") _ (omega arith) (
          ascii_prefix (ipv4_text (record { octets = h.ip2 })) _
            (IsAscii-ipv4_text (record { octets = h.ip2 }))
            (ascii_prefix (ascii "? Tell ") _ (omega arith)
              (IsAscii-ipv4_text (record { octets = h.ip1 })))))
        (Ends-if IsAsciiText ⊥ (from_be_bytes h.operation == 2) _ _
          (ascii_prefix (ipv4_text (record { octets = h.ip1 })) _
            (IsAscii-ipv4_text (record { octets = h.ip1 }))
            (ascii_prefix (ascii " is at ") _ (omega arith)
              (IsAscii-mac_text (record { octets = h.mac1 }) mac)))
          (ascii_prefix (ascii "Opcode ") _ (omega arith)
            (IsAscii-decimal (from_be_bytes h.operation)))))

mac_bytes :
    {buffer : Bytes} (arp : ArpPacket) (h : IsHeader buffer arp)
    → All IsByte buffer
    → All IsByte h.mac1
mac_bytes {buffer} arp h bytes =
    let front : Bytes = h.hardware ++ (h.protocol ++ (h.sizes ++ h.operation)) in
    let rest : Bytes = h.ip1 ++ (h.mac2 ++ (h.ip2 ++ h.trailer)) in
    let whole : buffer ≡ front ++ (h.mac1 ++ rest) = h.layout ∙ simp append_assoc in
    All-append_left IsByte h.mac1 rest
      (All-append_right IsByte front (h.mac1 ++ rest) (subst (All IsByte) whole bytes))

module _ (paint : Style → Bytes → Bytes) (time_str : Bytes) (size : ℕ) (raw_hex : Bytes)
    (s : Session) where
  pub handle_arp-Ends :
      (packet : Bytes)
      → All IsByte packet
      → Ends
          (Handled (Refused (parse packet)) paint time_str size raw_hex s)
          ⊥
          (handle_arp paint packet time_str size raw_hex s)
  unfolding handle_arp
  handle_arp-Ends packet bytes =
      Ends-match_else (Parsed packet)
        (Handled (Refused (parse packet)) paint time_str size raw_hex s) ⊥ (parse packet) _ _
        (parse_arp-Parsed packet) (λ r. inl (r, refl))
        (λ arp e h.
          Ends-bind IsAsciiText (Handled (Refused (parse packet)) paint time_str size raw_hex s) ⊥
            (arp_info arp) _ (arp_info-Ends arp h (mac_bytes arp h bytes))
            (λ info plain.
              Ends-returns (Handled (Refused (parse packet)) paint time_str size raw_hex s) ⊥ _ _ _
                h.sender_mac_is
                (Ends-returns (Handled (Refused (parse packet)) paint time_str size raw_hex s) ⊥ _ _
                  _ h.target_mac_is
                  (Ends-returns (Handled (Refused (parse packet)) paint time_str size raw_hex s) ⊥ _
                    _ _ (truncate-ascii info 35 plain (omega arith))
                    (inr (report_arp-OneReport paint time_str size raw_hex s _ _ info _))))))
        (λ e h. h) (λ h. h)
