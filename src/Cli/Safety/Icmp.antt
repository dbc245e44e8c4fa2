-- ===== src/Cli/Safety/Icmp.antt =====
-- `handle_icmp` and `handle_icmpv6` of netzer-cli/src/main.rs on every message: they never panic.
use net_zer.Prelude.{Bytes, ℕ, inr, inl, ◌==◌, refl, ascii}
use net_zer.Header.Icmp.Layout.{Parsed as ParsedIcmp, parse_icmp-Parsed, IsHeader}
use net_zer.Report.{escape_json}
use net_zer.Cli.Line.{Style, Session}
use net_zer.Outcome.{Refused, Ends-match_else, Ends-if, Ends, Ends-bind, Ends-returns}
use net_zer.Cli.Reported.{Handled, report_icmp-OneReport}
use net_zer.Header.Icmp.{IcmpHeader, parse}
use net_zer.Cli.Icmp.{icmp_info, icmpv6_text, handle_icmp, handle_icmpv6}

icmp_info-Ends :
    {message payload : Bytes} (header : IcmpHeader)
    → IsHeader message header payload
    → Ends (λ _. Unit) ⊥ (icmp_info header)
unfolding icmp_info
icmp_info-Ends header h =
    rw (h.icmp_type_is, h.code_is)
      (Ends-if (λ _. Unit) ⊥ (h.kind == 0) _ _ tt
        (Ends-if (λ _. Unit) ⊥ (h.kind == 3) _ _ tt
          (Ends-if (λ _. Unit) ⊥ (h.kind == 8) _ _ tt
            (Ends-if (λ _. Unit) ⊥ (h.kind == 11) _ _ tt tt))))

module _ (paint : Style → Bytes → Bytes) (time_str : Bytes) (size : ℕ) (raw_hex : Bytes)
    (s : Session) where
  pub handle_icmp-Ends :
      (src_ip dst_ip message : Bytes)
      → Ends
          (Handled (Refused (parse message)) paint time_str size raw_hex s)
          ⊥
          (handle_icmp paint src_ip dst_ip message time_str size raw_hex s)
  unfolding handle_icmp
  handle_icmp-Ends src_ip dst_ip message =
      Ends-match_else (ParsedIcmp message)
        (Handled (Refused (parse message)) paint time_str size raw_hex s) ⊥ (parse message) _ _
        (parse_icmp-Parsed message) (λ r. inl (r, refl))
        (λ (header, payload) e h.
          Ends-bind (λ _. Unit) (Handled (Refused (parse message)) paint time_str size raw_hex s) ⊥
            (icmp_info header) _ (icmp_info-Ends header h)
            (λ info _. inr (
              report_icmp-OneReport paint time_str size raw_hex s (ascii "ICMP") (ascii "ICMP")
                src_ip dst_ip info (unfold escape_json in refl))))
        (λ e h. h) (λ h. h)

  pub handle_icmpv6-Ends :
      (src_ip dst_ip message : Bytes)
      → Ends
          (Handled (Refused (parse message)) paint time_str size raw_hex s)
          ⊥
          (handle_icmpv6 paint src_ip dst_ip message time_str size raw_hex s)
  unfolding handle_icmpv6
  handle_icmpv6-Ends src_ip dst_ip message =
      Ends-match_else (ParsedIcmp message)
        (Handled (Refused (parse message)) paint time_str size raw_hex s) ⊥ (parse message) _ _
        (parse_icmp-Parsed message) (λ r. inl (r, refl))
        (λ (header, payload) e h.
          Ends-returns (Handled (Refused (parse message)) paint time_str size raw_hex s) ⊥ _ _ _
            h.icmp_type_is
            (inr (
              report_icmp-OneReport paint time_str size raw_hex s (ascii "ICMP6") (ascii "ICMPv6")
                src_ip dst_ip (icmpv6_text h.kind) (unfold escape_json in refl))))
        (λ e h. h) (λ h. h)
