-- ===== src/Cli/Safety/Tcp.antt =====
-- `handle_tcp` of netzer-cli/src/main.rs on every segment.
use net_zer.Outcome.{
  Refused, Ends-match_else, ok, from_be_bytes, Ends, Ends-bind, Ends-returns, Ends-match_ok,
  Ends-weaken,
}
use net_zer.Prelude.{
  Bytes, ℕ, ◌≡◌, All, IsByte, inr, Bool-cases, inl, ◌==◌, ==_iff, ◌∙◌, ap, All-append_right, subst,
  refl,
}
use net_zer.Header.Tcp.{parse as parse_tcp}
use net_zer.Header.Tcp.Layout.{Parsed as ParsedTcp, parse_tcp-Parsed}
use net_zer.Report.{truncate}
use net_zer.Tls.{parse as parse_hello}
use net_zer.Tls.Parse.{Parsed as ParsedTls, parse_tls-Parsed}
use net_zer.Cli.Line.{Style, Session}
use net_zer.Cli.Reported.{Handled, report_tcp-OneReport}
use net_zer.Cli.Tcp.{tls_info, tcp_info, handle_tcp}
use net_zer.Cli.Safety.{TlsTrigger, TcpTrigger, Ends-truncate}

tls_info-Ends :
    (payload : Bytes)
    → All IsByte payload
    → Ends (λ _. Unit) (TlsTrigger payload) (tls_info (parse_hello payload))
unfolding tls_info
tls_info-Ends payload bytes =
    Ends-match_ok (ParsedTls payload) (λ _. Unit) (TlsTrigger payload) (parse_hello payload) _ _
      (parse_tls-Parsed payload bytes) tt
      (λ hello e h.
        Ends-bind (λ _. Unit) (λ _. Unit) (TlsTrigger payload) (truncate hello.sni 35) _
          (Ends-truncate (λ _. Unit) (TlsTrigger payload) hello.sni 35 (λ _. tt)
            (λ p. inr (hello, e, p)))
          (λ _ _. tt))
      (λ e h. inl h) (λ h. h)

tcp_info-Ends :
    (port : ℕ) (payload : Bytes)
    → All IsByte payload
    → Ends (λ _. Unit) ((port ≡ 443) × TlsTrigger payload) (tcp_info port payload)
unfolding tcp_info
tcp_info-Ends port payload bytes = elim (Bool-cases (port == 443)) [
  | inl tls ↦ rw tls (
      Ends-weaken (λ _. Unit) (TlsTrigger payload) ((port ≡ 443) × TlsTrigger payload)
        (tls_info (parse_hello payload)) (λ h. ((==_iff port 443).0 tls, h))
        (tls_info-Ends payload bytes))
  | inr plain ↦ rw plain tt
]

module _ (paint : Style → Bytes → Bytes) (time_str : Bytes) (size : ℕ) (raw_hex : Bytes)
    (s : Session) where
  -- On every segment `handle_tcp` returns, with one report or none, or panics for `TcpTrigger`.
  pub handle_tcp-Ends :
      (src_ip dst_ip segment : Bytes)
      → All IsByte segment
      → Ends
          (Handled (Refused (parse_tcp segment)) paint time_str size raw_hex s)
          (TcpTrigger segment)
          (handle_tcp paint src_ip dst_ip segment time_str size raw_hex s)
  unfolding handle_tcp
  handle_tcp-Ends src_ip dst_ip segment bytes =
      Ends-match_else (ParsedTcp segment)
        (Handled (Refused (parse_tcp segment)) paint time_str size raw_hex s) (TcpTrigger segment)
        (parse_tcp segment) _ _ (parse_tcp-Parsed segment) (λ r. inl (r, refl))
        (λ (header, payload) e h.
          Ends-returns (Handled (Refused (parse_tcp segment)) paint time_str size raw_hex s)
            (TcpTrigger segment) _ _ _ h.source_port_is
            (Ends-returns (Handled (Refused (parse_tcp segment)) paint time_str size raw_hex s)
              (TcpTrigger segment) _ _ _ h.destination_port_is
              (Ends-bind (λ _. Unit)
                (Handled (Refused (parse_tcp segment)) paint time_str size raw_hex s)
                (TcpTrigger segment) (tcp_info (from_be_bytes h.dst) payload) _
                (Ends-weaken (λ _. Unit) ((from_be_bytes h.dst ≡ 443) × TlsTrigger payload)
                  (TcpTrigger segment) (tcp_info (from_be_bytes h.dst) payload)
                  (λ (port, cause). record {
                    header = header;
                    payload = payload;
                    parsed = e;
                    to_tls = h.destination_port_is ∙ ap ok port;
                    cause = cause;
                  })
                  (tcp_info-Ends (from_be_bytes h.dst) payload (
                    All-append_right IsByte header.buffer payload
                      (subst (All IsByte) h.layout bytes))))
                (λ info _. inr (report_tcp-OneReport paint time_str size raw_hex s _ _ info)))))
        (λ e h. absurd h) (λ h. h)
