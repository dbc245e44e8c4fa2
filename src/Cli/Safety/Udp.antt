-- ===== src/Cli/Safety/Udp.antt =====
-- `handle_udp` of netzer-cli/src/main.rs on every datagram.
use net_zer.Outcome.{
  Refused, Ends-match_else, panic, ok, from_be_bytes, Ends, Ends-bind, Ends-returns, Ends-match_ok,
  Ends-weaken,
}
use net_zer.Prelude.{
  Bytes, ℕ, ◌⊎◌, ◌≡◌, All, IsByte, inr, Bool-cases, inl, ◌==◌, ◌∙◌, ap, All-append_right, subst,
  refl, ◌++◌, ◌||◌, true, append_assoc, arith,
}
use net_zer.Dns.{DnsQuery, parse as parse_dns}
use net_zer.Dns.Parse.{Parsed as ParsedDns, parse_dns-Parsed}
use net_zer.Header.Udp.{UdpHeader, source_port, destination_port, parse as parse_udp}
use net_zer.Header.Udp.Layout.{IsHeader as IsUdp, Parsed as ParsedUdp, parse_udp-Parsed}
use net_zer.Report.{truncate}
use net_zer.Cli.Line.{Style, Session}
use net_zer.Cli.Reported.{Handled, report_udp-OneReport}
use net_zer.Cli.Udp.{dns_info, udp_info, handle_udp}
use net_zer.Cli.Safety.{UdpTrigger, Ends-truncate}

NameTrigger : Bytes → Type 0
NameTrigger payload =
    (query : DnsQuery) × (parse_dns payload ≡ ok query) × (truncate query.domain_name 30 ≡ panic)

dns_info-Ends :
    (payload : Bytes)
    → All IsByte payload
    → Ends (λ _. Unit) (NameTrigger payload) (dns_info (parse_dns payload))
unfolding dns_info NameTrigger
dns_info-Ends payload bytes =
    Ends-match_ok (ParsedDns payload) (λ _. Unit) (NameTrigger payload) (parse_dns payload) _ _
      (parse_dns-Parsed payload bytes) tt
      (λ query e h.
        Ends-bind (λ _. Unit) (λ _. Unit) (NameTrigger payload) (truncate query.domain_name 30) _
          (Ends-truncate (λ _. Unit) (NameTrigger payload) query.domain_name 30 (λ _. tt)
            (λ p. (query, e, p)))
          (λ _ _. tt))
      (λ e h. absurd h) (λ h. h)

test_or : (a b : ℕ) → (a == 53 || b == 53) ≡ true → (b ≡ 53) ⊎ (a ≡ 53)
test_or a b h = ground arith

udp_info-Ends :
    (src dst : ℕ) (payload : Bytes)
    → All IsByte payload
    → Ends (λ _. Unit) (((src ≡ 53) ⊎ (dst ≡ 53)) × NameTrigger payload) (udp_info src dst payload)
unfolding udp_info
udp_info-Ends src dst payload bytes = elim (Bool-cases (dst == 53 || src == 53)) [
  | inl named ↦ rw named (
      Ends-weaken (λ _. Unit) (NameTrigger payload)
        (((src ≡ 53) ⊎ (dst ≡ 53)) × NameTrigger payload) (dns_info (parse_dns payload))
        (λ h. (test_or dst src named, h)) (dns_info-Ends payload bytes))
  | inr plain ↦ rw plain tt
]

module _ (paint : Style → Bytes → Bytes) (time_str : Bytes) (size : ℕ) (raw_hex : Bytes)
    (s : Session) where
  -- On every datagram `handle_udp` returns, with one report or none, or panics for `UdpTrigger`.
  pub handle_udp-Ends :
      (src_ip dst_ip datagram : Bytes)
      → All IsByte datagram
      → Ends
          (Handled (Refused (parse_udp datagram)) paint time_str size raw_hex s)
          (UdpTrigger datagram)
          (handle_udp paint src_ip dst_ip datagram time_str size raw_hex s)
  unfolding handle_udp NameTrigger
  handle_udp-Ends src_ip dst_ip datagram bytes =
      Ends-match_else (ParsedUdp datagram)
        (Handled (Refused (parse_udp datagram)) paint time_str size raw_hex s) (UdpTrigger datagram)
        (parse_udp datagram) _ _ (parse_udp-Parsed datagram) (λ r. inl (r, refl))
        (λ (header, payload) e h.
          let all : All IsByte payload = payload_bytes header payload h in
          let ports : (from_be_bytes h.src ≡ 53) ⊎ (from_be_bytes h.dst ≡ 53)
              → (source_port header ≡ ok 53) ⊎ (destination_port header ≡ ok 53) =
            λ p. elim p [
              | inl q ↦ inl (h.source_port_is ∙ ap ok q)
              | inr q ↦ inr (h.destination_port_is ∙ ap ok q)
            ] in
          Ends-returns (Handled (Refused (parse_udp datagram)) paint time_str size raw_hex s)
            (UdpTrigger datagram) _ _ _ h.source_port_is
            (Ends-returns (Handled (Refused (parse_udp datagram)) paint time_str size raw_hex s)
              (UdpTrigger datagram) _ _ _ h.destination_port_is
              (Ends-bind (λ _. Unit)
                (Handled (Refused (parse_udp datagram)) paint time_str size raw_hex s)
                (UdpTrigger datagram) (udp_info (from_be_bytes h.src) (from_be_bytes h.dst) payload)
                _
                (Ends-weaken (λ _. Unit) _ (UdpTrigger datagram)
                  (udp_info (from_be_bytes h.src) (from_be_bytes h.dst) payload)
                  (λ (port, cause). record {
                    header = header;
                    payload = payload;
                    query = cause.0;
                    parsed = e;
                    port_53 = ports port;
                    named = cause.1;
                    cut = cause.2;
                  })
                  (udp_info-Ends (from_be_bytes h.src) (from_be_bytes h.dst) payload all))
                (λ info _. inr (report_udp-OneReport paint time_str size raw_hex s _ _ info)))))
        (λ e h. absurd h) (λ h. h)
    where
      payload_bytes :
          (header : UdpHeader) (payload : Bytes)
          → IsUdp datagram header payload
          → All IsByte payload
      payload_bytes header payload h =
          let whole : datagram ≡ (h.src ++ (h.dst ++ h.length_and_checksum)) ++ payload =
            h.layout ∙ simp append_assoc in
          All-append_right IsByte (h.src ++ (h.dst ++ h.length_and_checksum)) payload
            (subst (All IsByte) whole bytes)
