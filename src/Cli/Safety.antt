-- ===== src/Cli/Safety.antt =====
-- When the handlers of netzer-cli/src/main.rs panic.
pub mod Tcp
pub mod Udp
pub mod Icmp
pub mod Arp
use net_zer.Outcome.{
  panic, ok, from_be_bytes, Ends, Ends-bind, Ends-returns, Ends-match_ok, Ends-weaken,
}
use net_zer.Prelude.{
  Bytes, ℕ, ◌⊎◌, ◌≡◌, All, IsByte, inr, Bool-cases, inl, ◌==◌, ==_iff, ◌∙◌, ap, All-append_right,
  subst, refl,
}
use net_zer.Dns.{DnsQuery, parse as parse_dns}
use net_zer.Dns.Parse.{Parsed as ParsedDns, parse_dns-Parsed}
use net_zer.Header.Arp.{ArpPacket}
use net_zer.Header.Arp.Layout.{IsHeader as IsArp, Parsed as ParsedArp, parse_arp-Parsed}
use net_zer.Header.Icmp.Layout.{Parsed as ParsedIcmp, parse_icmp-Parsed}
use net_zer.Header.Tcp.{TcpHeader, destination_port as tcp_port, parse as parse_tcp}
use net_zer.Header.Tcp.Layout.{Parsed as ParsedTcp, parse_tcp-Parsed}
use net_zer.Header.Udp.{UdpHeader, source_port, destination_port, parse as parse_udp}
use net_zer.Header.Udp.Layout.{Parsed as ParsedUdp, parse_udp-Parsed}
use net_zer.Report.{truncate}
use net_zer.Report.Truncate.{truncate-cases}
use net_zer.Tls.{TlsClientHello, parse as parse_hello}
use net_zer.Tls.Parse.{IsEmptyRecord, Parsed as ParsedTls, parse_tls-Parsed}
use net_zer.Cli.Line.{Style, Session}
use net_zer.Cli.Reported.{Handled, OneReport, report_tcp-OneReport}
use net_zer.Cli.Tcp.{TcpInfo, tls_info, tcp_info, handle_tcp}
use net_zer.Cli.Udp.{UdpInfo, dns_info, udp_info, handle_udp}

-- What makes the TLS branch panic: the empty record, or a server name that is cut inside a character.
abbrev pub TlsTrigger : Bytes → Type 0
TlsTrigger payload =
    IsEmptyRecord payload
    ⊎ ((hello : TlsClientHello) × (parse_hello payload ≡ ok hello)
        × (truncate hello.sni 35 ≡ panic))

-- A TCP segment to port 443 with such a payload.
pub record TcpTrigger (segment : Bytes) : Type 0 where
  pub header : TcpHeader
  pub payload : Bytes
  pub parsed : parse_tcp segment ≡ ok (header, payload)
  pub to_tls : tcp_port header ≡ ok 443
  pub cause : TlsTrigger payload

-- A UDP datagram from or to port 53 with a name that is cut inside a character.
pub record UdpTrigger (datagram : Bytes) : Type 0 where
  pub header : UdpHeader
  pub payload : Bytes
  pub query : DnsQuery
  pub parsed : parse_udp datagram ≡ ok (header, payload)
  pub port_53 : (source_port header ≡ ok 53) ⊎ (destination_port header ≡ ok 53)
  pub named : parse_dns payload ≡ ok query
  pub cut : truncate query.domain_name 30 ≡ panic

pub Ends-truncate :
    (R : Bytes → Type 0) (T : Type 0) (s : Bytes) (n : ℕ)
    → ((t : Bytes) → R t)
    → (truncate s n ≡ panic → T)
    → Ends R T (truncate s n)
Ends-truncate R T s n k p = elim (truncate-cases s n) [
  | inl e ↦ rw e (p e)
  | inr (t, e) ↦ rw e (k t)
]
