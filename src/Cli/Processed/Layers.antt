-- ===== src/Cli/Processed/Layers.antt =====
-- The layers above Ethernet in `process_packet` of netzer-cli/src/main.rs.
use net_zer.Prelude.{
  Bytes, ◌≡◌, ◌++◌, subst, append_assoc, ◌∙◌, refl, ◌∷◌, ℕ, All, IsByte, inl, All-append_right, inr,
}
use net_zer.Header.Ipv4.{ipv4_text, parse as parse_ipv4}
use net_zer.Header.Ipv4.Layout.{Parsed as ParsedIpv4, parse_ipv4-Parsed}
use net_zer.Header.Ipv6.{Ipv6Header, ipv6_text, parse as parse_ipv6}
use net_zer.Header.Ipv6.Layout.{IsHeader as IsIpv6, Parsed as ParsedIpv6, parse_ipv6-Parsed}
use net_zer.Header.Tcp.{parse as parse_tcp}
use net_zer.Header.Tcp.Layout.{Parsed as ParsedTcp, parse_tcp-Parsed}
use net_zer.Stream.{Segment}
use net_zer.Cli.Line.{Style, Session}
use net_zer.Outcome.{
  Refused, Ends-match_else, Outcome, from_be_bytes, Ends-when, Ends, Ends-map, Ends-weaken,
  Ends-returns, Ends-match_ok,
}
use net_zer.Cli.Reported.{Handled}
use net_zer.Cli.Safety.{TcpTrigger, UdpTrigger}
use net_zer.Cli.Safety.Tcp.{handle_tcp-Ends}
use net_zer.Cli.Safety.Udp.{handle_udp-Ends}
use net_zer.Cli.Safety.Icmp.{handle_icmp-Ends, handle_icmpv6-Ends}
use net_zer.Cli.Process.{feed_tracker, process_tcp, process_ipv4, process_ipv6}
use net_zer.Header.Udp.{parse as parse_udp}
use net_zer.Header.Icmp.{parse as parse_icmp}
use net_zer.Cli.Processed.{
  PayloadSkip, other_proto, bad_tcp, bad_udp, bad_icmp, Ipv4Skip, bad_ipv4,
  ipv4_payload as skipped_ipv4, Ipv6Skip, bad_ipv6, ipv6_payload as skipped_ipv6, Fed, Continues,
  IpTrigger, over_tcp, over_udp, Ipv4Trigger, Ipv6Trigger,
}
use net_zer.Cli.Processed.Feed.{Fed-refl, feed_tracker-Fed}

pub Continues-after :
    (Skip : Type 0) (paint : Style → Bytes → Bytes) (time_str : Bytes) (size : ℕ) (raw_hex : Bytes)
    (s m t : Session)
    → Fed paint s m
    → Handled Skip paint time_str size raw_hex m t
    → Continues Skip paint time_str size raw_hex s t
Continues-after Skip paint time_str size raw_hex s m t f h = record {
  middle = m;
  fed = f;
  handled = h;
}

ipv6_payload :
    {packet : Bytes} (header : Ipv6Header) (payload : Bytes) (h : IsIpv6 packet header payload)
    → All IsByte packet
    → All IsByte payload
ipv6_payload {packet} header payload h bytes =
    let front : Bytes = h.before ++ (h.next ∷ h.hop_limit ∷ (h.src ++ h.dst)) in
    let whole : packet ≡ front ++ payload = h.layout ∙ simp append_assoc in
    All-append_right IsByte front payload (subst (All IsByte) whole bytes)

Handled-map :
    {paint : Style → Bytes → Bytes} {time_str raw_hex : Bytes} {size : ℕ} (R Skip : Type 0)
    (s t : Session)
    → (R → Skip)
    → Handled R paint time_str size raw_hex s t
    → Handled Skip paint time_str size raw_hex s t
Handled-map R Skip s t f (inl (r, same)) = inl (f r, same)
Handled-map R Skip s t f (inr reported) = inr reported

module _ (paint : Style → Bytes → Bytes) (time_str : Bytes) (size : ℕ) (raw_hex : Bytes)
    (s : Session) where
  -- A handler that is called on the session as it is.
  pub Handled-Ends :
      (R Skip T U : Type 0) (m : Outcome Session)
      → (R → Skip)
      → (T → U)
      → Ends (Handled R paint time_str size raw_hex s) T m
      → Ends (Continues Skip paint time_str size raw_hex s) U m
  Handled-Ends R Skip T U m g f h =
      Ends-map (Handled R paint time_str size raw_hex s)
        (Continues Skip paint time_str size raw_hex s) U m
        (λ t k.
          Continues-after Skip paint time_str size raw_hex s s t (Fed-refl paint s)
            (Handled-map R Skip s t g k))
        (Ends-weaken (Handled R paint time_str size raw_hex s) T U m f h)

  pub Skipped : (Skip : Type 0) → Skip → Continues Skip paint time_str size raw_hex s s
  Skipped Skip why =
      Continues-after Skip paint time_str size raw_hex s s s (Fed-refl paint s) (inl (why, refl))

  process_tcp-Ends :
      (src_ip dst_ip segment : Bytes)
      → All IsByte segment
      → Ends
          (Continues (Refused (parse_tcp segment)) paint time_str size raw_hex s)
          (TcpTrigger segment)
          (process_tcp paint src_ip dst_ip segment time_str size raw_hex s)
  unfolding process_tcp
  process_tcp-Ends src_ip dst_ip segment bytes =
      let R : Type 0 = Refused (parse_tcp segment) in
      let Q : Session → Type 0 = Continues R paint time_str size raw_hex s in
      Ends-match_ok (ParsedTcp segment) Q (TcpTrigger segment) (parse_tcp segment) _ _
        (parse_tcp-Parsed segment)
        (Handled-Ends R R (TcpTrigger segment) (TcpTrigger segment) _ (λ r. r) (λ h. h)
          (handle_tcp-Ends paint time_str size raw_hex s src_ip dst_ip segment bytes))
        (λ (header, payload) e h. Ends-returns Q (TcpTrigger segment) _ _ _ h.source_port_is (
          Ends-returns Q (TcpTrigger segment) _ _ _ h.destination_port_is (
            let sent : Segment = record {
              src_ip = src_ip;
              src_port = from_be_bytes h.src;
              dst_ip = dst_ip;
              dst_port = from_be_bytes h.dst;
              payload = payload;
            } in
            let m : Session = feed_tracker paint s.tracker sent s in
            Ends-map (Handled R paint time_str size raw_hex m) Q (TcpTrigger segment) _
              (λ t.
                Continues-after R paint time_str size raw_hex s m t
                  (feed_tracker-Fed paint s.tracker sent s refl))
              (handle_tcp-Ends paint time_str size raw_hex m src_ip dst_ip segment bytes))))
        (λ e h. absurd h) (λ h. h)

  pub Continues-map :
      (R Skip T U : Type 0) (m : Outcome Session)
      → (R → Skip)
      → (T → U)
      → Ends (Continues R paint time_str size raw_hex s) T m
      → Ends (Continues Skip paint time_str size raw_hex s) U m
  Continues-map R Skip T U m g f h =
      Ends-map (Continues R paint time_str size raw_hex s)
        (Continues Skip paint time_str size raw_hex s) U m
        (λ t c.
          Continues-after Skip paint time_str size raw_hex s c.middle t c.fed
            (Handled-map R Skip c.middle t g c.handled))
        (Ends-weaken (Continues R paint time_str size raw_hex s) T U m f h)

  pub process_ipv4-Ends :
      (packet : Bytes)
      → All IsByte packet
      → Ends
          (Continues (Ipv4Skip packet) paint time_str size raw_hex s)
          (Ipv4Trigger packet)
          (process_ipv4 paint packet time_str size raw_hex s)
  unfolding process_ipv4
  process_ipv4-Ends packet bytes =
      let Q : Session → Type 0 = Continues (Ipv4Skip packet) paint time_str size raw_hex s in
      let T : Type 0 = Ipv4Trigger packet in
      Ends-match_else (ParsedIpv4 packet) Q T (parse_ipv4 packet) _ _
        (parse_ipv4-Parsed packet bytes) (λ r. Skipped (Ipv4Skip packet) (bad_ipv4 r))
        (λ (header, payload) e h.
          let trigger : IpTrigger h.proto payload → T = λ c. record {
            header = header;
            payload = payload;
            proto = h.proto;
            parsed = e;
            proto_is = h.protocol_is;
            cause = c;
          } in
          let skip : PayloadSkip 1 h.proto payload → Ipv4Skip packet =
            skipped_ipv4 header payload h.proto e h.protocol_is in
          let inner : All IsByte payload =
            All-append_right IsByte header.buffer payload (subst (All IsByte) h.layout bytes) in
          let src_ip : Bytes = ipv4_text (record { octets = h.src }) in
          let dst_ip : Bytes = ipv4_text (record { octets = h.dst }) in
          Ends-returns Q T _ _ _ h.source_is (
            Ends-returns Q T _ _ _ h.destination_is (
              Ends-returns Q T _ _ _ h.protocol_is (
                Ends-when Q T h.proto 6 _ _
                  (λ is.
                    Continues-map (Refused (parse_tcp payload)) (Ipv4Skip packet)
                      (TcpTrigger payload) T _ (λ r. skip (bad_tcp is r))
                      (λ c. trigger (over_tcp is c)) (process_tcp-Ends src_ip dst_ip payload inner))
                  (λ not_tcp.
                    Ends-when Q T h.proto 17 _ _
                      (λ is.
                        Handled-Ends (Refused (parse_udp payload)) (Ipv4Skip packet)
                          (UdpTrigger payload) T _ (λ r. skip (bad_udp is r))
                          (λ c. trigger (over_udp is c))
                          (handle_udp-Ends paint time_str size raw_hex s src_ip dst_ip payload
                            inner))
                      (λ not_udp.
                        Ends-when Q T h.proto 1 _ _
                          (λ is.
                            Handled-Ends (Refused (parse_icmp payload)) (Ipv4Skip packet) ⊥ T _
                              (λ r. skip (bad_icmp is r)) absurd
                              (handle_icmp-Ends paint time_str size raw_hex s src_ip dst_ip
                                payload))
                          (λ not_icmp.
                            Skipped (Ipv4Skip packet)
                              (skip (other_proto not_tcp not_udp not_icmp)))))))))
        (λ e h. absurd h) (λ h. h)

  pub process_ipv6-Ends :
      (packet : Bytes)
      → All IsByte packet
      → Ends
          (Continues (Ipv6Skip packet) paint time_str size raw_hex s)
          (Ipv6Trigger packet)
          (process_ipv6 paint packet time_str size raw_hex s)
  unfolding process_ipv6
  process_ipv6-Ends packet bytes =
      let Q : Session → Type 0 = Continues (Ipv6Skip packet) paint time_str size raw_hex s in
      let T : Type 0 = Ipv6Trigger packet in
      Ends-match_else (ParsedIpv6 packet) Q T (parse_ipv6 packet) _ _ (parse_ipv6-Parsed packet)
        (λ r. Skipped (Ipv6Skip packet) (bad_ipv6 r))
        (λ (header, payload) e h.
          let trigger : IpTrigger h.next payload → T = λ c. record {
            header = header;
            payload = payload;
            proto = h.next;
            parsed = e;
            proto_is = h.next_header_is;
            cause = c;
          } in
          let skip : PayloadSkip 58 h.next payload → Ipv6Skip packet =
            skipped_ipv6 header payload h.next e h.next_header_is in
          let inner : All IsByte payload = ipv6_payload header payload h bytes in
          let src_ip : Bytes = ipv6_text (record { octets = h.src }) in
          let dst_ip : Bytes = ipv6_text (record { octets = h.dst }) in
          Ends-returns Q T _ _ _ h.source_is (
            Ends-returns Q T _ _ _ h.destination_is (
              Ends-returns Q T _ _ _ h.next_header_is (
                Ends-when Q T h.next 6 _ _
                  (λ is.
                    Handled-Ends (Refused (parse_tcp payload)) (Ipv6Skip packet)
                      (TcpTrigger payload) T _ (λ r. skip (bad_tcp is r))
                      (λ c. trigger (over_tcp is c))
                      (handle_tcp-Ends paint time_str size raw_hex s src_ip dst_ip payload inner))
                  (λ not_tcp.
                    Ends-when Q T h.next 17 _ _
                      (λ is.
                        Handled-Ends (Refused (parse_udp payload)) (Ipv6Skip packet)
                          (UdpTrigger payload) T _ (λ r. skip (bad_udp is r))
                          (λ c. trigger (over_udp is c))
                          (handle_udp-Ends paint time_str size raw_hex s src_ip dst_ip payload
                            inner))
                      (λ not_udp.
                        Ends-when Q T h.next 58 _ _
                          (λ is.
                            Handled-Ends (Refused (parse_icmp payload)) (Ipv6Skip packet) ⊥ T _
                              (λ r. skip (bad_icmp is r)) absurd
                              (handle_icmpv6-Ends paint time_str size raw_hex s src_ip dst_ip
                                payload))
                          (λ not_icmp.
                            Skipped (Ipv6Skip packet)
                              (skip (other_proto not_tcp not_udp not_icmp)))))))))
        (λ e h. absurd h) (λ h. h)
