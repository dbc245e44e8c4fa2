-- ===== src/Examples/Filters.antt =====
-- The filters on a machine that is written out, and on frames.
use net_zer.Prelude.{
  ℕ, ascii, ◌≡◌, Bool, ◌==◌, replicate, if◌then◌else◌, Bytes, List, ◌++◌, ◌∷◌, refl, drop, suc,
  ◌||◌, [], true, zero, get_elem?, ◌+◌, false, ◌%◌, ◌*◌,
}
use mathlib.Core.Option
use net_zer.Socket.Filter.{
  SockFilter, filter_port, filter_ipv4, filter_proto, half_at, loaded, IsMachine,
}
use net_zer.Socket.Filter.Port.{keeps_port, filter_port-keeps}
use net_zer.Socket.Filter.Proto.{keeps_proto, filter_proto-keeps}
use net_zer.Socket.Filter.Parsed.{filter_port-tcp, filter_port-udp}
use net_zer.Examples.Frames.{
  tcp_frame, tcp_packet, segment, tcp_payload, udp_frame, udp_packet, udp_front, front_frame,
  header_of, tcp_header, udp_header, tcp_frame-bytes, udp_frame-bytes, tcp_frame-parsed,
  udp_frame-parsed, front_frame-ipv4, tcp_packet-parsed, udp_packet-parsed, header_of-protocol,
  segment-parsed, tcp_header-ports, datagram-parsed, udp_header-ports,
}

-- The instructions by their codes, with as many to skip as a jump has left.
unfoldable run : ℕ → List SockFilter → ℕ → ℕ → Bytes → ℕ
run skip [] a x p = 0
run (suc skip) (i ∷ rest) a x p = run skip rest a x p
run zero (i ∷ rest) a x p =
    if i.code == 0x28
    then loaded (half_at p i.k) (λ h. run 0 rest h x p)
    else if i.code == 0x30
    then loaded (get_elem? p i.k) (λ b. run 0 rest b x p)
    else if i.code == 0x48
    then loaded (half_at p (x + i.k)) (λ h. run 0 rest h x p)
    else if i.code == 0xb1
    then loaded (get_elem? p i.k) (λ b. run 0 rest a (b % 16 * 4) p)
    else if i.code == 0x15
    then run (if a == i.k then i.jt else i.jf) rest a x p
    else i.k

run-drop :
    (n : ℕ) (rest : List SockFilter) (a x : ℕ) (p : Bytes)
    → run n rest a x p ≡ run 0 (drop n rest) a x p
unfolding run
run-drop zero rest a x p = refl
run-drop (suc n) [] a x p = refl
run-drop (suc n) (i ∷ rest) a x p = run-drop n rest a x p

run-jump :
    (b : Bool) (jt jf : ℕ) (rest : List SockFilter) (a x : ℕ) (p : Bytes)
    → run (if b then jt else jf) rest a x p
      ≡ (if b then run 0 (drop jt rest) a x p else run 0 (drop jf rest) a x p)
run-jump true jt jf rest a x p = run-drop jt rest a x p
run-jump false jt jf rest a x p = run-drop jf rest a x p

run-IsMachine : IsMachine (run 0)
unfolding run
run-IsMachine = record {
  load_half = λ jt jf k rest a x p. refl;
  load_byte = λ jt jf k rest a x p. refl;
  load_half_indexed = λ jt jf k rest a x p. refl;
  load_header_length = λ jt jf k rest a x p. refl;
  jump_equal = λ jt jf k rest a x p. run-jump (a == k) jt jf rest a x p;
  keep = λ jt jf k rest a x p. refl;
}

filter_port-keeps_example :
    run 0 (filter_port 53) 0 0 udp_frame ≡ (if keeps_port 53 udp_frame then 65535 else 0)
filter_port-keeps_example = filter_port-keeps (run 0) run-IsMachine 53 0 0 udp_frame

filter_port-tcp_example :
    run 0 (filter_port 80) 0 0 tcp_frame ≡ (if 0xc000 == 80 || 80 == 80 then 65535 else 0)
filter_port-tcp_example =
    filter_port-tcp (run 0) run-IsMachine 80 0 0 tcp_frame tcp_packet segment front_frame
      (header_of 6) tcp_frame-bytes tcp_frame-parsed front_frame-ipv4 tcp_packet-parsed tcp_header
      tcp_payload 0xc000 80 (header_of-protocol 6) segment-parsed tcp_header-ports.0
      tcp_header-ports.1

filter_port-udp_example :
    run 0 (filter_port 80) 0 0 udp_frame ≡ (if 0xc000 == 80 || 53 == 80 then 65535 else 0)
filter_port-udp_example =
    filter_port-udp (run 0) run-IsMachine 80 0 0 udp_frame udp_packet
      (udp_front ++ (0x01 ∷ 0x02 ∷ [])) front_frame (header_of 17) udp_frame-bytes udp_frame-parsed
      front_frame-ipv4 udp_packet-parsed udp_header (0x01 ∷ 0x02 ∷ []) 0xc000 53
      (header_of-protocol 17) datagram-parsed udp_header-ports.0 udp_header-ports.1

filter_proto-keeps_example :
    Option.map (λ program. run 0 program 0 0 tcp_frame) (filter_proto (λ text. text) (ascii "arp"))
    ≡ Option.map
        (λ (test : Bytes → Bool). if test tcp_frame then 65535 else 0)
        (keeps_proto (ascii "arp"))
filter_proto-keeps_example =
    filter_proto-keeps (run 0) run-IsMachine (λ text. text) (ascii "arp") 0 0 tcp_frame

-- An ARP frame passes the filter for TCP: its type is not that of IPv4.
tcp_filter_keeps_arp : run 0 (filter_ipv4 6) 0 0 (replicate 12 0 ++ (0x08 ∷ 0x06 ∷ [])) ≡ 65535
unfolding run filter_ipv4
tcp_filter_keeps_arp = refl
