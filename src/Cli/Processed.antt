-- ===== src/Cli/Processed.antt =====
-- What `process_packet` of netzer-cli/src/main.rs does to a session, and which frames make it panic.
pub mod Feed
pub mod Layers
pub mod Frame
use net_zer.Outcome.{ok, Refused}
use net_zer.Header.Tcp.{parse as parse_tcp}
use net_zer.Header.Udp.{parse as parse_udp}
use net_zer.Header.Icmp.{parse as parse_icmp}
use net_zer.Header.Arp.{parse as parse_arp}
use net_zer.Prelude.{
  ◌≢◌, Option, ℕ, Bytes, ◌≡◌, some, ◌++◌, none, Bool, [], ◌⊎◌, if◌then◌else◌, ◌∷◌, map,
}
use mathlib.Core.Option
use net_zer.Header.Ethernet.{EthernetFrame, EtherType, ethertype, parse as parse_ethernet}
use net_zer.Header.Ipv4.{Ipv4Header, protocol, parse as parse_ipv4}
use net_zer.Header.Ipv6.{Ipv6Header, next_header, parse as parse_ipv6}
use net_zer.Report.Hexdump.{hexdump}
use net_zer.Report.Pcap.{write_packet}
use net_zer.Stream.{TcpStreamTracker}
use net_zer.Stream.Buffers.{IsValid}
use net_zer.Cli.Line.{Session, Style, bright_blue, bright_black, bright_white}
use net_zer.Cli.Reported.{Handled}
use net_zer.Cli.Safety.{TcpTrigger, UdpTrigger}
use net_zer.Cli.Process.{Clock, opening_rule, printable_char, closing_rule}

abbrev pub IsValid? : Option TcpStreamTracker → Type 0
IsValid? none = Unit
IsValid? (some tracker) = IsValid tracker

-- The three lines that show a reassembled stream.
abbrev pub stream_lines : (Style → Bytes → Bytes) → Bytes → Bytes
stream_lines paint gathered =
    (paint bright_blue opening_rule ++ b'\n' ∷ [])
    ++ ((paint bright_white (map printable_char gathered) ++ b'\n' ∷ [])
        ++ (paint bright_blue closing_rule ++ b'\n' ∷ []))

-- What the tracker does to a session: nothing, or the three lines of one stream go to the terminal; and
-- it stays valid.
pub record Fed (paint : Style → Bytes → Bytes) (s t : Session) : Type 0 where
  pub stream_text : Bytes
  pub text_is :
      (stream_text ≡ []) ⊎ ((gathered : Bytes) × (stream_text ≡ stream_lines paint gathered))
  pub pcap_is : t.pcap ≡ s.pcap
  pub json_is : t.json ≡ s.json
  pub web_is : t.web ≡ s.web
  pub terminal_is : t.terminal ≡ s.terminal ++ stream_text
  pub tracker_valid : IsValid? s.tracker → IsValid? t.tracker

-- An IP payload that is not reported: one of no protocol that is read, or one whose header is refused.
pub data PayloadSkip (icmp_number proto : ℕ) (payload : Bytes) : Type 0 where
  other_proto : proto ≢ 6 → proto ≢ 17 → proto ≢ icmp_number → PayloadSkip icmp_number proto payload
  bad_tcp : proto ≡ 6 → Refused (parse_tcp payload) → PayloadSkip icmp_number proto payload
  bad_udp : proto ≡ 17 → Refused (parse_udp payload) → PayloadSkip icmp_number proto payload
  bad_icmp :
      proto ≡ icmp_number → Refused (parse_icmp payload) → PayloadSkip icmp_number proto payload

pub data Ipv4Skip (packet : Bytes) : Type 0 where
  bad_ipv4 : Refused (parse_ipv4 packet) → Ipv4Skip packet
  ipv4_payload :
      (header : Ipv4Header) (payload : Bytes) (proto : ℕ)
      → parse_ipv4 packet ≡ ok (header, payload)
      → protocol header ≡ ok proto
      → PayloadSkip 1 proto payload
      → Ipv4Skip packet

pub data Ipv6Skip (packet : Bytes) : Type 0 where
  bad_ipv6 : Refused (parse_ipv6 packet) → Ipv6Skip packet
  ipv6_payload :
      (header : Ipv6Header) (payload : Bytes) (proto : ℕ)
      → parse_ipv6 packet ≡ ok (header, payload)
      → next_header header ≡ ok proto
      → PayloadSkip 58 proto payload
      → Ipv6Skip packet

-- What an Ethernet payload of a type is, where it is not reported.
abbrev pub KindSkip : EtherType → Bytes → Type 0
KindSkip EtherType.ipv4 payload = Ipv4Skip payload
KindSkip EtherType.ipv6 payload = Ipv6Skip payload
KindSkip EtherType.arp payload = Refused (parse_arp payload)
KindSkip (EtherType.other n) payload = Unit

-- The frames that are not reported.
pub data FrameSkip (packet : Bytes) : Type 0 where
  bad_frame : Refused (parse_ethernet packet) → FrameSkip packet
  frame_payload :
      (frame : EthernetFrame) (payload : Bytes) (kind : EtherType)
      → parse_ethernet packet ≡ ok (frame, payload)
      → ethertype frame ≡ ok kind
      → KindSkip kind payload
      → FrameSkip packet

-- The layers above Ethernet: perhaps the text of a stream on the terminal, then one report, or none for the reason `Skip`.
pub record Continues (Skip : Type 0) (paint : Style → Bytes → Bytes) (time_str : Bytes) (size : ℕ)
    (raw_hex : Bytes) (s t : Session) : Type 0 where
  pub middle : Session
  pub fed : Fed paint s middle
  pub handled : Handled Skip paint time_str size raw_hex middle t

-- A whole frame: it goes to the pcap file, its dump to the terminal where dumps are asked for, and then
-- through the layers.
pub record Processed (paint : Style → Bytes → Bytes) (show_hexdump : Bool) (clock : Clock)
    (packet : Bytes) (size : ℕ) (raw_hex : Bytes) (s t : Session) : Type 0 where
  pub kept : Session
  pub dump_text : Bytes
  pub pcap_is : kept.pcap ≡ Option.map (write_packet clock.secs clock.micros packet) s.pcap
  pub json_is : kept.json ≡ s.json
  pub web_is : kept.web ≡ s.web
  pub tracker_is : kept.tracker ≡ s.tracker
  pub dump_is :
      dump_text ≡ (if show_hexdump then paint bright_black (hexdump packet) ++ b'\n' ∷ [] else [])
  pub terminal_is : kept.terminal ≡ s.terminal ++ dump_text
  pub continues : Continues (FrameSkip packet) paint clock.time_str size raw_hex kept t

-- An IP payload of protocol `proto` that makes its handler panic.
pub data IpTrigger (proto : ℕ) (payload : Bytes) : Type 0 where
  over_tcp : proto ≡ 6 → TcpTrigger payload → IpTrigger proto payload
  over_udp : proto ≡ 17 → UdpTrigger payload → IpTrigger proto payload

pub record Ipv4Trigger (packet : Bytes) : Type 0 where
  pub header : Ipv4Header
  pub payload : Bytes
  pub proto : ℕ
  pub parsed : parse_ipv4 packet ≡ ok (header, payload)
  pub proto_is : protocol header ≡ ok proto
  pub cause : IpTrigger proto payload

pub record Ipv6Trigger (packet : Bytes) : Type 0 where
  pub header : Ipv6Header
  pub payload : Bytes
  pub proto : ℕ
  pub parsed : parse_ipv6 packet ≡ ok (header, payload)
  pub proto_is : next_header header ≡ ok proto
  pub cause : IpTrigger proto payload

-- The frames that make `process_packet` panic.
pub data FrameTrigger (packet : Bytes) : Type 0 where
  in_ipv4 :
      (frame : EthernetFrame) (payload : Bytes)
      → parse_ethernet packet ≡ ok (frame, payload)
      → ethertype frame ≡ ok EtherType.ipv4
      → Ipv4Trigger payload
      → FrameTrigger packet
  in_ipv6 :
      (frame : EthernetFrame) (payload : Bytes)
      → parse_ethernet packet ≡ ok (frame, payload)
      → ethertype frame ≡ ok EtherType.ipv6
      → Ipv6Trigger payload
      → FrameTrigger packet
