-- ===== src/Cli/Processed/Frame.antt =====
-- A whole frame through `process_packet` of netzer-cli/src/main.rs.
use net_zer.Prelude.{
  Bytes, All, ℕ, Bool, ◌≡◌, IsByte, ◌++◌, refl, ◌∷◌, [], ap, sym, append-nil, true, false,
  if◌then◌else◌,
}
use mathlib.Core.Option
use net_zer.Header.Arp.{parse as parse_arp}
use net_zer.Outcome.{Refused, Ends-match_else, ok, Ends, Ends-map, Ends-weaken, Ends-returns}
use net_zer.Header.Ethernet.{EthernetFrame, EtherType, ethertype, parse as parse_ethernet}
use net_zer.Header.Ethernet.Layout.{frame_payload, Parsed as ParsedFrame, parse_ethernet-Parsed}
use net_zer.Report.{to_hex_string}
use net_zer.Report.Hexdump.{hexdump}
use net_zer.Report.Pcap.{write_packet}
use net_zer.Cli.Line.{Style, Session, bright_black}
use net_zer.Cli.Safety.Arp.{handle_arp-Ends}
use net_zer.Cli.Process.{Clock, record_frame, process_payload, process_packet}
use net_zer.Cli.Processed.{
  KindSkip, FrameSkip, bad_frame, frame_payload as frame_skip, Processed, Continues, Ipv4Trigger,
  Ipv6Trigger, FrameTrigger, in_ipv4, in_ipv6,
}
use net_zer.Cli.Processed.Layers.{
  Skipped, Continues-map, Handled-Ends, process_ipv4-Ends, process_ipv6-Ends,
}

-- What is kept of a frame before its layers are read.
record_frame_text :
    (paint : Style → Bytes → Bytes) (show_hexdump : Bool) (clock : Clock) (packet : Bytes)
    (s : Session)
    → (text : Bytes) × (text
        ≡ (if show_hexdump then paint bright_black (hexdump packet) ++ b'\n' ∷ [] else []))
      × (record_frame paint show_hexdump clock packet s ≡ record s {
        pcap = Option.map (write_packet clock.secs clock.micros packet) s.pcap;
        terminal = s.terminal ++ text;
      })
unfolding record_frame
record_frame_text paint true clock packet s =
    (paint bright_black (hexdump packet) ++ b'\n' ∷ [], refl, refl)
record_frame_text paint false clock packet s = (
  [],
  refl,
  ap
      (λ (t : Bytes). record s {
        pcap = Option.map (write_packet clock.secs clock.micros packet) s.pcap;
        terminal = t;
      })
      (sym (append-nil s.terminal)),
)

module _ (paint : Style → Bytes → Bytes) (time_str : Bytes) (size : ℕ) (raw_hex : Bytes)
    (s : Session) where
  process_payload-Ends :
      (packet payload : Bytes) (frame : EthernetFrame) (kind : EtherType)
      → parse_ethernet packet ≡ ok (frame, payload)
      → ethertype frame ≡ ok kind
      → All IsByte payload
      → Ends
          (Continues (KindSkip kind payload) paint time_str size raw_hex s)
          (FrameTrigger packet)
          (process_payload paint kind payload time_str size raw_hex s)
  unfolding process_payload
  process_payload-Ends packet payload frame EtherType.ipv4 e k bytes =
      Ends-weaken (Continues (KindSkip EtherType.ipv4 payload) paint time_str size raw_hex s)
        (Ipv4Trigger payload) (FrameTrigger packet) _ (in_ipv4 frame payload e k)
        (process_ipv4-Ends paint time_str size raw_hex s payload bytes)
  process_payload-Ends packet payload frame EtherType.ipv6 e k bytes =
      Ends-weaken (Continues (KindSkip EtherType.ipv6 payload) paint time_str size raw_hex s)
        (Ipv6Trigger payload) (FrameTrigger packet) _ (in_ipv6 frame payload e k)
        (process_ipv6-Ends paint time_str size raw_hex s payload bytes)
  process_payload-Ends packet payload frame EtherType.arp e k bytes =
      Handled-Ends paint time_str size raw_hex s (Refused (parse_arp payload))
        (Refused (parse_arp payload)) ⊥ (FrameTrigger packet) _ (λ r. r) absurd
        (handle_arp-Ends paint time_str size raw_hex s payload bytes)
  process_payload-Ends packet payload frame (EtherType.other n) e k bytes =
      Skipped paint time_str size raw_hex s Unit tt

module _ (paint : Style → Bytes → Bytes) (show_hexdump : Bool) (clock : Clock) (size : ℕ)
    (s : Session) where
  pub process_packet-Ends :
      (packet : Bytes)
      → All IsByte packet
      → Ends
          (Processed paint show_hexdump clock packet size (to_hex_string packet) s)
          (FrameTrigger packet)
          (process_packet paint show_hexdump clock packet size s)
  unfolding process_packet
  process_packet-Ends packet bytes =
      let (text, text_is, e) = record_frame_text paint show_hexdump clock packet s in
      let kept : Session = record s {
        pcap = Option.map (write_packet clock.secs clock.micros packet) s.pcap;
        terminal = s.terminal ++ text;
      } in
      let C : Session → Type 0 =
        Continues (FrameSkip packet) paint clock.time_str size (to_hex_string packet) kept in
      rw e (
        Ends-map C (Processed paint show_hexdump clock packet size (to_hex_string packet) s)
          (FrameTrigger packet) _
          (λ t c. record {
            kept = kept;
            dump_text = text;
            dump_is = text_is;
            pcap_is = refl;
            json_is = refl;
            web_is = refl;
            tracker_is = refl;
            terminal_is = refl;
            continues = c;
          })
          (Ends-match_else (ParsedFrame packet) C (FrameTrigger packet) (parse_ethernet packet) _ _
            (parse_ethernet-Parsed packet)
            (λ r.
              Skipped paint clock.time_str size (to_hex_string packet) kept (FrameSkip packet)
                (bad_frame r))
            (λ (frame, payload) parsed h.
              Ends-returns C (FrameTrigger packet) _ _ _ h.ethertype_is (
                Continues-map paint clock.time_str size (to_hex_string packet) kept
                  (KindSkip _ payload) (FrameSkip packet) (FrameTrigger packet)
                  (FrameTrigger packet) _ (frame_skip frame payload _ parsed h.ethertype_is)
                  (λ t. t)
                  (process_payload-Ends paint clock.time_str size (to_hex_string packet) kept packet
                    payload frame _ parsed h.ethertype_is (frame_payload frame payload h bytes))))
            (λ e h. absurd h) (λ h. h)))
