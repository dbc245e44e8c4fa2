-- ===== src/Cli/Capture/Run.antt =====
-- What the capture loop of netzer-cli/src/main.rs leaves when it has run over a list of calls.
use net_zer.Prelude.{
  Bytes, List, ◌∷◌, [], All, take, Bool, IsByte, ◌≤◌, length, true, Option, inl, false, inr, ◌≡◌,
  some, ◌++◌, if◌then◌else◌, none, All-take,
}
use mathlib.Core.Option
use net_zer.Outcome.{slice_to_le, Ends, Ends-map, Ends-weaken, Ends-bind}
use net_zer.Report.{to_hex_string}
use net_zer.Report.Pcap.{create, PcapWriter}
use net_zer.Report.Pcap.ReadBack.{
  PcapPacket, Fits, read_pcap, write_packets, read_pcap-write_packets,
}
use net_zer.Stream.Buffers.{new_tracker-IsValid}
use net_zer.Stream.{new_tracker}
use net_zer.Cli.Line.{Style, Session, JsonWriter}
use net_zer.Cli.JsonWriter.{create as create_json}
use net_zer.Cli.JsonWriter.ReadBack.{Fields, read_lines, write_lines, read_lines-write_lines}
use net_zer.Cli.Args.{Args, open_session}
use net_zer.Cli.Processed.{Processed, IsValid?, FrameTrigger}
use net_zer.Cli.Processed.Frame.{process_packet-Ends}
use net_zer.Cli.Captured.{
  Captured, Captured-refl, Captured-trans, as_written, Processed-Captured, TriggerIn,
}
use net_zer.Cli.Capture.{Received, frame, failed, capture_step, capture}

-- The frames that came, in order.
unfoldable pub frames_of : List Received → List PcapPacket
frames_of [] = []
frames_of (frame clock size buffer ∷ more) = as_written clock (take size buffer) ∷ frames_of more
frames_of (failed error ∷ more) = frames_of more

-- `recv` writes no more than the buffer holds, and it writes bytes.
abbrev pub IsRead : Received → Type 0
IsRead (frame clock size buffer) = All IsByte buffer × (size ≤ length buffer)
IsRead (failed error) = Unit

module _ (paint : Style → Bytes → Bytes) (show_hexdump : Bool) where
  pub capture-Captured :
      (rs : List Received) (s : Session)
      → All IsRead rs
      → Ends
          (Captured (frames_of rs) s)
          (TriggerIn (frames_of rs))
          (capture paint show_hexdump rs s)
  unfolding capture capture_step frames_of
  capture-Captured [] s h = Captured-refl s
  capture-Captured (failed error ∷ more) s (h, hs) = capture-Captured more s hs
  capture-Captured (frame clock size buffer ∷ more) s ((bytes, inside), hs) =
      let packet : Bytes = take size buffer in
      let p : PcapPacket = as_written clock packet in
      let Q : Session → Type 0 = Captured (frames_of (frame clock size buffer ∷ more)) s in
      let T : Type 0 = TriggerIn (frames_of (frame clock size buffer ∷ more)) in
      rw (slice_to_le buffer size inside) (
        Ends-bind (Processed paint show_hexdump clock packet size (to_hex_string packet) s) Q T _ _
          (Ends-weaken (Processed paint show_hexdump clock packet size (to_hex_string packet) s)
            (FrameTrigger packet) T _ inl
            (process_packet-Ends paint show_hexdump clock size s packet
              (All-take IsByte size buffer bytes)))
          (λ m d.
            Ends-map (Captured (frames_of more) m) Q T _
              (λ t.
                Captured-trans (p ∷ []) (frames_of more) s m t
                  (Processed-Captured paint show_hexdump clock packet size _ s m d))
              (Ends-weaken (Captured (frames_of more) m) (TriggerIn (frames_of more)) T _ inr
                (capture-Captured more m hs))))

-- The pcap file, where one was asked for, against the frames.
abbrev pub PcapHolds : List PcapPacket → Option Bytes → Option PcapWriter → Type 0
PcapHolds frames none file = file ≡ none
PcapHolds frames (some path) file =
    (w : PcapWriter) × (file ≡ some w) × (read_pcap w.file ≡ some frames)

-- The JSON file, where one was asked for, against the reports.
abbrev pub JsonHolds : List Fields → Option Bytes → Option JsonWriter → Type 0
JsonHolds logged none file = file ≡ none
JsonHolds logged (some path) file =
    (w : JsonWriter) × (file ≡ some w) × (read_lines (length logged) w.file ≡ some logged)

-- The messages, where there is a web server: as many as reports.
abbrev pub WebHolds : List Fields → Bool → Option (List Bytes) → Type 0
WebHolds logged true web = (sent : List Bytes) × (web ≡ some sent) × (length sent ≡ length logged)
WebHolds logged false web = web ≡ none

-- A session after `frames`.
pub record Left (args : Args) (frames : List PcapPacket) (t : Session) : Type 0 where
  pub logged : List Fields
  pub at_most : length logged ≤ length frames
  pub pcap_holds : PcapHolds frames args.export_pcap t.pcap
  pub json_holds : JsonHolds logged args.export_json t.json
  pub web_holds : WebHolds logged args.serve t.web
  pub tracker_valid : IsValid? t.tracker

module _ (frames : List PcapPacket) (fit : All Fits frames) where
  pcap-Holds :
      (path : Option Bytes) (file : Option PcapWriter)
      → file ≡ Option.map (write_packets frames) (Option.map (λ p. create) path)
      → PcapHolds frames path file
  pcap-Holds none file e = e
  pcap-Holds (some path) file e =
      (write_packets frames create, e, read_pcap-write_packets frames fit)

json-Holds :
    (logged : List Fields) (path : Option Bytes) (file : Option JsonWriter)
    → file ≡ Option.map (write_lines logged) (Option.map (λ p. create_json) path)
    → JsonHolds logged path file
json-Holds logged none file e = e
json-Holds logged (some path) file e =
    (write_lines logged create_json, e, read_lines-write_lines logged)

web-Holds :
    (logged : List Fields) (sent : List Bytes) (serve : Bool) (web : Option (List Bytes))
    → length sent ≡ length logged
    → web ≡ Option.map (λ before. before ++ sent) (if serve then some [] else none)
    → WebHolds logged serve web
web-Holds logged sent true web l e = (sent, e, l)
web-Holds logged sent false web l e = e

fresh_tracker-IsValid : (follow : Bool) → IsValid? (if follow then some new_tracker else none)
fresh_tracker-IsValid true = new_tracker-IsValid
fresh_tracker-IsValid false = tt

pub Captured-Left :
    (args : Args) (shown : Bytes) (frames : List PcapPacket) (t : Session)
    → All Fits frames
    → Captured frames (open_session args shown) t
    → Left args frames t
unfolding open_session
Captured-Left args shown frames t fit c = record {
  logged = c.logged;
  at_most = c.at_most;
  pcap_holds = pcap-Holds frames fit args.export_pcap t.pcap c.pcap_is;
  json_holds = json-Holds c.logged args.export_json t.json c.json_is;
  web_holds = web-Holds c.logged c.sent args.serve t.web c.together c.web_is;
  tracker_valid = c.tracker_valid (fresh_tracker-IsValid args.follow_streams);
}

-- The capture loop, from the session that `main` opens, over any list of calls of `recv` that give
-- bytes and no more of them than the buffer holds, where every time and length fits 32 bits: it runs to the end of
-- the list, or it panics and one of the frames is in `FrameTrigger`. At the end the pcap file, if one was
-- asked for, is read back as exactly the frames that came, in order, with their times; the JSON file, if
-- one was asked for, is read back as a list of reports, at most one for a frame; the web server, if there
-- is one, was sent as many messages as there are reports; without the argument there is no file and no
-- message; and the tracker is valid.
pub capture-Left :
    (paint : Style → Bytes → Bytes) (args : Args) (shown : Bytes) (rs : List Received)
    → All IsRead rs
    → All Fits (frames_of rs)
    → Ends
        (Left args (frames_of rs))
        (TriggerIn (frames_of rs))
        (capture paint args.hexdump rs (open_session args shown))
capture-Left paint args shown rs read fit =
    Ends-map (Captured (frames_of rs) (open_session args shown)) (Left args (frames_of rs))
      (TriggerIn (frames_of rs)) _ (λ t. Captured-Left args shown (frames_of rs) t fit)
      (capture-Captured paint args.hexdump rs (open_session args shown) read)
