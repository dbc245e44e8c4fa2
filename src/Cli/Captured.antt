-- ===== src/Cli/Captured.antt =====
-- What a capture leaves, as the lists of what it has seen and said.
use net_zer.Prelude.{
  Bytes, Option, ◌++◌, ◌∷◌, [], ℕ, List, append-nil, ◌≡◌, arith, inl, refl, some, ◌⊎◌, length, ◌∙◌,
  ◌≤◌, ap, sym, none, append_assoc, subst, length-append, inr, Bool,
}
use mathlib.Core.Option
use net_zer.Report.Pcap.{PcapWriter, write_packet}
use net_zer.Report.Pcap.ReadBack.{PcapPacket, write_packets}
use net_zer.Cli.Line.{Session, JsonWriter, Style}
use net_zer.Cli.JsonWriter.ReadBack.{Fields, write_lines, add_line}
use net_zer.Cli.Process.{Clock}
use net_zer.Cli.Processed.{IsValid?, Processed, Fed, FrameSkip, FrameTrigger}
use net_zer.Cli.Reported.{Handled, message_of}

-- From `s` to `t`, where `frames` came: all of them are in the pcap file, in order, and `logged` are the
-- reports, at most one for a frame, in the JSON file and as messages to the dashboard.
pub record Captured (frames : List PcapPacket) (s t : Session) : Type 0 where
  pub logged : List Fields
  pub sent : List Bytes
  pub pcap_is : t.pcap ≡ Option.map (write_packets frames) s.pcap
  pub json_is : t.json ≡ Option.map (write_lines logged) s.json
  pub web_is : t.web ≡ Option.map (λ before. before ++ sent) s.web
  pub at_most : length logged ≤ length frames
  pub together : length sent ≡ length logged
  pub tracker_valid : IsValid? s.tracker → IsValid? t.tracker

option_map_id {ℓ} :
    {A : Type ℓ} (f : A → A) → ((a : A) → f a ≡ a) → (o : Option A) → o ≡ Option.map f o
option_map_id f h none = refl
option_map_id f h (some a) = ap some (sym (h a))

option_map-map {ℓ} :
    {A : Type ℓ} (f g k : A → A)
    → ((a : A) → g (f a) ≡ k a)
    → (o : Option A) → Option.map g (Option.map f o) ≡ Option.map k o
option_map-map f g k h none = refl
option_map-map f g k h (some a) = ap some (h a)

write_packets-append :
    (ps qs : List PcapPacket) (w : PcapWriter)
    → write_packets qs (write_packets ps w) ≡ write_packets (ps ++ qs) w
unfolding write_packets
write_packets-append [] qs w = refl
write_packets-append (p ∷ ps) qs w =
    write_packets-append ps qs (write_packet p.sec p.usec p.packet w)

write_lines-append :
    (fs gs : List Fields) (w : JsonWriter)
    → write_lines gs (write_lines fs w) ≡ write_lines (fs ++ gs) w
unfolding write_lines
write_lines-append [] gs w = refl
write_lines-append (f ∷ fs) gs w = write_lines-append fs gs (add_line f w)

pub Captured-refl : (s : Session) → Captured [] s s
unfolding write_packets write_lines
Captured-refl s = record {
  logged = [];
  sent = [];
  pcap_is = option_map_id (write_packets []) (λ w. refl) s.pcap;
  json_is = option_map_id (write_lines []) (λ w. refl) s.json;
  web_is = option_map_id (λ before. before ++ []) append-nil s.web;
  at_most = omega arith;
  together = refl;
  tracker_valid = λ v. v;
}

pub Captured-trans :
    (ps qs : List PcapPacket) (s m t : Session)
    → Captured ps s m
    → Captured qs m t
    → Captured (ps ++ qs) s t
Captured-trans ps qs s m t a b = record {
  logged = a.logged ++ b.logged;
  sent = a.sent ++ b.sent;
  pcap_is =
      b.pcap_is
      ∙ ap (Option.map (write_packets qs)) a.pcap_is
      ∙ option_map-map (write_packets ps) (write_packets qs) (write_packets (ps ++ qs))
          (write_packets-append ps qs) s.pcap;
  json_is =
      b.json_is
      ∙ ap (Option.map (write_lines b.logged)) a.json_is
      ∙ option_map-map (write_lines a.logged) (write_lines b.logged)
          (write_lines (a.logged ++ b.logged)) (write_lines-append a.logged b.logged) s.json;
  web_is =
      b.web_is
      ∙ ap (Option.map (λ (before : List Bytes). before ++ b.sent)) a.web_is
      ∙ option_map-map (λ before. before ++ a.sent) (λ before. before ++ b.sent)
          (λ before. before ++ (a.sent ++ b.sent)) (λ before. append_assoc before a.sent b.sent)
          s.web;
  at_most =
      omega (arith, length-append a.logged b.logged, length-append ps qs, a.at_most, b.at_most);
  together =
      omega (
        arith,
        length-append a.logged b.logged,
        length-append a.sent b.sent,
        a.together,
        b.together,
      );
  tracker_valid = λ v. b.tracker_valid (a.tracker_valid v);
}

-- The frame as it is in the pcap file.
abbrev pub as_written : Clock → Bytes → PcapPacket
as_written clock packet = record { sec = clock.secs; usec = clock.micros; packet = packet }

module _ (paint : Style → Bytes → Bytes) (show_hexdump : Bool) (clock : Clock) (packet : Bytes)
    (size : ℕ) (raw_hex : Bytes) (s t : Session) where
  Handled-Captured :
      (p : Processed paint show_hexdump clock packet size raw_hex s t)
      → Handled (FrameSkip packet) paint clock.time_str size raw_hex p.continues.middle t
      → Captured (as_written clock packet ∷ []) s t
  unfolding write_packets write_lines
  Handled-Captured p (inl (skip, same)) =
      let f : Fed paint p.kept p.continues.middle = p.continues.fed in
      record {
        logged = [];
        sent = [];
        pcap_is = ap (λ (u : Session). u.pcap) same ∙ f.pcap_is ∙ p.pcap_is;
        json_is =
            ap (λ (u : Session). u.json) same
            ∙ f.json_is
            ∙ p.json_is
            ∙ option_map_id (write_lines []) (λ w. refl) s.json;
        web_is =
            ap (λ (u : Session). u.web) same
            ∙ f.web_is
            ∙ p.web_is
            ∙ option_map_id (λ before. before ++ []) append-nil s.web;
        at_most = omega arith;
        together = refl;
        tracker_valid = λ v.
            subst IsValid? (sym (ap (λ (u : Session). u.tracker) same))
              (f.tracker_valid (subst IsValid? (sym p.tracker_is) v));
      }
  Handled-Captured p (inr r) =
      let f : Fed paint p.kept p.continues.middle = p.continues.fed in
      record {
        logged = r.logged ∷ [];
        sent = message_of (record r.logged { proto = r.sent_proto }) raw_hex ∷ [];
        pcap_is = r.pcap_is ∙ f.pcap_is ∙ p.pcap_is;
        json_is = r.json_is ∙ ap (Option.map (add_line r.logged)) (f.json_is ∙ p.json_is);
        web_is =
            r.web_is
            ∙ ap
                (Option.map (λ (before : List Bytes).
                  before ++ message_of (record r.logged { proto = r.sent_proto }) raw_hex ∷ []))
                (f.web_is ∙ p.web_is);
        at_most = omega arith;
        together = refl;
        tracker_valid = λ v.
            subst IsValid? (sym r.tracker_is)
              (f.tracker_valid (subst IsValid? (sym p.tracker_is) v));
      }

  pub Processed-Captured :
      Processed paint show_hexdump clock packet size raw_hex s t
      → Captured (as_written clock packet ∷ []) s t
  Processed-Captured p = Handled-Captured p p.continues.handled

-- One of the frames makes `process_packet` panic.
abbrev pub TriggerIn : List PcapPacket → Type 0
TriggerIn [] = ⊥
TriggerIn (p ∷ ps) = FrameTrigger p.packet ⊎ TriggerIn ps
