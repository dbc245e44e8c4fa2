-- ===== src/Cli/Processed/Feed.antt =====
-- What the stream tracker does to a session in `process_packet` of netzer-cli/src/main.rs.
use net_zer.Prelude.{
  Bytes, ◌≡◌, Option, ◌++◌, [], ap, sym, append-nil, some, subst, append_assoc, ◌∙◌, none, refl,
  ◌∷◌, map, inl, ◌⊎◌, inr,
}
use net_zer.Stream.{TcpStreamTracker, Segment, StreamKey, feed}
use net_zer.Stream.Buffers.{feed-IsValid}
use net_zer.Cli.Line.{Style, Session, bright_blue, bright_white}
use net_zer.Cli.Process.{opening_rule, closing_rule, printable_char, print_stream, feed_tracker}
use net_zer.Cli.Processed.{IsValid?, Fed, stream_lines}

-- A session that the tracker leaves alone.
pub Fed-refl : (paint : Style → Bytes → Bytes) (s : Session) → Fed paint s s
Fed-refl paint s = record {
  stream_text = [];
  text_is = inl refl;
  pcap_is = refl;
  json_is = refl;
  web_is = refl;
  terminal_is = sym (append-nil s.terminal);
  tracker_valid = λ v. v;
}

module _ (paint : Style → Bytes → Bytes) where
  print_stream_text :
      (out : Option (StreamKey × Bytes)) (s : Session)
      → (text : Bytes) × ((text ≡ []) ⊎ ((gathered : Bytes) × (text ≡ stream_lines paint gathered)))
        × (print_stream paint out s ≡ record s { terminal = s.terminal ++ text })
  unfolding print_stream
  print_stream_text none s =
      ([], inl refl, ap (λ (t : Bytes). record s { terminal = t }) (sym (append-nil s.terminal)))
  print_stream_text (some (key, gathered)) s = (
    stream_lines paint gathered,
    inr (gathered, refl),
    ap (λ (t : Bytes). record s { terminal = t })
        (append_assoc (s.terminal ++ (paint bright_blue opening_rule ++ b'\n' ∷ []))
            (paint bright_white (map printable_char gathered) ++ b'\n' ∷ [])
            (paint bright_blue closing_rule ++ b'\n' ∷ [])
          ∙ append_assoc s.terminal (paint bright_blue opening_rule ++ b'\n' ∷ []) (
              (paint bright_white (map printable_char gathered) ++ b'\n' ∷ [])
              ++ (paint bright_blue closing_rule ++ b'\n' ∷ []))),
  )

  pub feed_tracker-Fed :
      (tracker : Option TcpStreamTracker) (segment : Segment) (s : Session)
      → s.tracker ≡ tracker
      → Fed paint s (feed_tracker paint tracker segment s)
  unfolding feed_tracker
  feed_tracker-Fed none segment s e = Fed-refl paint s
  feed_tracker-Fed (some tracker) segment s e =
      let (text, text_is, shown) =
        print_stream_text (feed tracker segment).1
          (record s { tracker = some (feed tracker segment).0 }) in
      rw shown (record {
        stream_text = text;
        text_is = text_is;
        pcap_is = refl;
        json_is = refl;
        web_is = refl;
        terminal_is = refl;
        tracker_valid = λ v. feed-IsValid tracker segment (subst IsValid? e v);
      })
