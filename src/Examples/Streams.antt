-- ===== src/Examples/Streams.antt =====
-- The stream tracker on a short capture.
use net_zer.Prelude.{◌++◌, List, Bytes, ◌≡◌, ascii, ◌↔◌, ◌∷◌, ◌⊎◌, [], ℕ}
use net_zer.Stream.{StreamKey, Segment, new_tracker, new_key, segment_key, feed}
use net_zer.Stream.Key.{new_key_iff}
use net_zer.Stream.Buffers.{IsValid, feed-IsValid, new_tracker-IsValid}
use net_zer.Stream.History.{run_feeds, waiting, returned, received, run_feeds_balance}

abbrev host : Bytes
host = ascii "10.0.0.2"

abbrev server : Bytes
server = ascii "10.0.0.1"

abbrev host_port : ℕ
host_port = 40000

abbrev server_port : ℕ
server_port = 80

-- A request in two segments, and the start of the answer.
abbrev first_half : Segment
first_half = record {
  src_ip = host;
  src_port = host_port;
  dst_ip = server;
  dst_port = server_port;
  payload = ascii "GET / HT";
}

abbrev second_half : Segment
second_half = record first_half { payload = ascii "TP/1.1" ++ (13 ∷ 10 ∷ []) }

abbrev answer : Segment
answer = record {
  src_ip = server;
  src_port = server_port;
  dst_ip = host;
  dst_port = host_port;
  payload = ascii "HTTP/1.1";
}

abbrev capture : List Segment
capture = first_half ∷ second_half ∷ answer ∷ []

abbrev connection : StreamKey
connection = segment_key first_half

run_feeds_balance_example :
    waiting connection new_tracker ++ received connection capture
    ≡ returned connection (run_feeds new_tracker capture).1
      ++ waiting connection (run_feeds new_tracker capture).0
run_feeds_balance_example = run_feeds_balance capture new_tracker connection

feed-IsValid_example : IsValid (feed new_tracker first_half).0
feed-IsValid_example = feed-IsValid new_tracker first_half new_tracker-IsValid

new_key_iff_example :
    (new_key host host_port server server_port ≡ new_key server server_port host host_port) ↔ (
      ((host ≡ server) × (host_port ≡ server_port) × (server ≡ host) × (server_port ≡ host_port))
      ⊎ ((host ≡ host) × (host_port ≡ host_port) × (server ≡ server) × (server_port ≡ server_port)))
new_key_iff_example =
    new_key_iff host server server host host_port server_port server_port host_port
