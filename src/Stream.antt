-- ===== src/Stream.antt =====
-- netzer-core/src/tcp_stream.rs: the payloads of each TCP connection, gathered until there is something
-- to show. The map is a function of the key; `usize` counters are taken not to wrap.
pub mod Key
pub mod Buffers
pub mod History
use net_zer.Prelude.{
  [], Bytes, ℕ, none, Bool, Option, true, leb, ◌&&◌, ascii, false, if◌then◌else◌, ◌∷◌, some, ◌++◌,
  ◌==◌, ◌||◌, ltb, ◌+◌, length,
}
use net_zer.Outcome.{Outcome}
use Prim.Native.Nat.{compare, Ordering}

-- `str::cmp`: byte by byte, a proper prefix first.
unfoldable pub compare_str : Bytes → Bytes → Ordering
compare_str [] [] = Ordering.eq
compare_str [] (y ∷ ys) = Ordering.lt
compare_str (x ∷ xs) [] = Ordering.gt
compare_str (x ∷ xs) (y ∷ ys) = elim (compare x y) [
  | Ordering.eq ↦ compare_str xs ys
  | Ordering.lt ↦ Ordering.lt
  | Ordering.gt ↦ Ordering.gt
]

-- `(src_ip, src_port) < (dst_ip, dst_port)`
unfoldable pub endpoint_lt : Bytes × ℕ → Bytes × ℕ → Bool
endpoint_lt (ip, port) (ip', port') = elim (compare_str ip ip') [
  | Ordering.lt ↦ true
  | Ordering.eq ↦ ltb port port'
  | Ordering.gt ↦ false
]

pub record StreamKey : Type 0 where
  pub client_ip : Bytes
  pub client_port : ℕ
  pub server_ip : Bytes
  pub server_port : ℕ

unfoldable pub new_key : Bytes → ℕ → Bytes → ℕ → StreamKey
new_key src_ip src_port dst_ip dst_port =
    if endpoint_lt (src_ip, src_port) (dst_ip, dst_port)
    then record {
      client_ip = src_ip;
      client_port = src_port;
      server_ip = dst_ip;
      server_port = dst_port;
    }
    else record {
      client_ip = dst_ip;
      client_port = dst_port;
      server_ip = src_ip;
      server_port = src_port;
    }

abbrev pub str_eq : Bytes → Bytes → Bool
str_eq [] [] = true
str_eq (x ∷ xs) (y ∷ ys) = x == y && str_eq xs ys
str_eq _ _ = false

-- The derived `PartialEq`.
unfoldable pub key_eq : StreamKey → StreamKey → Bool
key_eq a b =
    str_eq a.client_ip b.client_ip
    && a.client_port == b.client_port
    && str_eq a.server_ip b.server_ip
    && a.server_port == b.server_port

pub record TcpStream : Type 0 where
  pub key : StreamKey
  pub payload : Bytes
  pub packet_count : ℕ

abbrev pub new_stream : StreamKey → TcpStream
new_stream key = record { key = key; payload = []; packet_count = 0 }

pub record TcpStreamTracker : Type 0 where
  pub streams : StreamKey → Option TcpStream
  pub flush_threshold : ℕ

abbrev pub new_tracker : TcpStreamTracker
new_tracker = record { streams = λ _. none; flush_threshold = 4096 }

-- `HashMap::insert`, and `entry(key).or_insert_with(|| TcpStream::new(key))`
abbrev pub insert :
    StreamKey → TcpStream → (StreamKey → Option TcpStream) → StreamKey → Option TcpStream
insert key stream streams k = if key_eq key k then some stream else streams k

abbrev pub entry_or : StreamKey → Option TcpStream → TcpStream
entry_or key none = new_stream key
entry_or key (some stream) = stream

unfoldable pub starts_with : Bytes → Bytes → Bool
starts_with text [] = true
starts_with [] (p ∷ ps) = false
starts_with (x ∷ xs) (p ∷ ps) = x == p && starts_with xs ps

unfoldable pub contains : Bytes → ℕ → Bool
contains [] c = false
contains (x ∷ xs) c = x == c || contains xs c

unfoldable pub is_http_request : Bytes → Bool
is_http_request text =
    starts_with text (ascii "GET ")
    || starts_with text (ascii "POST ")
    || starts_with text (ascii "PUT ")
    || starts_with text (ascii "DELETE ")
    || starts_with text (ascii "HTTP/")

unfoldable pub should_flush : ℕ → Bytes → Bool
should_flush threshold text =
    leb threshold (length text) || (is_http_request text && contains text b'\n')

-- A segment, as `feed` is given it.
pub record Segment : Type 0 where
  pub src_ip : Bytes
  pub src_port : ℕ
  pub dst_ip : Bytes
  pub dst_port : ℕ
  pub payload : Bytes

abbrev pub segment_key : Segment → StreamKey
segment_key s = new_key s.src_ip s.src_port s.dst_ip s.dst_port

-- The stream of a key behind a payload that is not empty, and what is returned.
unfoldable pub append_payload :
    TcpStreamTracker → StreamKey → TcpStream → Bytes → TcpStreamTracker × Option (StreamKey × Bytes)
append_payload tracker key stream payload =
    let gathered = stream.payload ++ payload in
    if should_flush tracker.flush_threshold gathered
    then (
      record tracker {
        streams = insert key (record stream { payload = []; packet_count = 0 }) tracker.streams;
      },
      some (key, gathered),
    )
    else (
      record tracker {
        streams =
            insert key
              (record stream { payload = gathered; packet_count = stream.packet_count + 1 })
              tracker.streams;
      },
      none,
    )

abbrev pub is_nil : Bytes → Bool
is_nil [] = true
is_nil (x ∷ xs) = false

unfoldable pub feed : TcpStreamTracker → Segment → TcpStreamTracker × Option (StreamKey × Bytes)
feed tracker s =
    if is_nil s.payload
    then (tracker, none)
    else append_payload tracker (segment_key s)
        (entry_or (segment_key s) (tracker.streams (segment_key s))) s.payload

unfoldable pub clear : TcpStreamTracker → TcpStreamTracker
clear tracker = record tracker { streams = λ _. none }
