-- ===== src/Examples/Server.antt =====
-- The server's handshake and its broadcaster on concrete inputs.
use net_zer.Prelude.{
  Bytes, ascii, ℕ, length, ◌∷◌, Bool, ◌≡◌, [], arith, ◌++◌, not, some, refl, ◌==◌, ◌-◌, map, List,
  All,
}
use net_zer.Outcome.{ok}
use net_zer.Stream.{starts_with}
use net_zer.Web.Base64.{base64_encode}
use net_zer.Web.Sha1.{sha1}
use net_zer.Web.Broadcast.{deliver_all}
use net_zer.Web.Broadcast.Survivors.{reached_by_all, deliver_all-reached}
use net_zer.Web.Frame.Layout.{read_ws_text_frame}
use net_zer.Web.Request.{reply, upgrade}
use net_zer.Web.Request.Lines.{IsLine, IsVisible, wire}
use net_zer.Web.Request.Handshake.{IsOther, Browser, lines_of, key_of, ascii_lower, reply-Browser}

-- A client that takes so many frames more.
abbrev take_one : Bytes → ℕ → Bool × ℕ
take_one frame left = (not (left == 0), left - 1)

deliver_all-reached_example :
    deliver_all take_one (ascii "one" ∷ ascii "two" ∷ []) (1 ∷ 5 ∷ 0 ∷ 2 ∷ [])
    ≡ ok (reached_by_all take_one (ascii "one" ∷ ascii "two" ∷ []) (1 ∷ 5 ∷ 0 ∷ 2 ∷ []))
deliver_all-reached_example =
    deliver_all-reached take_one (ascii "one" ∷ ascii "two" ∷ []) (1 ∷ 5 ∷ 0 ∷ 2 ∷ [])

abbrev host_lines : List Bytes
host_lines = ascii "Host: 127.0.0.1:7070" ∷ ascii "Upgrade: websocket" ∷ []

version-IsLine : IsLine (ascii "HTTP/1.1")
version-IsLine = ground arith

host_lines-IsLine : All IsLine host_lines
host_lines-IsLine = (ground arith, (ground arith, tt))

host_lines-IsOther : All IsOther host_lines
unfolding starts_with
host_lines-IsOther = (refl, (refl, tt))

tail-IsLine : IsLine (ascii "Sec-WebSocket-Version: 13")
tail-IsLine = ground arith

abbrev rfc_key : Bytes
rfc_key = ascii "dGhlIHNhbXBsZSBub25jZQ=="

rfc_key-IsVisible : All IsVisible rfc_key
rfc_key-IsVisible = omega arith

-- The key of the example in RFC 6455.
abbrev rfc_request : Browser
rfc_request = record {
  version = ascii "HTTP/1.1";
  before = host_lines;
  first = b'd';
  key_rest = ascii "GhlIHNhbXBsZSBub25jZQ==";
  after = ascii "Sec-WebSocket-Version: 13" ∷ [];
  version_line = version-IsLine;
  before_lines = host_lines-IsLine;
  before_others = host_lines-IsOther;
  visible = rfc_key-IsVisible;
  after_lines = (tail-IsLine, tt);
}

reply-Browser_example :
    (hashed : Bytes) × (ws_frame : Bytes) × (length hashed ≡ 20)
    × (sha1 (key_of rfc_request ++ ascii "258EAFA5-E914-47DA-95CA-C5AB0DC85B11") ≡ some hashed)
    × (read_ws_text_frame ws_frame
        ≡ some (ascii "{\"type\":\"system\",\"interface\":\"" ++ (ascii "eth0" ++ ascii "\"}")))
    × (reply (map ascii_lower) [] (ascii "eth0") (some (wire (lines_of rfc_request)))
        ≡ ok (
            upgrade
              (ascii
                  "HTTP/1.1 101 Switching Protocols\r\nUpgrade: websocket\r\nConnection: Upgrade\r\n"
                ++ (ascii "Sec-WebSocket-Accept: " ++ (base64_encode hashed ++ ascii "\r\n\r\n")))
              ws_frame))
reply-Browser_example =
    reply-Browser (map ascii_lower) [] (ascii "eth0") rfc_request (λ t h. refl) (omega arith)
      (omega arith)
