-- ===== src/Web/Request.antt =====
-- A request to the server of netzer-cli/src/web/mod.rs: what the thread that `start` makes for a
-- connection answers. `lower` is `to_lowercase` of the standard library and `index_html` the page that
-- is built in.
pub mod Lines
pub mod Handshake
use Prim.Native.String.{String}
use net_zer.Prelude.{
  ℕ, Bytes, List, Option, Bool, none, some, [], ◌∷◌, ◌++◌, ascii, length, leb, drop, get_or, take,
  ◌&&◌, ◌||◌, not, if◌then◌else◌,
}
use net_zer.Outcome.{Outcome, ok, panic, diverge, ◌>>=◌}
use net_zer.Report.{is_continuation}
use net_zer.Stream.{starts_with}
use net_zer.Text.Decimal.{decimal}
use net_zer.Text.Lossy.{from_utf8_lossy}
use net_zer.Text.Words.{lines, trim}
use net_zer.Web.Base64.{base64_encode}
use net_zer.Web.Frame.{encode_ws_text_frame}
use net_zer.Web.Sha1.{sha1}

-- `\r\n`
abbrev pub crlf : Bytes
crlf = b'\r' ∷ b'\n' ∷ []

-- `&line[n..]`, which panics inside a character and past the end.
unfoldable pub str_from : ℕ → Bytes → Outcome Bytes
str_from n s =
    if leb n (length s) && not (is_continuation (get_or s n 0)) then ok (drop n s) else panic

-- The `for` over the lines, up to the first key.
unfoldable pub ws_key : (lower : Bytes → Bytes) → List Bytes → Outcome (Option Bytes)
ws_key lower [] = ok none
ws_key lower (line ∷ more) =
    if starts_with (lower line) (ascii "sec-websocket-key:")
    then (str_from 18 line >>= λ rest. ok (some (trim rest)))
    else ws_key lower more

-- The digest, whose loop is on fuel.
abbrev pub or_diverge {ℓ} : {A : Type ℓ} → Option A → Outcome A
or_diverge none = diverge
or_diverge (some a) = ok a

abbrev pub guid : Bytes
guid = ascii "258EAFA5-E914-47DA-95CA-C5AB0DC85B11"

unfoldable pub accept_key : Bytes → Outcome Bytes
accept_key key = or_diverge (sha1 (key ++ guid)) >>= λ hashed. ok (base64_encode hashed)

-- What is written: nothing, a page or an error, or the two texts of the handshake, before and after which the
-- write of the first is looked at.
pub data Reply : Type 0 where
  silent : Reply
  plain : (response : Bytes) → Reply
  upgrade : (response ws_frame : Bytes) → Reply

unfoldable pub page_response : Bytes → Bytes
page_response html =
    ascii "HTTP/1.1 200 OK"
    ++ (crlf
        ++ (ascii "Content-Type: text/html"
            ++ (crlf
                ++ (ascii "Content-Length: "
                    ++ (decimal (length html)
                        ++ (crlf ++ (ascii "Connection: close" ++ (crlf ++ (crlf ++ html)))))))))

unfoldable pub empty_response : String → Bytes
empty_response status =
    ascii "HTTP/1.1 "
    ++ (ascii status
        ++ (crlf
            ++ (ascii "Content-Length: 0"
                ++ (crlf ++ (ascii "Connection: close" ++ (crlf ++ crlf))))))

unfoldable pub upgrade_response : Bytes → Bytes
upgrade_response accept =
    ascii "HTTP/1.1 101 Switching Protocols"
    ++ (crlf
        ++ (ascii "Upgrade: websocket"
            ++ (crlf
                ++ (ascii "Connection: Upgrade"
                    ++ (crlf ++ (ascii "Sec-WebSocket-Accept: " ++ (accept ++ (crlf ++ crlf))))))))

unfoldable pub sys_info : Bytes → Bytes
sys_info interface = ascii "{\"type\":\"system\",\"interface\":\"" ++ (interface ++ ascii "\"}")

unfoldable pub answer_key : Bytes → Option Bytes → Outcome Reply
answer_key interface none = ok (plain (empty_response "400 Bad Request"))
answer_key interface (some key) = accept_key key >>= λ accept.
    ok (upgrade (upgrade_response accept) (encode_ws_text_frame (sys_info interface)))

-- The size of `buf`.
abbrev pub request_size : ℕ
request_size = 2048

-- `stream.read(&mut buf)`, once, and `buf[..n]`: what has arrived, as far as it fits.
unfoldable pub read_request : Bytes → Bytes
read_request arrived = take request_size arrived

unfoldable pub answer_request :
    (lower : Bytes → Bytes) (index_html interface : Bytes) → Bytes → Outcome Reply
answer_request lower index_html interface received =
    let request = from_utf8_lossy received in
    if starts_with request (ascii "GET / ") || starts_with request (ascii "GET /index.html ")
    then ok (plain (page_response index_html))
    else if starts_with request (ascii "GET /ws ")
    then (ws_key lower (lines request) >>= answer_key interface)
    else ok (plain (empty_response "404 Not Found"))

-- `if let Ok(n) = stream.read(&mut buf)`, on what has arrived; `none` is an error of the read.
unfoldable pub reply :
    (lower : Bytes → Bytes) (index_html interface : Bytes) → Option Bytes → Outcome Reply
reply lower index_html interface none = ok silent
reply lower index_html interface (some arrived) =
    answer_request lower index_html interface (read_request arrived)

module _ {C : Type 0} (send : Bytes → C → Bool × C) where
  -- The writes, and the clients behind them: a connection becomes a client when the handshake is written
  -- and flushed, whatever becomes of the first frame.
  unfoldable pub serve : Reply → C → List C → List C
  serve silent stream clients = clients
  serve (plain response) stream clients = clients
  serve (upgrade response ws_frame) stream clients =
      let (written, stream') = send response stream in
      let (told, stream'') = send ws_frame stream' in
      if written then clients ++ stream'' ∷ [] else clients
