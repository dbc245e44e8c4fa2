-- ===== src/Web/Request/Handshake.antt =====
-- The WebSocket handshake of netzer-cli/src/web/mod.rs on requests as a browser writes them.
use net_zer.Outcome.{ok}
use net_zer.Prelude.{
  take_le, ℕ, Bytes, ◌≡◌, ◌∷◌, All, arith, ◌<◌, [], refl, ◌≢◌, ap, List, ◌++◌, ◌∙◌, false,
  append_assoc, some, map, if◌then◌else◌, All-append, ascii, leb, ◌&&◌, ◌+◌, length, true, le→leb,
  take, ◌≤◌, ◌^◌, length-append,
}
use net_zer.Stream.{starts_with}
use net_zer.Text.Lossy.{from_utf8_lossy, lossy_from, nothing_pending}
use net_zer.Text.Words.{lines}
use net_zer.Web.Base64.{base64_encode}
use net_zer.Web.Frame.{encode_ws_text_frame}
use net_zer.Web.Sha1.{sha1}
use net_zer.Web.Sha1.Padding.{sha1-Padded}
use net_zer.Web.Request.Lines.{IsVisible, IsLine, wire, trim-key, lines-wire, lossy_ascii}
use net_zer.Web.Frame.Layout.{read_ws_text_frame, read_ws_text_frame-encode_ws_text_frame}
use net_zer.Web.Request.{
  answer_request, read_request, guid, crlf, str_from, ws_key, accept_key, upgrade, upgrade_response,
  sys_info, answer_key, reply, starts_with,
}

-- `to_lowercase` on ASCII.
abbrev pub ascii_lower : ℕ → ℕ
ascii_lower c = if leb b'A' c && leb c b'Z' then c + 32 else c

abbrev pub LowersAscii : (Bytes → Bytes) → Type 0
LowersAscii lower = (t : Bytes) → All (λ c. c < 128) t → lower t ≡ map ascii_lower t

-- A line that is not the key's.
abbrev pub IsOther : Bytes → Type 0
IsOther l = starts_with (map ascii_lower l) (ascii "sec-websocket-key:") ≡ false

line_ascii : (l : Bytes) → IsLine l → All (λ c. c < 128) l
line_ascii [] h = tt
line_ascii (c ∷ l) (h, hs) = (h.0, line_ascii l hs)

wire_ascii : (ls : List Bytes) → All IsLine ls → All (λ c. c < 128) (wire ls)
wire_ascii [] h = (omega arith, (omega arith, tt))
wire_ascii (l ∷ ls) (h, hs) =
    All-append (λ c. c < 128) l (crlf ++ wire ls) (line_ascii l h)
      (omega arith, (omega arith, wire_ascii ls hs))

visible_ascii : (s : Bytes) → All IsVisible s → All (λ c. c < 128) s
visible_ascii [] h = tt
visible_ascii (c ∷ s) (h, hs) = (omega (arith, h.1), visible_ascii s hs)

module _ (lower : Bytes → Bytes) (lowers : LowersAscii lower) where
  ws_key-skip :
      (before rest : List Bytes)
      → All IsLine before
      → All IsOther before
      → ws_key lower (before ++ rest) ≡ ws_key lower rest
  unfolding ws_key
  ws_key-skip [] rest h k = refl
  ws_key-skip (l ∷ before) rest (h, hs) (k, ks) =
      rw (lowers l (line_ascii l h), k) (ws_key-skip before rest hs ks)

  ws_key-found :
      (c : ℕ) (key : Bytes) (more : List Bytes)
      → All IsVisible (c ∷ key)
      → ws_key lower ((ascii "Sec-WebSocket-Key: " ++ (c ∷ key)) ∷ more) ≡ ok (some (c ∷ key))
  unfolding ws_key str_from starts_with
  ws_key-found c key more h =
      let line : Bytes = ascii "Sec-WebSocket-Key: " ++ (c ∷ key) in
      let plain : All (λ b. b < 128) line =
        All-append (λ b. b < 128) (ascii "Sec-WebSocket-Key: ") (c ∷ key) (omega arith)
          (visible_ascii (c ∷ key) h) in
      let long : leb 18 (length line) ≡ true = le→leb 18 (length line) (omega arith) in
      rw (lowers line plain, long, trim-key c key h) refl

visible-IsLine : (s : Bytes) → All IsVisible s → IsLine s
visible-IsLine [] h = tt
visible-IsLine (c ∷ s) (h, hs) = (
  (omega (arith, h.1), (λ e. omega (arith, h.0, e)), (λ e. omega (arith, h.0, e))),
  visible-IsLine s hs,
)

-- A handshake as a browser writes it: the request line, other lines, the key's line, and more lines.
pub record Browser : Type 0 where
  pub version : Bytes
  pub before : List Bytes
  pub first : ℕ
  pub key_rest : Bytes
  pub after : List Bytes
  pub version_line : IsLine version
  pub before_lines : All IsLine before
  pub before_others : All IsOther before
  pub visible : All IsVisible (first ∷ key_rest)
  pub after_lines : All IsLine after

abbrev pub key_of : Browser → Bytes
key_of b = b.first ∷ b.key_rest

abbrev pub lines_of : Browser → List Bytes
lines_of b =
    (ascii "GET /ws " ++ b.version)
    ∷ (b.before ++ ((ascii "Sec-WebSocket-Key: " ++ key_of b) ∷ b.after))

prefix-IsLine : IsLine (ascii "Sec-WebSocket-Key: ")
prefix-IsLine = ground arith

get-IsLine : (b : Browser) → IsLine (ascii "GET /ws " ++ b.version)
get-IsLine b =
    All-append (λ c. (c < 128) × (c ≢ b'\n') × (c ≢ b'\r')) (ascii "GET /ws ") b.version
      (ground arith) b.version_line

lines_of-IsLine : (b : Browser) → All IsLine (lines_of b)
lines_of-IsLine b = (
  get-IsLine b,
  All-append IsLine b.before ((ascii "Sec-WebSocket-Key: " ++ key_of b) ∷ b.after) b.before_lines (
    All-append (λ c. (c < 128) × (c ≢ b'\n') × (c ≢ b'\r')) (ascii "Sec-WebSocket-Key: ") (key_of b)
        prefix-IsLine (visible-IsLine (key_of b) b.visible),
    b.after_lines,
  ),
)

-- The text of the first frame.
system_text : Bytes → Bytes
system_text interface = ascii "{\"type\":\"system\",\"interface\":\"" ++ (interface ++ ascii "\"}")

length-system_text : (t : Bytes) → length t < 2 ^ 32 → length (system_text t) < 2 ^ 64
unfolding system_text
length-system_text t h = omega (
  arith,
  length-append (ascii "{\"type\":\"system\",\"interface\":\"") (t ++ ascii "\"}"),
  length-append t (ascii "\"}"),
)

-- A handshake that arrives whole in the one read of 2048 bytes, of ASCII lines, whose first is `GET /ws `
-- and in which the first line that begins with the key's name, in whatever case the others are, has a
-- key of visible characters, is answered with the switch of protocols: the response is the four lines
-- that RFC 6455 asks for and an empty one, the accepted key in it is the Base64 text of the SHA-1 digest,
-- of 20 bytes, of the key and the number of that RFC, and the first frame reads back as the text that
-- names the interface. The lower case is that of ASCII on ASCII text, and the interface's name is shorter
-- than 2 ^ 32.
pub reply-Browser :
    (lower : Bytes → Bytes) (index_html interface : Bytes) (b : Browser)
    → LowersAscii lower
    → length (wire (lines_of b)) ≤ 2048
    → length interface < 2 ^ 32
    → (hashed : Bytes) × (ws_frame : Bytes) × (length hashed ≡ 20)
      × (sha1 (key_of b ++ ascii "258EAFA5-E914-47DA-95CA-C5AB0DC85B11") ≡ some hashed)
      × (read_ws_text_frame ws_frame
          ≡ some (ascii "{\"type\":\"system\",\"interface\":\"" ++ (interface ++ ascii "\"}")))
      × (reply lower index_html interface (some (wire (lines_of b)))
          ≡ ok (
              upgrade
                (ascii
                    "HTTP/1.1 101 Switching Protocols\r\nUpgrade: websocket\r\nConnection: Upgrade\r\n"
                  ++ (ascii "Sec-WebSocket-Accept: " ++ (base64_encode hashed ++ ascii "\r\n\r\n")))
                ws_frame))
unfolding reply answer_request read_request starts_with from_utf8_lossy answer_key accept_key
    upgrade_response sys_info system_text
reply-Browser lower index_html interface b lowers one_read named =
    let (k, padded, hashed, small, p1, p2, p3, digest, l) = sha1-Padded (key_of b ++ guid) in
    let whole : List Bytes = lines_of b in
    let all_read : take 2048 (wire whole) ≡ wire whole = take_le 2048 (wire whole) one_read in
    let text : lossy_from nothing_pending (wire whole) ≡ wire whole =
      lossy_ascii (wire whole) (wire_ascii whole (lines_of-IsLine b)) in
    let found : ws_key lower (lines (wire whole)) ≡ ok (some (key_of b)) =
      ap (ws_key lower) (
        lines-wire whole (lines_of-IsLine b)
        ∙ ap (◌∷◌ (ascii "GET /ws " ++ b.version))
            (append_assoc b.before ((ascii "Sec-WebSocket-Key: " ++ key_of b) ∷ b.after) ([] ∷ [])))
      ∙ ws_key-skip lower lowers ((ascii "GET /ws " ++ b.version) ∷ b.before)
          ((ascii "Sec-WebSocket-Key: " ++ key_of b) ∷ (b.after ++ [] ∷ []))
          (get-IsLine b, b.before_lines) (refl, b.before_others)
      ∙ ws_key-found lower lowers b.first b.key_rest (b.after ++ [] ∷ []) b.visible in
    (
      hashed,
      encode_ws_text_frame (system_text interface),
      l,
      digest,
      read_ws_text_frame-encode_ws_text_frame (system_text interface)
          (length-system_text interface named),
      rw (all_read, text, found, digest) refl,
    )
