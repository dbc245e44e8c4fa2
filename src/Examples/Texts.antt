-- ===== src/Examples/Texts.antt =====
-- The text and file writers on concrete inputs.
use net_zer.Outcome.{ok, panic}
use net_zer.Prelude.{
  List, Bytes, ℕ, replicate, ◌≡◌, ◌∷◌, ascii, ◌++◌, some, ◌<◌, [], if◌then◌else◌, length, take,
  refl, arith, leb, ◌*◌, ◌%◌, ◌+◌, ◌-◌, min,
}
use net_zer.Report.{truncate, escape_json, to_hex_string}
use net_zer.Report.Truncate.{truncate-ascii, truncate_panics}
use net_zer.Report.Json.{read_string, read_string-escape_json}
use net_zer.Report.Hex.{decode_hex, decode_hex-to_hex_string}
use net_zer.Report.Hexdump.{row, ascii_column}
use net_zer.Report.Hexdump.Columns.{row_columns}
use net_zer.Report.Pcap.{create}
use net_zer.Report.Pcap.ReadBack.{PcapPacket, read_pcap, write_packets, read_pcap-write_packets}
use net_zer.Web.Base64.{base64_encode}
use net_zer.Web.Base64.RoundTrip.{base64_decode, base64_decode-base64_encode}
use net_zer.Web.Frame.{encode_ws_text_frame}
use net_zer.Web.Frame.Layout.{read_ws_text_frame, read_ws_text_frame-encode_ws_text_frame}
use net_zer.Web.Sha1.{sha1, pad_message}
use net_zer.Web.Sha1.Padding.{padded_with, sha1-Padded}

-- A name with a quote and a backslash.
abbrev odd_name : Bytes
odd_name = ascii "a" ++ (34 ∷ 92 ∷ []) ++ ascii "b"

read_string-escape_json_example :
    read_string (escape_json odd_name ++ (34 ∷ ascii ",")) ≡ some (odd_name, ascii ",")
read_string-escape_json_example = read_string-escape_json odd_name (ascii ",")

truncate-ascii_example :
    truncate (ascii "a-long-name.example") 8
    ≡ ok (
        if leb (length (ascii "a-long-name.example")) 8
        then ascii "a-long-name.example"
        else take (8 - 3) (ascii "a-long-name.example") ++ ascii "...")
truncate-ascii_example = truncate-ascii (ascii "a-long-name.example") 8 (ground arith) (omega arith)

-- `abc`, an accented letter in two bytes, `xyz`, cut at six characters.
truncate_panics_example :
    truncate (ascii "abc" ++ (0xC3 ∷ 0xA9 ∷ b'x' ∷ b'y' ∷ b'z' ∷ [])) (length (ascii "abc") + 3)
    ≡ panic
truncate_panics_example =
    truncate_panics (ascii "abc") 0xC3 0xA9 b'x' b'y' b'z' [] (ground arith) (omega arith)
      (omega arith, omega arith) (omega arith, omega arith, omega arith)

abbrev two_bytes_text : Bytes
two_bytes_text = 0x00 ∷ 0xff ∷ []

decode_hex-to_hex_string_example :
    (decode_hex (to_hex_string two_bytes_text) ≡ some (take 256 two_bytes_text))
    × (length (to_hex_string two_bytes_text) ≡ 2 * min (length two_bytes_text) 256)
decode_hex-to_hex_string_example = decode_hex-to_hex_string two_bytes_text (ground arith)

row_columns_example :
    (left : Bytes) × (row 16 (ascii "GET /") ≡ left ++ (ascii_column (ascii "GET /") ++ 0x0A ∷ []))
    × (length left ≡ 58)
    × (length (ascii_column (ascii "GET /")) ≡ length (ascii "GET /"))
    × (length (row 16 (ascii "GET /")) ≡ length (ascii "GET /") + 59)
row_columns_example = row_columns 16 (ascii "GET /") (omega arith) (omega arith) (omega arith)

abbrev two_packets : List PcapPacket
two_packets =
    record { sec = 1700000000; usec = 5; packet = ascii "abc" }
    ∷ record { sec = 1700000001; usec = 999999; packet = [] }
    ∷ []

read_pcap-write_packets_example :
    read_pcap (write_packets two_packets create).file ≡ some two_packets
read_pcap-write_packets_example = read_pcap-write_packets two_packets (ground arith)

base64_decode-base64_encode_example :
    base64_decode (base64_encode (ascii "hello")) ≡ some (ascii "hello")
base64_decode-base64_encode_example = base64_decode-base64_encode (ascii "hello") (ground arith)

read_ws_text_frame-encode_ws_text_frame_example :
    read_ws_text_frame (encode_ws_text_frame (replicate 200 b'x')) ≡ some (replicate 200 b'x')
read_ws_text_frame-encode_ws_text_frame_example =
    read_ws_text_frame-encode_ws_text_frame (replicate 200 b'x') (omega arith)

-- The digest of the standard's example, `abc`.
sha1_abc :
    sha1 (ascii "abc")
    ≡ some (
        0xa9 ∷ 0x99 ∷ 0x3e ∷ 0x36 ∷ 0x47 ∷ 0x06 ∷ 0x81 ∷ 0x6a ∷ 0xba ∷ 0x3e ∷ 0x25 ∷ 0x71 ∷ 0x78
        ∷ 0x50 ∷ 0xc2 ∷ 0x6c ∷ 0x9c ∷ 0xd0 ∷ 0xd8 ∷ 0x9d ∷ [])
unfolding sha1 pad_message net_zer.Web.Sha1.push_zeros net_zer.Web.Sha1.digest
    net_zer.Web.Frame.to_be_bytes net_zer.Web.Sha1.sha1_chunks net_zer.Web.Sha1.chunks_exact
    net_zer.Web.Sha1.sha1_chunk net_zer.Web.Sha1.add_state net_zer.Web.Sha1.sha1_steps
    net_zer.Web.Sha1.extend_words net_zer.Web.Sha1.read_words net_zer.Web.Sha1.sha1_step
    net_zer.Web.Sha1.step_function net_zer.Web.Sha1.step_constant
sha1_abc = refl

sha1-Padded_example :
    (k : ℕ) × (padded : Bytes) × (out : Bytes) × (k < 64)
    × (pad_message (ascii "abc") ≡ some padded)
    × (padded ≡ padded_with k (ascii "abc"))
    × (length padded % 64 ≡ 0)
    × (sha1 (ascii "abc") ≡ some out)
    × (length out ≡ 20)
sha1-Padded_example = sha1-Padded (ascii "abc")
