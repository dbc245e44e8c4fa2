-- ===== src/Examples/Names.antt =====
-- The DNS and TLS parsers on concrete messages.
use net_zer.Outcome.{ok, panic}
use net_zer.Prelude.{◌∷◌, Bytes, All, arith, ◌≡◌, ◌++◌, ◌<◌, [], ascii, length, refl, true}
use net_zer.Dns.{parse as parse_dns}
use net_zer.Dns.Names.{IsLabel, wire, join}
use net_zer.Dns.Parse.{Parsed as ParsedDns, parse_dns-Parsed}
use net_zer.Dns.RoundTrip.{parse_dns-wire}
use net_zer.Text.Utf8.{is_utf8}
use net_zer.Tls.{parse as parse_tls}
use net_zer.Tls.Parse.{Parsed as ParsedTls, parse_tls-Parsed}

-- A query for example.com.
abbrev dns_header : Bytes
dns_header = 0x12 ∷ 0x34 ∷ 0x01 ∷ 0x00 ∷ 0x00 ∷ 0x01 ∷ 0x00 ∷ 0x00 ∷ 0x00 ∷ 0x00 ∷ 0x00 ∷ 0x00 ∷ []

abbrev dns_bytes : Bytes
dns_bytes = dns_header ++ (7 ∷ ascii "example") ++ (3 ∷ ascii "com") ++ (0 ∷ 0 ∷ 1 ∷ 0 ∷ 1 ∷ [])

dns_name : parse_dns dns_bytes ≡ ok (record { domain_name = ascii "example.com" })
unfolding parse_dns net_zer.Outcome.index net_zer.Outcome.read_u16 net_zer.Outcome.read_array
    net_zer.Outcome.slice net_zer.Dns.read_qname net_zer.Outcome.run_loop net_zer.Dns.qname_body
    is_utf8 net_zer.Dns.push_label
dns_name = refl

parse_dns-Parsed_example : ParsedDns dns_bytes (parse_dns dns_bytes)
parse_dns-Parsed_example = parse_dns-Parsed dns_bytes (ground arith)

text-IsLabel :
    (label : Bytes) → 0 < length label → length label < 192 → is_utf8 label ≡ true → IsLabel label
text-IsLabel label some_byte short text = record {
  not_empty = some_byte;
  not_pointer = short;
  is_text = text;
}

abbrev rest_of_query : Bytes
rest_of_query = 0 ∷ 1 ∷ 0 ∷ 1 ∷ []

two_labels : All IsLabel (ascii "example" ∷ ascii "com" ∷ [])
two_labels = (
  text-IsLabel (ascii "example") (omega arith) (omega arith) (unfold is_utf8 in refl),
  (text-IsLabel (ascii "com") (omega arith) (omega arith) (unfold is_utf8 in refl), tt),
)

parse_dns-wire_example :
    parse_dns (dns_header ++ (wire (ascii "example" ∷ ascii "com" ∷ []) ++ (0 ∷ rest_of_query)))
    ≡ ok (record { domain_name = join (ascii "example" ∷ ascii "com" ∷ []) })
parse_dns-wire_example =
    parse_dns-wire dns_header (ascii "example") (ascii "com" ∷ []) rest_of_query refl (omega arith)
      (omega arith) two_labels

-- A ClientHello with another extension in front of the server name.
abbrev hello_bytes : Bytes
hello_bytes =
    0x16 ∷ 0x03 ∷ 0x01 ∷ 0x00 ∷ 0x45 ∷ 0x01 ∷ 0x00 ∷ 0x00 ∷ 0x41 ∷ 0x03 ∷ 0x03 ∷ 0x00 ∷ 0x00 ∷ 0x00
    ∷ 0x00 ∷ 0x00 ∷ 0x00 ∷ 0x00 ∷ 0x00 ∷ 0x00 ∷ 0x00 ∷ 0x00 ∷ 0x00 ∷ 0x00 ∷ 0x00 ∷ 0x00 ∷ 0x00
    ∷ 0x00 ∷ 0x00 ∷ 0x00 ∷ 0x00 ∷ 0x00 ∷ 0x00 ∷ 0x00 ∷ 0x00 ∷ 0x00 ∷ 0x00 ∷ 0x00 ∷ 0x00 ∷ 0x00
    ∷ 0x00 ∷ 0x00 ∷ 0x00 ∷ 0x00 ∷ 0x00 ∷ 0x02 ∷ 0x13 ∷ 0x01 ∷ 0x01 ∷ 0x00 ∷ 0x00 ∷ 0x16 ∷ 0x00
    ∷ 0x17 ∷ 0x00 ∷ 0x00 ∷ 0x00 ∷ 0x00 ∷ 0x00 ∷ 0x0e ∷ 0x00 ∷ 0x0c ∷ 0x00 ∷ 0x00 ∷ 0x09 ∷ 0x61
    ∷ 0x2e ∷ 0x65 ∷ 0x78 ∷ 0x61 ∷ 0x6d ∷ 0x70 ∷ 0x6c ∷ 0x65 ∷ []

hello_name : parse_tls hello_bytes ≡ ok (record { sni = ascii "a.example" })
unfolding parse_tls net_zer.Outcome.index net_zer.Tls.u16_at net_zer.Tls.parse_hello
    net_zer.Tls.skip_ciphers net_zer.Tls.skip_methods net_zer.Tls.parse_extensions
    net_zer.Tls.find_sni net_zer.Outcome.run_loop net_zer.Tls.extension_body
    net_zer.Tls.take_extension net_zer.Tls.find_name net_zer.Tls.name_body net_zer.Tls.take_name
    net_zer.Outcome.slice is_utf8
hello_name = refl

-- The record that the parser does not survive.
empty_record : parse_tls (22 ∷ 3 ∷ 1 ∷ 0 ∷ 0 ∷ []) ≡ panic
unfolding parse_tls net_zer.Outcome.index net_zer.Tls.u16_at
empty_record = refl

parse_tls-Parsed_example : ParsedTls hello_bytes (parse_tls hello_bytes)
parse_tls-Parsed_example = parse_tls-Parsed hello_bytes (ground arith)
