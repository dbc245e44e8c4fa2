-- ===== src/Header/Mac/ReadBack.antt =====
-- The text of a hardware address in netzer-core/src/mac.rs is read back as the address.
use net_zer.Prelude.{
  Bytes, ℕ, length, ◌<◌, All, Option, ◌≡◌, IsByte, some, ◌/◌, arith, ◌∷◌, [], ◌%◌, if◌then◌else◌,
  ◌==◌, ap, none, All-append,
}
use net_zer.Report.Hex.{hex_value, byte_of, hex_value-hex_digit, hex2_ascii}
use net_zer.Header.Ethernet.{MacAddress}
use net_zer.Header.Mac.{colon_separated, mac_text, hex2}

-- Two hexadecimal digits for each octet, a colon between two octets.
pub read_octets : Bytes → Option Bytes
read_octets (h ∷ l ∷ []) = byte_of (hex_value h) (hex_value l) (some [])
read_octets (h ∷ l ∷ c ∷ cs) =
    let more = read_octets cs in
    if c == b':' then byte_of (hex_value h) (hex_value l) more else none
read_octets _ = none

octet :
    (b : ℕ) (more : Bytes)
    → b < 256
    → byte_of (some (b / 16)) (some (b % 16)) (some more) ≡ some (b ∷ more)
octet b more h = ap (λ (t : ℕ). some (t ∷ more)) (omega arith)

read_octets-colon_separated :
    (b : ℕ) (bs : Bytes)
    → All IsByte (b ∷ bs)
    → read_octets (colon_separated (b ∷ bs)) ≡ some (b ∷ bs)
unfolding read_octets colon_separated
read_octets-colon_separated b [] (hb, h) =
    rw (hex_value-hex_digit (b / 16) (omega arith), hex_value-hex_digit (b % 16) (omega arith))
      (octet b [] hb)
read_octets-colon_separated b (c ∷ cs) (hb, h) =
    rw
      (
        hex_value-hex_digit (b / 16) (omega arith),
        hex_value-hex_digit (b % 16) (omega arith),
        read_octets-colon_separated c cs h,
      )
      (octet b (c ∷ cs) hb)

-- The text of an address of six bytes is read back as those bytes.
pub read_octets-mac_text :
    (mac : MacAddress)
    → length mac.octets ≡ 6
    → All IsByte mac.octets
    → read_octets (mac_text mac) ≡ some mac.octets
unfolding mac_text
read_octets-mac_text mac six h = nonempty mac.octets six h
  where
    nonempty :
        (bs : Bytes) → length bs ≡ 6 → All IsByte bs → read_octets (colon_separated bs) ≡ some bs
    nonempty [] e hs = absurd (omega arith)
    nonempty (b ∷ bs) e hs = read_octets-colon_separated b bs hs

IsAscii-colon_separated : (bs : Bytes) → All IsByte bs → All (λ c. c < 128) (colon_separated bs)
unfolding colon_separated
IsAscii-colon_separated [] h = tt
IsAscii-colon_separated (b ∷ []) (hb, h) = hex2_ascii b hb
IsAscii-colon_separated (b ∷ c ∷ bs) (hb, h) =
    All-append (λ c. c < 128) (hex2 b) (b':' ∷ colon_separated (c ∷ bs)) (hex2_ascii b hb)
      (omega arith, IsAscii-colon_separated (c ∷ bs) h)

pub IsAscii-mac_text :
    (mac : MacAddress) → All IsByte mac.octets → All (λ c. c < 128) (mac_text mac)
unfolding mac_text
IsAscii-mac_text mac h = IsAscii-colon_separated mac.octets h
