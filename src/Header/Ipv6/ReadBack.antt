-- ===== src/Header/Ipv6/ReadBack.antt =====
-- The text of an address in netzer-core/src/ipv6.rs is read back as the address.
use net_zer.Prelude.{
  Bytes, ℕ, length, ◌<◌, Option, ◌≡◌, ◌*◌, All, ◌/◌, IsByte, ◌%◌, ◌∷◌, some, if◌then◌else◌, ◌+◌,
  arith, ◌==◌, refl, [], suc, none, zero,
}
use net_zer.Report.{hex_digit}
use net_zer.Report.Hex.{hex_value, byte_of, hex_value-hex_digit}
use net_zer.Header.Ipv6.{Ipv6Address, colon_groups, ipv6_text}

-- Four hexadecimal digits for each group, a colon between two groups.
pub read_groups : Bytes → Option Bytes
read_groups (h ∷ l ∷ h' ∷ l' ∷ []) =
    byte_of (hex_value h) (hex_value l) (byte_of (hex_value h') (hex_value l') (some []))
read_groups (h ∷ l ∷ h' ∷ l' ∷ c ∷ cs) =
    let more = read_groups cs in
    if c == b':'
    then byte_of (hex_value h) (hex_value l) (byte_of (hex_value h') (hex_value l') more)
    else none
read_groups _ = none

group :
    (a b : ℕ) (more : Bytes)
    → a < 256
    → b < 256
    → byte_of
        (hex_value (hex_digit (a / 16)))
        (hex_value (hex_digit (a % 16)))
        (byte_of (hex_value (hex_digit (b / 16))) (hex_value (hex_digit (b % 16))) (some more))
      ≡ some (a ∷ b ∷ more)
group a b more ha hb =
    let value : (x : ℕ) → x / 16 * 16 + x % 16 ≡ x = λ x. omega arith in
    rw
      (
        hex_value-hex_digit (a / 16) (omega arith),
        hex_value-hex_digit (a % 16) (omega arith),
        hex_value-hex_digit (b / 16) (omega arith),
        hex_value-hex_digit (b % 16) (omega arith),
        value a,
        value b,
      )
      refl

-- For `n` groups behind the first.
read_groups-colon_groups :
    (n : ℕ) (a b : ℕ) (rest : Bytes)
    → length rest ≡ 2 * n
    → All IsByte (a ∷ b ∷ rest)
    → read_groups (colon_groups (a ∷ b ∷ rest)) ≡ some (a ∷ b ∷ rest)
unfolding read_groups colon_groups
read_groups-colon_groups n a b [] e (ha, (hb, h)) = group a b [] ha hb
read_groups-colon_groups n a b (c ∷ []) e h = absurd (omega arith)
read_groups-colon_groups zero a b (c ∷ d ∷ rest) e h = absurd (omega arith)
read_groups-colon_groups (suc n) a b (c ∷ d ∷ rest) e (ha, (hb, h)) =
    rw (read_groups-colon_groups n c d rest (omega arith) h) (group a b (c ∷ d ∷ rest) ha hb)

-- The text of an address of sixteen bytes is read back as those bytes.
pub read_groups-ipv6_text :
    (address : Ipv6Address)
    → length address.octets ≡ 16
    → All IsByte address.octets
    → read_groups (ipv6_text address) ≡ some address.octets
unfolding ipv6_text
read_groups-ipv6_text address sixteen h = whole address.octets sixteen h
  where
    whole : (bs : Bytes) → length bs ≡ 16 → All IsByte bs → read_groups (colon_groups bs) ≡ some bs
    whole [] e hs = absurd (omega arith)
    whole (a ∷ []) e hs = absurd (omega arith)
    whole (a ∷ b ∷ rest) e hs = read_groups-colon_groups 7 a b rest (omega arith) hs
