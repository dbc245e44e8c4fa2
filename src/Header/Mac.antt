-- ===== src/Header/Mac.antt =====
-- netzer-core/src/mac.rs: the text of a hardware address.
pub mod ReadBack
use net_zer.Prelude.{Bytes, ◌∷◌, ◌++◌, []}
use net_zer.Report.{hex2}
use net_zer.Header.Ethernet.{MacAddress}

-- The octets in hexadecimal, a colon between two of them.
unfoldable pub colon_separated : Bytes → Bytes
colon_separated [] = []
colon_separated (b ∷ []) = hex2 b
colon_separated (b ∷ c ∷ bs) = hex2 b ++ (b':' ∷ colon_separated (c ∷ bs))

-- `Display`
unfoldable pub mac_text : MacAddress → Bytes
mac_text mac = colon_separated mac.octets
