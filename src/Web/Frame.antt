-- ===== src/Web/Frame.antt =====
-- `encode_ws_text_frame` of netzer-cli/src/web/mod.rs.
pub mod Layout
use net_zer.Prelude.{Bytes, ℕ, length, [], if◌then◌else◌, suc, ◌/◌, leb, ◌∷◌, ◌^◌, ◌%◌, zero, ◌++◌}

-- `(len as u16).to_be_bytes()` and `(len as u64).to_be_bytes()`: `w` bytes, the high ones first.
unfoldable pub to_be_bytes : ℕ → ℕ → Bytes
to_be_bytes zero n = []
to_be_bytes (suc w) n = (n / 256 ^ w % 256) ∷ to_be_bytes w n

-- The vector is what has been pushed when it returns.
unfoldable pub encode_ws_text_frame : Bytes → Bytes
encode_ws_text_frame payload =
    let len = length payload in
    if leb len 125
    then 0x81 ∷ (len % 256) ∷ payload
    else if leb len 65535
    then 0x81 ∷ 126 ∷ (to_be_bytes 2 len ++ payload)
    else 0x81 ∷ 127 ∷ (to_be_bytes 8 len ++ payload)
