-- ===== src/Tls.antt =====
-- netzer-core/src/tls.rs: the server name in a TLS ClientHello. Lengths and offsets are `usize`; an
-- offset stays below the buffer's length plus 2 ^ 17, so its sums do not wrap.
pub mod Safety
pub mod Parse
use net_zer.Prelude.{
  ℕ, Bytes, if◌then◌else◌, ◌+◌, Option, suc, leb, length, some, bit_or, ltb, none, ◌*◌, ◌^◌, ◌==◌,
  not,
}
use net_zer.Outcome.{
  Outcome, Flow, run_loop, ◌>>=◌, index, next, ◌>>→◌, ok, stop, err, buffer_too_short,
  invalid_format, slice, ◌>>◌, refuse_if,
}
use net_zer.Text.Utf8.{is_utf8}

pub record TlsClientHello : Type 0 where
  pub sni : Bytes

-- `((buffer[i] as usize) << 8) | (buffer[i+1] as usize)`
unfoldable pub u16_at : Bytes → ℕ → Outcome ℕ
u16_at buffer i = do hi ← index buffer i; lo ← index buffer (i + 1); ok (bit_or (hi * 2 ^ 8) lo)

-- The rest of the inner loop's round, with `sni_offset` behind the three bytes that were read.
unfoldable pub take_name : Bytes → ℕ → ℕ → ℕ → ℕ → Flow ℕ (Option Bytes)
take_name buffer sni_end sni_offset name_type name_len =
    if ltb sni_end (sni_offset + name_len)
    then stop (err buffer_too_short)
    else if name_type == 0
    then (slice buffer sni_offset (sni_offset + name_len) >>→ λ hostname.
        if is_utf8 hostname then stop (ok (some hostname)) else stop (err invalid_format))
    else next (sni_offset + name_len)

-- One round of `while sni_offset + 3 <= sni_end`; `some` is the name that the function returns.
unfoldable pub name_body : Bytes → ℕ → ℕ → Flow ℕ (Option Bytes)
name_body buffer sni_end sni_offset =
    if leb (sni_offset + 3) sni_end
    then (index buffer sni_offset >>→ λ name_type. u16_at buffer (sni_offset + 1) >>→ λ name_len.
        take_name buffer sni_end (sni_offset + 3) name_type name_len)
    else stop (ok none)

-- The SNI extension, whose body stands at `offset`. Each round takes three bytes or more.
unfoldable pub find_name : Bytes → ℕ → ℕ → Outcome (Option Bytes)
find_name buffer offset ext_len = do
  refuse_if (ltb ext_len 2) invalid_format
  run_loop (suc (length buffer)) (name_body buffer (offset + ext_len)) (offset + 2)

-- What follows a fall through the inner loop, or a `return` in it.
abbrev pub after_name : ℕ → Option Bytes → Flow ℕ Bytes
after_name offset none = next offset
after_name offset (some hostname) = stop (ok hostname)

-- The rest of the outer loop's round, with `offset` behind the four bytes that were read.
unfoldable pub take_extension : Bytes → ℕ → ℕ → ℕ → ℕ → Flow ℕ Bytes
take_extension buffer extensions_end offset ext_type ext_len =
    if ltb extensions_end (offset + ext_len)
    then stop (err buffer_too_short)
    else if ext_type == 0
    then (find_name buffer offset ext_len >>→ after_name (offset + ext_len))
    else next (offset + ext_len)

-- One round of `while offset + 4 <= extensions_end`.
unfoldable pub extension_body : Bytes → ℕ → ℕ → Flow ℕ Bytes
extension_body buffer extensions_end offset =
    if leb (offset + 4) extensions_end
    then (u16_at buffer offset >>→ λ ext_type. u16_at buffer (offset + 2) >>→ λ ext_len.
        take_extension buffer extensions_end (offset + 4) ext_type ext_len)
    else stop (err invalid_format)

-- Each round takes four bytes or more.
unfoldable pub find_sni : Bytes → ℕ → ℕ → Outcome Bytes
find_sni buffer extensions_end offset =
    run_loop (suc (length buffer)) (extension_body buffer extensions_end) offset

-- The extensions, behind the compression methods.
unfoldable pub parse_extensions : Bytes → ℕ → Outcome Bytes
parse_extensions buffer offset = do
  refuse_if (ltb (length buffer) (offset + 2)) invalid_format
  extensions_len ← u16_at buffer offset
  let extensions_end = offset + 2 + extensions_len
  refuse_if (ltb (length buffer) extensions_end) buffer_too_short
  find_sni buffer extensions_end (offset + 2)

-- Over the compression methods, behind the cipher suites.
unfoldable pub skip_methods : Bytes → ℕ → Outcome Bytes
skip_methods buffer offset = do
  refuse_if (ltb (length buffer) (offset + 1)) buffer_too_short
  compression_methods_len ← index buffer offset
  parse_extensions buffer (offset + (1 + compression_methods_len))

-- Over the cipher suites, behind the session id.
unfoldable pub skip_ciphers : Bytes → ℕ → Outcome Bytes
skip_ciphers buffer offset = do
  refuse_if (ltb (length buffer) (offset + 2)) buffer_too_short
  cipher_suites_len ← u16_at buffer offset
  skip_methods buffer (offset + (2 + cipher_suites_len))

-- Over the session id, behind the handshake's length, the version and the random bytes.
unfoldable pub parse_hello : Bytes → ℕ → Outcome Bytes
parse_hello buffer offset = do
  refuse_if (leb (length buffer) offset) buffer_too_short
  session_id_len ← index buffer offset
  skip_ciphers buffer (offset + (1 + session_id_len))

unfoldable pub parse : Bytes → Outcome TlsClientHello
parse buffer = do
  refuse_if (ltb (length buffer) 5) buffer_too_short
  content_type ← index buffer 0
  refuse_if (not (content_type == 22)) invalid_format
  record_len ← u16_at buffer 3
  refuse_if (ltb (length buffer) (5 + record_len)) buffer_too_short
  handshake_type ← index buffer 5
  refuse_if (not (handshake_type == 1)) invalid_format
  hostname ← parse_hello buffer (5 + 4 + 2 + 32)
  ok (record { sni = hostname })
