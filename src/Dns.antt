-- ===== src/Dns.antt =====
-- netzer-core/src/dns.rs: the first question's name of a DNS query.
pub mod Names
pub mod Round
pub mod Scan
pub mod Parse
pub mod RoundTrip
use net_zer.Prelude.{
  Bytes, if◌then◌else◌, ℕ, Bool, suc, true, ◌++◌, ltb, ◌∷◌, length, [], false, ◌==◌, bit_and, leb,
  ◌+◌, not,
}
use net_zer.Outcome.{
  Outcome, Flow, run_loop, err, index, buffer_too_short, ◌>>→◌, stop, ok, invalid_format, slice,
  next, ◌>>=◌, read_u16,
}
use net_zer.Text.Utf8.{is_utf8}

pub record DnsQuery : Type 0 where
  pub domain_name : Bytes

abbrev pub is_empty : Bytes → Bool
is_empty [] = true
is_empty (b ∷ bs) = false

-- `if !domain.is_empty() { domain.push('.') }` and `domain.push_str(label)`
unfoldable pub push_label : Bytes → Bytes → Bytes
push_label domain label = (if is_empty domain then domain else domain ++ (b'.' ∷ [])) ++ label

-- One round of `while offset < buffer.len()`, over `offset` and `domain`.
unfoldable pub qname_body : Bytes → ℕ × Bytes → Flow (ℕ × Bytes) Bytes
qname_body buffer (offset, domain) =
    if ltb offset (length buffer)
    then (index buffer offset >>→ λ len.
        if len == 0
        then stop (ok domain)
        else if bit_and len 0xC0 == 0xC0
        then stop (err invalid_format)
        else if leb (length buffer) (offset + 1 + len)
        then stop (err buffer_too_short)
        else slice buffer (offset + 1) (offset + 1 + len) >>→ λ label.
            if is_utf8 label
            then next (offset + 1 + len, push_label domain label)
            else stop (err invalid_format))
    else stop (ok domain)

-- A round takes two bytes or more, so the buffer's length bounds the rounds.
unfoldable pub read_qname : Bytes → Outcome Bytes
read_qname buffer = run_loop (suc (length buffer)) (qname_body buffer) (12, [])

unfoldable pub parse : Bytes → Outcome DnsQuery
parse buffer = if ltb (length buffer) 12 then err buffer_too_short else do
  flags ← index buffer 2
  if not (bit_and flags 0x80 == 0) then err invalid_format else do
    qdcount ← read_u16 buffer 4 6
    if qdcount == 0 then err invalid_format else do
      domain ← read_qname buffer
      if is_empty domain then err invalid_format else ok (record { domain_name = domain })
