-- ===== src/Report/Json.antt =====
-- `escape_json` against a reader of JSON string bodies.
use net_zer.Prelude.{
  Bytes, ℕ, ◌∷◌, Option, ◌++◌, if◌then◌else◌, ◌≡◌, arith, ◌==◌, none, some, [], ◌||◌, refl,
  Bool-cases, false, inl, ◌∙◌, ap, inr, All,
}
use net_zer.Report.{escape_json}

abbrev prefix : ℕ → Option (Bytes × Bytes) → Option (Bytes × Bytes)
prefix c none = none
prefix c (some (body, rest)) = some (c ∷ body, rest)

-- Reads the body of a JSON string up to its closing quote, and gives what follows. A backslash takes
-- the next byte as it is; other escapes do not occur.
pub read_string : Bytes → Option (Bytes × Bytes)
read_string [] = none
read_string (b ∷ []) = if b == b'"' then some ([], []) else none
read_string (b ∷ c ∷ bs) =
    let rest = read_string bs in
    let next = read_string (c ∷ bs) in
    if b == b'"' then some ([], c ∷ bs) else if b == b'\\' then prefix c rest else prefix b next

-- One pass over the text, in place of the two of the code.
abbrev escape_byte : ℕ → Bytes
escape_byte b = if b == b'"' || b == b'\\' then b'\\' ∷ b ∷ [] else b ∷ []

abbrev escaped : Bytes → Bytes
escaped [] = []
escaped (b ∷ bs) = escape_byte b ++ escaped bs

escape_json-escaped : (s : Bytes) → escape_json s ≡ escaped s
unfolding escape_json
escape_json-escaped [] = refl
escape_json-escaped (b ∷ bs) = ground (arith, escape_json-escaped bs)

read_quote : (rest : Bytes) → read_string (b'"' ∷ rest) ≡ some ([], rest)
unfolding read_string
read_quote [] = refl
read_quote (c ∷ cs) = refl

read_escape : (b : ℕ) (rest : Bytes) → read_string (b'\\' ∷ b ∷ rest) ≡ prefix b (read_string rest)
unfolding read_string
read_escape b rest = refl

read_plain :
    (b : ℕ) (rest : Bytes)
    → (b == b'"' || b == b'\\') ≡ false
    → read_string (b ∷ rest) ≡ prefix b (read_string rest)
unfolding read_string
read_plain b [] h = ground arith
read_plain b (c ∷ cs) h = ground arith

read_string-escaped : (s rest : Bytes) → read_string (escaped s ++ (b'"' ∷ rest)) ≡ some (s, rest)
read_string-escaped [] rest = read_quote rest
read_string-escaped (b ∷ bs) rest = elim (Bool-cases (b == b'"' || b == b'\\')) [
  | inl special ↦
      rw special
        (read_escape b (escaped bs ++ (b'"' ∷ rest)) ∙ ap (prefix b) (read_string-escaped bs rest))
  | inr plain ↦ rw plain (
      read_plain b (escaped bs ++ (b'"' ∷ rest)) plain
      ∙ ap (prefix b) (read_string-escaped bs rest))
]

-- The escaped text, closed by a quote, is read back as the text it was, and the reader stops at that
-- quote: no quote or backslash of a captured name ends the string early.
pub read_string-escape_json :
    (s rest : Bytes) → read_string (escape_json s ++ (b'"' ∷ rest)) ≡ some (s, rest)
read_string-escape_json s rest = rw (escape_json-escaped s) (read_string-escaped s rest)

-- Text with no quote and no backslash is written as it is.
pub escape_json_plain :
    (s : Bytes) → All (λ b. (b == b'"' || b == b'\\') ≡ false) s → escape_json s ≡ s
escape_json_plain s h = escape_json-escaped s ∙ same s h
  where
    same : (s : Bytes) → All (λ b. (b == b'"' || b == b'\\') ≡ false) s → escaped s ≡ s
    same [] h = refl
    same (b ∷ bs) h = rw (h.0, same bs h.1) refl
