-- ===== src/Cli/JsonWriter/ReadBack.antt =====
-- The records of netzer-cli/src/main.rs against a reader of that form of JSON.
use net_zer.Prelude.{
  Bytes, Option, ◌++◌, ℕ, ◌∷◌, some, none, ascii, [], ◌≡◌, append_assoc, if◌then◌else◌, refl,
  ==_iff, ◌==◌, All, List, suc, ◌||◌, sym, length, zero, append-nil, arith, ◌≤◌, false, ap, ◌∙◌,
}
use Prim.Native.String.{String}
use net_zer.Report.{escape_json}
use net_zer.Report.Json.{read_string, read_string-escape_json, escape_json_plain}
use net_zer.Text.Decimal.{decimal}
use net_zer.Text.Decimal.ReadBack.{NoDigit, read_digits, read_digits-decimal}
use net_zer.Cli.Line.{JsonWriter}
use net_zer.Cli.JsonWriter.{text_field, json_fields, create, write_packet, web_message}

-- What a record says.
pub record Fields : Type 0 where
  pub timestamp : Bytes
  pub proto : Bytes
  pub src : Bytes
  pub dst : Bytes
  pub info : Bytes
  pub size : ℕ

abbrev and_then {ℓ κ} : {A : Type ℓ} {B : Type κ} → Option A → (A → Option B) → Option B
and_then none f = none
and_then (some a) f = f a

-- The text behind a fixed one.
strip : Bytes → Bytes → Option Bytes
strip [] bs = some bs
strip (p ∷ ps) [] = none
strip (p ∷ ps) (b ∷ bs) = if b == p then strip ps bs else none

strip-append : (p rest : Bytes) → strip p (p ++ rest) ≡ some rest
unfolding strip
strip-append [] rest = refl
strip-append (p ∷ ps) rest = rw ((==_iff p p).1 refl) (strip-append ps rest)

-- `"name":"text"`
take_field : String → Bytes → Option (Bytes × Bytes)
take_field name bs =
    and_then (strip (b'"' ∷ (ascii name ++ (b'"' ∷ b':' ∷ b'"' ∷ []))) bs) read_string

take_field-text_field :
    (name : String) (text rest : Bytes)
    → take_field name (text_field name (escape_json text) ++ rest) ≡ some (text, rest)
unfolding take_field text_field
take_field-text_field name text rest =
    let front : Bytes = b'"' ∷ (ascii name ++ (b'"' ∷ b':' ∷ b'"' ∷ [])) in
    let shape : text_field name (escape_json text) ++ rest
        ≡ front ++ (escape_json text ++ (b'"' ∷ rest)) =
      simp append_assoc in
    rw (shape, strip-append front (escape_json text ++ (b'"' ∷ rest)))
      (read_string-escape_json text rest)

-- A text field with a comma behind it.
take_item : String → Bytes → Option (Bytes × Bytes)
take_item name bs =
    and_then (take_field name bs)
      (λ (text, rest). and_then (strip (b',' ∷ []) rest) (λ more. some (text, more)))

take_item-text_field :
    (name : String) (text rest : Bytes)
    → take_item name (text_field name (escape_json text) ++ (b',' ∷ rest)) ≡ some (text, rest)
unfolding take_item strip
take_item-text_field name text rest = rw (take_field-text_field name text (b',' ∷ rest)) refl

-- The opening brace and the fields that both forms have.
read_fields : Bytes → Option (Fields × Bytes)
read_fields bs = and_then (strip (b'{' ∷ []) bs) λ b0.
    and_then (take_item "timestamp" b0) λ (timestamp, b1).
      and_then (take_item "proto" b1) λ (proto, b2). and_then (take_item "src" b2) λ (src, b3).
        and_then (take_item "dst" b3) λ (dst, b4). and_then (take_item "info" b4) λ (info, b5).
          and_then (strip (ascii "\"size\":") b5) λ b6.
            let (size, rest) = read_digits 0 b6 in
            some (
              record {
                timestamp = timestamp;
                proto = proto;
                src = src;
                dst = dst;
                info = info;
                size = size;
              },
              rest,
            )

abbrev pub fields_text : Fields → Bytes
fields_text f = json_fields f.timestamp (escape_json f.proto) f.src f.dst f.info f.size

json_fields_items :
    (f : Fields) (rest : Bytes)
    → fields_text f ++ rest
      ≡ text_field "timestamp" (escape_json f.timestamp)
        ++ (b','
            ∷ (text_field "proto" (escape_json f.proto)
                ++ (b','
                    ∷ (text_field "src" (escape_json f.src)
                        ++ (b','
                            ∷ (text_field "dst" (escape_json f.dst)
                                ++ (b','
                                    ∷ (text_field "info" (escape_json f.info)
                                        ++ (b','
                                            ∷ (ascii "\"size\":"
                                                ++ (decimal f.size ++ rest)))))))))))
unfolding json_fields
json_fields_items f rest = simp append_assoc

read_fields-json_fields :
    (f : Fields) (rest : Bytes)
    → NoDigit rest
    → read_fields (b'{' ∷ (fields_text f ++ rest)) ≡ some (f, rest)
unfolding read_fields strip
read_fields-json_fields f rest h =
    rw
      (
        json_fields_items f rest,
        take_item-text_field "timestamp" f.timestamp _,
        take_item-text_field "proto" f.proto _,
        take_item-text_field "src" f.src _,
        take_item-text_field "dst" f.dst _,
        take_item-text_field "info" f.info _,
        read_digits-decimal f.size rest h,
      )
      refl

-- A record's line, and the rest of the file.
pub read_line : Bytes → Option (Fields × Bytes)
read_line bs =
    and_then (read_fields bs)
      (λ (f, rest). and_then (strip (b'}' ∷ b'\n' ∷ []) rest) (λ more. some (f, more)))

abbrev pub line_text : Fields → Bytes
line_text f = b'{' ∷ (fields_text f ++ (b'}' ∷ b'\n' ∷ []))

read_line-line_text : (f : Fields) (rest : Bytes) → read_line (line_text f ++ rest) ≡ some (f, rest)
unfolding read_line strip
read_line-line_text f rest =
    let shape : line_text f ++ rest ≡ b'{' ∷ (fields_text f ++ (b'}' ∷ b'\n' ∷ rest)) =
      simp append_assoc in
    rw (shape, read_fields-json_fields f (b'}' ∷ b'\n' ∷ rest) refl) refl

-- A message: a record's fields, and the frame in hexadecimal.
pub read_message : Bytes → Option (Fields × Bytes)
read_message bs = and_then (read_fields bs) λ (f, rest). and_then (strip (b',' ∷ []) rest) λ more.
    and_then (take_field "payload" more) λ (payload, last).
      and_then (strip (b'}' ∷ []) last) λ end. elim end [ [] ↦ some (f, payload) | b ∷ bs ↦ none ]

-- A message whose payload is plain is read back as its fields and that payload, and nothing is left.
pub read_message-web_message :
    (f : Fields) (raw_hex : Bytes)
    → All (λ b. (b == b'"' || b == b'\\') ≡ false) raw_hex
    → read_message (web_message f.timestamp (escape_json f.proto) f.src f.dst f.info f.size raw_hex)
      ≡ some (f, raw_hex)
unfolding read_message web_message strip
read_message-web_message f raw_hex plain =
    let rest : Bytes = b',' ∷ (text_field "payload" (escape_json raw_hex) ++ b'}' ∷ []) in
    rw
      (
        ap (λ (t : Bytes). b',' ∷ (text_field "payload" t ++ b'}' ∷ []))
            (sym (escape_json_plain raw_hex plain)),
        read_fields-json_fields f rest refl,
        take_field-text_field "payload" raw_hex (b'}' ∷ []),
      )
      refl

-- The records of a file up to its end; `n` bounds how many.
pub read_lines : ℕ → Bytes → Option (List Fields)
read_lines n [] = some []
read_lines zero (b ∷ bs) = none
read_lines (suc n) (b ∷ bs) =
    and_then (read_line (b ∷ bs)) λ (f, rest). and_then (read_lines n rest) λ fs. some (f ∷ fs)

abbrev pub add_line : Fields → JsonWriter → JsonWriter
add_line f = write_packet f.timestamp f.proto f.src f.dst f.info f.size

-- What is written for a list of records, in order.
unfoldable pub write_lines : List Fields → JsonWriter → JsonWriter
write_lines [] writer = writer
write_lines (f ∷ fs) writer = write_lines fs (add_line f writer)

lines_text : List Fields → Bytes
lines_text [] = []
lines_text (f ∷ fs) = line_text f ++ lines_text fs

write_lines_file :
    (fs : List Fields) (writer : JsonWriter)
    → (write_lines fs writer).file ≡ writer.file ++ lines_text fs
unfolding write_lines lines_text write_packet
write_lines_file [] writer = sym (append-nil writer.file)
write_lines_file (f ∷ fs) writer =
    write_lines_file fs (add_line f writer) ∙ append_assoc writer.file (line_text f) (lines_text fs)

read_lines-lines_text :
    (n : ℕ) (fs : List Fields) → length fs ≤ n → read_lines n (lines_text fs) ≡ some fs
unfolding read_lines lines_text
read_lines-lines_text zero [] h = refl
read_lines-lines_text (suc n) [] h = refl
read_lines-lines_text zero (f ∷ fs) h = absurd (omega arith)
read_lines-lines_text (suc n) (f ∷ fs) h =
    rw (read_line-line_text f (lines_text fs), read_lines-lines_text n fs (omega arith)) refl

-- A file that is created and to which records are written is read back as those records, in order:
-- every text with its quotes and backslashes, and every size.
pub read_lines-write_lines :
    (fs : List Fields) → read_lines (length fs) (write_lines fs create).file ≡ some fs
unfolding create
read_lines-write_lines fs =
    rw (write_lines_file fs create) (read_lines-lines_text (length fs) fs (omega arith))
