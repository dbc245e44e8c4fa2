-- ===== src/Cli/JsonWriter.antt =====
-- `JsonWriter` of netzer-cli/src/main.rs, and the messages to the dashboard, which have the same form.
use net_zer.Prelude.{[], Bytes, ℕ, ◌++◌, ◌∷◌, ascii}
pub mod ReadBack
use Prim.Native.String.{String}
use mathlib.Core.Option
use net_zer.Report.{escape_json}
use net_zer.Text.Decimal.{decimal}
use net_zer.Cli.Line.{JsonWriter, Session}

unfoldable pub create : JsonWriter
create = record { file = [] }

-- `"name":"` and the text and the quote behind it.
unfoldable pub text_field : String → Bytes → Bytes
text_field name text = b'"' ∷ (ascii name ++ (b'"' ∷ b':' ∷ b'"' ∷ (text ++ b'"' ∷ [])))

-- The fields that both forms have, without the braces.
unfoldable pub json_fields : Bytes → Bytes → Bytes → Bytes → Bytes → ℕ → Bytes
json_fields time_str proto src dst info size =
    text_field "timestamp" (escape_json time_str)
    ++ (b','
        ∷ (text_field "proto" proto
            ++ (b','
                ∷ (text_field "src" (escape_json src)
                    ++ (b','
                        ∷ (text_field "dst" (escape_json dst)
                            ++ (b','
                                ∷ (text_field "info" (escape_json info)
                                    ++ (b',' ∷ (ascii "\"size\":" ++ decimal size))))))))))

unfoldable pub write_packet : Bytes → Bytes → Bytes → Bytes → Bytes → ℕ → JsonWriter → JsonWriter
write_packet time_str proto src dst info size writer = record {
  file =
      writer.file
      ++ (b'{'
          ∷ (json_fields time_str (escape_json proto) src dst info size ++ (b'}' ∷ b'\n' ∷ [])));
}

-- `if let Some(writer) = json_writer { let _ = writer.write_packet(..); }`
unfoldable pub log_packet : Bytes → Bytes → Bytes → Bytes → Bytes → ℕ → Session → Session
log_packet time_str proto src dst info size session = record session {
  json = Option.map (write_packet time_str proto src dst info size) session.json;
}

-- The `format!` of the handlers for the dashboard, with `proto` as it stands in the text.
unfoldable pub web_message : Bytes → Bytes → Bytes → Bytes → Bytes → ℕ → Bytes → Bytes
web_message time_str proto src dst info size raw_hex =
    b'{'
    ∷ (json_fields time_str proto src dst info size
        ++ (b',' ∷ (text_field "payload" raw_hex ++ b'}' ∷ [])))
