-- ===== src/Text.antt =====
-- What the program uses of Rust's text: a string is the list of its UTF-8 bytes.
pub mod Utf8
pub mod Decimal
pub mod Lossy
pub mod Words
