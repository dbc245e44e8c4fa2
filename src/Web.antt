-- ===== src/Web.antt =====
-- netzer-cli/src/web/mod.rs: what the dashboard's WebSocket handshake and broadcast are made of.
pub mod Request
pub mod Broadcast
pub mod Base64
pub mod Frame
pub mod Sha1
