-- ===== src/Socket.antt =====
-- netzer-socket/src/socket.rs: the filters, the two kinds of socket, the ring and the drop of privileges.
pub mod Filter
pub mod System
pub mod Raw
pub mod Privileges
pub mod Ring
