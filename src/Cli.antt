-- ===== src/Cli.antt =====
-- netzer-cli/src/main.rs: what is done with a captured frame. The terminal, the two files and the
-- channel to the web server are what has gone into them. `paint` stands for the crate `colored`: the
-- text that a style makes of a text.
pub mod Line
pub mod JsonWriter
pub mod Tcp
pub mod Udp
pub mod Icmp
pub mod Arp
pub mod Process
pub mod Reported
pub mod Safety
pub mod Processed
pub mod Args
pub mod Captured
pub mod Capture
pub mod Startup
