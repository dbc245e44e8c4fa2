-- ===== src/Header.antt =====
-- The zero-copy header views of netzer-core: one module for each of ethernet.rs, mac.rs, arp.rs, ipv4.rs,
-- ipv6.rs, icmp.rs, udp.rs and tcp.rs, with the addresses of mac.rs, ipv4.rs and ipv6.rs. A view holds
-- the header's bytes and reads its fields by slices that would panic out of range.
pub mod Ethernet
pub mod Mac
pub mod Ipv4
pub mod Ipv6
pub mod Arp
pub mod Icmp
pub mod Udp
pub mod Tcp
