-- ===== src/Lib.antt =====
-- NetZer captures packets from a Linux raw socket, reads the headers of each layer, names what it can
-- (DNS queries, TLS server names, text of TCP streams), and prints, records or broadcasts it. The
-- parsers and the stream tracker are in netzer-core, the socket in netzer-socket, and the program, its
-- files and its web dashboard in netzer-cli.
--
-- A frame goes through the parsers from the outside in: each gives a header over the bytes that it
-- takes and the payload for the next. The handlers of netzer-cli pick the next parser by the type
-- fields, give TCP payloads to the stream tracker, and format the result with the text helpers.
--
-- Files:
--   Outcome        netzer-core/src/error.rs (`ParseError`), and what a Rust function can do: return,
--                  return an error, panic, or go on for ever. Slices, indexing and `copy_from_slice`
--                  panic as in Rust. Outcome/Loop runs a loop's body on fuel; running out of it is
--                  `diverge`, so a theorem that excludes `diverge` says that the loop ends.
--   Header         netzer-core/src/ethernet.rs, mac.rs, ipv4.rs, ipv6.rs, arp.rs, icmp.rs, udp.rs and
--                  tcp.rs: one module for each, `parse` and a function for each field. A header is
--                  the slice that the Rust struct borrows. The child Layout has the format, and
--                  `mac_text`, `ipv4_text` and `ipv6_text` are the texts of the addresses (`Display`).
--   Text           what the program uses of the standard library's texts: UTF-8 (`is_utf8`,
--                  `from_utf8_lossy`), decimal numbers, and the splits of a text (Text/Words).
--   Dns            netzer-core/src/dns.rs: `parse` is `DnsQuery::parse`, `qname_body` its loop.
--   Tls            netzer-core/src/tls.rs: `parse` is `TlsClientHello::parse`, cut into the parts of the
--                  message, `extension_body` and `name_body` its two loops.
--   Stream         netzer-core/src/tcp_stream.rs: `new_key`, `feed` and `clear`. The hash map is the
--                  function from keys to streams that it stands for; `data` is the field `payload`.
--   Report         netzer-cli/src/main.rs: `truncate`, `escape_json`, `to_hex_string`, and in
--                  Report/Pcap `PcapWriter`; Report/Hexdump is netzer-core/src/hexdump.rs.
--   Web            netzer-cli/src/web/mod.rs: `sha1`, `base64_encode`, `encode_ws_text_frame`; `deliver_all`
--                  of Web/Broadcast is the thread that `WebServer::new` starts, and `reply` and `serve` of
--                  Web/Request are what the thread of a connection does.
--   Cli            netzer-cli/src/main.rs. A `Session` is what `main` hands to `process_packet`: the two
--                  writers, the tracker, the messages to the web server, and the text of the terminal.
--                  `handle_tcp`, `handle_udp`, `handle_icmp`, `handle_icmpv6`, `handle_arp` and
--                  `process_packet` (Cli/Process) are functions on it. `capture` and `capture_ring` are the
--                  two loops of `main` over the calls that they make, and `startup` is what `main` does
--                  before them. Cli/Safety, Cli/Processed and Cli/Captured have the proofs.
--   Socket         netzer-socket/src/socket.rs. The programs of the filters are lists of `SockFilter`;
--                  the machine that runs them is any function with the laws `IsMachine`, which are those
--                  of the kernel's documentation for the six instructions used. `raw_new`, `ring_new`,
--                  `attach_filter_port`, `attach_filter_proto` and `drop_privileges` are trees of system
--                  calls (`Sys`), and `Every` says what holds at the end whatever the answers are.
--                  `recv_block` of Socket/Ring works on the bytes of the mapping; a read outside it,
--                  which Rust leaves undefined, is a panic.
--   Prelude        names and lemmas that the others share.
--   Examples       runs on concrete inputs.
--
-- Bytes are numbers below 256 (`IsByte`), text is its UTF-8 bytes, and `usize` is a natural number: the
-- offsets of the parsers stay within a few hundred kilobytes of the buffer's length, far below 2 ^ 64.
-- Words of 32 bits in `sha1` wrap around.
--
-- A result of the program that reads the outside takes it as an argument: the clock (`Clock`), the bytes
-- that `recv` gives, the mapping behind each `poll`, the environment's variables. `paint` is the crate
-- `colored`, `lower` the standard library's `to_lowercase`, `send` the write and flush of a connection.
--
-- Fuel: the loops of `Dns` and `Tls` get one turn more than the buffer has bytes, and each turn takes
-- at least two bytes; the padding of `sha1` gets 64 turns, and it needs 63 at most; `hexdump` gets as
-- many turns as there are bytes, and a turn takes one at least. The walk over a block has the number of
-- packets that the block states, as in the source. The wait for a block, the loops of `main` and the
-- broadcaster do not end by themselves: they run over a list of what comes from outside.
--
-- Not modelled: the reading of the arguments by the crate `clap`, the banner and the status lines, the
-- standard error, the threads and the lock of the web server, its listening socket and the built-in
-- page, and a write to a file that fails, which the program does not look at. The native byte order is
-- the little-endian one.
pub mod Prelude
pub mod Outcome
pub mod Header
pub mod Text
pub mod Dns
pub mod Tls
pub mod Stream
pub mod Report
pub mod Web
pub mod Cli
pub mod Socket
pub mod Examples
