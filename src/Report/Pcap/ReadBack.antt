-- ===== src/Report/Pcap/ReadBack.antt =====
-- The files of `PcapWriter` in netzer-cli/src/main.rs against a reader of the pcap format.
use net_zer.Prelude.{
  Bytes, List, ℕ, Option, ◌<◌, ◌+◌, ◌^◌, suc, some, length, ◌∷◌, ◌≡◌, ◌%◌, ◌++◌, drop, [], none,
  ◌*◌, if◌then◌else◌, ◌/◌, leb, sym, ◌==◌, arith, append-nil, ◌&&◌, take, ◌∙◌, ◌≤◌, All, ap,
  append_assoc, length-append, zero, refl, le→leb, ==_iff, take-length, drop-length,
}
use net_zer.Report.Pcap.{to_ne_bytes, PcapWriter, create, write_packet}

-- A packet of a file: when it came, in seconds and microseconds, and its bytes.
pub record PcapPacket : Type 0 where
  pub sec : ℕ
  pub usec : ℕ
  pub packet : Bytes

abbrev le_word : ℕ → ℕ → ℕ → ℕ → ℕ
le_word a b c d = a + 256 * (b + 256 * (c + 256 * d))

abbrev cons_packet : PcapPacket → Option (List PcapPacket) → Option (List PcapPacket)
cons_packet p none = none
cons_packet p (some ps) = some (p ∷ ps)

-- Packets that were not cut, up to the end of the file; `n` bounds how many.
pub read_packets : ℕ → Bytes → Option (List PcapPacket)
read_packets n [] = some []
read_packets (suc n)
      (s0 ∷ s1 ∷ s2 ∷ s3 ∷ u0 ∷ u1 ∷ u2 ∷ u3 ∷ l0 ∷ l1 ∷ l2 ∷ l3 ∷ o0 ∷ o1 ∷ o2 ∷ o3 ∷ rest) =
    let len = le_word l0 l1 l2 l3 in
    let more = read_packets n (drop len rest) in
    if leb len (length rest) && (le_word o0 o1 o2 o3 == len)
    then cons_packet
        (record { sec = le_word s0 s1 s2 s3; usec = le_word u0 u1 u2 u3; packet = take len rest })
        more
    else none
read_packets _ _ = none

-- The magic number of a little-endian file with microseconds, version 2.4 and Ethernet's link type.
pub read_pcap : Bytes → Option (List PcapPacket)
read_pcap
      (m0 ∷ m1 ∷ m2 ∷ m3 ∷ v0 ∷ v1 ∷ w0 ∷ w1 ∷ z0 ∷ z1 ∷ z2 ∷ z3 ∷ z4 ∷ z5 ∷ z6 ∷ z7 ∷ n0 ∷ n1 ∷ n2
        ∷ n3 ∷ t0 ∷ t1 ∷ t2 ∷ t3 ∷ rest) =
    if (le_word m0 m1 m2 m3 == 0xa1b2c3d4)
      && (v0 + 256 * v1 == 2)
      && (w0 + 256 * w1 == 4)
      && (le_word t0 t1 t2 t3 == 1)
    then read_packets (length rest) rest
    else none
read_pcap _ = none

-- What is written for a list of packets, in order.
unfoldable pub write_packets : List PcapPacket → PcapWriter → PcapWriter
write_packets [] writer = writer
write_packets (p ∷ ps) writer = write_packets ps (write_packet p.sec p.usec p.packet writer)

-- The three numbers fit the 32 bits that the file has for them.
abbrev pub Fits : PcapPacket → Type 0
Fits p = (p.sec < 2 ^ 32) × (p.usec < 2 ^ 32) × (length p.packet < 2 ^ 32)

packet_bytes : PcapPacket → Bytes
packet_bytes p =
    let len = length p.packet % 2 ^ 32 in
    (to_ne_bytes 4 (p.sec % 2 ^ 32)
      ++ to_ne_bytes 4 (p.usec % 2 ^ 32)
      ++ to_ne_bytes 4 len
      ++ to_ne_bytes 4 len)
    ++ p.packet

packets_bytes : List PcapPacket → Bytes
packets_bytes [] = []
packets_bytes (p ∷ ps) = packet_bytes p ++ packets_bytes ps

assoc_packet : (f h p r : Bytes) → ((f ++ h) ++ p) ++ r ≡ f ++ ((h ++ p) ++ r)
assoc_packet f h p r = ap (λ (t : Bytes). t ++ r) (append_assoc f h p) ∙ append_assoc f (h ++ p) r

write_packets_file :
    (ps : List PcapPacket) (writer : PcapWriter)
    → (write_packets ps writer).file ≡ writer.file ++ packets_bytes ps
unfolding write_packets packets_bytes packet_bytes write_packet
write_packets_file [] writer = sym (append-nil writer.file)
write_packets_file (p ∷ ps) writer =
    write_packets_file ps (write_packet p.sec p.usec p.packet writer)
    ∙ assoc_packet writer.file _ p.packet (packets_bytes ps)

le_word-to_ne_bytes :
    (n : ℕ)
    → n < 2 ^ 32
    → le_word
        (n % 2 ^ 32 % 256)
        (n % 2 ^ 32 / 256 % 256)
        (n % 2 ^ 32 / 256 / 256 % 256)
        (n % 2 ^ 32 / 256 / 256 / 256 % 256)
      ≡ n
le_word-to_ne_bytes n h = omega arith

read_packets_step :
    (n : ℕ) (p : PcapPacket) (rest : Bytes)
    → Fits p
    → read_packets (suc n) (packet_bytes p ++ rest) ≡ cons_packet p (read_packets n rest)
unfolding read_packets packet_bytes to_ne_bytes
read_packets_step n p rest (hs, hu, hl) =
    rw
      (
        le_word-to_ne_bytes p.sec hs,
        le_word-to_ne_bytes p.usec hu,
        le_word-to_ne_bytes (length p.packet) hl,
        le→leb (length p.packet) (length (p.packet ++ rest))
            (omega (arith, length-append p.packet rest)),
        (==_iff (length p.packet) (length p.packet)).1 refl,
        take-length p.packet rest,
        drop-length p.packet rest,
      )
      refl

read_packets_lem :
    (n : ℕ) (ps : List PcapPacket)
    → length ps ≤ n
    → All Fits ps
    → read_packets n (packets_bytes ps) ≡ some ps
unfolding packets_bytes
read_packets_lem zero [] le h = unfold read_packets in refl
read_packets_lem (suc n) [] le h = unfold read_packets in refl
read_packets_lem zero (p ∷ ps) le h = absurd (omega arith)
read_packets_lem (suc n) (p ∷ ps) le (hp, hps) =
    read_packets_step n p (packets_bytes ps) hp
    ∙ ap (cons_packet p) (read_packets_lem n ps (omega arith) hps)

length-packets_bytes : (ps : List PcapPacket) → length ps ≤ length (packets_bytes ps)
unfolding packets_bytes packet_bytes to_ne_bytes
length-packets_bytes [] = omega arith
length-packets_bytes (p ∷ ps) =
    omega (arith, length-append p.packet (packets_bytes ps), length-packets_bytes ps)

-- A file that is created and to which packets are written, in order, is read back as those packets with
-- their times, by a reader that checks the magic number, the version, the link type and both lengths of
-- each packet. The seconds, the microseconds and the length of each packet are below 2 ^ 32.
pub read_pcap-write_packets :
    (ps : List PcapPacket) → All Fits ps → read_pcap (write_packets ps create).file ≡ some ps
unfolding create read_pcap to_ne_bytes
read_pcap-write_packets ps h =
    rw (write_packets_file ps create)
      (read_packets_lem (length (packets_bytes ps)) ps (length-packets_bytes ps) h)
