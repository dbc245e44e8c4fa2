-- ===== src/Socket/Privileges.antt =====
-- `drop_privileges` of netzer-socket/src/socket.rs.
pub mod Order
use net_zer.Prelude.{
  ℕ, Bytes, Option, none, some, [], ◌∷◌, ◌*◌, ◌+◌, ◌-◌, ◌^◌, ltb, leb, ◌==◌, ◌&&◌, if◌then◌else◌,
  ascii,
}
use net_zer.Socket.System.{
  Sys, done, returns, failed, invalid_data, checked, step, gives, fails, Reply, get_uid, set_gid,
  set_uid,
}

-- `str::parse::<u32>`: the digits behind a value, which must stay below 2 ^ 32.
unfoldable pub parse_digits : ℕ → Bytes → Option ℕ
parse_digits n [] = some n
parse_digits n (c ∷ cs) =
    let next = n * 10 + (c - b'0') in
    let more = parse_digits next cs in
    if leb b'0' c && leb c b'9' && ltb next (2 ^ 32) then more else none

-- A plus sign may lead; a digit must follow.
unfoldable pub parse_unsigned : Bytes → Option ℕ
parse_unsigned [] = none
parse_unsigned (c ∷ []) = parse_digits 0 (c ∷ [])
parse_unsigned (c ∷ d ∷ cs) =
    if c == b'+' then parse_digits 0 (d ∷ cs) else parse_digits 0 (c ∷ d ∷ cs)

-- First the group, then the user.
unfoldable pub swap_to : (uid gid : ℕ) → Sys Unit
swap_to uid gid = checked (set_gid gid) [] λ g. checked (set_uid uid) [] λ u. done (returns tt)

unfoldable pub parse_or : {A : Type 0} → Option ℕ → Bytes → (ℕ → Sys A) → Sys A
parse_or none message go = done (failed (invalid_data message))
parse_or (some n) message go = go n

-- The two variables of the environment, where they are set.
unfoldable pub drop_to : Option Bytes → Option Bytes → Sys Unit
drop_to (some uid_str) (some gid_str) =
    parse_or (parse_unsigned uid_str) (ascii "Failed to parse SUDO_UID") λ uid.
      parse_or (parse_unsigned gid_str) (ascii "Failed to parse SUDO_GID") λ gid. swap_to uid gid
drop_to _ _ = swap_to 65534 65534

-- `getuid` does not fail.
abbrev pub uid_of : Reply → ℕ
uid_of (gives uid) = uid
uid_of (fails e) = e

unfoldable pub drop_privileges : (sudo_uid sudo_gid : Option Bytes) → Sys Unit
drop_privileges sudo_uid sudo_gid =
    step get_uid λ reply. if uid_of reply == 0 then drop_to sudo_uid sudo_gid else done (returns tt)
