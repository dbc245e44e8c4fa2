-- ===== src/Socket/Privileges/Order.antt =====
-- What `drop_privileges` of netzer-socket/src/socket.rs has done when it returns.
use net_zer.Prelude.{
  Option, Bytes, [], ◌∷◌, ℕ, ◌≢◌, some, ◌≡◌, ◌==◌, ◌⊎◌, inr, none, Option-cases, inl, ==_iff, refl,
  true, false, sym, ◌∙◌,
}
use net_zer.Socket.System.{
  Reply, done, Every-map, IoResult, returns, failed, os, nul_in_name, invalid_input, invalid_data,
  Trace, Every, Every-if, Every-checked, gives, fails, get_uid, set_gid, set_uid,
}
use net_zer.Socket.Privileges.{parse_unsigned, parse_or, swap_to, drop_to, uid_of, drop_privileges}

-- The user and the group that the environment asks for, or those of `nobody`; `none` where a variable
-- does not hold a number.
unfoldable pub target : Option Bytes → Option Bytes → Option (ℕ × ℕ)
target (some uid_str) (some gid_str) = elim (parse_unsigned uid_str) [
  | none ↦ none
  | some uid ↦ elim (parse_unsigned gid_str) [ none ↦ none | some gid ↦ some (uid, gid) ]
]
target _ _ = some (65534, 65534)

abbrev pub Swapped : (sudo_uid sudo_gid : Option Bytes) → Reply → Trace → IoResult Unit → Type 0
Swapped sudo_uid sudo_gid root trace (returns _) =
    (uid : ℕ) × (gid : ℕ) × (g : ℕ) × (u : ℕ) × (target sudo_uid sudo_gid ≡ some (uid, gid))
    × (trace ≡ (get_uid, root) ∷ (set_gid gid, gives g) ∷ (set_uid uid, gives u) ∷ [])
Swapped sudo_uid sudo_gid root trace (failed (os e)) =
    (uid : ℕ) × (gid : ℕ) × (target sudo_uid sudo_gid ≡ some (uid, gid))
    × ((trace ≡ (get_uid, root) ∷ (set_gid gid, fails e) ∷ [])
        ⊎ ((g : ℕ) × (trace
              ≡ (get_uid, root) ∷ (set_gid gid, gives g) ∷ (set_uid uid, fails e) ∷ [])))
Swapped sudo_uid sudo_gid root trace (failed (invalid_data message)) =
    (target sudo_uid sudo_gid ≡ none) × (trace ≡ (get_uid, root) ∷ [])
Swapped sudo_uid sudo_gid root trace (failed nul_in_name) = ⊥
Swapped sudo_uid sudo_gid root trace (failed (invalid_input message)) = ⊥

abbrev pub PrivilegesEnd : (sudo_uid sudo_gid : Option Bytes) → Trace → IoResult Unit → Type 0
PrivilegesEnd sudo_uid sudo_gid trace result =
    (reply : Reply) × (((uid_of reply ≢ 0)
        × (trace ≡ (get_uid, reply) ∷ [])
        × (result ≡ returns tt))
      ⊎ ((uid_of reply ≡ 0) × Swapped sudo_uid sudo_gid reply trace result))

module _ (sudo_uid sudo_gid : Option Bytes) (root : Reply) where
  swap_to-Swapped :
      (uid gid : ℕ)
      → target sudo_uid sudo_gid ≡ some (uid, gid)
      → Every (Swapped sudo_uid sudo_gid root) ((get_uid, root) ∷ []) (swap_to uid gid)
  unfolding swap_to
  swap_to-Swapped uid gid t =
      Every-checked (Swapped sudo_uid sudo_gid root) ((get_uid, root) ∷ []) (set_gid gid) [] _
        (λ e. (uid, gid, t, inl refl))
        (λ g.
          Every-checked (Swapped sudo_uid sudo_gid root)
            ((get_uid, root) ∷ (set_gid gid, gives g) ∷ []) (set_uid uid) [] _
            (λ e. (uid, gid, t, inr (g, refl))) (λ u. (uid, gid, g, u, t, refl)))

drop_to-Swapped :
    (sudo_uid sudo_gid : Option Bytes) (root : Reply)
    → Every (Swapped sudo_uid sudo_gid root) ((get_uid, root) ∷ []) (drop_to sudo_uid sudo_gid)
unfolding drop_to target parse_or
drop_to-Swapped none gid root = swap_to-Swapped none gid root 65534 65534 refl
drop_to-Swapped (some u) none root = swap_to-Swapped (some u) none root 65534 65534 refl
drop_to-Swapped (some u) (some g) root = elim (Option-cases (parse_unsigned u)) [
  | inl bad ↦ rw bad (rw (target, bad) refl, refl)
  | inr (uid, e) ↦ rw e (elim (Option-cases (parse_unsigned g)) [
    | inl bad ↦ rw bad (rw (target, e, bad) refl, refl)
    | inr (gid, k) ↦ rw k (swap_to-Swapped (some u) (some g) root uid gid (rw (target, e, k) refl))
  ])
]

-- For any environment and any answers of the system: where the user is not root, `drop_privileges` asks
-- nothing more and returns. Where it is root, it returns only after `setgid` and then `setuid` have both
-- succeeded, with the numbers of `SUDO_UID` and `SUDO_GID` where both are set and with 65534 otherwise;
-- an error of one of the two is returned, and `setuid` is not tried after an error of `setgid`; and where
-- a variable holds no number below 2 ^ 32, the error is returned before either call.
pub drop_privileges-Every :
    (sudo_uid sudo_gid : Option Bytes)
    → Every (PrivilegesEnd sudo_uid sudo_gid) [] (drop_privileges sudo_uid sudo_gid)
unfolding drop_privileges
drop_privileges-Every sudo_uid sudo_gid = λ reply.
    Every-if (PrivilegesEnd sudo_uid sudo_gid) ((get_uid, reply) ∷ []) (uid_of reply == 0)
      (drop_to sudo_uid sudo_gid) (done (returns tt))
      (λ root.
        Every-map (Swapped sudo_uid sudo_gid reply) (PrivilegesEnd sudo_uid sudo_gid)
          ((get_uid, reply) ∷ []) (drop_to sudo_uid sudo_gid)
          (λ trace result s. (reply, inr ((==_iff (uid_of reply) 0).0 root, s)))
          (drop_to-Swapped sudo_uid sudo_gid reply))
      (λ user. (
        reply,
        inl (
          (λ e. let t : true ≡ false = sym ((==_iff (uid_of reply) 0).1 e) ∙ user in absurd cc),
          refl,
          refl,
        ),
      ))
