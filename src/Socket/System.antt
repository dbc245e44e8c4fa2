-- ===== src/Socket/System.antt =====
-- The system calls of netzer-socket/src/socket.rs. A piece of the program is a tree: it asks the system
-- and goes on from the answer, whatever the answer is.
use net_zer.Prelude.{
  ℕ, Bytes, List, [], ◌∷◌, ◌++◌, if◌then◌else◌, Bool, ◌==◌, ◌≡◌, true, false, refl, subst, sym,
  append_assoc,
}
use net_zer.Socket.Filter.{SockFilter}

-- `TpacketReq3`
pub record TpacketReq : Type 0 where
  pub tp_block_size : ℕ
  pub tp_block_nr : ℕ
  pub tp_frame_size : ℕ
  pub tp_frame_nr : ℕ
  pub tp_retire_blk_tov : ℕ
  pub tp_sizeof_priv : ℕ
  pub tp_feature_req_word : ℕ

-- The calls, with the arguments that they depend on. A descriptor is a number.
pub data Call : Type 0 where
  open_socket : (family kind protocol : ℕ) → Call
  get_index : (fd : ℕ) (ifr_name : Bytes) → Call
  bind : (fd family protocol index : ℕ) → Call
  set_filter : (fd len : ℕ) (filter : List SockFilter) → Call
  set_version : (fd version : ℕ) → Call
  set_ring : (fd : ℕ) (req : TpacketReq) → Call
  map_ring : (fd size : ℕ) → Call
  unmap_ring : (ptr size : ℕ) → Call
  receive : (fd size : ℕ) → Call
  close : (fd : ℕ) → Call
  get_uid : Call
  set_gid : (gid : ℕ) → Call
  set_uid : (uid : ℕ) → Call
  create_file : (path : Bytes) → Call
  write_all : (file : ℕ) (buf : Bytes) → Call

-- What comes back: the number that the call gives, or the error's.
pub data Reply : Type 0 where
  gives : ℕ → Reply
  fails : ℕ → Reply

-- `io::Error`: the system's, that of `CString::new`, or one with a message of the program.
pub data IoError : Type 0 where
  os : ℕ → IoError
  nul_in_name : IoError
  invalid_input : Bytes → IoError
  invalid_data : Bytes → IoError

pub data IoResult (A : Type 0) : Type 0 where
  returns : A → IoResult A
  failed : IoError → IoResult A

pub data Sys (A : Type 0) : Type 0 where
  done : IoResult A → Sys A
  step : Call → (Reply → Sys A) → Sys A

infixl 5 ◌>>=◌
abbrev pub ◌>>=◌ : {A B : Type 0} → Sys A → (A → Sys B) → Sys B
done (returns a) >>= f = f a
done (failed e) >>= f = done (failed e)
step c k >>= f = step c (λ reply. k reply >>= f)

-- Calls whose answer is not looked at.
abbrev pub after_all : {A : Type 0} → List Call → Sys A → Sys A
after_all [] m = m
after_all (c ∷ cs) m = step c (λ reply. after_all cs m)

abbrev pub settle : {A : Type 0} → List Call → Reply → (ℕ → Sys A) → Sys A
settle cleanup (gives n) go = go n
settle cleanup (fails e) go = after_all cleanup (done (failed (os e)))

-- `if call(..) < 0 { let err = io::Error::last_os_error(); cleanup; return Err(err); }`
abbrev pub checked : {A : Type 0} → Call → List Call → (ℕ → Sys A) → Sys A
checked c cleanup go = step c (λ reply. settle cleanup reply go)

abbrev pub Trace : Type 0
Trace = List (Call × Reply)

-- What holds at the end, of the calls made and of the result, whatever the system answers.
abbrev pub Every : {A : Type 0} → (Trace → IoResult A → Type 0) → Trace → Sys A → Type 0
Every P past (done r) = P past r
Every P past (step c k) = (reply : Reply) → Every P (past ++ (c, reply) ∷ []) (k reply)

pub Every-map :
    {A : Type 0} (P Q : Trace → IoResult A → Type 0) (past : Trace) (m : Sys A)
    → ((now : Trace) (r : IoResult A) → P now r → Q now r)
    → Every P past m
    → Every Q past m
Every-map P Q past (done r) f h = f past r h
Every-map P Q past (step c go) f h =
    λ reply. Every-map P Q (past ++ (c, reply) ∷ []) (go reply) f (h reply)

pub Every-bind :
    {A B : Type 0} (P : Trace → IoResult A → Type 0) (Q : Trace → IoResult B → Type 0)
    (past : Trace) (m : Sys A) (f : A → Sys B)
    → Every P past m
    → ((now : Trace) (a : A) → P now (returns a) → Every Q now (f a))
    → ((now : Trace) (e : IoError) → P now (failed e) → Q now (failed e))
    → Every Q past (m >>= f)
Every-bind P Q past (done (returns a)) f h k e = k past a h
Every-bind P Q past (done (failed x)) f h k e = e past x h
Every-bind P Q past (step c go) f h k e =
    λ reply. Every-bind P Q (past ++ (c, reply) ∷ []) (go reply) f (h reply) k e

Every-settle :
    {A : Type 0} (P : Trace → IoResult A → Type 0) (past : Trace) (c : Call) (cleanup : List Call)
    (go : ℕ → Sys A) (reply : Reply)
    → ((e : ℕ) → Every P (past ++ (c, fails e) ∷ []) (after_all cleanup (done (failed (os e)))))
    → ((n : ℕ) → Every P (past ++ (c, gives n) ∷ []) (go n))
    → Every P (past ++ (c, reply) ∷ []) (settle cleanup reply go)
Every-settle P past c cleanup go (gives n) h k = k n
Every-settle P past c cleanup go (fails e) h k = h e

-- A call that fails, and one that does not.
pub Every-checked :
    {A : Type 0} (P : Trace → IoResult A → Type 0) (past : Trace) (c : Call) (cleanup : List Call)
    (go : ℕ → Sys A)
    → ((e : ℕ) → Every P (past ++ (c, fails e) ∷ []) (after_all cleanup (done (failed (os e)))))
    → ((n : ℕ) → Every P (past ++ (c, gives n) ∷ []) (go n))
    → Every P past (checked c cleanup go)
Every-checked P past c cleanup go h k = λ reply. Every-settle P past c cleanup go reply h k

pub Every-if :
    {A : Type 0} (P : Trace → IoResult A → Type 0) (past : Trace) (b : Bool) (m n : Sys A)
    → (b ≡ true → Every P past m)
    → (b ≡ false → Every P past n)
    → Every P past (if b then m else n)
Every-if P past true m n h k = h refl
Every-if P past false m n h k = k refl

abbrev pub without : ℕ → List ℕ → List ℕ
without n [] = []
without n (x ∷ xs) = if x == n then xs else x ∷ without n xs

-- The descriptors that are open after a list of calls, from those that were.
unfoldable pub held : List ℕ → Trace → List ℕ
held fds [] = fds
held fds ((open_socket family kind protocol, gives fd) ∷ more) = held (fd ∷ fds) more
held fds ((close fd, reply) ∷ more) = held (without fd fds) more
held fds (other ∷ more) = held fds more

-- The mappings that are in place.
unfoldable pub mapped : List ℕ → Trace → List ℕ
mapped ptrs [] = ptrs
mapped ptrs ((map_ring fd size, gives ptr) ∷ more) = mapped (ptr ∷ ptrs) more
mapped ptrs ((unmap_ring ptr size, reply) ∷ more) = mapped (without ptr ptrs) more
mapped ptrs (other ∷ more) = mapped ptrs more

-- What a piece of the program does behind other calls is what it does alone.
pub Every-behind :
    {A : Type 0} (P : Trace → IoResult A → Type 0) (past now : Trace) (m : Sys A)
    → Every P now m
    → Every (λ t r. (own : Trace) × (t ≡ past ++ own) × P own r) (past ++ now) m
Every-behind P past now (done r) h = (now, refl, h)
Every-behind {A} P past now (step c k) h = λ reply.
    subst (λ (t : Trace). Every (λ t r. (own : Trace) × (t ≡ past ++ own) × P own r) t (k reply))
      (sym (append_assoc past now ((c, reply) ∷ [])))
      (Every-behind P past (now ++ (c, reply) ∷ []) (k reply) (h reply))
