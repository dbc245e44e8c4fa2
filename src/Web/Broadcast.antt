-- ===== src/Web/Broadcast.antt =====
-- The broadcaster of netzer-cli/src/web/mod.rs: the thread that `WebServer::new` starts. A client is a
-- connection of the system; `send frame client` is its `write_all` and `flush`: whether both succeed, and the
-- client as it is then.
pub mod Survivors
use net_zer.Prelude.{ℕ, Bytes, List, Bool, [], ◌∷◌, ◌+◌, zero, suc, if◌then◌else◌}
use net_zer.Outcome.{Outcome, ok, panic, ◌>>=◌}
use net_zer.Web.Frame.{encode_ws_text_frame}

-- `Vec::remove`
unfoldable pub remove {ℓ} : {A : Type ℓ} → ℕ → List A → Outcome (List A)
remove index [] = panic
remove zero (x ∷ xs) = ok xs
remove (suc index) (x ∷ xs) = do rest ← remove index xs; ok (x ∷ rest)

module _ {C : Type 0} (send : Bytes → C → Bool × C) where
  -- The `for` over the clients, from the index `idx` on: the clients behind it, and `to_remove`.
  unfoldable pub send_all : Bytes → ℕ → List C → List C × List ℕ
  send_all ws_frame idx [] = ([], [])
  send_all ws_frame idx (client ∷ more) =
      let (sent, client') = send ws_frame client in
      let (more', to_remove) = send_all ws_frame (idx + 1) more in
      (client' ∷ more', if sent then to_remove else idx ∷ to_remove)

  -- The `for` over `to_remove` in reverse: the last index first.
  unfoldable pub remove_reversed : List ℕ → List C → Outcome (List C)
  remove_reversed [] clients = ok clients
  remove_reversed (idx ∷ more) clients = do rest ← remove_reversed more clients; remove idx rest

  -- One message.
  unfoldable pub deliver : Bytes → List C → Outcome (List C)
  deliver msg clients =
      let (clients', to_remove) = send_all (encode_ws_text_frame msg) 0 clients in
      remove_reversed to_remove clients'

  -- The messages that have come through the channel.
  unfoldable pub deliver_all : List Bytes → List C → Outcome (List C)
  deliver_all [] clients = ok clients
  deliver_all (msg ∷ more) clients = do clients' ← deliver msg clients; deliver_all more clients'
