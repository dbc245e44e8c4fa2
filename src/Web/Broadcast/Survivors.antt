-- ===== src/Web/Broadcast/Survivors.antt =====
-- Who is left after the broadcaster of netzer-cli/src/web/mod.rs has sent its messages.
use net_zer.Prelude.{
  ℕ, Bytes, List, length, Bool, ◌≡◌, ◌∷◌, if◌then◌else◌, ◌++◌, [], refl, suc, ◌+◌, arith, subst,
  zero, append_assoc, length-append, ◌∙◌, ap, Bool-cases, inl, inr,
}
use net_zer.Outcome.{ok}
use net_zer.Web.Frame.{encode_ws_text_frame}
use net_zer.Web.Broadcast.{remove, send_all, remove_reversed, deliver, deliver_all}

remove_middle {ℓ} :
    {A : Type ℓ} (front : List A) (x : A) (rest : List A) (index : ℕ)
    → length front ≡ index
    → remove index (front ++ (x ∷ rest)) ≡ ok (front ++ rest)
unfolding remove
remove_middle [] x rest zero e = refl
remove_middle [] x rest (suc index) e = absurd (omega arith)
remove_middle (y ∷ front) x rest zero e = absurd (omega arith)
remove_middle (y ∷ front) x rest (suc index) e =
    rw (remove_middle front x rest index (omega arith)) refl

module _ {C : Type 0} (send : Bytes → C → Bool × C) where
  -- The clients that a frame reaches, as they are then.
  unfoldable pub reached : Bytes → List C → List C
  reached ws_frame [] = []
  reached ws_frame (client ∷ more) =
      let rest = reached ws_frame more in
      if (send ws_frame client).0 then (send ws_frame client).1 ∷ rest else rest

  unfoldable pub reached_by_all : List Bytes → List C → List C
  reached_by_all [] clients = clients
  reached_by_all (msg ∷ more) clients =
      reached_by_all more (reached (encode_ws_text_frame msg) clients)

  send_all-reached :
      (ws_frame : Bytes) (front clients : List C) (idx : ℕ)
      → length front ≡ idx
      → remove_reversed send
          (send_all send ws_frame idx clients).1
          (front ++ (send_all send ws_frame idx clients).0)
        ≡ ok (front ++ reached ws_frame clients)
  unfolding send_all remove_reversed reached
  send_all-reached ws_frame front [] idx e = refl
  send_all-reached ws_frame front (client ∷ more) idx e =
      let client' : C = (send ws_frame client).1 in
      let more' : List C = (send_all send ws_frame (idx + 1) more).0 in
      let step : remove_reversed send (send_all send ws_frame (idx + 1) more).1
            (front ++ (client' ∷ more'))
          ≡ ok (front ++ (client' ∷ reached ws_frame more)) =
        subst
          (λ (t : List C).
            remove_reversed send (send_all send ws_frame (idx + 1) more).1 t
            ≡ ok (front ++ (client' ∷ reached ws_frame more)))
          (append_assoc front (client' ∷ []) more')
          (send_all-reached ws_frame (front ++ client' ∷ []) more (idx + 1)
              (omega (arith, length-append front (client' ∷ []), e))
            ∙ ap ok (append_assoc front (client' ∷ []) (reached ws_frame more))) in
      elim (Bool-cases (send ws_frame client).0) [
        | inl sent ↦ rw sent step
        | inr lost ↦ rw (lost, step) (remove_middle front client' (reached ws_frame more) idx e)
      ]

  -- Over any messages and any clients, the removals of the broadcaster never index outside the list, and
  -- what is left are exactly the clients that every message has reached, in their order, each sent every
  -- message as one WebSocket frame: a client whose write or flush fails is dropped with that message, and
  -- no other is.
  pub deliver_all-reached :
      (msgs : List Bytes) (clients : List C)
      → deliver_all send msgs clients ≡ ok (reached_by_all msgs clients)
  unfolding deliver_all deliver reached_by_all
  deliver_all-reached [] clients = refl
  deliver_all-reached (msg ∷ more) clients =
      rw (send_all-reached (encode_ws_text_frame msg) [] clients 0 refl)
        (deliver_all-reached more (reached (encode_ws_text_frame msg) clients))
