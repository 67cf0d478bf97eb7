-- ===== src/Message/Send/Linked.antt =====
-- A linked message in mode "push" or "listening", and the array that its copy shares with it.
use messenger_service_go.Prelude.{
  ◌≡◌, ◌≢◌, refl, String, eq_iff, true, false, some, List, [], ◌∷◌, length, ltb, arith,
}
use messenger_service_go.Go.{ok}
use messenger_service_go.Go.Exec.{Exec, ◌>>=◌, ◌>>◌, pure, bind-ok}
use messenger_service_go.Models.{Configuration, Message}
use messenger_service_go.Backend.{Backend}
use messenger_service_go.World.{World}
use messenger_service_go.Message.Store.{insert_one_linking_message}
use messenger_service_go.Message.External.{Env}
use messenger_service_go.Message.Send.{first_target, linked_copy, push_linked}
use messenger_service_go.Socket.Removal.{
  Slice, view, slice_of, remove_success, remove_all, remove_loop, remove_step, remove_at,
}
use messenger_service_go.Socket.Deliver.{redirect_message_to_sockets}
use messenger_service_go.Socket.Deliver.Redirect.{is_online, online_of, redirect-slice}

two_removed :
    (a b : String)
    → a ≢ b
    → remove_success (a ∷ b ∷ []) (slice_of (a ∷ b ∷ []))
      ≡ some (record { array = b ∷ b ∷ []; len = 0 })
unfolding remove_success remove_all remove_loop remove_step remove_at
two_removed a b n = ground (arith, n, eq_iff a b, eq_iff b a, eq_iff a a, eq_iff b b)

few_removed :
    (success target : List String) {s : Slice}
    → ltb 1 (length success) ≡ false
    → remove_success success (slice_of target) ≡ some s
    → s.array ≡ target
unfolding remove_success
few_removed success target h e = ground (arith, h, e)

module _ (B : Backend) (env : Env) (m : Message) (class : Configuration) (w : World B) where
  -- The array that the message's slice is on after the push of its copy.
  pushed_array :
      {m' : Message} {w' : World B}
      → push_linked B env m class w ≡ (ok m', w')
      → (s : Slice) × (remove_success (online_of w.server.clients m.target) (slice_of m.target)
          ≡ some s)
        × (m' ≡ record m { linkage_id = env.linkage_id; target = s.array })
  unfolding push_linked linked_copy first_target
  pushed_array {m'} {w'} e = go m.target refl
    where
      go :
          (l : List String)
          → m.target ≡ l
          → (s : Slice) × (remove_success (online_of w.server.clients m.target) (slice_of m.target)
              ≡ some s)
            × (m' ≡ record m { linkage_id = env.linkage_id; target = s.array })
      go [] p = absurd (ground (arith, e, p))
      go (t ∷ l) p =
          let copy : Message = record m { id = env.linkage_id; linkage_id = m.id; open_id = t } in
          let rest : Slice → Exec (World B) Message = λ target.
            insert_one_linking_message B (record copy { target = view target }) class
            >> pure (record m { linkage_id = env.linkage_id; target = target.array }) in
          let f : (redirect_message_to_sockets B copy class >>= rest) w ≡ (ok m', w') =
            ground (arith, e, p) in
          let (s, w1, e1, f1) = bind-ok (redirect_message_to_sockets B copy class) rest w f in
          let (_, w2, e2, f2) =
            bind-ok (insert_one_linking_message B (record copy { target = view s }) class)
              (λ _. pure (record m { linkage_id = env.linkage_id; target = s.array })) w1 f1 in
          (s, redirect-slice B copy class w e1, ground (arith, f2))

  -- Of a linked message that was pushed to two receivers that both have a client, the targets are
  -- the second receiver twice from then on: the redirection of the copy moved it in the array that
  -- the two share. With at most one receiver that has a client the targets stay.
  pub linked_targets :
      {m' : Message} {w' : World B}
      → push_linked B env m class w ≡ (ok m', w')
      → ((a b : String)
          → m.target ≡ a ∷ b ∷ []
          → a ≢ b
          → is_online w.server.clients a ≡ true
          → is_online w.server.clients b ≡ true
          → m'.target ≡ b ∷ b ∷ [])
        × (ltb 1 (length (online_of w.server.clients m.target)) ≡ false → m'.target ≡ m.target)
  linked_targets {m'} {w'} e =
      let (s, p, is) = pushed_array {m' = m'} {w' = w'} e in
      (
        λ a b t n x y.
            let both : online_of w.server.clients (a ∷ b ∷ []) ≡ a ∷ b ∷ [] =
              unfold online_of in ground (arith, x, y) in
            ground (arith, p, is, t, both, two_removed a b n),
        λ f. ground (arith, is, few_removed (online_of w.server.clients m.target) m.target f p),
      )
