-- ===== src/Message/Change/Frame.antt =====
-- The actions that deliver a message write to Redis under the users' keys only: what is stored of
-- the messages stays.
use messenger_service_go.Prelude.{
  ◌≡◌, refl, String, ◌==◌, Bool, true, false, Bool-cases, Option-cases, inl, inr, List, [], ◌∷◌,
  arith, if◌then◌else◌, ◌++◌,
}
use messenger_service_go.Prelude.Maps.{lookup}
use messenger_service_go.Go.{Result, ok, err, panic}
use messenger_service_go.Go.Exec.{Exec, pure, ◌>>=◌}
use messenger_service_go.Models.{ObjectId, Configuration, Message}
use messenger_service_go.Backend.{
  Backend, IsLawful, message_key, user_messages_key, messages_json, Reply, found, missing, failed,
}
use messenger_service_go.World.{World}
use messenger_service_go.Message.Store.{
  json_messages, as_messages, set_user_messages, change_user_messages, replace_or_append,
  add_message_to_user_cached_messages_redis, update_message_in_user_cached_messages_redis,
}
use messenger_service_go.Message.Change.{update_cached_for_each, push_change}
use messenger_service_go.Socket.Removal.{view}
use messenger_service_go.Socket.Deliver.{
  keep_for_later, send_message_to_user_socket, send_to_each, redirect_message_to_sockets,
}

module _ (B : Backend) (L : IsLawful B) where
  -- The messages of both stores are the same in two worlds.
  abbrev pub Same : World B → World B → Type 0
  Same w v =
      (i : ObjectId)
      → (B.find_message i v.state ≡ B.find_message i w.state)
        × (B.redis_get (message_key i) v.state ≡ B.redis_get (message_key i) w.state)

  abbrev pub Keeps {ℓ} : {A : Type ℓ} → Exec (World B) A → Type 0
  Keeps a = (w : World B) → Same w (a w).1

  bind-Keeps {ℓ κ} :
      {A : Type ℓ} {C : Type κ} (a : Exec (World B) A) (f : A → Exec (World B) C)
      → Keeps a
      → ((x : A) → Keeps (f x))
      → Keeps (a >>= f)
  bind-Keeps {A = A} a f ka kf w = go (a w) refl
    where
      go : (p : Result A × World B) → a w ≡ p → Same w ((a >>= f) w).1
      go (ok x, v) e = λ j. ground (arith, e, ka w j, kf x v j)
      go (err r, v) e = λ j. ground (arith, e, ka w j)
      go (panic, v) e = λ j. ground (arith, e, ka w j)

  set_user_messages-Keeps : (u : String) (ms : List Message) → Keeps (set_user_messages B u ms)
  unfolding set_user_messages
  set_user_messages-Keeps u ms w i =
      elim (Option-cases
        (B.redis_set (user_messages_key u) (messages_json (json_messages ms)) w.state)) [
          | inl e ↦ ground (arith, e)
          | inr (s, e) ↦ ground (
            arith,
            e,
            L.get-set (user_messages_key u) (message_key i) (messages_json (json_messages ms)) e,
            L.find-set (user_messages_key u) (messages_json (json_messages ms)) i e,
          )
        ]

  change_user_messages-Keeps :
      (c : List Message → List Message) (u : String) (m : Message) (r : Reply)
      → Keeps (change_user_messages B c u m r)
  unfolding change_user_messages
  change_user_messages-Keeps c u m (found v) w i = elim (Option-cases (as_messages v)) [
    | inl e ↦ ground (arith, e)
    | inr (ms, e) ↦ ground (arith, e, set_user_messages-Keeps u (c ms) w i)
  ]
  change_user_messages-Keeps c u m missing w i = set_user_messages-Keeps u (m ∷ []) w i
  change_user_messages-Keeps c u m failed w i = set_user_messages-Keeps u (m ∷ []) w i

  add_cached-Keeps :
      (u : String) (m : Message) → Keeps (add_message_to_user_cached_messages_redis B u m)
  unfolding add_message_to_user_cached_messages_redis
  add_cached-Keeps u m w i =
      change_user_messages-Keeps (λ ms. ms ++ (m ∷ [])) u m
        (B.redis_get (user_messages_key u) w.state) w i

  update_cached-Keeps :
      (u : String) (m : Message) → Keeps (update_message_in_user_cached_messages_redis B u m)
  unfolding update_message_in_user_cached_messages_redis
  update_cached-Keeps u m w i =
      change_user_messages-Keeps (replace_or_append m) u m
        (B.redis_get (user_messages_key u) w.state) w i

  pub update_cached_for_each-Keeps :
      (us : List String) (m : Message) (u : String) → Keeps (update_cached_for_each B us m u)
  unfolding update_cached_for_each
  update_cached_for_each-Keeps [] m u = λ w i. (refl, refl)
  update_cached_for_each-Keeps (v ∷ us) m u =
      bind-Keeps (if v == u then pure tt else update_message_in_user_cached_messages_redis B v m)
        (λ _. update_cached_for_each B us m u)
        (λ w i. elim (Bool-cases (v == u)) [
          | inl e ↦ ground (arith, e)
          | inr e ↦ ground (arith, e, update_cached-Keeps v m w i)
        ])
        (λ _. update_cached_for_each-Keeps us m u)

  send-Keeps :
      (u : String) (m : Message) (c : Configuration) (p : Bool)
      → Keeps (send_message_to_user_socket B u m c p)
  unfolding send_message_to_user_socket keep_for_later
  send-Keeps u m c p w i = elim (Option-cases (lookup u w.server.clients)) [
    | inl e ↦ ground (arith, e, add_cached-Keeps u m w i)
    | inr (cl, e) ↦ ground (arith, e)
  ]

  send_to_each-Keeps :
      (us : List String) (m : Message) (c : Configuration) → Keeps (send_to_each B us m c)
  unfolding send_to_each
  send_to_each-Keeps [] m c = λ w i. (refl, refl)
  send_to_each-Keeps (u ∷ us) m c =
      bind-Keeps (send_message_to_user_socket B u m c false)
        (λ check.
          send_to_each B us m c >>= λ success. pure (if check then u ∷ success else success))
        (send-Keeps u m c false)
        (λ check.
          bind-Keeps (send_to_each B us m c)
            (λ success. pure (if check then u ∷ success else success)) (send_to_each-Keeps us m c)
            (λ _ w i. (refl, refl)))

  redirect-Keeps : (m : Message) (c : Configuration) → Keeps (redirect_message_to_sockets B m c)
  unfolding redirect_message_to_sockets
  redirect-Keeps m c w i = ground (arith, send_to_each-Keeps m.target m c w i)

  pub push_change-Keeps :
      (m : Message) (c : Configuration) (u : String) → Keeps (push_change B m c u)
  unfolding push_change
  push_change-Keeps m c u =
      bind-Keeps (redirect_message_to_sockets B m c)
        (λ t.
          if m.open_id == u
          then pure tt
          else send_message_to_user_socket B m.open_id (record m { target = view t }) c true
            >>= λ sent. pure tt)
        (redirect-Keeps m c)
        (λ t w i. elim (Bool-cases (m.open_id == u)) [
          | inl e ↦ ground (arith, e)
          | inr e ↦
              ground (arith, e, send-Keeps m.open_id (record m { target = view t }) c true w i)
        ])
