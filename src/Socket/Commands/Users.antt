-- ===== src/Socket/Commands/Users.antt =====
-- The list of the users of a class, which `addConfiguration` is to grow.
use messenger_service_go.Prelude.{
  ◌≡◌, refl, ap, [], ◌∷◌, ◌++◌, String, ◌==◌, eq_iff, true, Bool-cases, inl, inr, Option, none,
  some, List, arith, Option-cases,
}
use messenger_service_go.Prelude.Maps.{Map}
use messenger_service_go.Go.{Error, Result, ok, err, panic}
use messenger_service_go.Go.Exec.{Exec}
use messenger_service_go.Common.{contains}
use messenger_service_go.Models.{Configuration}
use messenger_service_go.Backend.{
  Backend, IsLawful, Key, key_eq, user_list_key, message_key, user_messages_key,
  feishu_applications_key, ding_talk_applications_key, user_map_json, Reply, found, missing, failed,
}
use messenger_service_go.World.{World}
use messenger_service_go.Message.Store.{get_configuration_by_class_id}
use messenger_service_go.Socket.Commands.{
  looked_up, with_configuration, users_written, write_users, add_user, add_user_from,
  refuse_channel, add_channel, add_configuration, Session,
}

module _ (B : Backend) (L : IsLawful B) (error_text : Error → String) where
  abbrev SameRedis : World B → World B → Type 0
  SameRedis w v = (j : Key) → B.redis_get j v.state ≡ B.redis_get j w.state

  abbrev KeepsRedis : Exec (Session B error_text) (Unit {0}) → Type 0
  KeepsRedis a = (s : Session B error_text) → SameRedis s.1 (a s).1.1

  key_eq-found :
      (k : String) (j : Key) (w : World B)
      → key_eq (user_list_key k) j ≡ true
      → B.redis_get (user_list_key k) w.state ≡ B.redis_get j w.state
  key_eq-found k (user_list_key l) w h =
      ap (λ (x : String). B.redis_get (user_list_key x) w.state) ((eq_iff k l).0 h)
  key_eq-found k (message_key l) w h = absurd (ground (arith, h))
  key_eq-found k (user_messages_key l) w h = absurd (ground (arith, h))
  key_eq-found k (feishu_applications_key l) w h = absurd (ground (arith, h))
  key_eq-found k (ding_talk_applications_key l) w h = absurd (ground (arith, h))

  write_users-same :
      (k : String) (users : Map (List String)) (s : Session B error_text)
      → B.redis_get (user_list_key k) s.1.state ≡ found (user_map_json users)
      → SameRedis s.1 (write_users B error_text k (some users) s).1.1
  unfolding write_users users_written
  write_users-same k users (c, w) h j =
      elim (Option-cases (B.redis_set (user_list_key k) (user_map_json users) w.state)) [
        | inl e ↦ ground (arith, e)
        | inr (st, e) ↦
            ground (
              arith,
              e,
              h,
              key_eq-found k j w,
              L.get-set (user_list_key k) j (user_map_json users) e,
            )
      ]

  add_user-same :
      (k : String) (s : Session B error_text) (r : Reply)
      → B.redis_get (user_list_key k) s.1.state ≡ r
      → SameRedis s.1 (add_user B error_text k r s).1.1
  unfolding add_user
  add_user-same k s (found (user_map_json users)) h = write_users-same k users s h
  add_user-same k s (found _) h = unfold write_users in λ j. refl
  add_user-same k s missing h = λ j. refl
  add_user-same k s failed h = λ j. refl

  add_user_from-KeepsRedis :
      (o : Option String) (k : String) → KeepsRedis (add_user_from B error_text o k)
  unfolding add_user_from
  add_user_from-KeepsRedis none k s = λ j. refl
  add_user_from-KeepsRedis (some a) k s =
      add_user-same k s (B.redis_get (user_list_key k) s.1.state) refl

  refuse_channel-KeepsRedis : (o : Option String) → KeepsRedis (refuse_channel B error_text o)
  unfolding refuse_channel
  refuse_channel-KeepsRedis none s j = refl
  refuse_channel-KeepsRedis (some a) s j = refl

  add_channel-KeepsRedis :
      (configuration : Configuration) → KeepsRedis (add_channel B error_text configuration)
  unfolding add_channel
  add_channel-KeepsRedis configuration (c, w) =
      elim (Bool-cases (contains c.channels configuration.class_id)) [
        | inl e ↦ rw (e, add_channel) (refuse_channel-KeepsRedis c.conn (c, w))
        | inr e ↦
            rw (e, add_channel)
              (add_user_from-KeepsRedis c.conn configuration.class_id
                (record c { channels = c.channels ++ (configuration.class_id ∷ []) }, w))
      ]

  looked_up-KeepsRedis :
      (r : Result Configuration) (next : Configuration → Exec (Session B error_text) (Unit {0}))
      → ((configuration : Configuration) → KeepsRedis (next configuration))
      → KeepsRedis (looked_up B error_text r next)
  unfolding looked_up
  looked_up-KeepsRedis (ok configuration) next h = h configuration
  looked_up-KeepsRedis (err e) next h = λ s j. refl
  looked_up-KeepsRedis panic next h = λ s j. refl

  -- `addConfiguration` never changes what Redis holds: the list of the class's users, to which it is
  -- to add the client, reads as before like every other key.
  pub add_configuration_adds_nobody :
      (class_id : String) (s : Session B error_text) (j : Key)
      → B.redis_get j (add_configuration B error_text class_id s).1.1.state
        ≡ B.redis_get j s.1.state
  unfolding add_configuration with_configuration
  add_configuration_adds_nobody class_id s =
      looked_up-KeepsRedis (get_configuration_by_class_id B class_id s.1).0 _
        (λ configuration t. elim (Bool-cases (configuration.mode == "listening")) [
          | inl e ↦ rw e (add_channel-KeepsRedis configuration t)
          | inr e ↦ rw e (λ j. refl)
        ])
        s
