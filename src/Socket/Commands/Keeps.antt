-- ===== src/Socket/Commands/Keeps.antt =====
-- The commands that keep the lists of a connection without repetitions
-- (src/restful/services/messages.go).
use messenger_service_go.Prelude.{
  String, ◌==◌, Option-cases, Bool-cases, inl, inr, Option, none, some, List, [], ◌∷◌, ◌++◌,
}
use messenger_service_go.Prelude.Maps.{Map, lookup}
use messenger_service_go.Go.{Error, Result, ok, err, panic}
use messenger_service_go.Go.Exec.{Exec}
use messenger_service_go.Common.{contains}
use messenger_service_go.Models.{Configuration}
use messenger_service_go.Backend.{
  Backend, Reply, found, missing, failed, user_list_key, user_map_json,
}
use messenger_service_go.Message.Store.{get_configuration_by_class_id}
use messenger_service_go.Socket.Server.{Connection}
use messenger_service_go.Socket.Commands.{
  create_error_message, create_system_message, remove_first, queue_open, as_user_map, looked_up,
  with_configuration, write_users, add_user, add_channel, add_configuration, changes, Session,
  users_written, add_user_from, refuse_channel,
}
use messenger_service_go.Socket.Commands.Delete.{
  connections_of, store_left, heard_by, users_deleted, write_left, write_nameless, delete_user,
  forget_user, absent_channel, drop_channel, delete_configuration,
}
use messenger_service_go.Socket.Commands.Lists.{
  remove_first-Distinct, IsWellFormed, append-Distinct, queue-IsWellFormed, queue_open-IsWellFormed,
}

module _ (B : Backend) (error_text : Error → String) where
  abbrev pub KeepsLists : Exec (Session B error_text) (Unit {0}) → Type 0
  KeepsLists a = (s : Session B error_text) → IsWellFormed s.0 → IsWellFormed (a s).1.0

  pub changes-KeepsLists :
      (f : Connection → Connection)
      → ((c : Connection) → IsWellFormed c → IsWellFormed (f c))
      → KeepsLists (changes B error_text f)
  changes-KeepsLists f h (c, w) v = h c v

  looked_up-KeepsLists :
      (r : Result Configuration) (next : Configuration → Exec (Session B error_text) (Unit {0}))
      → ((configuration : Configuration) → KeepsLists (next configuration))
      → KeepsLists (looked_up B error_text r next)
  unfolding looked_up
  looked_up-KeepsLists (ok configuration) next h = h configuration
  looked_up-KeepsLists (err e) next h =
      changes-KeepsLists (queue_open (create_error_message (error_text e)))
        (queue_open-IsWellFormed (create_error_message (error_text e)))
  looked_up-KeepsLists panic next h = λ s v. v

  pub with_configuration-KeepsLists :
      (k : String) (next : Configuration → Exec (Session B error_text) (Unit {0}))
      → ((configuration : Configuration) → KeepsLists (next configuration))
      → KeepsLists (with_configuration B error_text k next)
  unfolding with_configuration
  with_configuration-KeepsLists k next h s =
      looked_up-KeepsLists (get_configuration_by_class_id B k s.1).0 next h s

  says-KeepsLists :
      (text : String) → KeepsLists (changes B error_text (queue_open (create_error_message text)))
  says-KeepsLists text =
      changes-KeepsLists (queue_open (create_error_message text))
        (queue_open-IsWellFormed (create_error_message text))

  users_written-KeepsLists : (o : Option B.State) → KeepsLists (users_written B error_text o)
  unfolding users_written
  users_written-KeepsLists none s v = says-KeepsLists "Failed to add user to configuration" s v
  users_written-KeepsLists (some state) (c, w) v =
      queue_open-IsWellFormed (create_system_message "success" "User added to configuration") c v

  write_users-KeepsLists :
      (k : String) (o : Option (Map (List String))) → KeepsLists (write_users B error_text k o)
  unfolding write_users
  write_users-KeepsLists k none s v = says-KeepsLists "Internal server error." s v
  write_users-KeepsLists k (some users) (c, w) v =
      users_written-KeepsLists (B.redis_set (user_list_key k) (user_map_json users) w.state) (c, w)
        v

  add_user-KeepsLists : (k : String) (r : Reply) → KeepsLists (add_user B error_text k r)
  unfolding add_user
  add_user-KeepsLists k (found x) = write_users-KeepsLists k (as_user_map x)
  add_user-KeepsLists k missing = says-KeepsLists "Failed to get user list in configuration"
  add_user-KeepsLists k failed = says-KeepsLists "Failed to get user list in configuration"

  add_user_from-KeepsLists :
      (o : Option String) (k : String) → KeepsLists (add_user_from B error_text o k)
  unfolding add_user_from
  add_user_from-KeepsLists none k s v = v
  add_user_from-KeepsLists (some a) k s v =
      add_user-KeepsLists k (B.redis_get (user_list_key k) s.1.state) s v

  refuse_channel-KeepsLists : (o : Option String) → KeepsLists (refuse_channel B error_text o)
  unfolding refuse_channel
  refuse_channel-KeepsLists none s v = v
  refuse_channel-KeepsLists (some a) s v =
      queue-IsWellFormed (create_error_message "User already in configuration") s.0 v

  add_channel-KeepsLists :
      (configuration : Configuration) → KeepsLists (add_channel B error_text configuration)
  unfolding add_channel
  add_channel-KeepsLists configuration (c, w) v =
      elim (Bool-cases (contains c.channels configuration.class_id)) [
        | inl e ↦ rw (e, add_channel) (refuse_channel-KeepsLists c.conn (c, w) v)
        | inr e ↦
            rw (e, add_channel)
              (add_user_from-KeepsLists c.conn configuration.class_id
                (record c { channels = c.channels ++ (configuration.class_id ∷ []) }, w)
                (record {
                  black_distinct = v.black_distinct;
                  white_distinct = v.white_distinct;
                  channels_distinct =
                      append-Distinct c.channels configuration.class_id v.channels_distinct e;
                  mode_known = v.mode_known;
                }))
      ]

  pub add_configuration-KeepsLists : (k : String) → KeepsLists (add_configuration B error_text k)
  unfolding add_configuration
  add_configuration-KeepsLists k = with_configuration-KeepsLists k _ (λ configuration s v.
      elim (Bool-cases (configuration.mode == "listening")) [
        | inl e ↦ rw e (add_channel-KeepsLists configuration s v)
        | inr e ↦ rw e (says-KeepsLists "Configuration is not in listening mode" s v)
      ])

  users_deleted-KeepsLists : (o : Option B.State) → KeepsLists (users_deleted B error_text o)
  unfolding users_deleted
  users_deleted-KeepsLists none s v = says-KeepsLists "Failed to remove user to configuration" s v
  users_deleted-KeepsLists (some state) (c, w) v =
      queue_open-IsWellFormed (create_system_message "success" "User removed from configuration") c
        v

  write_left-KeepsLists :
      (k : String) (left : List String) (users : Map (List String))
      → KeepsLists (write_left B error_text k left users)
  unfolding write_left
  write_left-KeepsLists k left users (c, w) v =
      users_deleted-KeepsLists
        (B.redis_set (user_list_key k) (user_map_json (store_left c.open_id left users)) w.state)
        (c, w) v

  write_nameless-KeepsLists :
      (k : String) (left : List String) (users : Map (List String))
      → KeepsLists (write_nameless B error_text k left users)
  unfolding write_nameless
  write_nameless-KeepsLists k [] users s v = write_left-KeepsLists k [] users s v
  write_nameless-KeepsLists k (a ∷ left) users s v = v

  delete_user-KeepsLists :
      (o : Option String) (k : String) (r : Reply) → KeepsLists (delete_user B error_text o k r)
  unfolding delete_user
  delete_user-KeepsLists (some a) k (found x) s v = elim (Option-cases (as_user_map x)) [
    | inl e ↦ rw (e, delete_user) (says-KeepsLists "Internal server error." s v)
    | inr (users, e) ↦
        rw (e, delete_user)
          (write_left-KeepsLists k (remove_first a (connections_of s.0.open_id users)) users s v)
  ]
  delete_user-KeepsLists (some a) k missing s v =
      says-KeepsLists "Failed to get user list in configuration" s v
  delete_user-KeepsLists (some a) k failed s v =
      says-KeepsLists "Failed to get user list in configuration" s v
  delete_user-KeepsLists none k (found x) s v = elim (Option-cases (as_user_map x)) [
    | inl e ↦ rw (e, delete_user) v
    | inr (users, e) ↦
        rw (e, delete_user)
          (write_nameless-KeepsLists k (connections_of s.0.open_id users) users s v)
  ]
  delete_user-KeepsLists none k missing s v = v
  delete_user-KeepsLists none k failed s v = v

  forget_user-KeepsLists : (k : String) → KeepsLists (forget_user B error_text k)
  unfolding forget_user
  forget_user-KeepsLists k s v = elim (Option-cases (lookup s.0.open_id s.1.server.clients)) [
    | inl e ↦ rw (e, forget_user) v
    | inr (client, e) ↦
        rw (e, forget_user)
          (elim (Bool-cases (heard_by k s.0 client.connections)) [
            | inl h ↦ rw h v
            | inr h ↦
                rw h
                  (delete_user-KeepsLists s.0.conn k (B.redis_get (user_list_key k) s.1.state) s v)
          ])
  ]

  absent_channel-KeepsLists :
      (o : Option String) (k : String) → KeepsLists (absent_channel B error_text o k)
  unfolding absent_channel
  absent_channel-KeepsLists none k s v = forget_user-KeepsLists k s v
  absent_channel-KeepsLists (some a) k s v =
      queue-IsWellFormed (create_error_message "User is not registered in configuration") s.0 v

  drop_channel-KeepsLists :
      (configuration : Configuration) → KeepsLists (drop_channel B error_text configuration)
  unfolding drop_channel
  drop_channel-KeepsLists configuration (c, w) v =
      elim (Bool-cases (contains c.channels configuration.class_id)) [
        | inl e ↦ rw e (
            forget_user-KeepsLists configuration.class_id
              (record c { channels = remove_first configuration.class_id c.channels }, w)
              (record {
                black_distinct = v.black_distinct;
                white_distinct = v.white_distinct;
                channels_distinct =
                    remove_first-Distinct c.channels configuration.class_id v.channels_distinct;
                mode_known = v.mode_known;
              }))
        | inr e ↦ rw e (absent_channel-KeepsLists c.conn configuration.class_id (c, w) v)
      ]

  pub delete_configuration-KeepsLists :
      (k : String) → KeepsLists (delete_configuration B error_text k)
  unfolding delete_configuration
  delete_configuration-KeepsLists k = with_configuration-KeepsLists k _ (λ configuration s v.
      elim (Bool-cases (configuration.mode == "listening")) [
        | inl e ↦ rw e (drop_channel-KeepsLists configuration s v)
        | inr e ↦ rw e (says-KeepsLists "Configuration is not in listening mode" s v)
      ])
