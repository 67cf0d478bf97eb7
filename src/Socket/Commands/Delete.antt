-- ===== src/Socket/Commands/Delete.antt =====
-- `deleteConfiguration` of src/restful/services/messages.go: a client's command to leave a listening
-- class.
use messenger_service_go.Prelude.{
  String, ◌==◌, Bool, false, not, ◌||◌, Option, none, some, List, [], ◌∷◌, if◌then◌else◌,
}
use messenger_service_go.Prelude.Maps.{Map, lookup, insert, erase}
use messenger_service_go.Go.{Error, panic, ok}
use messenger_service_go.Go.Exec.{Exec}
use messenger_service_go.Common.{contains}
use messenger_service_go.Models.{Configuration}
use messenger_service_go.Backend.{
  Backend, user_list_key, user_map_json, Reply, found, missing, failed,
}
use messenger_service_go.Socket.Server.{Connection}
use messenger_service_go.Socket.Commands.{
  create_error_message, create_system_message, remove_first, queue, queue_open, as_user_map,
  Session, changes, with_configuration,
}

-- `users[connection.openId]`
unfoldable pub connections_of : String → Map (List String) → List String
unfolding lookup
connections_of open_id users = elim (lookup open_id users) [ none ↦ [] | some l ↦ l ]

-- What is left of the user's connections is stored, or the user is deleted if it is nothing.
unfoldable pub store_left : String → List String → Map (List String) → Map (List String)
unfolding insert erase
store_left open_id [] users = erase open_id users
store_left open_id (address ∷ left) users = insert open_id (address ∷ left) users

-- Whether a connection of the client still has the class in its channels. The connection of the
-- command is one of them, under its address, and has its new channels.
unfoldable pub heard_by : String → Connection → Map Connection → Bool
heard_by class_id c [] = false
heard_by class_id c ((address, d) ∷ connections) =
    let rest = heard_by class_id c connections in
    contains (if address == c.addr then c.channels else d.channels) class_id || rest

module _ (B : Backend) (error_text : Error → String) where
  unfoldable pub users_deleted : Option B.State → Exec (Session B error_text) (Unit {0})
  unfolding queue_open create_error_message create_system_message
  users_deleted none s =
      changes B error_text
        (queue_open (create_error_message "Failed to remove user to configuration")) s
  users_deleted (some state) (c, w) =
      changes B error_text
        (queue_open (create_system_message "success" "User removed from configuration"))
        (c, record w { state = state })

  unfoldable pub write_left :
      String → List String → Map (List String) → Exec (Session B error_text) (Unit {0})
  unfolding users_deleted store_left
  write_left class_id left users (c, w) =
      users_deleted
        (B.redis_set (user_list_key class_id) (user_map_json (store_left c.open_id left users))
          w.state)
        (c, w)

  -- A connection without a socket panics at `connection.conn.RemoteAddr()`, unless there is no
  -- connection to compare with.
  unfoldable pub write_nameless :
      String → List String → Map (List String) → Exec (Session B error_text) (Unit {0})
  unfolding write_left
  write_nameless class_id [] users s = write_left class_id [] users s
  write_nameless class_id (address ∷ left) users s = (panic, s)

  -- What is done with the answer of Redis. A connection without a socket goes on after an error,
  -- with a map that is nil, and panics when it writes to it.
  unfoldable pub delete_user :
      Option String → String → Reply → Exec (Session B error_text) (Unit {0})
  unfolding write_left write_nameless connections_of queue_open create_error_message remove_first
  delete_user (some address) class_id (found v) s = elim (as_user_map v) [
    | none ↦ changes B error_text (queue_open (create_error_message "Internal server error.")) s
    | some users ↦
        write_left class_id (remove_first address (connections_of s.0.open_id users)) users s
  ]
  delete_user (some address) class_id missing s =
      changes B error_text
        (queue_open (create_error_message "Failed to get user list in configuration")) s
  delete_user (some address) class_id failed s =
      changes B error_text
        (queue_open (create_error_message "Failed to get user list in configuration")) s
  delete_user none class_id (found v) s = elim (as_user_map v) [
    | none ↦ (panic, s)
    | some users ↦ write_nameless class_id (connections_of s.0.open_id users) users s
  ]
  delete_user none class_id missing s = (panic, s)
  delete_user none class_id failed s = (panic, s)

  -- `ServerInstance.clients[connection.openId]`, which is nil if the client is not there.
  unfoldable pub forget_user : String → Exec (Session B error_text) (Unit {0})
  unfolding lookup heard_by delete_user
  forget_user class_id s = elim (lookup s.0.open_id s.1.server.clients) [
    | none ↦ (panic, s)
    | some client ↦
        if heard_by class_id s.0 client.connections
        then (ok tt, s)
        else delete_user s.0.conn class_id (B.redis_get (user_list_key class_id) s.1.state) s
  ]

  unfoldable pub absent_channel : Option String → String → Exec (Session B error_text) (Unit {0})
  unfolding queue create_error_message forget_user
  absent_channel none class_id s = forget_user class_id s
  absent_channel (some address) class_id s =
      changes B error_text (queue (create_error_message "User is not registered in configuration"))
        s

  unfoldable pub drop_channel : Configuration → Exec (Session B error_text) (Unit {0})
  unfolding absent_channel forget_user remove_first
  drop_channel configuration (c, w) =
      if contains c.channels configuration.class_id
      then forget_user configuration.class_id
          (record c { channels = remove_first configuration.class_id c.channels }, w)
      else absent_channel c.conn configuration.class_id (c, w)

  unfoldable pub delete_configuration : String → Exec (Session B error_text) (Unit {0})
  unfolding with_configuration drop_channel queue_open create_error_message
  delete_configuration data' = with_configuration B error_text data' (λ configuration.
      if not (configuration.mode == "listening")
      then changes B error_text
          (queue_open (create_error_message "Configuration is not in listening mode"))
      else drop_channel configuration)
