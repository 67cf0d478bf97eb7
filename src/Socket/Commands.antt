-- ===== src/Socket/Commands.antt =====
-- The commands that a client sends over its socket: `addToBlacklist`, `removeFromBlacklist`,
-- `addToWhitelist`, `removeFromWhitelist`, `changeFilteringMode` and `addConfiguration`
-- (src/restful/services/messages.go). The state of a command is the connection and the world.
-- `error_text` is the text of a gRPC status.
pub mod Delete
pub mod Lists
pub mod Keeps
pub mod Run
pub mod Silence
pub mod Users
use messenger_service_go.Prelude.{
  String, ◌==◌, ◌<>◌, Bool, true, false, not, Option, none, some, List, [], ◌∷◌, ◌++◌,
  if◌then◌else◌,
}
use messenger_service_go.Prelude.Maps.{Map}
use messenger_service_go.Go.{Error, Result, ok, err, panic}
use messenger_service_go.Go.Exec.{Exec, pure, lift, ◌>>=◌, ◌>>◌}
use messenger_service_go.Common.{contains}
use messenger_service_go.Models.{Configuration}
use messenger_service_go.Backend.{
  Backend, Key, user_list_key, Value, user_map_json, Reply, found, missing, failed,
}
use messenger_service_go.World.{World}
use messenger_service_go.Message.Store.{get_configuration_by_class_id}
use messenger_service_go.Socket.Server.{Frame, web_socket_frame, Connection}

abbrev pub connection_modes : List String
connection_modes = "WhiteList" ∷ "BlackList" ∷ []

unfoldable pub create_error_message : String → Frame
create_error_message content = web_socket_frame "error" content

unfoldable pub create_system_message : String → String → Frame
create_system_message action content = web_socket_frame action content

-- The loop that takes out the first item that is equal.
unfoldable pub remove_first : String → List String → List String
remove_first x [] = []
remove_first x (y ∷ ys) = let rest = remove_first x ys in if y == x then ys else y ∷ rest

-- `connection.send <- frame`
unfoldable pub queue : Frame → Connection → Connection
queue f c = record c { send = c.send ++ (f ∷ []) }

-- The same under `if connection.conn != nil`.
unfoldable pub queue_open : Frame → Connection → Connection
unfolding queue
queue_open f c = elim c.conn [ none ↦ c | some address ↦ queue f c ]

unfoldable pub change_filtering_mode : String → Connection → Connection
unfolding queue_open create_error_message create_system_message
change_filtering_mode data' c =
    if contains connection_modes data'
    then queue_open (create_system_message "success" ("Filtering mode changed to " <> data'))
        (record c { mode = data' })
    else queue_open (create_error_message "Invalid mode") c

-- What the four commands on the lists do once the class was found.
unfoldable pub black_listed : String → Connection → Connection
unfolding queue_open create_error_message create_system_message
black_listed data' c =
    if contains c.black_list data'
    then queue_open (create_error_message "Configuration is already in blacklist.") c
    else queue_open (create_system_message "success" "Configuration added to blacklist")
        (record c { black_list = c.black_list ++ (data' ∷ []) })

unfoldable pub not_black_listed : String → Connection → Connection
unfolding queue queue_open create_error_message create_system_message remove_first
not_black_listed data' c =
    if not (contains c.black_list data')
    then queue_open (create_error_message "Configuration is not in blacklist.") c
    else queue (create_system_message "success" "Configuration removed from blacklist")
        (record c { black_list = remove_first data' c.black_list })

unfoldable pub white_listed : String → Connection → Connection
unfolding queue queue_open create_error_message create_system_message
white_listed data' c =
    if contains c.white_list data'
    then queue_open (create_error_message "Configuration is already in whitelist.") c
    else queue (create_system_message "success" "Configuration added to whitelist")
        (record c { white_list = c.white_list ++ (data' ∷ []) })

unfoldable pub not_white_listed : String → Connection → Connection
unfolding queue queue_open create_error_message create_system_message remove_first
not_white_listed data' c =
    if not (contains c.white_list data')
    then queue_open (create_error_message "Configuration is not in whitelist.") c
    else queue (create_system_message "success" "Configuration removed from whitelist")
        (record c { white_list = remove_first data' c.white_list })

-- `json.Unmarshal` into a `map[string][]string`, of a value under a list of users.
abbrev pub as_user_map : Value → Option (Map (List String))
as_user_map (user_map_json users) = some users
as_user_map _ = none

module _ (B : Backend) (error_text : Error → String) where
  abbrev pub Session : Type 0
  Session = Connection × World B

  abbrev pub changes : (Connection → Connection) → Exec Session (Unit {0})
  changes f (c, w) = (ok tt, (f c, w))

  -- What a command does with the answer to its look for the class: an error is put in the queue.
  unfoldable pub looked_up :
      Result Configuration → (Configuration → Exec Session (Unit {0})) → Exec Session (Unit {0})
  unfolding queue_open create_error_message
  looked_up (ok configuration) next s = next configuration s
  looked_up (err e) next s = changes (queue_open (create_error_message (error_text e))) s
  looked_up panic next s = (panic, s)

  unfoldable pub with_configuration :
      String → (Configuration → Exec Session (Unit {0})) → Exec Session (Unit {0})
  unfolding get_configuration_by_class_id looked_up
  with_configuration data' next s = looked_up (get_configuration_by_class_id B data' s.1).0 next s

  unfoldable pub add_to_blacklist : String → Exec Session (Unit {0})
  unfolding with_configuration black_listed
  add_to_blacklist data' = with_configuration data' (λ _. changes (black_listed data'))

  unfoldable pub remove_from_blacklist : String → Exec Session (Unit {0})
  unfolding with_configuration not_black_listed
  remove_from_blacklist data' = with_configuration data' (λ _. changes (not_black_listed data'))

  unfoldable pub add_to_whitelist : String → Exec Session (Unit {0})
  unfolding with_configuration white_listed
  add_to_whitelist data' = with_configuration data' (λ _. changes (white_listed data'))

  unfoldable pub remove_from_whitelist : String → Exec Session (Unit {0})
  unfolding with_configuration not_white_listed
  remove_from_whitelist data' = with_configuration data' (λ _. changes (not_white_listed data'))

  -- The end of `addConfiguration`, after the write to Redis.
  unfoldable pub users_written : Option B.State → Exec Session (Unit {0})
  unfolding queue_open create_error_message create_system_message
  users_written none s =
      changes (queue_open (create_error_message "Failed to add user to configuration")) s
  users_written (some state) (c, w) =
      changes (queue_open (create_system_message "success" "User added to configuration"))
        (c, record w { state = state })

  -- `userConnections` is grown, and `users`, which it came from, is written back.
  unfoldable pub write_users : String → Option (Map (List String)) → Exec Session (Unit {0})
  unfolding users_written queue_open create_error_message
  write_users class_id none s =
      changes (queue_open (create_error_message "Internal server error.")) s
  write_users class_id (some users) (c, w) =
      users_written (B.redis_set (user_list_key class_id) (user_map_json users) w.state) (c, w)

  -- What `addConfiguration` does with the answer of Redis, of a connection with a socket.
  unfoldable pub add_user : String → Reply → Exec Session (Unit {0})
  unfolding write_users queue_open create_error_message
  add_user class_id (found v) = write_users class_id (as_user_map v)
  add_user class_id missing =
      changes (queue_open (create_error_message "Failed to get user list in configuration"))
  add_user class_id failed =
      changes (queue_open (create_error_message "Failed to get user list in configuration"))

  -- A connection without a socket gets to `connection.conn.RemoteAddr()`, which panics, whatever
  -- Redis answers.
  unfoldable pub add_user_from : Option String → String → Exec Session (Unit {0})
  unfolding add_user
  add_user_from none class_id s = (panic, s)
  add_user_from (some address) class_id s =
      add_user class_id (B.redis_get (user_list_key class_id) s.1.state) s

  unfoldable pub refuse_channel : Option String → Exec Session (Unit {0})
  unfolding queue create_error_message
  refuse_channel none s = (panic, s)
  refuse_channel (some address) s =
      changes (queue (create_error_message "User already in configuration")) s

  unfoldable pub add_channel : Configuration → Exec Session (Unit {0})
  unfolding add_user_from refuse_channel
  add_channel configuration (c, w) =
      if contains c.channels configuration.class_id
      then refuse_channel c.conn (c, w)
      else add_user_from c.conn configuration.class_id
          (record c { channels = c.channels ++ (configuration.class_id ∷ []) }, w)

  unfoldable pub add_configuration : String → Exec Session (Unit {0})
  unfolding with_configuration add_channel queue_open create_error_message
  add_configuration data' = with_configuration data' (λ configuration.
      if not (configuration.mode == "listening")
      then changes (queue_open (create_error_message "Configuration is not in listening mode"))
      else add_channel configuration)
