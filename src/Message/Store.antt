-- ===== src/Message/Store.antt =====
-- Where messages are kept: MongoDB for a class that persists, else Redis; and the list of messages
-- that is kept in Redis for each user (src/restful/services/messages.go). `MarshalBinary` fails on
-- no message, so its error paths are left out; a lifetime of a key is not modelled.
pub mod Laws
pub mod Cache
use messenger_service_go.Prelude.{
  String, Bool, true, false, Option, none, some, List, [], ◌∷◌, ◌++◌, eqb, if◌then◌else◌,
}
use messenger_service_go.Go.{Result, ok, err, internal, not_found, invalid_argument}
use messenger_service_go.Go.Exec.{Exec, pure, fail, ◌>>=◌, ◌>>◌}
use messenger_service_go.Common.{create_error}
use messenger_service_go.Models.{ObjectId, Configuration, Message}
use messenger_service_go.Backend.{
  Backend, Key, message_key, user_messages_key, Value, message_json, messages_json, Reply, found,
  missing, failed, json_message, StatusUpdate,
}
use messenger_service_go.World.{World, write, reads}

-- `json.Unmarshal` into a `Message`, of a value under a message's key.
abbrev pub as_message : Value → Option Message
as_message (message_json m) = some m
as_message _ = none

-- `json.Unmarshal` into a `[]Message`, of a value under a user's key.
abbrev pub as_messages : Value → Option (List Message)
as_messages (messages_json ms) = some ms
as_messages _ = none

abbrev pub json_messages : List Message → List Message
json_messages [] = []
json_messages (m ∷ ms) = json_message m ∷ json_messages ms

-- The loop of `updateMessageInUserCachedMessagesRedis`, and its variable `check`.
unfoldable pub replace_message : Message → List Message → List Message × Bool
replace_message message [] = ([], false)
replace_message message (m ∷ ms) =
    let (rest, check) = replace_message message ms in
    if eqb m.id message.id then (message ∷ ms, true) else (m ∷ rest, check)

unfoldable pub replace_or_append : Message → List Message → List Message
unfolding replace_message
replace_or_append message ms =
    let (replaced, check) = replace_message message ms in
    if check then replaced else replaced ++ (message ∷ [])

module _ (B : Backend) where
  unfoldable pub add_message_to_redis : Message → Exec (World B) (Unit {0})
  add_message_to_redis message =
      write B (create_error internal 1001)
        (B.redis_set (message_key message.id) (message_json (json_message message)))

  unfoldable pub insert_one_message : Message → Configuration → Exec (World B) (Unit {0})
  unfolding add_message_to_redis
  insert_one_message message class =
      if class.persist
      then write B (create_error internal 1001) (B.insert_message message)
      else add_message_to_redis message

  unfoldable pub insert_one_linking_message : Message → Configuration → Exec (World B) (Unit {0})
  unfolding add_message_to_redis
  insert_one_linking_message linking_message class =
      if class.persist
      then write B (create_error internal 1001) (B.insert_message linking_message)
      else add_message_to_redis linking_message

  -- What the second half of `updateOneMessage` does with the answer of Redis.
  unfoldable pub update_cached : Message → Reply → Exec (World B) (Unit {0})
  unfolding add_message_to_redis
  update_cached message (found v) = elim (as_message v) [
    | none ↦ fail (create_error internal 1000)
    | some m ↦ add_message_to_redis (record m {
      status = message.status;
      status_sync = message.status_sync;
      updated_at = message.updated_at;
    })
  ]
  update_cached message missing = fail (create_error not_found 100306)
  update_cached message failed = fail (create_error not_found 100306)

  unfoldable pub update_one_message : Message → Configuration → Exec (World B) (Unit {0})
  unfolding update_cached
  update_one_message message class =
      if class.persist
      then write B (create_error internal 1001) (
          B.update_message message.id (record {
            status = message.status;
            updated_at = message.updated_at;
            status_sync = message.status_sync;
          }))
      else (do val ← reads B (B.redis_get (message_key message.id)); update_cached message val)

  unfoldable pub find_in_collection : ObjectId → Exec (World B) Message
  find_in_collection object_id w = elim (B.find_message object_id w.state) [
    | none ↦ (err (create_error not_found 100306), w)
    | some m ↦ (ok m, w)
  ]

  -- What `findMessageById` does with the answer of Redis: MongoDB is asked if there is none.
  unfoldable pub find_stored : ObjectId → Reply → Exec (World B) Message
  unfolding find_in_collection
  find_stored object_id (found v) = elim (as_message v) [
    | none ↦ fail (create_error internal 1000)
    | some m ↦ pure m
  ]
  find_stored object_id missing = find_in_collection object_id
  find_stored object_id failed = find_in_collection object_id

  unfoldable pub find_message_by_id : String → Exec (World B) Message
  unfolding find_stored
  find_message_by_id id = elim (B.object_id_from_hex id) [
    | none ↦ fail (create_error invalid_argument 100003)
    | some object_id ↦ (do
      val ← reads B (B.redis_get (message_key object_id))
      find_stored object_id val)
  ]

  unfoldable pub get_configuration_by_class_id : String → Exec (World B) Configuration
  get_configuration_by_class_id class_id w = elim (B.find_configuration class_id w.state) [
    | none ↦ (err (create_error not_found 100112), w)
    | some class ↦ (ok class, w)
  ]

  unfoldable pub find_message : String → Exec (World B) (Message × Configuration)
  unfolding find_message_by_id get_configuration_by_class_id
  find_message id = do
    message ← find_message_by_id id
    class ← get_configuration_by_class_id message.subclass_id
    pure (message, class)

  unfoldable pub found_linking : Reply → Exec (World B) Message
  found_linking (found v) = elim (as_message v) [
    | none ↦ fail (create_error internal 1000)
    | some m ↦ pure m
  ]
  found_linking missing = fail (create_error not_found 100306)
  found_linking failed = fail (create_error not_found 100306)

  -- `findLinkingMessage`. `linking_message` is what the pointer holds before the call; the key in
  -- Redis is made of its id, and not of `linkage_id`.
  unfoldable pub find_linking_message : ObjectId → Message → Configuration → Exec (World B) Message
  unfolding find_in_collection found_linking
  find_linking_message linkage_id linking_message class =
      if class.persist
      then find_in_collection linkage_id
      else (do val ← reads B (B.redis_get (message_key linking_message.id)); found_linking val)

  unfoldable pub set_user_messages : String → List Message → Exec (World B) (Unit {0})
  set_user_messages open_id ms =
      write B (create_error internal 1001)
        (B.redis_set (user_messages_key open_id) (messages_json (json_messages ms)))

  -- What the two functions below do with the answer of Redis: a list that is there is changed by
  -- `change`, else a list of the one message is made.
  unfoldable pub change_user_messages :
      (List Message → List Message) → String → Message → Reply → Exec (World B) (Unit {0})
  unfolding set_user_messages
  change_user_messages change open_id message (found v) = elim (as_messages v) [
    | none ↦ fail (create_error internal 1000)
    | some ms ↦ set_user_messages open_id (change ms)
  ]
  change_user_messages change open_id message missing = set_user_messages open_id (message ∷ [])
  change_user_messages change open_id message failed = set_user_messages open_id (message ∷ [])

  unfoldable pub add_message_to_user_cached_messages_redis :
      String → Message → Exec (World B) (Unit {0})
  unfolding change_user_messages
  add_message_to_user_cached_messages_redis open_id message = do
    val ← reads B (B.redis_get (user_messages_key open_id))
    change_user_messages (λ m. m ++ (message ∷ [])) open_id message val

  unfoldable pub update_message_in_user_cached_messages_redis :
      String → Message → Exec (World B) (Unit {0})
  unfolding change_user_messages replace_or_append
  update_message_in_user_cached_messages_redis open_id message = do
    val ← reads B (B.redis_get (user_messages_key open_id))
    change_user_messages (replace_or_append message) open_id message val
