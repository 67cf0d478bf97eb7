-- ===== src/Message/Status.antt =====
-- The status of a message: the validators of src/restful/services/messages.go and the requests that
-- change a status. `now` is what `time.Now` returns.
pub mod Spec
pub mod Lifecycle
pub mod Default
pub mod Paths
use messenger_service_go.Prelude.{
  String, ◌==◌, not, Option, none, some, List, [], ◌∷◌, if◌then◌else◌,
}
use messenger_service_go.Prelude.Maps.{Map, lookup, insert}
use messenger_service_go.Go.{
  Result, ok, err, panic, ◌>>=◌, ◌>>◌, invalid_argument, permission_denied,
}
use messenger_service_go.Common.{contains, create_error}
use messenger_service_go.Models.{Time, Configuration, Message, MessageStatus}

-- `m[k]`: a missing key, and the nil map, read as "".
unfoldable pub read_sync : Option (Map String) → String → String
read_sync none k = ""
read_sync (some m) k = elim (lookup k m) [ none ↦ "" | some s ↦ s ]

-- `m[k] = v`: a write to the nil map panics.
unfoldable pub write_sync : Option (Map String) → String → String → Result (Option (Map String))
write_sync none k v = panic
write_sync (some m) k v = ok (some (insert k v m))

unfoldable pub set_sync : Message → String → String → Result Message
unfolding write_sync
set_sync message open_id status = do
  sync ← write_sync message.status_sync open_id status
  ok (record message { status_sync = sync })

unfoldable pub validate_message_status_to_be_updated_not_deleted : String → Result (Unit {0})
validate_message_status_to_be_updated_not_deleted status =
    if status == "deleted" then err (create_error invalid_argument 100309) else ok tt

unfoldable pub validate_message_status_exist_in_message_class_states :
    String → List String → Result (Unit {0})
validate_message_status_exist_in_message_class_states status states =
    if not (contains states status) then err (create_error invalid_argument 100307) else ok tt

unfoldable pub validate_message_status_to_be_updated_equal_to_current_status :
    String → String → Result (Unit {0})
validate_message_status_to_be_updated_equal_to_current_status status current_status =
    if status == current_status then err (create_error invalid_argument 100308) else ok tt

unfoldable pub validate_message_status_is_deleted : String → Result (Unit {0})
validate_message_status_is_deleted current_status =
    if current_status == "deleted" then err (create_error invalid_argument 100316) else ok tt

unfoldable pub validate_message_permission_exclusive : String → List String → Result (Unit {0})
validate_message_permission_exclusive open_id allowed_users =
    if not (contains allowed_users open_id)
    then err (create_error permission_denied 100313)
    else ok tt

unfoldable pub validate_message_status_for_broadcast_message :
    Message → String → String → Result Message
unfolding read_sync set_sync
validate_message_status_for_broadcast_message message status open_id =
    if not (read_sync message.status_sync open_id == status)
    then (if not (read_sync message.status_sync open_id == "deleted")
        then set_sync message open_id status
        else err (create_error invalid_argument 100316))
    else err (create_error invalid_argument 100308)

-- `validateUpdateMessageStatus`.
unfoldable pub validate_update_message_status :
    Time → Message → Configuration → MessageStatus → Result Message
unfolding validate_message_status_to_be_updated_not_deleted
    validate_message_status_exist_in_message_class_states
    validate_message_status_to_be_updated_equal_to_current_status validate_message_status_is_deleted
    validate_message_permission_exclusive validate_message_status_for_broadcast_message
validate_update_message_status now message class status = do
  validate_message_status_to_be_updated_not_deleted status.status
  validate_message_status_exist_in_message_class_states status.status class.states
  message' ←
      if class.type == "exclusive"
      then (do
        validate_message_status_to_be_updated_equal_to_current_status status.status message.status
        validate_message_status_is_deleted message.status
        validate_message_permission_exclusive status.open_id message.target
        ok (record message { status = status.status }))
      else if class.type == "broadcast"
      then validate_message_status_for_broadcast_message message status.status status.open_id
      else (do
        validate_message_status_to_be_updated_equal_to_current_status status.status message.status
        validate_message_status_is_deleted message.status
        ok (record message { status = status.status }))
  ok (record message' { updated_at = now })

-- The checks of `validateHttpUpdateMessageStatus` on the message that it found, and the change.
unfoldable pub http_update_checks : Message → Configuration → String → String → Result Message
unfolding validate_message_status_to_be_updated_not_deleted
    validate_message_status_exist_in_message_class_states
    validate_message_status_to_be_updated_equal_to_current_status validate_message_status_is_deleted
    validate_message_permission_exclusive validate_message_status_for_broadcast_message
http_update_checks message configuration status open_id = do
  validate_message_status_to_be_updated_not_deleted status
  validate_message_status_exist_in_message_class_states status configuration.states
  if configuration.type == "exclusive"
      then (do
        validate_message_status_to_be_updated_equal_to_current_status status message.status
        validate_message_status_is_deleted message.status
        validate_message_permission_exclusive open_id message.target
        ok (record message { status = status }))
      else if configuration.type == "broadcast"
      then validate_message_status_for_broadcast_message message status open_id
      else (do
        validate_message_status_to_be_updated_equal_to_current_status status message.status
        validate_message_status_is_deleted message.status
        ok (record message { status = status }))

-- `validateDeleteMessage`; the status that it sets in the request is "deleted".
unfoldable pub validate_delete_message : Time → Message → Configuration → String → Result Message
unfolding validate_message_status_exist_in_message_class_states
    validate_message_permission_exclusive set_sync
validate_delete_message now message class open_id = do
  validate_message_status_exist_in_message_class_states "deleted" class.states
  let message' = record message { updated_at = now }
  if class.type == "exclusive"
      then (do
        validate_message_permission_exclusive open_id message'.target
        ok (record message' { status = "deleted" }))
      else if class.type == "broadcast"
      then set_sync message' open_id "deleted"
      else ok (record message' { status = "deleted" })

-- The checks of `validateHttpDeleteMessage` on the message that it found, and the change.
unfoldable pub http_delete_checks : Time → Message → Configuration → String → Result Message
unfolding validate_message_status_exist_in_message_class_states
    validate_message_permission_exclusive set_sync
http_delete_checks now message configuration open_id = do
  validate_message_status_exist_in_message_class_states "deleted" configuration.states
  let message' = record message { updated_at = now }
  if configuration.type == "exclusive"
      then (do
        validate_message_permission_exclusive open_id message'.target
        ok (record message' { status = "deleted" }))
      else if configuration.type == "broadcast"
      then set_sync message' open_id "deleted"
      else ok (record message' { status = "deleted" })

-- The loop of `setDefaultMessageStatus` over the receivers of a broadcast. `message.Target` is a
-- []string, so of the tests by reflection only the one for a slice can pass.
unfoldable pub default_sync : List String → String → Map String → Map String
default_sync [] status sync = sync
default_sync (receiver ∷ target) status sync =
    default_sync target status (insert receiver status sync)

-- `class.States[0]`: out of range panics.
unfoldable pub first_state : List String → Result String
first_state [] = panic
first_state (s ∷ states) = ok s

abbrev made_map : Option (Map String) → Map String
made_map none = []
made_map (some m) = m

-- With no receiver the loop reads no state; else the first round reads it, and panics if it must.
unfoldable pub broadcast_default : List String → List String → Map String → Result (Map String)
unfolding first_state
broadcast_default [] states sync = ok sync
broadcast_default (receiver ∷ target) states sync = do
  status ← first_state states
  ok (default_sync (receiver ∷ target) status sync)

unfoldable pub set_default_message_status : Message → Configuration → Result Message
unfolding broadcast_default
set_default_message_status message class =
    if class.type == "broadcast"
    then (do
      sync ← broadcast_default message.target class.states (made_map message.status_sync)
      ok (record message { status_sync = some sync }))
    else (do status ← first_state class.states; ok (record message { status = status }))
