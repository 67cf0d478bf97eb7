-- ===== src/Message/Status/Spec.antt =====
-- When a status may be changed, and to what: an independent description of the two validators
-- `validateUpdateMessageStatus` and `validateDeleteMessage`.
use messenger_service_go.Prelude.{
  String, ◌==◌, eq_iff, ◌≡◌, ◌≢◌, ◌↔◌, true, Option, none, some, arith, if◌then◌else◌,
}
use messenger_service_go.Prelude.Maps.{Map, insert}
use messenger_service_go.Go.{ok}
use messenger_service_go.Common.{contains}
use messenger_service_go.Models.{Time, Configuration, Message, MessageStatus}
use messenger_service_go.Message.Status.{
  read_sync, validate_update_message_status, validate_delete_message,
}

-- The status that a user sees: of a broadcast the user's own entry, else the message's.
unfoldable pub current_status : Configuration → Message → String → String
current_status class message open_id =
    if class.type == "broadcast" then read_sync message.status_sync open_id else message.status

abbrev pub inserted : Option (Map String) → String → String → Option (Map String)
inserted none k v = none
inserted (some m) k v = some (insert k v m)

-- The message with the user's status changed.
unfoldable pub with_status : Time → Configuration → Message → String → String → Message
with_status now class message open_id status =
    if class.type == "broadcast"
    then record message {
      status_sync = inserted message.status_sync open_id status;
      updated_at = now;
    }
    else record message { status = status; updated_at = now }

-- What an update must satisfy.
pub record AllowsUpdate (class : Configuration) (message : Message) (s : MessageStatus)
    : Type 0 where
  pub not_deleting : s.status ≢ "deleted"
  pub known : contains class.states s.status ≡ true
  pub changes : s.status ≢ current_status class message s.open_id
  pub live : current_status class message s.open_id ≢ "deleted"
  pub permitted : class.type ≡ "exclusive" → contains message.target s.open_id ≡ true
  pub map_made : class.type ≡ "broadcast" → message.status_sync ≢ none

pub record AllowsDelete (class : Configuration) (message : Message) (open_id : String)
    : Type 0 where
  pub known : contains class.states "deleted" ≡ true
  pub permitted : class.type ≡ "exclusive" → contains message.target open_id ≡ true
  pub map_made : class.type ≡ "broadcast" → message.status_sync ≢ none

-- An update succeeds exactly when the new status is no deletion, is one of the class's states,
-- differs from the user's current status, which is not "deleted", the user is a target of an
-- exclusive message, and the map of a broadcast is not nil; the message then has the user's status
-- changed and the time set, and nothing else.
pub validate_update_message_status_iff :
    (now : Time) (message m' : Message) (class : Configuration) (s : MessageStatus)
    → (validate_update_message_status now message class s ≡ ok m')
      ↔ (AllowsUpdate class message s × (m' ≡ with_status now class message s.open_id s.status))
unfolding validate_update_message_status current_status with_status
validate_update_message_status_iff now message m' class s = ground (
  arith,
  eq_iff s.status "deleted",
  eq_iff class.type "exclusive",
  eq_iff class.type "broadcast",
  eq_iff "exclusive" "broadcast",
  eq_iff s.status message.status,
  eq_iff message.status "deleted",
  eq_iff (read_sync message.status_sync s.open_id) s.status,
  eq_iff (read_sync message.status_sync s.open_id) "deleted",
)

-- A deletion succeeds exactly when "deleted" is one of the class's states, the user is a target of
-- an exclusive message, and the map of a broadcast is not nil; the message then has the user's
-- status "deleted" and the time set, and nothing else changed.
pub validate_delete_message_iff :
    (now : Time) (message m' : Message) (class : Configuration) (open_id : String)
    → (validate_delete_message now message class open_id ≡ ok m') ↔ (
        AllowsDelete class message open_id × (m' ≡ with_status now class message open_id "deleted"))
unfolding validate_delete_message with_status
validate_delete_message_iff now message m' class open_id = ground (
  arith,
  eq_iff class.type "exclusive",
  eq_iff class.type "broadcast",
  eq_iff "exclusive" "broadcast",
)
