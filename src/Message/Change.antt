-- ===== src/Message/Change.antt =====
-- Changing the status of a stored message, and deleting it: `UpdateMessageStatus`,
-- `HttpUpdateMessageStatus`, `DeleteMessage`, `HttpDeleteMessage` and what they call
-- (src/restful/services/messages.go). The user's header and query are arguments.
pub mod Frame
pub mod Steps
pub mod Stored
pub mod Outcome
pub mod Linkage
use messenger_service_go.Prelude.{
  String, ◌==◌, Bool, true, false, not, Option, none, some, List, [], ◌∷◌, if◌then◌else◌,
}
use messenger_service_go.Go.{Result, ok, err, panic, bad_request}
use messenger_service_go.Go.Exec.{Exec, pure, fail, lift, ◌>>=◌, ◌>>◌}
use messenger_service_go.Common.{create_error}
use messenger_service_go.Models.{
  ObjectId, Time, Configuration, Message, MessageStatus, no_email_request, no_feishu_request,
}
use messenger_service_go.Backend.{Backend}
use messenger_service_go.World.{World}
use messenger_service_go.Message.Status.{
  validate_update_message_status, http_update_checks, validate_delete_message, http_delete_checks,
}
use messenger_service_go.Message.Store.{
  add_message_to_redis, update_message_in_user_cached_messages_redis, insert_one_linking_message,
  find_linking_message, find_message, update_one_message,
}
use messenger_service_go.Message.External.{External}
use messenger_service_go.Message.Send.{validate_json}
use messenger_service_go.Socket.Removal.{view}
use messenger_service_go.Socket.Deliver.{redirect_message_to_sockets, send_message_to_user_socket}

-- `var linkingMessage Message`
abbrev pub zero_message : Message
zero_message = record {
  id = 0;
  linkage_id = 0;
  app_id = "";
  open_id = "";
  class_id = "";
  subclass_id = "";
  message_template_id = "";
  params = [];
  content = "";
  source = "";
  status = "";
  target = [];
  status_sync = none;
  created_at = 0;
  updated_at = 0;
  custom_email_request = no_email_request;
  custom_sms_request = record { template_params = [] };
  custom_feishu_request = no_feishu_request;
  custom_dingtalk_request = record { company_id = "" };
  actions = [];
}

module _ (B : Backend) where
  -- The partner of a linked message, with its new status, which is written to Redis.
  unfoldable pub change_partner : Message → Configuration → String → Exec (World B) Message
  unfolding find_linking_message add_message_to_redis
  change_partner message configuration status = do
    found ← find_linking_message B message.linkage_id zero_message configuration
    let linking_message = record found { status = status; updated_at = message.updated_at }
    add_message_to_redis B linking_message
    pure linking_message

  -- The loop of mode "pull" over the targets.
  unfoldable pub update_cached_for_each : List String → Message → String → Exec (World B) (Unit {0})
  unfolding update_message_in_user_cached_messages_redis
  update_cached_for_each [] message open_id = pure tt
  update_cached_for_each (receiver ∷ target) message open_id = do
    (if receiver == open_id
        then pure tt
        else update_message_in_user_cached_messages_redis B receiver message)
    update_cached_for_each target message open_id

  -- The branch of mode "pull".
  unfoldable pub change_pulled :
      Message → Configuration → String → String → Exec (World B) (Unit {0})
  unfolding change_partner update_cached_for_each
  change_pulled message configuration status open_id =
      if configuration.type == "linkage"
      then (do
        linking_message ← change_partner message configuration status
        update_message_in_user_cached_messages_redis B message.open_id linking_message)
      else update_cached_for_each message.target message open_id

  -- The push to the targets and to the sender.
  unfoldable pub push_change : Message → Configuration → String → Exec (World B) (Unit {0})
  unfolding redirect_message_to_sockets send_message_to_user_socket
  push_change message configuration open_id = do
    target ← redirect_message_to_sockets B message configuration
    (if message.open_id == open_id then pure tt else (do
      sent ←
          send_message_to_user_socket B message.open_id (record message { target = view target })
            configuration true
      pure tt))

  -- The branch of the other modes and type "linkage", of an update.
  unfoldable pub push_partner : Message → Configuration → String → Exec (World B) (Unit {0})
  unfolding change_partner redirect_message_to_sockets insert_one_linking_message
  push_partner message configuration status = do
    linking_message ← change_partner message configuration status
    target ← redirect_message_to_sockets B linking_message configuration
    insert_one_linking_message B (record linking_message { target = view target }) configuration

  -- What `updateMessageStatus` does before the message is stored.
  unfoldable pub spread_update :
      Message → Configuration → String → String → Exec (World B) (Unit {0})
  unfolding change_pulled push_partner push_change
  spread_update message configuration status open_id =
      if configuration.mode == "pull"
      then change_pulled message configuration status open_id
      else if configuration.type == "linkage"
      then push_partner message configuration status
      else push_change message configuration open_id

  -- `if err := updateOneMessage(...); err != nil { return nil }`
  unfoldable pub update_quietly : Message → Configuration → Exec (World B) (Unit {0})
  unfolding update_one_message
  update_quietly message configuration w =
      let (r, w') = update_one_message B message configuration w in
      elim r [ ok u ↦ (ok tt, w') | err e ↦ (ok tt, w') | panic ↦ (panic, w') ]

  -- `updateMessageStatus`
  unfoldable pub update_message_status :
      Message → Configuration → MessageStatus → Exec (World B) (Unit {0})
  unfolding spread_update update_quietly
  update_message_status message configuration status = do
    spread_update message configuration status.status status.open_id
    update_quietly message configuration

  -- `httpUpdateMessageStatus`, with the status of the query and the user of the header
  unfoldable pub http_update_message_status :
      Message → Configuration → String → String → Exec (World B) (Unit {0})
  unfolding spread_update update_quietly
  http_update_message_status message configuration status open_id = do
    spread_update message configuration status open_id
    update_quietly message configuration

  -- `deleteMessage`; the status in the request is "deleted" by now.
  unfoldable pub delete_message :
      Message → Configuration → MessageStatus → Exec (World B) (Unit {0})
  unfolding change_pulled push_change update_one_message
  delete_message message configuration status = do
    (if configuration.mode == "pull"
        then change_pulled message configuration status.status status.open_id
        else push_change message configuration status.open_id)
    update_one_message B message configuration

  -- `httpDeleteMessage`, with the user of the header
  unfoldable pub http_delete_message : Message → Configuration → String → Exec (World B) (Unit {0})
  unfolding change_pulled push_change update_one_message
  http_delete_message message configuration open_id = do
    (if configuration.mode == "pull"
        then change_pulled message configuration "deleted" open_id
        else push_change message configuration open_id)
    update_one_message B message configuration

module _ (B : Backend) (X : External B) where
  -- `UpdateMessageStatus`, which returns an error only. What it leaves in the caller's message is not
  -- modelled.
  unfoldable pub update_message_status_request :
      Time → String → MessageStatus → Exec (World B) (Unit {0})
  unfolding find_message validate_json validate_update_message_status update_message_status
  update_message_status_request now id status = do
    (message, configuration) ← find_message B id
    lift (validate_json B X message)
    message' ← lift (validate_update_message_status now message configuration status)
    update_message_status B message' configuration status

  -- `DeleteMessage`, in the same way
  unfoldable pub delete_message_request : Time → String → String → Exec (World B) (Unit {0})
  unfolding find_message validate_json validate_delete_message delete_message
  delete_message_request now id open_id = do
    (message, configuration) ← find_message B id
    lift (validate_json B X message)
    message' ← lift (validate_delete_message now message configuration open_id)
    delete_message B message' configuration (record { status = "deleted"; open_id = open_id })

module _ (B : Backend) where
  -- `HttpUpdateMessageStatus`
  unfoldable pub http_update_message_status_request :
      String → String → String → Exec (World B) (Unit {0})
  unfolding find_message http_update_checks http_update_message_status
  http_update_message_status_request id status open_id =
      if open_id == ""
      then fail (create_error bad_request 100312)
      else if status == ""
      then fail (create_error bad_request 100330)
      else (do
        (message, configuration) ← find_message B id
        message' ← lift (http_update_checks message configuration status open_id)
        http_update_message_status B message' configuration status open_id)

  -- `HttpDeleteMessage`
  unfoldable pub http_delete_message_request : Time → String → String → Exec (World B) (Unit {0})
  unfolding find_message http_delete_checks http_delete_message
  http_delete_message_request now id open_id =
      if open_id == "" then fail (create_error bad_request 100312) else (do
        (message, configuration) ← find_message B id
        message' ← lift (http_delete_checks now message configuration open_id)
        http_delete_message B message' configuration open_id)
