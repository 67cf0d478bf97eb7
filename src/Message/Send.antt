-- ===== src/Message/Send.antt =====
-- Sending a message: `sendMessage`, `sendMessageV2`, `sendListeningMessage` and the functions of the
-- API that call them (src/restful/services/messages.go).
pub mod Linked
pub mod Outcome
use messenger_service_go.Prelude.{
  String, ◌==◌, Bool, true, false, Option, none, some, List, [], ◌∷◌, if◌then◌else◌,
}
use messenger_service_go.Go.{Result, ok, err, panic, bad_request, invalid_argument}
use messenger_service_go.Go.Exec.{Exec, pure, fail, lift, ◌>>=◌, ◌>>◌}
use messenger_service_go.Common.{create_error, create_error_with}
use messenger_service_go.Models.{
  ObjectId, Configuration, Message, SendMessageV2Request, SendMessageV2Response,
}
use messenger_service_go.Backend.{Backend}
use messenger_service_go.World.{World}
use messenger_service_go.Message.Store.{
  add_message_to_user_cached_messages_redis, insert_one_message, insert_one_linking_message,
}
use messenger_service_go.Message.External.{
  External, Env, Channel, third_party, email, sms, feishu, ding_talk,
}
use messenger_service_go.Message.Validate.{validate_send_message, validate_send_message_v2}
use messenger_service_go.Socket.Removal.{view}
use messenger_service_go.Socket.Deliver.{redirect_message_to_sockets}

-- `message.Target[0]`: out of range panics.
unfoldable pub first_target : List String → Result String
first_target [] = panic
first_target (t ∷ target) = ok t

-- The copy of a message for its first target, linked to it.
unfoldable pub linked_copy : ObjectId → Message → Result Message
unfolding first_target
linked_copy linkage_id message = elim (first_target message.target) [
  | ok t ↦ ok (record message { id = linkage_id; linkage_id = message.id; open_id = t })
  | err e ↦ err e
  | panic ↦ panic
]

module _ (B : Backend) where
  -- The branch of mode "pull" and type "linkage".
  unfoldable pub pull_linked : Env → Message → Configuration → Exec (World B) Message
  unfolding linked_copy add_message_to_user_cached_messages_redis insert_one_linking_message
  pull_linked env message configuration = do
    linkage_message ← lift (linked_copy env.linkage_id message)
    add_message_to_user_cached_messages_redis B linkage_message.open_id linkage_message
    insert_one_linking_message B linkage_message configuration
    pure (record message { linkage_id = env.linkage_id })

  -- The branch of modes "push" and "listening" and type "linkage". The copy's `Target` and the
  -- message's are slices of one array, so the message shows what the redirection left in it.
  unfoldable pub push_linked : Env → Message → Configuration → Exec (World B) Message
  unfolding linked_copy redirect_message_to_sockets insert_one_linking_message
  push_linked env message configuration = do
    linkage_message ← lift (linked_copy env.linkage_id message)
    target ← redirect_message_to_sockets B linkage_message configuration
    insert_one_linking_message B (record linkage_message { target = view target }) configuration
    pure (record message { linkage_id = env.linkage_id; target = target.array })

  -- The loop of mode "pull" over the targets.
  unfoldable pub cache_for_each : List String → Message → Exec (World B) (Unit {0})
  unfolding add_message_to_user_cached_messages_redis
  cache_for_each [] message = pure tt
  cache_for_each (receiver ∷ target) message = do
    add_message_to_user_cached_messages_redis B receiver message
    cache_for_each target message

  unfoldable pub pull_message : Env → Message → Configuration → Exec (World B) Message
  unfolding pull_linked cache_for_each
  pull_message env message configuration =
      if configuration.type == "linkage"
      then pull_linked env message configuration
      else (do cache_for_each message.target message; pure message)

  unfoldable pub push_message : Env → Message → Configuration → Exec (World B) Message
  unfolding push_linked redirect_message_to_sockets
  push_message env message configuration =
      if configuration.type == "linkage" then push_linked env message configuration else (do
        target ← redirect_message_to_sockets B message configuration
        pure (record message { target = view target }))

  -- `sendListeningMessage`
  unfoldable pub send_listening_message : Env → Message → Configuration → Exec (World B) Message
  unfolding push_linked redirect_message_to_sockets
  send_listening_message env message configuration =
      if configuration.type == "linkage" then push_linked env message configuration else (do
        target ← redirect_message_to_sockets B message configuration
        pure (record message { target = view target }))

module _ (B : Backend) (X : External B) where
  -- The branches of `sendMessage` by the mode.
  unfoldable pub send_by_mode : Env → Message → Configuration → Exec (World B) Message
  unfolding pull_message push_message send_listening_message
  send_by_mode env message configuration =
      if configuration.mode == "pull"
      then pull_message B env message configuration
      else if configuration.mode == "push"
      then push_message B env message configuration
      else if configuration.mode == "third-party"
      then X.deliver third_party message configuration
      else if configuration.mode == "email"
      then X.deliver email message configuration
      else if configuration.mode == "sms"
      then X.deliver sms message configuration
      else if configuration.mode == "feishu"
      then X.deliver feishu message configuration
      else if configuration.mode == "dingtalk"
      then X.deliver ding_talk message configuration
      else if configuration.mode == "listening"
      then send_listening_message B env message configuration
      else fail (create_error bad_request 100105)

  -- `sendMessage`
  unfoldable pub send_message : Env → Message → Configuration → Exec (World B) Message
  unfolding send_by_mode insert_one_message
  send_message env message configuration = do
    message' ← send_by_mode env message configuration
    insert_one_message B message' configuration
    pure message'

  abbrev all_reached : Message → Message × List String
  all_reached message = (message, [])

  -- The branches of `sendMessageV2` by the mode.
  unfoldable pub send_by_mode_v2 :
      Env → Message → Configuration → Exec (World B) (Message × List String)
  unfolding pull_message push_message send_listening_message
  send_by_mode_v2 env message configuration =
      if configuration.mode == "pull"
      then (do m ← pull_message B env message configuration; pure (all_reached m))
      else if configuration.mode == "push"
      then (do m ← push_message B env message configuration; pure (all_reached m))
      else if configuration.mode == "third-party"
      then X.deliver_v2 third_party message configuration
      else if configuration.mode == "email"
      then X.deliver_v2 email message configuration
      else if configuration.mode == "sms"
      then X.deliver_v2 sms message configuration
      else if configuration.mode == "feishu"
      then X.deliver_v2 feishu message configuration
      else if configuration.mode == "dingtalk"
      then X.deliver_v2 ding_talk message configuration
      else if configuration.mode == "listening"
      then (do m ← send_listening_message B env message configuration; pure (all_reached m))
      else fail (create_error bad_request 100105)

  -- `sendMessageV2`
  unfoldable pub send_message_v2 :
      Env → Message → Configuration → Exec (World B) SendMessageV2Response
  unfolding send_by_mode_v2 insert_one_message
  send_message_v2 env message configuration = do
    (message', failed_targets) ← send_by_mode_v2 env message configuration
    insert_one_message B message' configuration
    pure (record { message_id = B.hex message'.id; failed_targets = failed_targets })

  -- `ValidateJSON` of a message: the refused fields are the error's arguments.
  unfoldable pub validate_json : Message → Result (Unit {0})
  validate_json message = elim (X.invalid_fields message) [
    | none ↦ ok tt
    | some fields ↦ err (create_error_with invalid_argument 100002 fields)
  ]

  -- `SendMessage`
  unfoldable pub send_message_request : Env → Message → Exec (World B) Message
  unfolding validate_json validate_send_message send_message
  send_message_request env message = do
    lift (validate_json message)
    (message', configuration) ← validate_send_message B X env message
    send_message env message' configuration

  -- `SendMessageV2`. The request's fields have no tags, so `ValidateJSON` passes it.
  unfoldable pub send_message_v2_request :
      Env → SendMessageV2Request → Exec (World B) SendMessageV2Response
  unfolding validate_send_message_v2 send_message_v2
  send_message_v2_request env request = do
    (message, configuration) ← validate_send_message_v2 B X env request
    send_message_v2 env message configuration
