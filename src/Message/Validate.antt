-- ===== src/Message/Validate.antt =====
-- The checks of a message to be sent: `validateSendMessage`, `validateSendMessageV2`, `newMessage`
-- and their helpers (src/restful/services/messages.go).
use text.Mathlib.Text.{starts_with}
use messenger_service_go.Prelude.{
  String, ◌==◌, Bool, false, not, ◌||◌, Option, none, some, List, [], ◌∷◌, length, eqb,
  if◌then◌else◌,
}
use messenger_service_go.Prelude.Maps.{Map, insert}
use messenger_service_go.Go.{Result, ok, err, panic, invalid_argument, internal, not_found}
use messenger_service_go.Go.Exec.{Exec, pure, lift, ◌>>=◌, ◌>>◌}
use messenger_service_go.Common.{contains, create_error}
use messenger_service_go.Models.{
  Configuration, Message, Template, SendMessageV2Request, CustomSmsRequest, CustomDingtalkRequest,
  no_email_request, no_feishu_request,
}
use messenger_service_go.Backend.{
  Backend, user_list_key, Value, user_map_json, Reply, found, missing, failed,
}
use messenger_service_go.World.{World, reads}
use messenger_service_go.Message.Status.{set_default_message_status}
use messenger_service_go.Message.Store.{get_configuration_by_class_id}
use messenger_service_go.Message.External.{External, Env, parse_error, execute_error, rendered}

abbrev pub email_body_types : List String
email_body_types = "text/html" ∷ "text/plain" ∷ []

unfoldable pub validate_message_parent_class_id : String → String → Result (Unit {0})
validate_message_parent_class_id class_id parent_id =
    if not (parent_id == class_id) then err (create_error invalid_argument 100302) else ok tt

-- The loop of `validateMessageTargetV2`, by the test of a target.
unfoldable pub check_targets : (String → Bool) → List String → Result (Unit {0})
check_targets valid [] = ok tt
check_targets valid (target ∷ targets) =
    let rest = check_targets valid targets in
    if valid target then rest else err (create_error invalid_argument 100305)

-- `regexp.Match` has an error only for a pattern that does not compile, and `phoneRegex` does.
abbrev pub match_has_error : Bool
match_has_error = false

unfoldable pub validate_message_target_v2 :
    (String → Bool) → List String → String → Result (Unit {0})
unfolding check_targets
validate_message_target_v2 parses_address targets mode =
    if mode == "push"
      || mode == "pull"
      || mode == "listening"
      || mode == "third-party"
      || mode == "feishu"
      || mode == "dingtalk"
    then check_targets (λ target. starts_with target "oi_") targets
    else if mode == "email" || mode == "sms"
    then (if mode == "email"
        then check_targets (λ target. parses_address target || starts_with target "oi_") targets
        else check_targets (λ target. not match_has_error || starts_with target "oi_") targets)
    else err (create_error invalid_argument 100305)

-- The loop `data[template.Params[i]] = message.Params[i]`, over lists of one length.
unfoldable pub template_data : List String → List String → Map String → Map String
template_data (name ∷ names) (value ∷ values) entries =
    template_data names values (insert name value entries)
template_data _ _ entries = entries

-- `json.Unmarshal` into a `map[string]bool`, of a value under a list of users: the users that are
-- its keys. A list of connections is no bool, so only the empty map is decoded.
abbrev pub as_bool_map : Value → Option (List String)
as_bool_map (user_map_json []) = some []
as_bool_map _ = none

-- What the answer of Redis makes of the targets of a message in mode "listening".
unfoldable pub listening_targets : Reply → Result (List String)
listening_targets (found v) = elim (as_bool_map v) [
  | none ↦ err (create_error internal 1000)
  | some users ↦ ok users
]
listening_targets missing = err (create_error internal 100329)
listening_targets failed = err (create_error internal 100329)

abbrev pub no_sms_request : CustomSmsRequest
no_sms_request = record { template_params = [] }

abbrev pub no_dingtalk_request : CustomDingtalkRequest
no_dingtalk_request = record { company_id = "" }

-- `newMessage`. It sets no actions.
unfoldable pub new_message : Env → SendMessageV2Request → Configuration → Result Message
new_message env request configuration =
    set_default_message_status
      (record {
        id = env.id;
        linkage_id = 0;
        app_id = configuration.app_id;
        open_id = "";
        class_id = request.class_id;
        subclass_id = request.subclass_id;
        message_template_id = request.message_template_id;
        params = request.params;
        content = request.content;
        source = request.source;
        status = "";
        target = request.targets;
        status_sync = none;
        created_at = env.now;
        updated_at = env.now;
        custom_email_request =
            if configuration.mode == "email"
            then request.custom_email_request
            else no_email_request;
        custom_sms_request =
            if configuration.mode == "sms" then request.custom_sms_request else no_sms_request;
        custom_feishu_request =
            if configuration.mode == "feishu" || configuration.mode == "third-party"
            then record no_feishu_request { msg_type = request.custom_feishu_request_v2.msg_type }
            else no_feishu_request;
        custom_dingtalk_request = no_dingtalk_request;
        actions = [];
      })
      configuration

module _ (B : Backend) (X : External B) where
  unfoldable pub get_template_by_template_id : String → Exec (World B) Template
  get_template_by_template_id template_id w = elim (B.find_template template_id w.state) [
    | none ↦ (err (create_error not_found 100204), w)
    | some template ↦ (ok template, w)
  ]

  -- `t.Must` panics on a template that does not parse; the second `Parse`, of the same text, has
  -- no error after it.
  unfoldable pub rendered_content : Template → List String → Result String
  rendered_content template params =
      if not (eqb (length template.params) (length params))
      then err (create_error invalid_argument 100321)
      else elim (X.render template.content (template_data template.params params [])) [
        | parse_error ↦ panic
        | execute_error ↦ err (create_error invalid_argument 100322)
        | rendered text ↦ ok text
      ]

  -- The content of a message: that of its template, if it names one.
  unfoldable pub content_of : String → List String → String → Exec (World B) String
  unfolding get_template_by_template_id rendered_content
  content_of template_id params content =
      if not (template_id == "")
      then (do
        template ← get_template_by_template_id template_id
        lift (rendered_content template params))
      else pure content

  unfoldable pub check_body_type : String → Result (Unit {0})
  check_body_type body_type =
      if not (body_type == "")
      then (if not (contains email_body_types body_type)
          then err (create_error invalid_argument 100317)
          else ok tt)
      else ok tt

  -- The last test of both functions: of the body type of an email, or for the targets of a
  -- listening message.
  unfoldable pub final_targets :
      Configuration → String → String → List String → Exec (World B) (List String)
  unfolding check_body_type listening_targets
  final_targets configuration body_type subclass_id targets =
      if configuration.mode == "email"
      then (do lift (check_body_type body_type); pure targets)
      else if configuration.mode == "listening"
      then (do
        val ← reads B (B.redis_get (user_list_key subclass_id))
        lift (listening_targets val))
      else pure targets

  -- The class and the configuration that a message goes by: of its subclass, if it names another.
  unfoldable pub resolve_class : Message → Exec (World B) (Message × Configuration)
  unfolding get_configuration_by_class_id validate_message_parent_class_id
  resolve_class message = do
    class ← get_configuration_by_class_id B message.class_id
    if message.subclass_id == "" || message.subclass_id == message.class_id
        then pure (record message { subclass_id = message.class_id }, class)
        else (do
          configuration ← get_configuration_by_class_id B message.subclass_id
          lift (validate_message_parent_class_id class.class_id configuration.parent_id)
          pure (message, configuration))

  unfoldable pub validate_send_message : Env → Message → Exec (World B) (Message × Configuration)
  unfolding resolve_class content_of final_targets
  validate_send_message env message = do
    (m₁, configuration) ← resolve_class message
    content ← content_of m₁.message_template_id m₁.params m₁.content
    m₂ ← lift (
        set_default_message_status (record m₁ { content = content; status_sync = some [] })
          configuration)
    target ← final_targets configuration m₂.custom_email_request.body_type m₂.subclass_id m₂.target
    pure (
      record m₂ {
        target = target;
        id = env.id;
        app_id = configuration.app_id;
        created_at = env.now;
        updated_at = env.now;
        actions = configuration.actions;
      },
      configuration,
    )

  -- The ids of the class and the subclass that `validateSendMessageV2` puts in the request.
  unfoldable pub with_class : SendMessageV2Request → Configuration → SendMessageV2Request
  with_class request configuration =
      if not (configuration.parent_id == "0")
      then record request {
        subclass_id = configuration.class_id;
        class_id = configuration.parent_id;
      }
      else record request { subclass_id = configuration.class_id }

  unfoldable pub validate_send_message_v2 :
      Env → SendMessageV2Request → Exec (World B) (Message × Configuration)
  unfolding get_configuration_by_class_id with_class content_of final_targets
  validate_send_message_v2 env request = do
    configuration ← get_configuration_by_class_id B request.class_id
    lift (validate_message_target_v2 X.parses_address request.targets configuration.mode)
    content ← content_of request.message_template_id request.params request.content
    targets ←
        final_targets configuration request.custom_email_request.body_type
          (with_class request configuration).subclass_id request.targets
    message ← lift (
        new_message env
          (record (with_class request configuration) { content = content; targets = targets })
          configuration)
    pure (message, configuration)
