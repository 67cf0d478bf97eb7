-- ===== src/Configuration/Inherit.antt =====
-- The fields of a class that a request may leave out, in `validateCreateConfiguration` and
-- `validateUpdateConfiguration` of src/restful/services/configuration.go, and `NewConfiguration`.
use messenger_service_go.Prelude.{String, ◌==◌, ◌||◌, Option, none, some, List, [], if◌then◌else◌}
use messenger_service_go.Prelude.Maps.{Map}
use messenger_service_go.Go.{Result, ok, err, invalid_argument, ◌>>=◌, ◌>>◌}
use messenger_service_go.Common.{create_error_with}
use messenger_service_go.Models.{
  ObjectId, Time, ActionModel, Configuration, CreateConfigurationRequest,
  UpdateConfigurationRequest,
}
use messenger_service_go.Configuration.Settings.{Settings}
use messenger_service_go.Configuration.Customs.{Customs, customs_of, update_customs}
use messenger_service_go.Configuration.Validate.{
  validate_states_containing_deleted, validate_message_type, validate_message_mode,
  validate_actions,
}

-- A text that is given is checked; one that is not is the parent's, which is not.
unfoldable pub text_or : (String → Result (Unit {0})) → String → String → Result String
text_or check parents given = if given == "" then ok parents else (do check given; ok given)

-- The same of a slice, which is not given if it is nil.
unfoldable pub slice_or {ℓ} :
    {A : Type ℓ} → (List A → Result (Unit {0})) → List A → Option (List A) → Result (List A)
slice_or check parents none = ok parents
slice_or check parents (some given) = check given >> ok given

-- A nil slice is read as an empty one.
abbrev pub or_empty {ℓ} : {A : Type ℓ} → Option (List A) → List A
or_empty none = []
or_empty (some xs) = xs

abbrev pub given_customs : CreateConfigurationRequest → Customs
given_customs r = record {
  email = r.custom_email_configuration;
  sms = r.custom_sms_configuration;
  feishu = r.custom_feishu_configuration;
  ding_talk = r.custom_ding_talk_configuration;
}

abbrev pub updating_customs : UpdateConfigurationRequest → Customs
updating_customs r = record {
  email = r.custom_email_configuration;
  sms = r.custom_sms_configuration;
  feishu = r.custom_feishu_configuration;
  ding_talk = r.custom_ding_talk_configuration;
}

-- The fields of a class that are checked.
pub record Fields : Type 0 where
  pub states : List String
  pub type : String
  pub mode : String
  pub actions : List ActionModel

abbrev pub fields_of : Configuration → Fields
fields_of c = record { states = c.states; type = c.type; mode = c.mode; actions = c.actions }

-- What is given of them is checked, in this order; the rest is taken from `old`.
unfoldable pub resolve_fields :
    Fields → Option (List String) → String → String → Option (List ActionModel) → Result Fields
unfolding text_or slice_or
resolve_fields old given_states given_type given_mode given_actions = do
  states ← slice_or validate_states_containing_deleted old.states given_states
  type ← text_or validate_message_type old.type given_type
  mode ← text_or validate_message_mode old.mode given_mode
  actions ← slice_or validate_actions old.actions given_actions
  ok (record { states = states; type = type; mode = mode; actions = actions })

-- A request with the fields that it leaves out, but for its customs.
unfoldable pub inherited :
    Configuration → CreateConfigurationRequest → Fields → CreateConfigurationRequest
inherited parent request fields = record request {
  app_id = if request.app_id == "" then parent.app_id else request.app_id;
  name = if request.name == "" then parent.name else request.name;
  states = some fields.states;
  type = fields.type;
  mode = fields.mode;
  status_callbacks =
      if request.status_callbacks.kafka == "" || request.status_callbacks.http == ""
      then parent.status_callbacks
      else request.status_callbacks;
  actions = some fields.actions;
}

unfoldable pub inherit :
    Configuration → CreateConfigurationRequest → Result CreateConfigurationRequest
unfolding resolve_fields inherited
inherit parent request =
    resolve_fields (fields_of parent) request.states request.type request.mode request.actions
    >>= λ fields. ok (inherited parent request fields)

-- The checks of a request without a parent.
unfoldable pub check_root : CreateConfigurationRequest → Result (Unit {0})
check_root request = do
  validate_states_containing_deleted (or_empty request.states)
  validate_message_type request.type
  validate_message_mode request.mode
  validate_actions (or_empty request.actions)

-- `NewConfiguration`
unfoldable pub new_configuration :
    ObjectId → Time → CreateConfigurationRequest → Customs → Configuration
new_configuration id now request customs = record {
  id = id;
  class_id = request.class_id;
  parent_id = request.parent_id;
  app_id = request.app_id;
  name = request.name;
  persist = request.persist;
  states = or_empty request.states;
  type = request.type;
  mode = request.mode;
  status_callbacks = request.status_callbacks;
  actions = or_empty request.actions;
  custom_email_configuration = customs.email;
  custom_sms_configuration = customs.sms;
  custom_feishu_configuration = customs.feishu;
  custom_ding_talk_configuration = customs.ding_talk;
  created_at = now;
  updated_at = now;
}

-- `ValidateJSON` of a request: the refused fields are the error's arguments.
unfoldable pub refuse_fields : Option (Map String) → Result (Unit {0})
refuse_fields none = ok tt
refuse_fields (some fields) = err (create_error_with invalid_argument 100002 fields)

-- What an update makes of a class: whether messages persist, and the callbacks, stay.
unfoldable pub updated_configuration :
    Time → UpdateConfigurationRequest → Configuration → Fields → Customs → Configuration
updated_configuration now request class fields customs = record class {
  app_id = if request.app_id == "" then class.app_id else request.app_id;
  name = if request.name == "" then class.name else request.name;
  states = fields.states;
  type = fields.type;
  mode = fields.mode;
  actions = fields.actions;
  custom_email_configuration = customs.email;
  custom_sms_configuration = customs.sms;
  custom_feishu_configuration = customs.feishu;
  custom_ding_talk_configuration = customs.ding_talk;
  updated_at = now;
}

-- `validateUpdateConfiguration`
unfoldable pub validate_update_configuration :
    Settings → Time → UpdateConfigurationRequest → Configuration → Result Configuration
unfolding resolve_fields update_customs updated_configuration
validate_update_configuration S now request class = do
  fields ← resolve_fields (fields_of class) request.states request.type request.mode request.actions
  customs ← update_customs S request.mode (updating_customs request) (customs_of class)
  ok (updated_configuration now request class fields customs)
