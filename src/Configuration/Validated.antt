-- ===== src/Configuration/Validated.antt =====
-- The class that a validated request gives is valid.
use messenger_service_go.Prelude.{◌≡◌, arith}
use messenger_service_go.Go.{ok, ◌>>=◌, ◌>>◌}
use messenger_service_go.Go.Results.{chain-ok}
use messenger_service_go.Models.{
  ObjectId, Time, Configuration, CreateConfigurationRequest, UpdateConfigurationRequest,
}
use messenger_service_go.Configuration.Settings.{Settings}
use messenger_service_go.Configuration.Customs.{Customs, customs_of, update_customs}
use messenger_service_go.Configuration.Validate.{
  validate_states_containing_deleted, validate_message_type, validate_message_mode,
  validate_actions,
}
use messenger_service_go.Configuration.Actions.{validate_actions_iff}
use messenger_service_go.Configuration.Inherit.{
  Fields, or_empty, fields_of, resolve_fields, inherited, inherit, check_root, new_configuration,
  updating_customs, updated_configuration, validate_update_configuration,
}
use messenger_service_go.Configuration.Kept.{ClassIsValid}
use messenger_service_go.Configuration.Valid.{
  FieldsAreValid, states_pass, type_passes, mode_passes, ClassIsValid-FieldsAreValid,
  FieldsAreValid-ClassIsValid, resolve_fields-FieldsAreValid,
}

pub inherit-ClassIsValid :
    (parent : Configuration) (request : CreateConfigurationRequest) (id : ObjectId) (now : Time)
    (customs : Customs) {whole : CreateConfigurationRequest}
    → ClassIsValid parent
    → inherit parent request ≡ ok whole
    → ClassIsValid (new_configuration id now whole customs)
unfolding inherit inherited new_configuration
inherit-ClassIsValid parent request id now customs {whole} v e =
    let (fields, e1, e2) =
      chain-ok
        (resolve_fields (fields_of parent) request.states request.type request.mode request.actions)
        (λ fields. ok (inherited parent request fields)) e in
    let (s, t, m, a) =
      resolve_fields-FieldsAreValid (fields_of parent) request.states request.type request.mode
        request.actions {f = fields} (ClassIsValid-FieldsAreValid v) e1 in
    let same : whole ≡ inherited parent request fields = ground (arith, e2) in
    rw same (FieldsAreValid-ClassIsValid (s, t, m, a))

pub check_root-ClassIsValid :
    (request : CreateConfigurationRequest) (id : ObjectId) (now : Time) (customs : Customs)
    → check_root request ≡ ok tt
    → ClassIsValid (new_configuration id now request customs)
unfolding check_root new_configuration
check_root-ClassIsValid request id now customs e =
    let (_, s, e1) =
      chain-ok (validate_states_containing_deleted (or_empty request.states))
        (λ _.
          validate_message_type request.type
          >> (validate_message_mode request.mode >> validate_actions (or_empty request.actions)))
        e in
    let (_, t, e2) =
      chain-ok (validate_message_type request.type)
        (λ _. validate_message_mode request.mode >> validate_actions (or_empty request.actions))
        e1 in
    let (_, m, a) =
      chain-ok (validate_message_mode request.mode)
        (λ _. validate_actions (or_empty request.actions)) e2 in
    FieldsAreValid-ClassIsValid (
      states_pass (or_empty request.states) (ground (arith, s)),
      type_passes request.type (ground (arith, t)),
      mode_passes request.mode (ground (arith, m)),
      (validate_actions_iff (or_empty request.actions)).0 a,
    )

-- An update that is validated has resolved the fields and has chosen the customs.
pub validate_update_configuration_lem :
    (S : Settings) (now : Time) (request : UpdateConfigurationRequest) (class : Configuration)
    {changed : Configuration}
    → validate_update_configuration S now request class ≡ ok changed
    → (fields : Fields) × (customs : Customs) × (update_customs S request.mode
          (updating_customs request)
          (customs_of class)
        ≡ ok customs)
      × (changed ≡ updated_configuration now request class fields customs)
      × (ClassIsValid class → FieldsAreValid fields)
unfolding validate_update_configuration
validate_update_configuration_lem S now request class e =
    let (fields, e1, f1) =
      chain-ok
        (resolve_fields (fields_of class) request.states request.type request.mode request.actions)
        (λ fields.
          update_customs S request.mode (updating_customs request) (customs_of class) >>= λ customs.
          ok (updated_configuration now request class fields customs))
        e in
    let (customs, e2, f2) =
      chain-ok (update_customs S request.mode (updating_customs request) (customs_of class))
        (λ customs. ok (updated_configuration now request class fields customs)) f1 in
    (
      fields,
      customs,
      e2,
      ground (arith, f2),
      λ v.
          resolve_fields-FieldsAreValid (fields_of class) request.states request.type request.mode
            request.actions {f = fields} (ClassIsValid-FieldsAreValid v) e1,
    )
