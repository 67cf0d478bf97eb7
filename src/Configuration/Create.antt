-- ===== src/Configuration/Create.antt =====
-- Creating, updating and deleting a class: `CreateConfiguration`, `UpdateConfiguration` and
-- `DeleteConfiguration` of src/restful/services/configuration.go. One call reads the clock once.
use messenger_service_go.Prelude.{String, ◌==◌, not, none, some, if◌then◌else◌}
use messenger_service_go.Go.{ok, err, already_exists, not_found, internal}
use messenger_service_go.Go.Exec.{Exec, pure, lift, ◌>>=◌, ◌>>◌}
use messenger_service_go.Common.{create_error}
use messenger_service_go.Models.{
  ObjectId, Time, Configuration, CreateConfigurationRequest, UpdateConfigurationRequest,
}
use messenger_service_go.Backend.{Backend, ConfigurationUpdate}
use messenger_service_go.World.{World, write}
use messenger_service_go.Message.Store.{get_configuration_by_class_id}
use messenger_service_go.Configuration.Settings.{Settings}
use messenger_service_go.Configuration.Customs.{customs_of}
use messenger_service_go.Configuration.Register.{
  child_customs, root_customs, register_listening_configuration, unregister_listening_configuration,
}
use messenger_service_go.Configuration.Inherit.{
  given_customs, inherit, check_root, new_configuration, refuse_fields,
  validate_update_configuration,
}

-- The `$set` of `updateOneConfiguration`: the customs of the class are not in it.
unfoldable pub configuration_update : Time → Configuration → ConfigurationUpdate
configuration_update now class = record {
  class_id = class.class_id;
  parent_id = class.parent_id;
  app_id = class.app_id;
  name = class.name;
  persist = class.persist;
  states = class.states;
  type = class.type;
  mode = class.mode;
  status_callbacks = class.status_callbacks;
  actions = class.actions;
  updated_at = now;
}

module _ (B : Backend) where
  unfoldable pub check_class_id_exists : String → Exec (World B) (Unit {0})
  check_class_id_exists class_id w = elim (B.find_configuration class_id w.state) [
    | none ↦ (ok tt, w)
    | some class ↦ (err (create_error already_exists 100101), w)
  ]

  unfoldable pub get_configuration_parent_id : String → Exec (World B) Configuration
  get_configuration_parent_id class_id w = elim (B.find_configuration class_id w.state) [
    | none ↦ (err (create_error not_found 100102), w)
    | some class ↦ (ok class, w)
  ]

  unfoldable pub insert_one_configuration : Configuration → Exec (World B) (Unit {0})
  insert_one_configuration class =
      write B (create_error internal 1001) (B.insert_configuration class)

  unfoldable pub update_one_configuration : Time → Configuration → Exec (World B) Configuration
  unfolding configuration_update
  update_one_configuration now class =
      write B (create_error internal 1001)
        (B.update_configuration class.id (configuration_update now class))
      >> pure (record class { updated_at = now })

  unfoldable pub delete_one_configuration : Configuration → Exec (World B) (Unit {0})
  delete_one_configuration class =
      write B (create_error internal 1001) (B.delete_configuration class.id)

  unfoldable pub create_configuration : Configuration → Exec (World B) (Unit {0})
  unfolding register_listening_configuration insert_one_configuration
  create_configuration class = do
    if class.mode == "listening" then register_listening_configuration B class else pure tt
    insert_one_configuration class

  unfoldable pub delete_configuration : Configuration → Exec (World B) (Unit {0})
  unfolding unregister_listening_configuration delete_one_configuration
  delete_configuration class = do
    delete_one_configuration class
    if class.mode == "listening" then unregister_listening_configuration B class else pure tt

  -- `DeleteConfiguration`
  unfoldable pub delete_configuration_request : String → Exec (World B) (Unit {0})
  unfolding get_configuration_by_class_id delete_configuration
  delete_configuration_request id = do
    class ← get_configuration_by_class_id B id
    delete_configuration class

  module _ (S : Settings) where
    -- The two branches of `validateCreateConfiguration`.
    unfoldable pub validate_child :
        ObjectId → Time → CreateConfigurationRequest → Exec (World B) Configuration
    unfolding get_configuration_parent_id inherit child_customs new_configuration
    validate_child id now request = do
      parent ← get_configuration_parent_id request.parent_id
      whole ← lift (inherit parent request)
      customs ← child_customs B S whole.mode (customs_of parent) (given_customs request)
      pure (new_configuration id now whole customs)

    unfoldable pub validate_root :
        ObjectId → Time → CreateConfigurationRequest → Exec (World B) Configuration
    unfolding check_root root_customs new_configuration
    validate_root id now request = do
      lift (check_root request)
      customs ← root_customs B S request.mode (given_customs request)
      pure (new_configuration id now request customs)

    unfoldable pub validate_create_configuration :
        ObjectId → Time → CreateConfigurationRequest → Exec (World B) Configuration
    unfolding check_class_id_exists validate_child validate_root
    validate_create_configuration id now request = do
      check_class_id_exists request.class_id
      if not (request.parent_id == "0")
          then validate_child id now request
          else validate_root id now request

    -- `CreateConfiguration`
    unfoldable pub create_configuration_request :
        ObjectId → Time → CreateConfigurationRequest → Exec (World B) Configuration
    unfolding refuse_fields validate_create_configuration create_configuration
    create_configuration_request id now request = do
      lift (refuse_fields (S.invalid_create request))
      class ← validate_create_configuration id now request
      create_configuration class
      pure class

    -- `UpdateConfiguration`
    unfoldable pub update_configuration_request :
        Time → UpdateConfigurationRequest → String → Exec (World B) Configuration
    unfolding get_configuration_by_class_id refuse_fields validate_update_configuration
        update_one_configuration
    update_configuration_request now request id = do
      class ← get_configuration_by_class_id B id
      lift (refuse_fields (S.invalid_update request))
      changed ← lift (validate_update_configuration S now request class)
      update_one_configuration now changed
