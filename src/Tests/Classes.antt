-- ===== src/Tests/Classes.antt =====
-- Tests of creating, updating and deleting classes.
use messenger_service_go.Prelude.{
  ◌≡◌, refl, ◌⊎◌, String, ◌==◌, true, false, none, some, [], ◌∷◌, if◌then◌else◌,
}
use messenger_service_go.Go.{ok}
use messenger_service_go.Common.{contains}
use messenger_service_go.Models.{
  Configuration, Message, CustomSmsConfiguration, CreateConfigurationRequest,
  UpdateConfigurationRequest,
}
use messenger_service_go.Backend.{bson_configuration, first_class, decodes}
use messenger_service_go.Backend.Memory.{decoded, memory_backend, memory_backend-IsLawful}
use messenger_service_go.World.{World}
use messenger_service_go.Message.Status.{set_default_message_status}
use messenger_service_go.Configuration.Settings.{Settings}
use messenger_service_go.Configuration.Customs.{no_customs, customs_of, update_customs}
use messenger_service_go.Configuration.Validate.{message_modes, message_types}
use messenger_service_go.Configuration.Inherit.{updating_customs}
use messenger_service_go.Configuration.Create.{
  create_configuration_request, update_configuration_request, delete_configuration_request,
}
use messenger_service_go.Configuration.Kept.{ClassIsValid, Kept, Kept-AllValid}
use messenger_service_go.Configuration.Effects.{classes, fails}
use messenger_service_go.Configuration.Created.{created_is_found}
use messenger_service_go.Configuration.Updated.{kept_update, updated_class_is_found}
use messenger_service_go.Configuration.Runs.{deleted_is_gone}
use messenger_service_go.Configuration.Histories.{
  create, update, handle, stored_classes, failed, Move, handle-Move,
}
use messenger_service_go.Configuration.Safety.{found_class_is_usable}
use messenger_service_go.Tests.Data.{alerts, world}
use messenger_service_go.Tests.Crypto.{new_plain}
use messenger_service_go.Tests.Base64.{commas}

abbrev pub settings : Settings
settings = record {
  email = record { email_account = "bot@a"; email_password = "p" };
  sms = no_customs.sms;
  feishu = no_customs.feishu;
  ding_talk = no_customs.ding_talk;
  secret_key = "k";
  new_cipher = new_plain;
  codec = commas;
  invalid_create = λ r. none;
  invalid_update = λ r. none;
}

abbrev huawei : CustomSmsConfiguration
huawei = record { huawei = record { channel = "8"; signature = "s"; template_id = "t" } }

-- A class of mode "sms" under the class of the alerts, which it inherits from.
abbrev pub mail : CreateConfigurationRequest
mail = record {
  class_id = "m";
  parent_id = "c";
  app_id = "";
  name = "Mail";
  persist = true;
  states = none;
  type = "";
  mode = "sms";
  status_callbacks = record { kafka = ""; http = "" };
  actions = none;
  custom_email_configuration = no_customs.email;
  custom_sms_configuration = huawei;
  custom_feishu_configuration = no_customs.feishu;
  custom_ding_talk_configuration = no_customs.ding_talk;
}

-- A change of the alerts to mode "sms".
abbrev to_sms : UpdateConfigurationRequest
to_sms = record {
  class_id = "";
  app_id = "";
  name = "";
  persist = false;
  states = none;
  type = "";
  mode = "sms";
  status_callbacks = record { kafka = ""; http = "" };
  actions = none;
  custom_email_configuration = no_customs.email;
  custom_sms_configuration = huawei;
  custom_feishu_configuration = no_customs.feishu;
  custom_ding_talk_configuration = no_customs.ding_talk;
}

abbrev pub start : World memory_backend
start = world [] alerts []

pub start-Kept : Kept (classes memory_backend memory_backend-IsLawful start)
unfolding contains messenger_service_go.Backend.has_class decoded decodes first_class
start-Kept = (
  record { states_hold_deleted = refl; known_type = refl; known_mode = refl; valid_actions = tt },
  refl,
  refl,
  tt,
)

abbrev pub made : Configuration
made = record alerts {
  id = 7;
  class_id = "m";
  parent_id = "c";
  name = "Mail";
  mode = "sms";
  custom_sms_configuration = huawei;
  created_at = 5;
  updated_at = 5;
}

abbrev after_create : World memory_backend
after_create = handle memory_backend settings (create 7 5 mail) start

creates :
    create_configuration_request memory_backend settings 7 5 mail start ≡ (ok made, after_create)
unfolding create_configuration_request decoded decodes first_class
    messenger_service_go.Configuration.Validate.validate_message_mode contains
    messenger_service_go.Backend.has_class
creates = refl

created_is_found_example :
    (made.class_id ≡ "m")
    × (first_class "m" (classes memory_backend memory_backend-IsLawful start) ≡ none)
    × ClassIsValid made
    × Kept (classes memory_backend memory_backend-IsLawful after_create)
    × ((j : String)
        → first_class j (classes memory_backend memory_backend-IsLawful after_create) ≡ (
            if "m" == j
            then some (bson_configuration made)
            else first_class j (classes memory_backend memory_backend-IsLawful start)))
    × (memory_backend.find_configuration "m" after_create.state ≡ (
        if "m" == "m"
        then some (bson_configuration made)
        else memory_backend.find_configuration "m" start.state))
unfolding first_class decoded decodes create_configuration_request bson_configuration
    messenger_service_go.Configuration.Validate.validate_message_mode contains
    messenger_service_go.Backend.has_class
created_is_found_example =
    created_is_found memory_backend memory_backend-IsLawful settings 7 5 mail start {c = made}
      {w' = after_create} "m" creates start-Kept refl refl refl

abbrev changed : Configuration
changed = record alerts { mode = "sms"; custom_sms_configuration = huawei; updated_at = 5 }

abbrev after_update : World memory_backend
after_update = handle memory_backend settings (update 5 to_sms "c") start

updates :
    update_configuration_request memory_backend settings 5 to_sms "c" start
    ≡ (ok changed, after_update)
unfolding update_configuration_request decoded decodes first_class
    messenger_service_go.Configuration.Validate.validate_message_mode contains
updates = refl

updated_class_is_found_example :
    (class : Configuration) × (memory_backend.find_configuration "c" start.state ≡ some class)
    × (update_customs settings "sms" (updating_customs to_sms) (customs_of class)
        ≡ ok (customs_of changed))
    × ((j : String)
        → first_class j (classes memory_backend memory_backend-IsLawful after_update) ≡ (
            if "c" == j
            then some (kept_update 5 class changed)
            else first_class j (classes memory_backend memory_backend-IsLawful start)))
    × (memory_backend.find_configuration "c" after_update.state ≡ (
        if "c" == "c"
        then some (kept_update 5 class changed)
        else memory_backend.find_configuration "c" start.state))
    × Kept (classes memory_backend memory_backend-IsLawful after_update)
unfolding first_class decoded decodes update_configuration_request
    messenger_service_go.Configuration.Validate.validate_message_mode contains
    messenger_service_go.Backend.set_class_at
updated_class_is_found_example =
    updated_class_is_found memory_backend memory_backend-IsLawful settings 5 to_sms "c" start
      {c = changed} {w' = after_update} "c" updates start-Kept refl refl

usable : memory_backend.find_configuration "m" after_create.state ≡ some (bson_configuration made)
unfolding first_class decoded decodes create_configuration_request
    messenger_service_go.Configuration.Validate.validate_message_mode contains
    messenger_service_go.Backend.has_class bson_configuration
usable = refl

found_class_is_usable_example :
    (contains message_modes "sms" ≡ true)
    × (contains message_types "exclusive" ≡ true)
    × (contains alerts.states "deleted" ≡ true)
    × ((m : Message)
        → (m' : Message) × (set_default_message_status m (bson_configuration made) ≡ ok m'))
unfolding bson_configuration
found_class_is_usable_example =
    found_class_is_usable memory_backend memory_backend-IsLawful settings (create 7 5 mail ∷ [])
      start "m" (bson_configuration made)
      (Kept-AllValid (classes memory_backend memory_backend-IsLawful start) start-Kept) usable

deleted_is_gone_example :
    (let (end, w') = delete_configuration_request memory_backend "c" start in
      ((fails memory_backend memory_backend-IsLawful end ≡ true)
        × (memory_backend.catalog w'.state ≡ memory_backend.catalog start.state))
      ⊎ (((k : String)
            → first_class k (classes memory_backend memory_backend-IsLawful w') ≡ (
                if "c" == k
                then none
                else first_class k (classes memory_backend memory_backend-IsLawful start)))
          × (memory_backend.find_configuration "c" w'.state ≡ none)
          × Kept (classes memory_backend memory_backend-IsLawful w')))
deleted_is_gone_example =
    deleted_is_gone memory_backend memory_backend-IsLawful "c" start start-Kept

handle-Move_example :
    (let start' = handle memory_backend settings (create 7 5 mail) start in
      Kept (classes memory_backend memory_backend-IsLawful start')
      × Move
          (stored_classes memory_backend settings memory_backend-IsLawful start)
          (stored_classes memory_backend settings memory_backend-IsLawful start')
          (create 7 5 mail)
          (failed memory_backend settings memory_backend-IsLawful (create 7 5 mail) start))
unfolding decoded decodes first_class
handle-Move_example =
    handle-Move memory_backend settings memory_backend-IsLawful (create 7 5 mail) start start-Kept
      refl
