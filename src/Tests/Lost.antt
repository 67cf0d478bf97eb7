-- ===== src/Tests/Lost.antt =====
-- A test of a class that cannot be decoded.
use messenger_service_go.Prelude.{◌≡◌, refl, none, some, [], ◌∷◌}
use messenger_service_go.Go.{ok, err, not_found}
use messenger_service_go.Common.{contains, create_error}
use messenger_service_go.Models.{Configuration, CreateConfigurationRequest}
use messenger_service_go.Backend.{bson_configuration, first_class, decodes}
use messenger_service_go.Backend.Memory.{decoded, memory_backend, memory_backend-IsLawful}
use messenger_service_go.Configuration.Validate.{message_modes, message_types}
use messenger_service_go.Configuration.Create.{
  check_class_id_exists, create_configuration_request, delete_configuration_request,
}
use messenger_service_go.Configuration.Effects.{classes}
use messenger_service_go.Configuration.Lost.{undecodable_is_lost}
use messenger_service_go.Configuration.Histories.{create, handle}
use messenger_service_go.Tests.Classes.{settings, mail, start, start-Kept, made}

-- A class with an action that has a body.
abbrev heavy : CreateConfigurationRequest
heavy = record mail {
  actions = some (
      record {
        name = "go";
        tips = "";
        action = record {
          type = "http";
          url = "u";
          method = "post";
          query = none;
          body = some (("a", "b") ∷ []);
        };
        next_action = "";
      }
      ∷ []);
}

abbrev heavy_made : Configuration
heavy_made = record made {
  actions =
      record {
        name = "go";
        tips = "";
        action = record {
          type = "http";
          url = "u";
          method = "post";
          query = none;
          body = some (("a", "b") ∷ []);
        };
        next_action = "";
      }
      ∷ [];
}

heavy_is_lost :
    (let after = handle memory_backend settings (create 7 5 heavy) start in
      (first_class "m" (classes memory_backend memory_backend-IsLawful after)
        ≡ some (bson_configuration heavy_made))
      × (memory_backend.find_configuration "m" after.state ≡ none)
      × (delete_configuration_request memory_backend "m" after
          ≡ (err (create_error not_found 100112), after))
      × (check_class_id_exists memory_backend "m" after ≡ (ok tt, after)))
unfolding create_configuration_request decoded decodes first_class
    messenger_service_go.Configuration.Validate.validate_message_mode contains
    messenger_service_go.Backend.has_class
    messenger_service_go.Configuration.Validate.validate_actions
    messenger_service_go.Configuration.Validate.validate_action
    messenger_service_go.Configuration.Validate.validate_action_trigger
heavy_is_lost =
    undecodable_is_lost memory_backend memory_backend-IsLawful settings 7 5 heavy start
      {c = heavy_made} {w' = handle memory_backend settings (create 7 5 heavy) start} refl
      start-Kept refl refl
