-- ===== src/Tests/Templates.antt =====
-- Tests of creating, updating and deleting templates.
use messenger_service_go.Prelude.{◌≡◌, refl, some, if◌then◌else◌, eqb, none, [], ◌∷◌}
use messenger_service_go.Models.{ObjectId, Template}
use messenger_service_go.Common.{contains}
use messenger_service_go.Backend.{first_template}
use messenger_service_go.Backend.Memory.{memory_backend, memory_backend-IsLawful}
use messenger_service_go.World.{World}
use messenger_service_go.Templates.Validate.{TemplateChange}
use messenger_service_go.Templates.Kept.{KeptTemplates, template_with}
use messenger_service_go.Templates.{create_template_request, update_template_request}
use messenger_service_go.Templates.Renewed.{renewed, updated_template_is_found}
use messenger_service_go.Templates.Created.{templates}
use messenger_service_go.Templates.Histories.{
  create, update, delete, handle_template, handle_templates, handle_templates-KeptTemplates,
}
use messenger_service_go.Tests.Data.{alerts, world, external}

abbrev greeting : Template
greeting = record {
  id = 0;
  app_id = "app";
  message_template_id = "hello";
  name = "Hello";
  type = "greeting";
  content = "Hello {{.Name}}";
  params = "Name" ∷ [];
  created_by = "eve";
  language = "en";
  created_at = 0;
  updated_at = 0;
}

-- A change to Chinese, which names no template id.
abbrev to_chinese : TemplateChange
to_chinese = record {
  app_id = "other";
  message_template_id = "";
  name = "";
  type = "";
  content = "";
  params = none;
  created_by = "";
  language = "cn";
}

abbrev start : World memory_backend
start = world [] alerts []

abbrev with_greeting : World memory_backend
with_greeting = handle_template memory_backend external (λ t. none) (create 9 4 greeting) start

with_greeting-Kept : KeptTemplates (templates memory_backend memory_backend-IsLawful with_greeting)
with_greeting-Kept =
    handle_templates-KeptTemplates memory_backend external (λ t. none) memory_backend-IsLawful
      (create 9 4 greeting ∷ []) start tt

abbrev chinese : World memory_backend
chinese =
    handle_template memory_backend external (λ t. none) (update 6 to_chinese "hello") with_greeting

updated_template_is_found_example :
    (find : Template) × (first_template "hello"
        (templates memory_backend memory_backend-IsLawful with_greeting)
      ≡ some find)
    × ((i : ObjectId)
        → template_with i (templates memory_backend memory_backend-IsLawful chinese) ≡ (
            if eqb i find.id
            then some (renewed 6 to_chinese find)
            else template_with i (templates memory_backend memory_backend-IsLawful with_greeting)))
    × KeptTemplates (templates memory_backend memory_backend-IsLawful chinese)
unfolding update_template_request create_template_request first_template contains
    messenger_service_go.Templates.Validate.validate_template_type
    messenger_service_go.Templates.Validate.validate_template_language
    messenger_service_go.Backend.has_template messenger_service_go.Backend.bson_template
updated_template_is_found_example =
    updated_template_is_found memory_backend memory_backend-IsLawful external 6 to_chinese "hello"
      with_greeting {w' = chinese} refl with_greeting-Kept

handle_templates-KeptTemplates_example : KeptTemplates (
    templates memory_backend memory_backend-IsLawful (
      handle_templates memory_backend external
        (λ t. none)
        (create 9 4 greeting ∷ update 6 to_chinese "hello" ∷ delete "" ∷ [])
        start))
handle_templates-KeptTemplates_example =
    handle_templates-KeptTemplates memory_backend external (λ t. none) memory_backend-IsLawful
      (create 9 4 greeting ∷ update 6 to_chinese "hello" ∷ delete "" ∷ []) start tt
