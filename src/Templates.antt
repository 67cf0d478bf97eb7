-- ===== src/Templates.antt =====
-- Message templates: `CreateTemplate`, `UpdateTemplate` and `DeleteTemplate` of
-- src/restful/services/templates.go. One call reads the clock once.
pub mod Validate
pub mod Kept
pub mod Created
pub mod Changed
pub mod Ends
pub mod Histories
pub mod Renewed
use messenger_service_go.Prelude.{String, Option, none, some}
use messenger_service_go.Prelude.Maps.{Map}
use messenger_service_go.Go.{ok, err, already_exists, internal}
use messenger_service_go.Go.Exec.{Exec, pure, lift, ◌>>=◌, ◌>>◌}
use messenger_service_go.Common.{create_error}
use messenger_service_go.Models.{ObjectId, Time, Template}
use messenger_service_go.Backend.{Backend, TemplateUpdate}
use messenger_service_go.World.{World, write}
use messenger_service_go.Message.External.{External}
use messenger_service_go.Message.Validate.{get_template_by_template_id}
use messenger_service_go.Configuration.Inherit.{refuse_fields}
use messenger_service_go.Templates.Validate.{
  TemplateChange, validate_template_type, validate_template_language, validate_update_template,
}

-- The `$set` of `updateOneTemplate`: the application's id of the template is not in it.
unfoldable pub template_update_of : Template → TemplateUpdate
template_update_of t = record {
  message_template_id = t.message_template_id;
  name = t.name;
  type = t.type;
  params = t.params;
  content = t.content;
  created_by = t.created_by;
  language = t.language;
  updated_at = t.updated_at;
}

module _ (B : Backend) where
  unfoldable pub check_template_id_exists : String → Exec (World B) (Unit {0})
  check_template_id_exists template_id w = elim (B.find_template template_id w.state) [
    | none ↦ (ok tt, w)
    | some template ↦ (err (create_error already_exists 100201), w)
  ]

  unfoldable pub insert_one_template : Template → Exec (World B) (Unit {0})
  insert_one_template template = write B (create_error internal 1001) (B.insert_template template)

  unfoldable pub update_one_template : Template → Exec (World B) (Unit {0})
  unfolding template_update_of
  update_one_template template =
      write B (create_error internal 1001)
        (B.update_template template.id (template_update_of template))

  unfoldable pub delete_one_template : Template → Exec (World B) (Unit {0})
  delete_one_template template =
      write B (create_error internal 1001) (B.delete_template template.id)

  unfoldable pub validate_create_template : ObjectId → Time → Template → Exec (World B) Template
  unfolding check_template_id_exists
  validate_create_template id now template = do
    check_template_id_exists template.message_template_id
    lift (validate_template_type template.type)
    lift (validate_template_language template.language)
    pure (record template { id = id; created_at = now; updated_at = now })

  -- `CreateTemplate`, which leaves the template that it has stored in the caller's.
  unfoldable pub create_template_request :
      (Template → Option (Map String)) → ObjectId → Time → Template → Exec (World B) Template
  unfolding validate_create_template insert_one_template refuse_fields
  create_template_request invalid_fields id now template = do
    lift (refuse_fields (invalid_fields template))
    template' ← validate_create_template id now template
    insert_one_template template'
    pure template'

  module _ (X : External B) where
    -- `UpdateTemplate`
    unfoldable pub update_template_request :
        Time → TemplateChange → String → Exec (World B) (Unit {0})
    unfolding get_template_by_template_id validate_update_template update_one_template
    update_template_request now change id = do
      find ← get_template_by_template_id B X id
      template ← lift (validate_update_template now change find)
      update_one_template template

    -- `DeleteTemplate`
    unfoldable pub delete_template_request : String → Exec (World B) (Unit {0})
    unfolding get_template_by_template_id delete_one_template
    delete_template_request id = do
      find ← get_template_by_template_id B X id
      delete_one_template find
