-- ===== src/Templates/Validate.antt =====
-- The validators of src/restful/services/templates.go, with its validation arrays.
use messenger_service_go.Prelude.{
  String, ◌==◌, not, Option, none, some, List, [], ◌∷◌, if◌then◌else◌,
}
use messenger_service_go.Go.{Result, ok, err, invalid_argument, ◌>>=◌}
use messenger_service_go.Common.{contains, create_error}
use messenger_service_go.Models.{Time, Template}
use messenger_service_go.Configuration.Inherit.{text_or}

abbrev pub languages : List String
languages = "en" ∷ "cn" ∷ []

abbrev pub types : List String
types = "greeting" ∷ "reminder" ∷ "announcement" ∷ []

unfoldable pub validate_template_type : String → Result (Unit {0})
validate_template_type template_type =
    if not (contains types template_type) then err (create_error invalid_argument 100202) else ok tt

unfoldable pub validate_template_language : String → Result (Unit {0})
validate_template_language language =
    if not (contains languages language) then err (create_error invalid_argument 100203) else ok tt

-- The template of a request to update one. Its parameters may be nil.
pub record TemplateChange : Type 0 where
  pub app_id : String
  pub message_template_id : String
  pub name : String
  pub type : String
  pub content : String
  pub params : Option (List String)
  pub created_by : String
  pub language : String

-- A field that is given, or the stored one.
abbrev pub given_or : String → String → String
given_or given stored = if given == "" then stored else given

-- What a request to update makes of the stored template: its template id and its creator are the
-- request's, though they be "".
unfoldable pub changed_template : Time → TemplateChange → Template → String → String → Template
changed_template now change find type language = record {
  id = find.id;
  app_id = change.app_id;
  message_template_id = change.message_template_id;
  name = given_or change.name find.name;
  type = type;
  content = given_or change.content find.content;
  params = elim change.params [ none ↦ find.params | some params ↦ params ];
  created_by = change.created_by;
  language = language;
  created_at = find.created_at;
  updated_at = now;
}

unfoldable pub validate_update_template : Time → TemplateChange → Template → Result Template
unfolding text_or changed_template
validate_update_template now change find = do
  type ← text_or validate_template_type find.type change.type
  language ← text_or validate_template_language find.language change.language
  ok (changed_template now change find type language)
