-- ===== src/Templates/Renewed.antt =====
-- A template that was updated: `UpdateTemplate` of src/restful/services/templates.go.
use mathlib.Core.Path.{subst}
use messenger_service_go.Prelude.{
  ◌≡◌, refl, ap, String, some, none, arith, eqb, if◌then◌else◌, inl, inr,
}
use messenger_service_go.Go.{ok, internal}
use messenger_service_go.Go.Exec.{lift, ◌>>=◌, bind-ok}
use messenger_service_go.Common.{create_error}
use messenger_service_go.Models.{ObjectId, Time, Template}
use messenger_service_go.Backend.{
  Backend, IsLawful, Catalog, bson_time, set_template, first_template,
}
use messenger_service_go.World.{World, write_ok}
use messenger_service_go.Message.External.{External}
use messenger_service_go.Message.Validate.{get_template_by_template_id}
use messenger_service_go.Configuration.Inherit.{text_or}
use messenger_service_go.Templates.{
  template_update_of, update_one_template, update_template_request,
}
use messenger_service_go.Templates.Validate.{
  TemplateChange, given_or, changed_template, validate_template_type, validate_template_language,
  validate_update_template,
}
use messenger_service_go.Templates.Kept.{
  KeptTemplates, template_with, template_with-set, first_template-with,
}
use messenger_service_go.Templates.Created.{templates}
use messenger_service_go.Templates.Ends.{update_template_end}
use messenger_service_go.Templates.Changed.{get_template_ok}

-- The stored template after an update.
abbrev pub renewed : Time → TemplateChange → Template → Template
renewed now change find = record find {
  message_template_id = change.message_template_id;
  name = given_or change.name find.name;
  type = given_or change.type find.type;
  content = given_or change.content find.content;
  params = elim change.params [ none ↦ find.params | some params ↦ params ];
  created_by = change.created_by;
  language = given_or change.language find.language;
  updated_at = bson_time now;
}

update_given :
    (now : Time) (change : TemplateChange) (find : Template) {t : Template}
    → validate_update_template now change find ≡ ok t
    → t
      ≡ changed_template now change find
          (given_or change.type find.type)
          (given_or change.language find.language)
unfolding validate_update_template text_or validate_template_type validate_template_language
update_given now change find e = ground (arith, e)

update_renewed :
    (now : Time) (change : TemplateChange) (find : Template)
    → set_template
        (template_update_of (
          changed_template now change find
            (given_or change.type find.type)
            (given_or change.language find.language)))
        find
      ≡ renewed now change find
unfolding set_template template_update_of changed_template
update_renewed now change find = refl

module _ (B : Backend) (L : IsLawful B) (X : External B) where
  updated_template_ok :
      (now : Time) (change : TemplateChange) (k : String) (w : World B) {w' : World B}
      → update_template_request B X now change k w ≡ (ok tt, w')
      → (find t : Template) × (get_template_by_template_id B X k w ≡ (ok find, w))
        × (validate_update_template now change find ≡ ok t)
        × (B.update_template t.id (template_update_of t) w.state ≡ some w'.state)
  unfolding update_template_request update_one_template
  updated_template_ok now change k w {w'} e =
      let (find, w1, e1, f1) =
        bind-ok (get_template_by_template_id B X k)
          (λ find. lift (validate_update_template now change find) >>= update_one_template B) w e in
      let (t, w2, e2, f2) =
        bind-ok (lift (validate_update_template now change find)) (update_one_template B) w1 f1 in
      let (here, listed) = get_template_ok B L X k w find w1 e1 in
      let (ins, _) =
        write_ok B (create_error internal 1001) (B.update_template t.id (template_update_of t)) w2
          {w' = w'} f2 in
      (find, t, ground (arith, e1, here), ground (arith, e2), ground (arith, ins, e2, here))

  same_update :
      (now : Time) (change : TemplateChange) (find t : Template) (w w' : World B)
      → t
        ≡ changed_template now change find
            (given_or change.type find.type)
            (given_or change.language find.language)
      → B.update_template t.id (template_update_of t) w.state ≡ some w'.state
      → B.update_template find.id
          (template_update_of (
            changed_template now change find
              (given_or change.type find.type)
              (given_or change.language find.language)))
          w.state
        ≡ some w'.state
  unfolding changed_template
  same_update now change find t w w' same e =
      subst
        (λ (t : Template). B.update_template t.id (template_update_of t) w.state ≡ some w'.state)
        same e

  -- An update of a template that succeeds, among templates that are valid and share no id. A template
  -- had the template id of the request. It now has the template id and the creator that the change
  -- names, though they be ""; the name, the type, the content, the parameters and the language that
  -- the change gives, or else what it had; the time of the update in milliseconds; and all else as it
  -- was, its application too, whatever the change says. Every other id stands for the template that it
  -- stood for, and the templates stay valid and share no id.
  pub updated_template_is_found :
      (now : Time) (change : TemplateChange) (k : String) (w : World B) {w' : World B}
      → update_template_request B X now change k w ≡ (ok tt, w')
      → KeptTemplates (templates B L w)
      → (find : Template) × (first_template k (templates B L w) ≡ some find)
        × ((i : ObjectId)
            → template_with i (templates B L w') ≡ (
                if eqb i find.id
                then some (renewed now change find)
                else template_with i (templates B L w)))
        × KeptTemplates (templates B L w')
  updated_template_is_found now change k w {w'} e kept =
      let (find, t, at, valid, written) = updated_template_ok now change k w {w' = w'} e in
      let (_, listed) = get_template_ok B L X k w find w at in
      let made =
        changed_template now change find (given_or change.type find.type)
          (given_or change.language find.language) in
      let u = template_update_of made in
      let same : t ≡ made = update_given now change find {t = t} valid in
      let stored : B.update_template find.id u w.state ≡ some w'.state =
        same_update now change find t w w' same written in
      let now_stored =
        ap (λ (x : Catalog). x.templates) (L.catalog-update_template find.id u stored) in
      let (there, _, _, _) = first_template-with k (templates B L w) {t = find} kept listed in
      (
        find,
        listed,
        λ i. ground (
          arith,
          now_stored,
          template_with-set find.id u (templates B L w) i {t = find} there,
          update_renewed now change find,
        ),
        (elim (update_template_end B L X now change k w kept) [
          | inl (f, _) ↦ absurd (ground (arith, f, e))
          | inr (done, (s, type, language, (there, view, kept'))) ↦
              let last : (update_template_request B X now change k w).1 ≡ w' = ground (arith, e) in
              subst (λ v. KeptTemplates (templates B L v)) last kept'
        ]),
      )
