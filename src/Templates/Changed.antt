-- ===== src/Templates/Changed.antt =====
-- A template that was updated or deleted: `UpdateTemplate` and `DeleteTemplate` of
-- src/restful/services/templates.go.
use messenger_service_go.Prelude.{
  ◌≡◌, ap, String, true, some, arith, eqb, if◌then◌else◌, Option-cases, inl, inr,
}
use messenger_service_go.Go.{ok, ◌>>=◌}
use messenger_service_go.Go.Results.{chain-ok}
use messenger_service_go.Common.{contains}
use messenger_service_go.Models.{ObjectId, Time, Template}
use messenger_service_go.Backend.{Backend, IsLawful, Catalog, set_template, first_template}
use messenger_service_go.World.{World}
use messenger_service_go.Message.External.{External}
use messenger_service_go.Message.Validate.{get_template_by_template_id}
use messenger_service_go.Configuration.Inherit.{text_or}
use messenger_service_go.Configuration.Valid.{text_or_ok}
use messenger_service_go.Templates.{template_update_of}
use messenger_service_go.Templates.Validate.{
  types, languages, validate_template_type, validate_template_language, TemplateChange,
  changed_template, validate_update_template,
}
use messenger_service_go.Templates.Kept.{
  TemplateIsValid, KeptTemplates, KeptTemplates-subst, set-KeptTemplates, template_with,
  first_template-with, template_with-set,
}
use messenger_service_go.Templates.Created.{
  templates, template_type_passes, template_language_passes,
}

-- An update that is validated has a known type and a known language, if the stored template has.
pub validate_update_template_lem :
    (now : Time) (change : TemplateChange) (find : Template) {t : Template}
    → validate_update_template now change find ≡ ok t
    → (type language : String) × (t ≡ changed_template now change find type language)
      × (TemplateIsValid find → (contains types type ≡ true) × (contains languages language ≡ true))
unfolding validate_update_template
validate_update_template_lem now change find {t} e =
    let (type, e1, f1) =
      chain-ok (text_or validate_template_type find.type change.type)
        (λ type. text_or validate_template_language find.language change.language >>= λ language.
          ok (changed_template now change find type language))
        e in
    let (language, e2, f2) =
      chain-ok (text_or validate_template_language find.language change.language)
        (λ language. ok (changed_template now change find type language)) f1 in
    (
      type,
      language,
      ground (arith, f2),
      λ (vt, vl). (
        elim (text_or_ok validate_template_type find.type change.type e1) [
          | inl p ↦ ground (arith, p, vt)
          | inr p ↦ template_type_passes type p
        ],
        elim (text_or_ok validate_template_language find.language change.language e2) [
          | inl p ↦ ground (arith, p, vl)
          | inr p ↦ template_language_passes language p
        ],
      ),
    )

module _ (B : Backend) (L : IsLawful B) (X : External B) where
  pub get_template_ok :
      (k : String) (w : World B) (t : Template) (v : World B)
      → get_template_by_template_id B X k w ≡ (ok t, v)
      → (v ≡ w) × (first_template k (templates B L w) ≡ some t)
  unfolding get_template_by_template_id
  get_template_ok k w t v e = elim (Option-cases (B.find_template k w.state)) [
    | inl p ↦ absurd (ground (arith, e, p))
    | inr (d, p) ↦ (
      ground (arith, e, p),
      L.find_template-catalog k {t = t} {s = w.state} (ground (arith, e, p)),
    )
  ]

  pub get_template_fails :
      (k : String) (w : World B)
      → B.catalog ((get_template_by_template_id B X k w).1).state ≡ B.catalog w.state
  unfolding get_template_by_template_id
  get_template_fails k w = ground arith

  -- What an update of the stored template `find` comes to.
  abbrev pub Replaced : Time → TemplateChange → World B → World B → Type 0
  Replaced now change w w' =
      (find : Template) × (type language : String) × (let u =
          template_update_of (changed_template now change find type language) in
        (template_with find.id (templates B L w) ≡ some find)
        × ((i : ObjectId)
            → template_with i (templates B L w') ≡ (
                if eqb i find.id
                then some (set_template u find)
                else template_with i (templates B L w)))
        × KeptTemplates (templates B L w'))

  pub replaced :
      (now : Time) (change : TemplateChange) (k : String) (find : Template) (type language : String)
      (w : World B) (s : B.State)
      → KeptTemplates (templates B L w)
      → first_template k (templates B L w) ≡ some find
      → (contains types type ≡ true) × (contains languages language ≡ true)
      → (B.update_template find.id
          (template_update_of (changed_template now change find type language))
          w.state)
        ≡ some s
      → Replaced now change w (record w { state = s })
  unfolding template_update_of changed_template set_template
  replaced now change k find type language w s kept listed valid written =
      let u = template_update_of (changed_template now change find type language) in
      let now_stored =
        ap (λ (x : Catalog). x.templates) (L.catalog-update_template find.id u written) in
      let (at, _, _, _) = first_template-with k (templates B L w) {t = find} kept listed in
      (
        find,
        type,
        language,
        (
          at,
          λ i.
              ground
                (arith, now_stored, template_with-set find.id u (templates B L w) i {t = find} at),
          KeptTemplates-subst now_stored
              (set-KeptTemplates find.id u (templates B L w) (λ t. valid) kept),
        ),
      )
