-- ===== src/Templates/Created.antt =====
-- A template that was created: `CreateTemplate` of src/restful/services/templates.go.
use messenger_service_go.Prelude.{
  ◌≡◌, refl, ap, String, Option, true, false, none, some, List, arith, eqb, if◌then◌else◌,
  Option-cases, inl, inr,
}
use messenger_service_go.Prelude.Maps.{Map}
use messenger_service_go.Go.{ok, internal}
use messenger_service_go.Go.Exec.{pure, lift, ◌>>=◌, bind-ok}
use messenger_service_go.Common.{contains, create_error}
use messenger_service_go.Models.{ObjectId, Time, Template}
use messenger_service_go.Backend.{Backend, IsLawful, Catalog, bson_template, has_template}
use messenger_service_go.World.{World, write_ok}
use messenger_service_go.Configuration.Inherit.{refuse_fields}
use messenger_service_go.Configuration.Frame.{KeepsCatalog}
use messenger_service_go.Configuration.Effects.{
  FailureKeeps, bind-FailureKeeps, pure-FailureKeeps, write-FailureKeeps,
}
use messenger_service_go.Templates.{
  check_template_id_exists, insert_one_template, validate_create_template, create_template_request,
}
use messenger_service_go.Templates.Validate.{
  types, languages, validate_template_type, validate_template_language,
}
use messenger_service_go.Templates.Kept.{
  TemplateIsValid, KeptTemplates, KeptTemplates-subst, insert-KeptTemplates, template_with,
  template_with-insert,
}

pub template_type_passes : (t : String) → validate_template_type t ≡ ok tt → contains types t ≡ true
unfolding validate_template_type
template_type_passes t e = ground (arith, e)

pub template_language_passes :
    (t : String) → validate_template_language t ≡ ok tt → contains languages t ≡ true
unfolding validate_template_language
template_language_passes t e = ground (arith, e)

module _ (B : Backend) (L : IsLawful B) where
  abbrev pub templates : World B → List Template
  templates w = (B.catalog w.state).templates

  check_template_id-KeepsCatalog : (k : String) → KeepsCatalog B L (check_template_id_exists B k)
  unfolding check_template_id_exists
  check_template_id-KeepsCatalog k w = ground arith

  module _ (invalid_fields : Template → Option (Map String)) (id : ObjectId) (now : Time)
      (template : Template) where
    abbrev pub made : Template
    made = record template { id = id; created_at = now; updated_at = now }

    -- A creation that fails leaves the collections as they were.
    pub create_template-FailureKeeps :
        FailureKeeps B L (create_template_request B invalid_fields id now template)
    unfolding create_template_request validate_create_template insert_one_template
    create_template-FailureKeeps =
        bind-FailureKeeps B L (lift (refuse_fields (invalid_fields template)))
          (λ _. validate_create_template B id now template >>= λ template'.
            insert_one_template B template' >>= λ _. pure template')
          (λ w. refl)
          (λ _.
            bind-FailureKeeps B L (validate_create_template B id now template)
              (λ template'. insert_one_template B template' >>= λ _. pure template')
              (λ w. ground (arith, check_template_id-KeepsCatalog template.message_template_id w))
              (λ template'.
                pure-FailureKeeps B L (insert_one_template B template') (λ _. template')
                  (write-FailureKeeps B L (create_error internal 1001)
                    (B.insert_template template'))))

    validate_create_template_ok :
        (w : World B) {t : Template} {w' : World B}
        → validate_create_template B id now template w ≡ (ok t, w')
        → (t ≡ made)
          × (w' ≡ w)
          × TemplateIsValid template
          × (B.find_template template.message_template_id w.state ≡ none)
    unfolding validate_create_template check_template_id_exists validate_template_type
        validate_template_language
    validate_create_template_ok w {t} {w'} e =
        elim (Option-cases (B.find_template template.message_template_id w.state)) [
          | inl p ↦ (
            ground (arith, e, p),
            ground (arith, e, p),
            (ground (arith, e, p), ground (arith, e, p)),
            p,
          )
          | inr (d, p) ↦ absurd (ground (arith, e, p))
        ]

    -- A template is created only if the reading of its template id finds none, with a known type and a
    -- known language. Its new id then finds it, with its times rounded to milliseconds, and every
    -- other id finds what it found before. If every stored template was valid and no two shared an
    -- id, so it is afterwards.
    pub created_template_is_found :
        (w : World B) {t : Template} {w' : World B}
        → create_template_request B invalid_fields id now template w ≡ (ok t, w')
        → (B.find_template template.message_template_id w.state ≡ none)
          × TemplateIsValid template
          × (t ≡ made)
          × ((i : ObjectId)
              → template_with i (templates w')
                ≡ (if eqb i id then some (bson_template made) else template_with i (templates w)))
          × (KeptTemplates (templates w) → KeptTemplates (templates w'))
    unfolding create_template_request insert_one_template
    created_template_is_found w {t} {w'} e =
        let (_, w1, e1, f1) =
          bind-ok (lift (refuse_fields (invalid_fields template)))
            (λ _. validate_create_template B id now template >>= λ template'.
              insert_one_template B template' >>= λ _. pure template')
            w e in
        let (t1, w2, e2, f2) =
          bind-ok (validate_create_template B id now template)
            (λ template'. insert_one_template B template' >>= λ _. pure template') w1 f1 in
        let (_, w3, e3, f3) = bind-ok (insert_one_template B t1) (λ _. pure t1) w2 f2 in
        let (is_made, here, valid, free) =
          validate_create_template_ok w {t = t1} {w' = w2} (ground (arith, e1, e2)) in
        let (ins, _) =
          write_ok B (create_error internal 1001) (B.insert_template made) w {w' = w'}
            (ground (arith, e3, f3, is_made, here)) in
        let new_id : has_template id (templates w) ≡ false =
          L.has_template-insert_template made ins in
        let added = ap (λ (x : Catalog). x.templates) (L.catalog-insert_template made ins) in
        (
          free,
          valid,
          ground (arith, f3, is_made),
          λ i. ground (arith, added, template_with-insert made (templates w) i new_id),
          λ kept.
              KeptTemplates-subst added (insert-KeptTemplates made (templates w) valid new_id kept),
        )
