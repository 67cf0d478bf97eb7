-- ===== src/Templates/Ends.antt =====
-- How the updates and the deletions of templates end: `UpdateTemplate` and `DeleteTemplate` of
-- src/restful/services/templates.go.
use mathlib.Core.Path.{subst}
use messenger_service_go.Prelude.{
  ◌≡◌, refl, sym, ◌⊎◌, String, Option, true, none, some, arith, inl, inr,
}
use messenger_service_go.Go.{Result, ok, err, panic, internal}
use messenger_service_go.Go.Exec.{lift, ◌>>=◌, after}
use messenger_service_go.Common.{contains, create_error}
use messenger_service_go.Models.{Time, Template}
use messenger_service_go.Backend.{Backend, IsLawful, first_template}
use messenger_service_go.World.{World, write-none, write-some}
use messenger_service_go.Message.External.{External}
use messenger_service_go.Message.Validate.{get_template_by_template_id}
use messenger_service_go.Configuration.Effects.{fails}
use messenger_service_go.Templates.{
  template_update_of, update_one_template, update_template_request,
}
use messenger_service_go.Templates.Validate.{
  types, languages, TemplateChange, changed_template, validate_update_template,
}
use messenger_service_go.Templates.Kept.{KeptTemplates, first_template-with}
use messenger_service_go.Templates.Created.{templates}
use messenger_service_go.Templates.Changed.{
  validate_update_template_lem, get_template_ok, get_template_fails, Replaced, replaced,
}

module _ (B : Backend) (L : IsLawful B) (X : External B) where
  -- How an update ends: it fails and leaves the collections as they were, or it succeeds and has
  -- replaced one template.
  abbrev pub UpdateEnd : Time → TemplateChange → World B → Result (Unit {0}) × World B → Type 0
  UpdateEnd now change w (end, w') =
      ((fails B L end ≡ true) × (B.catalog w'.state ≡ B.catalog w.state))
      ⊎ ((end ≡ ok tt) × Replaced B L X now change w w')

  update_one_end :
      (now : Time) (change : TemplateChange) (k : String) (find t : Template) (w : World B)
      → KeptTemplates (templates B L w)
      → first_template k (templates B L w) ≡ some find
      → validate_update_template now change find ≡ ok t
      → UpdateEnd now change w (update_one_template B t w)
  unfolding update_one_template changed_template
  update_one_end now change k find t w kept listed valid =
      let (type, language, same, fine) =
        validate_update_template_lem now change find {t = t} valid in
      let u = template_update_of (changed_template now change find type language) in
      let (_, _, v, _) = first_template-with k (templates B L w) {t = find} kept listed in
      subst (λ t. UpdateEnd now change w (update_one_template B t w)) (sym same)
        (go type language (fine v) (B.update_template find.id u w.state) refl)
    where
      go :
          (type language : String)
          → (contains types type ≡ true) × (contains languages language ≡ true)
          → (o : Option B.State)
          → B.update_template find.id
              (template_update_of (changed_template now change find type language))
              w.state
            ≡ o
          → UpdateEnd now change w
              (update_one_template B (changed_template now change find type language) w)
      go type language v none p =
          subst (λ p. UpdateEnd now change w p)
            (sym (
              write-none B (create_error internal 1001)
                (B.update_template find.id
                  (template_update_of (changed_template now change find type language)))
                w p))
            (inl (refl, refl))
      go type language v (some s) p =
          subst (λ p. UpdateEnd now change w p)
            (sym (
              write-some B (create_error internal 1001)
                (B.update_template find.id
                  (template_update_of (changed_template now change find type language)))
                w s p))
            (inr (refl, replaced B L X now change k find type language w s kept listed v p))

  update_found_end :
      (now : Time) (change : TemplateChange) (k : String) (find : Template) (w : World B)
      → KeptTemplates (templates B L w)
      → first_template k (templates B L w) ≡ some find
      → (r : Result Template) → validate_update_template now change find ≡ r
      → UpdateEnd now change w ((lift r >>= update_one_template B) w)
  update_found_end now change k find w kept listed (ok t) e =
      update_one_end now change k find t w kept listed e
  update_found_end now change k find w kept listed (err x) e = inl (refl, refl)
  update_found_end now change k find w kept listed panic e = inl (refl, refl)

  -- An update of a template, among templates that are valid and share no id, either fails and leaves
  -- the collections as they were, or it succeeds: one template is replaced, under the same id.
  pub update_template_end :
      (now : Time) (change : TemplateChange) (k : String) (w : World B)
      → KeptTemplates (templates B L w)
      → UpdateEnd now change w (update_template_request B X now change k w)
  unfolding update_template_request
  update_template_end now change k w kept = go (get_template_by_template_id B X k w) refl
    where
      go :
          (p : Result Template × World B)
          → get_template_by_template_id B X k w ≡ p
          → UpdateEnd now change w (update_template_request B X now change k w)
      go (err r, v) e = inl (ground (arith, e), ground (arith, e, get_template_fails B L X k w))
      go (panic, v) e = inl (ground (arith, e), ground (arith, e, get_template_fails B L X k w))
      go (ok find, v) e =
          let (here, listed) = get_template_ok B L X k w find v e in
          let at : get_template_by_template_id B X k w ≡ (ok find, w) = ground (arith, e, here) in
          subst
            (λ p. UpdateEnd now change w (
              after p.0
                (λ find. lift (validate_update_template now change find) >>= update_one_template B)
                p.1))
            (sym at)
            (update_found_end now change k find w kept listed
              (validate_update_template now change find) refl)
