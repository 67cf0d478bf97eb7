-- ===== src/Templates/Histories.antt =====
-- Any sequence of requests on templates (src/restful/services/templates.go), as moves of a map from ids
-- to templates.
use mathlib.Core.Path.{subst}
use messenger_service_go.Prelude.{
  ◌≡◌, refl, sym, ap, inl, inr, String, Option, none, some, List, [], ◌∷◌, arith, eqb,
  if◌then◌else◌,
}
use messenger_service_go.Prelude.Maps.{Map}
use messenger_service_go.Go.{Result, ok, err, panic, internal}
use messenger_service_go.Common.{create_error}
use messenger_service_go.Models.{ObjectId, Time, Template}
use messenger_service_go.Backend.{
  Backend, IsLawful, Catalog, bson_template, set_template, first_template, drop_template_at,
}
use messenger_service_go.World.{World, write}
use messenger_service_go.Message.External.{External}
use messenger_service_go.Message.Validate.{get_template_by_template_id}
use messenger_service_go.Templates.{
  template_update_of, create_template_request, update_template_request, delete_one_template,
  delete_template_request,
}
use messenger_service_go.Templates.Validate.{TemplateChange, changed_template}
use messenger_service_go.Templates.Kept.{
  KeptTemplates, KeptTemplates-subst, drop-KeptTemplates, template_with, template_with-drop,
  first_template-with,
}
use messenger_service_go.Templates.Created.{
  templates, create_template-FailureKeeps, created_template_is_found, made,
}
use messenger_service_go.Templates.Changed.{get_template_ok, get_template_fails}
use messenger_service_go.Templates.Ends.{update_template_end}

pub data TemplateRequest : Type 0 where
  create : ObjectId → Time → Template → TemplateRequest
  update : Time → TemplateChange → String → TemplateRequest
  delete : String → TemplateRequest

abbrev pub TemplateMap : Type 0
TemplateMap = ObjectId → Option Template

-- The moves of the map: nothing changes; a template comes under its id; a template is replaced under
-- its id by one of the same application and the same time of creation; a template goes.
pub data TemplateMove (f g : TemplateMap) : Type 0 where
  stays : ((i : ObjectId) → g i ≡ f i) → TemplateMove f g
  comes :
      (t : Template)
      → ((i : ObjectId) → g i ≡ (if eqb i t.id then some t else f i))
      → TemplateMove f g
  changes :
      (s t : Template)
      → f s.id ≡ some s
      → (t.id ≡ s.id) × (t.app_id ≡ s.app_id) × (t.created_at ≡ s.created_at)
      → ((i : ObjectId) → g i ≡ (if eqb i s.id then some t else f i))
      → TemplateMove f g
  goes :
      (s : Template)
      → f s.id ≡ some s
      → ((i : ObjectId) → g i ≡ (if eqb i s.id then none else f i))
      → TemplateMove f g

set_template-origin :
    (t s : Template) (now : Time) (change : TemplateChange) (type language : String)
    → (let u = template_update_of (changed_template now change s type language) in
        ((set_template u s).id ≡ s.id)
        × ((set_template u s).app_id ≡ s.app_id)
        × ((set_template u s).created_at ≡ s.created_at))
unfolding set_template
set_template-origin t s now change type language = (refl, refl, refl)

bson_template-id : (t : Template) → (bson_template t).id ≡ t.id
unfolding bson_template
bson_template-id t = refl

module _ (B : Backend) (X : External B) (invalid_fields : Template → Option (Map String)) where
  -- The world after a request, however it ends.
  abbrev pub handle_template : TemplateRequest → World B → World B
  handle_template (create id now template) w =
      (create_template_request B invalid_fields id now template w).1
  handle_template (update now change id) w = (update_template_request B X now change id w).1
  handle_template (delete id) w = (delete_template_request B X id w).1

  abbrev pub handle_templates : List TemplateRequest → World B → World B
  handle_templates [] w = w
  handle_templates (r ∷ rs) w = handle_templates rs (handle_template r w)

  module _ (L : IsLawful B) where
    abbrev pub stored_templates : World B → TemplateMap
    stored_templates w = λ i. template_with i (templates B L w)

    abbrev Moved : World B → World B → Type 0
    Moved w w' =
        KeptTemplates (templates B L w') × TemplateMove (stored_templates w) (stored_templates w')

    unmoved :
        (w w' : World B)
        → B.catalog w'.state ≡ B.catalog w.state
        → KeptTemplates (templates B L w)
        → Moved w w'
    unmoved w w' same kept = (
      KeptTemplates-subst (ap (λ (x : Catalog). x.templates) same) kept,
      stays (λ i. ap (λ (x : Catalog). template_with i x.templates) same),
    )

    delete_one-Moved :
        (k : String) (find : Template) (w : World B)
        → KeptTemplates (templates B L w)
        → first_template k (templates B L w) ≡ some find
        → Moved w (delete_one_template B find w).1
    unfolding delete_one_template
    delete_one-Moved k find w kept listed = go (B.delete_template find.id w.state) refl
      where
        go :
            (o : Option B.State)
            → B.delete_template find.id w.state ≡ o
            → Moved w (write B (create_error internal 1001) (B.delete_template find.id) w).1
        go none p =
            unmoved w (write B (create_error internal 1001) (B.delete_template find.id) w).1
              (ground (arith, p)) kept
        go (some s) p =
            let now_stored : templates B L
                  (write B (create_error internal 1001) (B.delete_template find.id) w).1
                ≡ drop_template_at find.id (templates B L w) =
              ground (arith, p, L.catalog-delete_template find.id p) in
            let (at, _, _, _) = first_template-with k (templates B L w) {t = find} kept listed in
            (
              KeptTemplates-subst now_stored (drop-KeptTemplates find.id (templates B L w) kept),
              goes find at (λ i.
                  ground (arith, now_stored, template_with-drop find.id (templates B L w) i kept)),
            )

    delete-Moved :
        (k : String) (w : World B)
        → KeptTemplates (templates B L w)
        → Moved w (delete_template_request B X k w).1
    unfolding delete_template_request
    delete-Moved k w kept = go (get_template_by_template_id B X k w) refl
      where
        go :
            (p : Result Template × World B)
            → get_template_by_template_id B X k w ≡ p
            → Moved w (delete_template_request B X k w).1
        go (err r, v) e =
            unmoved w (delete_template_request B X k w).1
              (ground (arith, e, get_template_fails B L X k w)) kept
        go (panic, v) e =
            unmoved w (delete_template_request B X k w).1
              (ground (arith, e, get_template_fails B L X k w)) kept
        go (ok find, v) e =
            let (here, listed) = get_template_ok B L X k w find v e in
            let end : (delete_template_request B X k w).1 ≡ (delete_one_template B find w).1 =
              ground (arith, e, here) in
            subst (λ w'. Moved w w') (sym end) (delete_one-Moved k find w kept listed)

    -- From templates that are valid and share no id, every request, however it ends, leaves such
    -- templates, and what the ids stand for makes one move of the map.
    pub handle_template-Move :
        (r : TemplateRequest) (w : World B)
        → KeptTemplates (templates B L w)
        → KeptTemplates (templates B L (handle_template r w))
          × TemplateMove (stored_templates w) (stored_templates (handle_template r w))
    handle_template-Move (create id now template) w kept =
        go (create_template_request B invalid_fields id now template w) refl
      where
        go :
            (p : Result Template × World B)
            → create_template_request B invalid_fields id now template w ≡ p
            → Moved w p.1
        go (ok t, w') e =
            let (free, valid, is_made, view, after) =
              created_template_is_found B L invalid_fields id now template w {t = t} {w' = w'} e in
            let t' : Template = made B L invalid_fields id now template in
            (
              after kept,
              comes (bson_template t') (λ i. ground (arith, view i, bson_template-id t')),
            )
        go (err x, w') e =
            unmoved w w'
              (ground (arith, e, create_template-FailureKeeps B L invalid_fields id now template w))
              kept
        go (panic, w') e =
            unmoved w w'
              (ground (arith, e, create_template-FailureKeeps B L invalid_fields id now template w))
              kept
    handle_template-Move (update now change id) w kept =
        elim (update_template_end B L X now change id w kept) [
          | inl (f, same) ↦ unmoved w (update_template_request B X now change id w).1 same kept
          | inr (done, (s, type, language, (at, view, kept'))) ↦ (
            kept',
            changes s
                (set_template (template_update_of (changed_template now change s type language)) s)
                at (set_template-origin s s now change type language) view,
          )
        ]
    handle_template-Move (delete id) w kept = delete-Moved id w kept

    -- However many requests on templates are handled, and however each of them ends: if every stored
    -- template had a known type and a known language and no two shared an id, so it is.
    pub handle_templates-KeptTemplates :
        (rs : List TemplateRequest) (w : World B)
        → KeptTemplates (templates B L w)
        → KeptTemplates (templates B L (handle_templates rs w))
    handle_templates-KeptTemplates [] w kept = kept
    handle_templates-KeptTemplates (r ∷ rs) w kept =
        handle_templates-KeptTemplates rs (handle_template r w) (handle_template-Move r w kept).0
