-- ===== src/Templates/Kept.antt =====
-- The stored templates as a list and as a map from their ids: what the writes of MongoDB keep.
use mathlib.Core.Path.{subst}
use messenger_service_go.Prelude.{
  ◌≡◌, refl, sym, String, ◌==◌, eq_iff, Option, true, false, none, some, List, [], ◌∷◌, ◌++◌, arith,
  eqb, eqb_iff, if◌then◌else◌, Bool-cases, inl, inr,
}
use messenger_service_go.Common.{contains}
use messenger_service_go.Models.{ObjectId, Template}
use messenger_service_go.Backend.{
  bson_template, TemplateUpdate, set_template, first_template, has_template, set_template_at,
  drop_template_at,
}
use messenger_service_go.Templates.Validate.{types, languages}

-- A template that the validators accept.
abbrev pub TemplateIsValid : Template → Type 0
TemplateIsValid t = (contains types t.type ≡ true) × (contains languages t.language ≡ true)

-- Every template is valid, and no two have one id.
abbrev pub KeptTemplates : List Template → Type 0
KeptTemplates [] = Unit
KeptTemplates (t ∷ ts) = TemplateIsValid t × (has_template t.id ts ≡ false) × KeptTemplates ts

pub KeptTemplates-subst : {ts us : List Template} → ts ≡ us → KeptTemplates us → KeptTemplates ts
KeptTemplates-subst e k = subst (λ xs. KeptTemplates xs) (sym e) k

unfoldable pub template_with : ObjectId → List Template → Option Template
template_with i [] = none
template_with i (t ∷ ts) = if eqb i t.id then some t else template_with i ts

has_template-append :
    (i : ObjectId) (ts us : List Template)
    → has_template i ts ≡ false
    → has_template i (ts ++ us) ≡ has_template i us
unfolding has_template
has_template-append i [] us e = refl
has_template-append i (t ∷ ts) us e = ground (arith, e, has_template-append i ts us)

pub insert-KeptTemplates :
    (t : Template) (ts : List Template)
    → TemplateIsValid t
    → has_template t.id ts ≡ false
    → KeptTemplates ts
    → KeptTemplates (ts ++ (bson_template t ∷ []))
unfolding bson_template has_template
insert-KeptTemplates t [] v i k = (v, refl, tt)
insert-KeptTemplates t (u ∷ ts) v i (vu, h, k) = (
  vu,
  ground (
    arith,
    i,
    h,
    has_template-append u.id ts (bson_template t ∷ []),
    eqb_iff t.id u.id,
    eqb_iff u.id t.id,
  ),
  insert-KeptTemplates t ts v (ground (arith, i)) k,
)

has_template-set :
    (i j : ObjectId) (u : TemplateUpdate) (ts : List Template)
    → has_template i (set_template_at j u ts) ≡ has_template i ts
unfolding has_template set_template_at set_template
has_template-set i j u [] = refl
has_template-set i j u (t ∷ ts) = ground (arith, has_template-set i j u ts)

has_template-drop :
    (i j : ObjectId) (ts : List Template)
    → has_template i ts ≡ false
    → has_template i (drop_template_at j ts) ≡ false
unfolding has_template drop_template_at
has_template-drop i j [] e = refl
has_template-drop i j (t ∷ ts) e = ground (arith, e, has_template-drop i j ts)

pub set-KeptTemplates :
    (i : ObjectId) (u : TemplateUpdate) (ts : List Template)
    → ((t : Template) → TemplateIsValid (set_template u t))
    → KeptTemplates ts
    → KeptTemplates (set_template_at i u ts)
unfolding set_template_at has_template set_template
set-KeptTemplates i u [] valid k = tt
set-KeptTemplates i u (t ∷ ts) valid (v, h, k) = elim (Bool-cases (eqb i t.id)) [
  | inl p ↦ rw p (valid t, h, k)
  | inr p ↦
      rw p (v, ground (arith, h, has_template-set t.id i u ts), set-KeptTemplates i u ts valid k)
]

pub drop-KeptTemplates :
    (i : ObjectId) (ts : List Template) → KeptTemplates ts → KeptTemplates (drop_template_at i ts)
unfolding drop_template_at
drop-KeptTemplates i [] k = tt
drop-KeptTemplates i (t ∷ ts) (v, h, k) = elim (Bool-cases (eqb i t.id)) [
  | inl p ↦ rw p k
  | inr p ↦ rw p (v, has_template-drop t.id i ts h, drop-KeptTemplates i ts k)
]

template_with-none :
    (i : ObjectId) (ts : List Template) → has_template i ts ≡ false → template_with i ts ≡ none
unfolding template_with has_template
template_with-none i [] e = refl
template_with-none i (t ∷ ts) e = ground (arith, e, template_with-none i ts)

pub template_with-insert :
    (t : Template) (ts : List Template) (j : ObjectId)
    → has_template t.id ts ≡ false
    → template_with j (ts ++ (bson_template t ∷ []))
      ≡ (if eqb j t.id then some (bson_template t) else template_with j ts)
unfolding template_with has_template bson_template
template_with-insert t [] j e = refl
template_with-insert t (u ∷ ts) j e =
    ground
      (arith, e, template_with-insert t ts j, eqb_iff j t.id, eqb_iff j u.id, eqb_iff t.id u.id)

-- The template that a template id finds stands under its own id.
pub first_template-with :
    (k : String) (ts : List Template) {t : Template}
    → KeptTemplates ts
    → first_template k ts ≡ some t
    → (template_with t.id ts ≡ some t)
      × (t.message_template_id ≡ k)
      × TemplateIsValid t
      × (has_template t.id ts ≡ true)
unfolding first_template template_with has_template
first_template-with k [] kept e = absurd (ground (arith, e))
first_template-with k (u ∷ ts) {t} (v, h, kept) e = elim (Bool-cases (u.message_template_id == k)) [
  | inl p ↦
      let same : t ≡ u = ground (arith, e, p) in
      let here : eqb u.id u.id ≡ true = ground (arith, eqb_iff u.id u.id) in
      rw same (
        ground (arith, here),
        ground (arith, p, eq_iff u.message_template_id k),
        v,
        ground (arith, here),
      )
  | inr p ↦
      let (at, named, valid, has) = first_template-with k ts {t = t} kept (ground (arith, e, p)) in
      (ground (arith, at, h, has, eqb_iff t.id u.id), named, valid, ground (arith, has))
]

pub template_with-set :
    (i : ObjectId) (u : TemplateUpdate) (ts : List Template) (j : ObjectId) {t : Template}
    → template_with i ts ≡ some t
    → template_with j (set_template_at i u ts)
      ≡ (if eqb j i then some (set_template u t) else template_with j ts)
unfolding template_with set_template_at set_template
template_with-set i u [] j e = absurd (ground (arith, e))
template_with-set i u (s ∷ ts) j {t} e = elim (Bool-cases (eqb i s.id)) [
  | inl p ↦ ground (arith, e, p, eqb_iff i s.id, eqb_iff j s.id, eqb_iff j i)
  | inr p ↦
      ground (
        arith,
        e,
        p,
        template_with-set i u ts j {t = t},
        eqb_iff i s.id,
        eqb_iff j s.id,
        eqb_iff j i,
      )
]

pub template_with-drop :
    (i : ObjectId) (ts : List Template) (j : ObjectId)
    → KeptTemplates ts
    → template_with j (drop_template_at i ts) ≡ (if eqb j i then none else template_with j ts)
unfolding template_with drop_template_at
template_with-drop i [] j k = ground arith
template_with-drop i (t ∷ ts) j (v, h, k) = elim (Bool-cases (eqb i t.id)) [
  | inl p ↦
      ground (arith, p, template_with-none t.id ts h, eqb_iff i t.id, eqb_iff j t.id, eqb_iff j i)
  | inr p ↦
      ground (arith, p, template_with-drop i ts j k, eqb_iff i t.id, eqb_iff j t.id, eqb_iff j i)
]
