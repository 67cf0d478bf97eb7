-- ===== src/Configuration/Kept.antt =====
-- The stored classes as a list: what holds of it, and that the writes of MongoDB keep it.
use mathlib.Core.Path.{subst}
use messenger_service_go.Prelude.{
  ◌≡◌, refl, sym, inl, inr, String, ◌==◌, eq_iff, true, false, none, some, List, [], ◌∷◌, ◌++◌, All,
  arith, eqb, eqb_iff, Bool-cases,
}
use messenger_service_go.Common.{contains}
use messenger_service_go.Models.{ObjectId, Configuration}
use messenger_service_go.Backend.{
  bson_configuration, ConfigurationUpdate, set_configuration, first_class, has_class, set_class_at,
  drop_class_at,
}
use messenger_service_go.Configuration.Validate.{message_types, message_modes}
use messenger_service_go.Configuration.Actions.{ActionIsValid}

-- A class that the validators accept.
pub record ClassIsValid (c : Configuration) : Type 0 where
  pub states_hold_deleted : contains c.states "deleted" ≡ true
  pub known_type : contains message_types c.type ≡ true
  pub known_mode : contains message_modes c.mode ≡ true
  pub valid_actions : All (ActionIsValid c.actions) c.actions

abbrev pub AllValid : List Configuration → Type 0
AllValid cs = All ClassIsValid cs

-- Every class is valid, and no two have one id or one class id.
abbrev pub Kept : List Configuration → Type 0
Kept [] = Unit
Kept (c ∷ cs) =
    ClassIsValid c × (has_class c.id cs ≡ false) × (first_class c.class_id cs ≡ none) × Kept cs

pub Kept-AllValid : (cs : List Configuration) → Kept cs → AllValid cs
Kept-AllValid [] kept = tt
Kept-AllValid (c ∷ cs) (v, h, n, kept) = (v, Kept-AllValid cs kept)

pub Kept-subst : {cs ds : List Configuration} → cs ≡ ds → Kept ds → Kept cs
Kept-subst e k = subst (λ xs. Kept xs) (sym e) k

pub first_class-append :
    (k : String) (cs ds : List Configuration)
    → first_class k cs ≡ none
    → first_class k (cs ++ ds) ≡ first_class k ds
unfolding first_class
first_class-append k [] ds e = refl
first_class-append k (c ∷ cs) ds e = ground (arith, e, first_class-append k cs ds)

has_class-append :
    (i : ObjectId) (cs ds : List Configuration)
    → has_class i cs ≡ false
    → has_class i (cs ++ ds) ≡ has_class i ds
unfolding has_class
has_class-append i [] ds e = refl
has_class-append i (c ∷ cs) ds e = ground (arith, e, has_class-append i cs ds)

pub insert-Kept :
    (c : Configuration) (cs : List Configuration)
    → ClassIsValid c
    → has_class c.id cs ≡ false
    → first_class c.class_id cs ≡ none
    → Kept cs
    → Kept (cs ++ (bson_configuration c ∷ []))
unfolding bson_configuration first_class has_class
insert-Kept c [] v i n k = (
  record {
    states_hold_deleted = v.states_hold_deleted;
    known_type = v.known_type;
    known_mode = v.known_mode;
    valid_actions = v.valid_actions;
  },
  refl,
  refl,
  tt,
)
insert-Kept c (d ∷ cs) v i n (vd, id, nd, k) = (
  vd,
  ground (
    arith,
    i,
    id,
    has_class-append d.id cs (bson_configuration c ∷ []),
    eqb_iff c.id d.id,
    eqb_iff d.id c.id,
  ),
  ground (
    arith,
    n,
    nd,
    first_class-append d.class_id cs (bson_configuration c ∷ []),
    eq_iff c.class_id d.class_id,
    eq_iff d.class_id c.class_id,
  ),
  insert-Kept c cs v (ground (arith, i)) (ground (arith, n)) k,
)

-- The class that is found has its class id, and stands under its id.
pub first_class-named :
    (k : String) (cs : List Configuration) {c : Configuration}
    → first_class k cs ≡ some c
    → (c.class_id ≡ k) × (has_class c.id cs ≡ true)
unfolding first_class has_class
first_class-named k [] e = absurd (ground (arith, e))
first_class-named k (d ∷ cs) {c} e = elim (Bool-cases (d.class_id == k)) [
  | inl p ↦ ground (arith, e, p, eq_iff d.class_id k, eqb_iff d.id d.id)
  | inr p ↦ ground (arith, e, p, first_class-named k cs {c = c})
]

pub has_class-set :
    (i j : ObjectId) (u : ConfigurationUpdate) (cs : List Configuration)
    → has_class i (set_class_at j u cs) ≡ has_class i cs
unfolding has_class set_class_at set_configuration
has_class-set i j u [] = refl
has_class-set i j u (c ∷ cs) = ground (arith, has_class-set i j u cs)

has_class-drop :
    (i j : ObjectId) (cs : List Configuration)
    → has_class i cs ≡ false
    → has_class i (drop_class_at j cs) ≡ false
unfolding has_class drop_class_at
has_class-drop i j [] e = refl
has_class-drop i j (c ∷ cs) e = ground (arith, e, has_class-drop i j cs)

first_class-drop :
    (k : String) (j : ObjectId) (cs : List Configuration)
    → first_class k cs ≡ none
    → first_class k (drop_class_at j cs) ≡ none
unfolding first_class drop_class_at
first_class-drop k j [] e = refl
first_class-drop k j (c ∷ cs) e = ground (arith, e, first_class-drop k j cs)

pub drop-Kept : (i : ObjectId) (cs : List Configuration) → Kept cs → Kept (drop_class_at i cs)
unfolding drop_class_at
drop-Kept i [] k = tt
drop-Kept i (c ∷ cs) (v, h, n, k) = elim (Bool-cases (eqb i c.id)) [
  | inl p ↦ rw p k
  | inr p ↦
      rw p (v, has_class-drop c.id i cs h, first_class-drop c.class_id i cs n, drop-Kept i cs k)
]
