-- ===== src/Configuration/View.antt =====
-- The stored classes as a map from class ids: what the writes of MongoDB do to it.
use messenger_service_go.Prelude.{
  ◌≡◌, refl, inl, inr, String, ◌==◌, eq_iff, true, false, none, some, List, [], ◌∷◌, ◌++◌, arith,
  eqb, eqb_iff, if◌then◌else◌, Bool-cases,
}
use messenger_service_go.Models.{ObjectId, Configuration}
use messenger_service_go.Backend.{
  bson_configuration, ConfigurationUpdate, set_configuration, first_class, has_class, set_class_at,
  drop_class_at,
}
use messenger_service_go.Configuration.Kept.{ClassIsValid, Kept, first_class-named, has_class-set}

pub first_class-insert :
    (c : Configuration) (cs : List Configuration) (j : String)
    → first_class c.class_id cs ≡ none
    → first_class j (cs ++ (bson_configuration c ∷ []))
      ≡ (if c.class_id == j then some (bson_configuration c) else first_class j cs)
unfolding first_class bson_configuration
first_class-insert c [] j n = refl
first_class-insert c (d ∷ cs) j n = ground (
  arith,
  n,
  first_class-insert c cs j,
  eq_iff c.class_id j,
  eq_iff d.class_id j,
  eq_iff d.class_id c.class_id,
)

pub first_class-set :
    (k : String) (u : ConfigurationUpdate) (cs : List Configuration) (j : String)
    {c : Configuration}
    → Kept cs
    → first_class k cs ≡ some c
    → u.class_id ≡ k
    → first_class j (set_class_at c.id u cs)
      ≡ (if k == j then some (set_configuration u c) else first_class j cs)
unfolding first_class set_class_at set_configuration
first_class-set k u [] j kept e n = absurd (ground (arith, e))
first_class-set k u (d ∷ cs) j {c} (v, h, m, kept) e n = elim (Bool-cases (d.class_id == k)) [
  | inl p ↦ ground (
    arith,
    e,
    p,
    n,
    eqb_iff d.id d.id,
    eq_iff d.class_id k,
    eq_iff u.class_id j,
    eq_iff d.class_id j,
  )
  | inr p ↦ ground (
    arith,
    e,
    p,
    h,
    eqb_iff c.id d.id,
    first_class-named k cs {c = c},
    first_class-set k u cs j {c = c} kept (ground (arith, e, p)) n,
    eq_iff d.class_id j,
    eq_iff k j,
    eq_iff d.class_id k,
  )
]

pub first_class-drop_found :
    (k : String) (cs : List Configuration) (j : String) {c : Configuration}
    → Kept cs
    → first_class k cs ≡ some c
    → first_class j (drop_class_at c.id cs) ≡ (if k == j then none else first_class j cs)
unfolding first_class drop_class_at
first_class-drop_found k [] j kept e = absurd (ground (arith, e))
first_class-drop_found k (d ∷ cs) j {c} (v, h, m, kept) e = elim (Bool-cases (d.class_id == k)) [
  | inl p ↦ ground (arith, e, p, m, eqb_iff d.id d.id, eq_iff d.class_id k, eq_iff d.class_id j)
  | inr p ↦ ground (
    arith,
    e,
    p,
    h,
    eqb_iff c.id d.id,
    first_class-named k cs {c = c},
    first_class-drop_found k cs j {c = c} kept (ground (arith, e, p)),
    eq_iff d.class_id j,
    eq_iff k j,
    eq_iff d.class_id k,
  )
]

first_class-set_other :
    (k : String) (i : ObjectId) (u : ConfigurationUpdate) (cs : List Configuration)
    → first_class k cs ≡ none
    → (u.class_id == k) ≡ false
    → first_class k (set_class_at i u cs) ≡ none
unfolding first_class set_class_at set_configuration
first_class-set_other k i u [] e n = refl
first_class-set_other k i u (c ∷ cs) e n = ground (arith, e, n, first_class-set_other k i u cs)

pub set-Kept :
    (k : String) (u : ConfigurationUpdate) (cs : List Configuration) {c : Configuration}
    → ((d : Configuration) → ClassIsValid (set_configuration u d))
    → Kept cs
    → first_class k cs ≡ some c
    → u.class_id ≡ k
    → Kept (set_class_at c.id u cs)
unfolding first_class has_class set_class_at set_configuration
set-Kept k u [] ok_u kept e n = tt
set-Kept k u (d ∷ cs) {c} ok_u (v, h, m, kept) e n = elim (Bool-cases (d.class_id == k)) [
  | inl p ↦
      let i : c.id ≡ d.id = ground (arith, e, p) in
      let here : eqb c.id d.id ≡ true = ground (arith, i, eqb_iff c.id d.id) in
      rw here (ok_u d, h, ground (arith, m, n, p, eq_iff d.class_id k), kept)
  | inr p ↦
      let there : eqb c.id d.id ≡ false =
        ground (arith, e, p, h, eqb_iff c.id d.id, first_class-named k cs {c = c}) in
      rw there (
        v,
        ground (arith, h, has_class-set d.id c.id u cs),
        first_class-set_other d.class_id c.id u cs m
            (ground (arith, n, p, eq_iff u.class_id d.class_id, eq_iff d.class_id k)),
        set-Kept k u cs {c = c} ok_u kept (ground (arith, e, p)) n,
      )
]
