-- ===== src/Configuration/Validity.antt =====
-- That every stored class is valid stays so through every request on classes
-- (src/restful/services/configuration.go), also where a reading fails.
use mathlib.Core.Path.{subst}
use messenger_service_go.Prelude.{
  ◌≡◌, refl, sym, ap, String, List, [], ◌∷◌, ◌++◌, arith, eqb, Bool-cases, inl, inr,
}
use messenger_service_go.Go.{Result, ok, err, panic}
use messenger_service_go.Models.{
  ObjectId, Time, Configuration, CreateConfigurationRequest, UpdateConfigurationRequest,
}
use messenger_service_go.Backend.{
  Backend, IsLawful, Catalog, bson_configuration, ConfigurationUpdate, set_configuration,
  set_class_at, drop_class_at,
}
use messenger_service_go.World.{World}
use messenger_service_go.Message.Store.{get_configuration_by_class_id}
use messenger_service_go.Configuration.Settings.{Settings}
use messenger_service_go.Configuration.Create.{
  configuration_update, create_configuration_request, update_configuration_request,
  delete_configuration_request,
}
use messenger_service_go.Configuration.Kept.{ClassIsValid, AllValid}
use messenger_service_go.Configuration.Inherit.{updated_configuration}
use messenger_service_go.Configuration.Validated.{validate_update_configuration_lem}
use messenger_service_go.Configuration.Effects.{
  classes, first_class-ClassIsValid, create-FailureKeeps,
}
use messenger_service_go.Configuration.Creation.{create_written}
use messenger_service_go.Configuration.Changed.{
  update_split, update-FailureKeeps, get_class_ok, get_class-KeepsCatalog,
}
use messenger_service_go.Configuration.Updated.{configuration_update-ClassIsValid}
use messenger_service_go.Configuration.Runs.{delete_configuration_cases}
use messenger_service_go.Configuration.Histories.{
  ClassRequest, create, update, delete, handle, bson-ClassIsValid,
}

AllValid-subst : {cs ds : List Configuration} → cs ≡ ds → AllValid ds → AllValid cs
AllValid-subst e v = subst (λ xs. AllValid xs) (sym e) v

append-AllValid :
    (c : Configuration) (cs : List Configuration)
    → ClassIsValid c
    → AllValid cs
    → AllValid (cs ++ (c ∷ []))
append-AllValid c [] v vs = (v, tt)
append-AllValid c (d ∷ cs) v (vd, vs) = (vd, append-AllValid c cs v vs)

set-AllValid :
    (i : ObjectId) (u : ConfigurationUpdate) (cs : List Configuration)
    → ((d : Configuration) → ClassIsValid (set_configuration u d))
    → AllValid cs
    → AllValid (set_class_at i u cs)
unfolding set_class_at
set-AllValid i u [] fine v = tt
set-AllValid i u (d ∷ cs) fine (vd, vs) = elim (Bool-cases (eqb i d.id)) [
  | inl p ↦ rw p (fine d, vs)
  | inr p ↦ rw p (vd, set-AllValid i u cs fine vs)
]

drop-AllValid :
    (i : ObjectId) (cs : List Configuration) → AllValid cs → AllValid (drop_class_at i cs)
unfolding drop_class_at
drop-AllValid i [] v = tt
drop-AllValid i (d ∷ cs) (vd, vs) = elim (Bool-cases (eqb i d.id)) [
  | inl p ↦ rw p vs
  | inr p ↦ rw p (vd, drop-AllValid i cs vs)
]

module _ (B : Backend) (L : IsLawful B) where
  unchanged_valid :
      (w w' : World B)
      → B.catalog w'.state ≡ B.catalog w.state
      → AllValid (classes B L w)
      → AllValid (classes B L w')
  unchanged_valid w w' same v = AllValid-subst (ap (λ (x : Catalog). x.configurations) same) v

  module _ (S : Settings) where
    create-AllValid :
        (id : ObjectId) (now : Time) (request : CreateConfigurationRequest) (w : World B)
        → AllValid (classes B L w)
        → AllValid (classes B L (create_configuration_request B S id now request w).1)
    create-AllValid id now request w v = go (create_configuration_request B S id now request w) refl
      where
        go :
            (p : Result Configuration × World B)
            → create_configuration_request B S id now request w ≡ p
            → AllValid (classes B L p.1)
        go (ok c, w') e =
            let (same, fresh, vc, new_id, added) =
              create_written B L S id now request w {c = c} {w' = w'} e v in
            AllValid-subst added
              (append-AllValid (bson_configuration c) (classes B L w) (bson-ClassIsValid c vc) v)
        go (err x, w') e =
            unchanged_valid w w' (ground (arith, e, create-FailureKeeps B L S id now request w)) v
        go (panic, w') e =
            unchanged_valid w w' (ground (arith, e, create-FailureKeeps B L S id now request w)) v

    update-AllValid :
        (now : Time) (request : UpdateConfigurationRequest) (id : String) (w : World B)
        → AllValid (classes B L w)
        → AllValid (classes B L (update_configuration_request B S now request id w).1)
    update-AllValid now request id w v = go (update_configuration_request B S now request id w) refl
      where
        go :
            (p : Result Configuration × World B)
            → update_configuration_request B S now request id w ≡ p
            → AllValid (classes B L p.1)
        go (ok c, w') e =
            let (class, changed, at, listed, valid, is_c, written) =
              update_split B L S now request id w {c = c} {w' = w'} e in
            let (fields, customs, chosen, same, fine) =
              validate_update_configuration_lem S now request class {changed = changed} valid in
            let u =
              configuration_update now (updated_configuration now request class fields customs) in
            let now_stored : classes B L w' ≡ set_class_at changed.id u (classes B L w) =
              ap (λ (x : Catalog). x.configurations)
                (L.catalog-update_configuration changed.id u {s = w.state} {s' = w'.state}
                  (ground (arith, written, same))) in
            AllValid-subst now_stored (
              set-AllValid changed.id u (classes B L w)
                (configuration_update-ClassIsValid now request class fields customs
                  (fine (first_class-ClassIsValid id (classes B L w) v listed)))
                v)
        go (err x, w') e =
            unchanged_valid w w' (ground (arith, e, update-FailureKeeps B L S now request id w)) v
        go (panic, w') e =
            unchanged_valid w w' (ground (arith, e, update-FailureKeeps B L S now request id w)) v

    delete-AllValid :
        (id : String) (w : World B)
        → AllValid (classes B L w)
        → AllValid (classes B L (delete_configuration_request B id w).1)
    unfolding delete_configuration_request
    delete-AllValid id w v = go (get_configuration_by_class_id B id w) refl
      where
        go :
            (p : Result Configuration × World B)
            → get_configuration_by_class_id B id w ≡ p
            → AllValid (classes B L (delete_configuration_request B id w).1)
        go (err e, u) q =
            unchanged_valid w (delete_configuration_request B id w).1
              (ground (arith, q, get_class-KeepsCatalog B L id w)) v
        go (panic, u) q =
            unchanged_valid w (delete_configuration_request B id w).1
              (ground (arith, q, get_class-KeepsCatalog B L id w)) v
        go (ok c, u) q =
            let (at, here, listed) = get_class_ok B L id w {c = c} {v = u} q in
            elim (delete_configuration_cases B L c u) [
              | inl (f, same) ↦
                  unchanged_valid w (delete_configuration_request B id w).1
                    (ground (arith, q, here, same)) v
              | inr gone ↦
                  let now_stored : classes B L (delete_configuration_request B id w).1
                      ≡ drop_class_at c.id (classes B L w) =
                    ground (arith, q, here, gone) in
                  AllValid-subst now_stored (drop-AllValid c.id (classes B L w) v)
            ]

    -- Every request on classes, however it ends, leaves valid classes if every class was valid.
    pub handle-AllValid :
        (r : ClassRequest) (w : World B)
        → AllValid (classes B L w)
        → AllValid (classes B L (handle B S r w))
    handle-AllValid (create id now request) w v = create-AllValid id now request w v
    handle-AllValid (update now request id) w v = update-AllValid now request id w v
    handle-AllValid (delete id) w v = delete-AllValid id w v
