-- ===== src/Configuration/Updated.antt =====
-- What is found of a class after its update: `UpdateConfiguration` of
-- src/restful/services/configuration.go.
use messenger_service_go.Prelude.{◌≡◌, refl, ap, String, ◌==◌, some, arith, if◌then◌else◌}
use messenger_service_go.Go.{ok}
use messenger_service_go.Models.{Time, Configuration, UpdateConfigurationRequest}
use messenger_service_go.Backend.{
  Backend, IsLawful, Catalog, bson_time, first_class, set_configuration, set_class_at,
}
use messenger_service_go.World.{World}
use messenger_service_go.Configuration.Settings.{Settings}
use messenger_service_go.Configuration.Customs.{Customs, customs_of, update_customs}
use messenger_service_go.Configuration.Inherit.{Fields, updating_customs, updated_configuration}
use messenger_service_go.Configuration.Create.{configuration_update, update_configuration_request}
use messenger_service_go.Configuration.Kept.{
  ClassIsValid, Kept, Kept-AllValid, Kept-subst, first_class-named,
}
use messenger_service_go.Configuration.View.{first_class-set, set-Kept}
use messenger_service_go.Configuration.Valid.{FieldsAreValid}
use messenger_service_go.Configuration.Validated.{validate_update_configuration_lem}
use messenger_service_go.Configuration.Effects.{classes, Answers, first_class-ClassIsValid}
use messenger_service_go.Configuration.Changed.{update_split}

-- The stored class after an update that returned `c`.
abbrev pub kept_update : Time → Configuration → Configuration → Configuration
kept_update now class c = record class {
  app_id = c.app_id;
  name = c.name;
  states = c.states;
  type = c.type;
  mode = c.mode;
  actions = c.actions;
  updated_at = bson_time now;
}

stored_update :
    (now : Time) (request : UpdateConfigurationRequest) (class : Configuration) (fields : Fields)
    (customs : Customs)
    → set_configuration
        (configuration_update now (updated_configuration now request class fields customs))
        class
      ≡ kept_update now class (updated_configuration now request class fields customs)
unfolding set_configuration configuration_update updated_configuration
stored_update now request class fields customs = refl

pub configuration_update-ClassIsValid :
    (now : Time) (request : UpdateConfigurationRequest) (class : Configuration) (fields : Fields)
    (customs : Customs)
    → FieldsAreValid fields
    → (d : Configuration)
    → ClassIsValid (
        set_configuration
          (configuration_update now (updated_configuration now request class fields customs))
          d)
unfolding set_configuration configuration_update updated_configuration
configuration_update-ClassIsValid now request class fields customs (s, t, m, a) d = record {
  states_hold_deleted = s;
  known_type = t;
  known_mode = m;
  valid_actions = a;
}

module _ (B : Backend) (L : IsLawful B) where
  module _ (S : Settings) (now : Time) (request : UpdateConfigurationRequest) (id : String) where
    update_written :
        (w : World B) (class : Configuration) (fields : Fields) (customs : Customs) (w' : World B)
        → first_class id (classes B L w) ≡ some class
        → FieldsAreValid fields
        → B.update_configuration class.id
            (configuration_update now (updated_configuration now request class fields customs))
            w.state
          ≡ some w'.state
        → Kept (classes B L w)
        → ((j : String)
            → first_class j (classes B L w') ≡ (
                if id == j
                then some
                    (kept_update now class (updated_configuration now request class fields customs))
                else first_class j (classes B L w)))
          × Kept (classes B L w')
    unfolding configuration_update updated_configuration
    update_written w class fields customs w' listed valid written kept =
        let u = configuration_update now (updated_configuration now request class fields customs) in
        let now_stored : classes B L w' ≡ set_class_at class.id u (classes B L w) =
          ap (λ (x : Catalog). x.configurations)
            (L.catalog-update_configuration class.id u written) in
        let (named, _) = first_class-named id (classes B L w) {c = class} listed in
        (
          λ j. ground (
            arith,
            now_stored,
            first_class-set id u (classes B L w) j {c = class} kept listed named,
            stored_update now request class fields customs,
          ),
          Kept-subst now_stored (
              set-Kept id u (classes B L w) {c = class}
                (configuration_update-ClassIsValid now request class fields customs valid) kept
                listed named),
        )

    pub updated_class_is_stored :
        (w : World B) {c : Configuration} {w' : World B}
        → update_configuration_request B S now request id w ≡ (ok c, w')
        → Kept (classes B L w)
        → (class : Configuration) × (B.find_configuration id w.state ≡ some class)
          × (update_customs S request.mode (updating_customs request) (customs_of class)
              ≡ ok (customs_of c))
          × ((j : String)
              → first_class j (classes B L w') ≡ (
                  if id == j
                  then some (kept_update now class c)
                  else first_class j (classes B L w)))
          × Kept (classes B L w')
    unfolding updated_configuration
    updated_class_is_stored w {c} {w'} e kept =
        let (class, changed, at, listed, valid, is_c, written) =
          update_split B L S now request id w {c = c} {w' = w'} e in
        let (fields, customs, chosen, same, fine) =
          validate_update_configuration_lem S now request class {changed = changed} valid in
        let is_updated : c ≡ updated_configuration now request class fields customs =
          ground (arith, is_c, same) in
        let (view, after) =
          update_written w class fields customs w' listed
            (fine (
              first_class-ClassIsValid id (classes B L w) (Kept-AllValid (classes B L w) kept)
                listed))
            (ground (arith, written, same)) kept in
        (
          class,
          at,
          ground (arith, chosen, is_updated),
          λ j. ground (arith, view j, is_updated),
          after,
        )

    -- An update that succeeds returns the customs that the request asks for, but does not store
    -- them: if every stored class was valid and no two shared an id or a class id, then under the
    -- class id the old class is stored, with the application's id, the name, the states, the type,
    -- the mode and the actions of the class that is returned, and with the time of the update; its
    -- customs, its parent, its callbacks and whether its messages persist stay, whatever the request
    -- says. Under every other class id what was there before is stored, and the stored classes stay
    -- so. A class id whose reading fails neither before nor after finds the changed class, if it is
    -- the class's, and what it found before otherwise.
    pub updated_class_is_found :
        (w : World B) {c : Configuration} {w' : World B} (k : String)
        → update_configuration_request B S now request id w ≡ (ok c, w')
        → Kept (classes B L w)
        → Answers B L k w
        → Answers B L k w'
        → (class : Configuration) × (B.find_configuration id w.state ≡ some class)
          × (update_customs S request.mode (updating_customs request) (customs_of class)
              ≡ ok (customs_of c))
          × ((j : String)
              → first_class j (classes B L w') ≡ (
                  if id == j
                  then some (kept_update now class c)
                  else first_class j (classes B L w)))
          × (B.find_configuration k w'.state ≡ (
              if id == k then some (kept_update now class c) else B.find_configuration k w.state))
          × Kept (classes B L w')
    updated_class_is_found w {c} {w'} k e kept before after =
        let (class, at, chosen, view, kept') = updated_class_is_stored w {c = c} {w' = w'} e kept in
        (class, at, chosen, view, ground (arith, before, after, view k), kept')
