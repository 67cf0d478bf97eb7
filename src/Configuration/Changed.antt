-- ===== src/Configuration/Changed.antt =====
-- A class that was updated or deleted: `UpdateConfiguration` and `DeleteConfiguration` of
-- src/restful/services/configuration.go.
use messenger_service_go.Prelude.{◌≡◌, refl, String, some, arith, Option-cases, inl, inr}
use messenger_service_go.Go.{ok, internal}
use messenger_service_go.Go.Exec.{pure, lift, ◌>>=◌, bind-ok}
use messenger_service_go.Common.{create_error}
use messenger_service_go.Models.{Time, Configuration, UpdateConfigurationRequest}
use messenger_service_go.Backend.{Backend, IsLawful, first_class}
use messenger_service_go.World.{World, write, write_ok}
use messenger_service_go.Message.Store.{get_configuration_by_class_id}
use messenger_service_go.Configuration.Settings.{Settings}
use messenger_service_go.Configuration.Inherit.{refuse_fields, validate_update_configuration}
use messenger_service_go.Configuration.Create.{
  configuration_update, update_one_configuration, update_configuration_request,
}
use messenger_service_go.Configuration.Frame.{KeepsCatalog}
use messenger_service_go.Configuration.Effects.{
  classes, FailureKeeps, bind-FailureKeeps, pure-FailureKeeps, write-FailureKeeps,
}

module _ (B : Backend) (L : IsLawful B) where
  pub get_class-KeepsCatalog : (k : String) → KeepsCatalog B L (get_configuration_by_class_id B k)
  unfolding get_configuration_by_class_id
  get_class-KeepsCatalog k w = ground arith

  pub get_class_ok :
      (k : String) (w : World B) {c : Configuration} {v : World B}
      → get_configuration_by_class_id B k w ≡ (ok c, v)
      → (B.find_configuration k w.state ≡ some c)
        × (v ≡ w)
        × (first_class k (classes B L w) ≡ some c)
  unfolding get_configuration_by_class_id
  get_class_ok k w {c} {v} e =
      let at : B.find_configuration k w.state ≡ some c =
        elim (Option-cases (B.find_configuration k w.state)) [
          | inl p ↦ absurd (ground (arith, e, p))
          | inr (d, p) ↦ ground (arith, e, p)
        ] in
      (at, ground (arith, e, at), (L.find_configuration-catalog k {c = c} {s = w.state} at).0)

  module _ (S : Settings) (now : Time) (request : UpdateConfigurationRequest) (id : String) where
    -- An update that fails leaves the collections as they were.
    pub update-FailureKeeps : FailureKeeps B L (update_configuration_request B S now request id)
    unfolding update_configuration_request update_one_configuration
    update-FailureKeeps =
        bind-FailureKeeps B L (get_configuration_by_class_id B id)
          (λ class. lift (refuse_fields (S.invalid_update request)) >>= λ _.
            lift (validate_update_configuration S now request class) >>= λ changed.
            update_one_configuration B now changed)
          (get_class-KeepsCatalog id)
          (λ class.
            bind-FailureKeeps B L (lift (refuse_fields (S.invalid_update request)))
              (λ _. lift (validate_update_configuration S now request class) >>= λ changed.
                update_one_configuration B now changed)
              (λ w. refl)
              (λ _.
                bind-FailureKeeps B L (lift (validate_update_configuration S now request class))
                  (λ changed. update_one_configuration B now changed) (λ w. refl)
                  (λ changed.
                    pure-FailureKeeps B L
                      (write B (create_error internal 1001)
                        (B.update_configuration changed.id (configuration_update now changed)))
                      (λ _. record changed { updated_at = now })
                      (write-FailureKeeps B L (create_error internal 1001)
                        (B.update_configuration changed.id (configuration_update now changed))))))

    pub update_split :
        (w : World B) {c : Configuration} {w' : World B}
        → update_configuration_request B S now request id w ≡ (ok c, w')
        → (class changed : Configuration) × (B.find_configuration id w.state ≡ some class)
          × (first_class id (classes B L w) ≡ some class)
          × (validate_update_configuration S now request class ≡ ok changed)
          × (c ≡ record changed { updated_at = now })
          × (B.update_configuration changed.id (configuration_update now changed) w.state
              ≡ some w'.state)
    unfolding update_configuration_request update_one_configuration
    update_split w {c} {w'} e =
        let (class, w1, e1, f1) =
          bind-ok (get_configuration_by_class_id B id)
            (λ class. lift (refuse_fields (S.invalid_update request)) >>= λ _.
              lift (validate_update_configuration S now request class) >>= λ changed.
              update_one_configuration B now changed)
            w e in
        let (_, w2, e2, f2) =
          bind-ok (lift (refuse_fields (S.invalid_update request)))
            (λ _. lift (validate_update_configuration S now request class) >>= λ changed.
              update_one_configuration B now changed)
            w1 f1 in
        let (changed, w3, e3, f3) =
          bind-ok (lift (validate_update_configuration S now request class))
            (λ changed. update_one_configuration B now changed) w2 f2 in
        let put =
          write B (create_error internal 1001)
            (B.update_configuration changed.id (configuration_update now changed)) in
        let (_, w4, e4, f4) = bind-ok put (λ _. pure (record changed { updated_at = now })) w3 f3 in
        let (at, here, listed) = get_class_ok id w {c = class} {v = w1} e1 in
        let (written, _) =
          write_ok B (create_error internal 1001)
            (B.update_configuration changed.id (configuration_update now changed)) w3 {w' = w4}
            (ground (arith, e4)) in
        (
          class,
          changed,
          at,
          listed,
          ground (arith, e3),
          ground (arith, f4),
          ground (arith, written, here, e2, e3, f4),
        )
