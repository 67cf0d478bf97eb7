-- ===== src/Configuration/Lost.antt =====
-- A class whose actions cannot be decoded: `CreateConfiguration` and `checkClassIdExists` of
-- src/restful/services/configuration.go, and the models ActionModel and ActionTrigger.
use messenger_service_go.Prelude.{
  ◌≡◌, refl, String, false, none, some, arith, Option-cases, inl, inr, eq_refl,
}
use messenger_service_go.Go.{ok, err, not_found}
use messenger_service_go.Common.{create_error}
use messenger_service_go.Models.{ObjectId, Time, Configuration, CreateConfigurationRequest}
use messenger_service_go.Backend.{Backend, IsLawful, bson_configuration, decodes, first_class}
use messenger_service_go.World.{World}
use messenger_service_go.Configuration.Settings.{Settings}
use messenger_service_go.Configuration.Create.{
  check_class_id_exists, create_configuration_request, delete_configuration_request,
}
use messenger_service_go.Message.Store.{get_configuration_by_class_id}
use messenger_service_go.Configuration.Kept.{Kept}
use messenger_service_go.Configuration.Effects.{classes, Answers}
use messenger_service_go.Configuration.Created.{created_is_stored}

bson-actions : (c : Configuration) → (bson_configuration c).actions ≡ c.actions
unfolding bson_configuration
bson-actions c = refl

module _ (B : Backend) (L : IsLawful B) (S : Settings) where
  missed :
      (k : String) (w : World B)
      → B.find_configuration k w.state ≡ none
      → get_configuration_by_class_id B k w ≡ (err (create_error not_found 100112), w)
  unfolding get_configuration_by_class_id
  missed k w e = ground (arith, e)

  delete_missed :
      (k : String) (w : World B)
      → get_configuration_by_class_id B k w ≡ (err (create_error not_found 100112), w)
      → delete_configuration_request B k w ≡ (err (create_error not_found 100112), w)
  unfolding delete_configuration_request
  delete_missed k w e = ground (arith, e)

  -- A class of which an action has a query or a body that is not empty is lost. Among classes that
  -- are valid and share no id and no class id, and where the reading of the class id did not fail:
  -- though its creation succeeds and stores it, its class id finds nothing; a deletion of it fails
  -- with the error 100112 and changes nothing; and the check for a class of its id lets another one
  -- through.
  pub undecodable_is_lost :
      (id : ObjectId) (now : Time) (request : CreateConfigurationRequest) (w : World B)
      {c : Configuration} {w' : World B}
      → create_configuration_request B S id now request w ≡ (ok c, w')
      → Kept (classes B L w)
      → Answers B L request.class_id w
      → decodes c.actions ≡ false
      → (first_class request.class_id (classes B L w') ≡ some (bson_configuration c))
        × (B.find_configuration request.class_id w'.state ≡ none)
        × (delete_configuration_request B request.class_id w'
            ≡ (err (create_error not_found 100112), w'))
        × (check_class_id_exists B request.class_id w' ≡ (ok tt, w'))
  unfolding check_class_id_exists
  undecodable_is_lost id now request w {c} {w'} e kept asked bad =
      let (view, _, _, _, _) =
        created_is_stored B L S id now request w {c = c} {w' = w'} e kept asked in
      let there : first_class request.class_id (classes B L w') ≡ some (bson_configuration c) =
        ground (arith, view request.class_id, eq_refl request.class_id) in
      let lost : B.find_configuration request.class_id w'.state ≡ none =
        elim (Option-cases (B.find_configuration request.class_id w'.state)) [
          | inl p ↦ p
          | inr (d, p) ↦
              let (listed, fine) =
                L.find_configuration-catalog request.class_id {c = d} {s = w'.state} p in
              absurd (ground (arith, listed, fine, there, bad, bson-actions c))
        ] in
      (
        there,
        lost,
        delete_missed request.class_id w' (missed request.class_id w' lost),
        ground (arith, lost),
      )
