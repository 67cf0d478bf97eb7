-- ===== src/Configuration/Created.antt =====
-- A class that was created: `CreateConfiguration` of src/restful/services/configuration.go.
use messenger_service_go.Prelude.{◌≡◌, String, ◌==◌, none, some, arith, if◌then◌else◌}
use messenger_service_go.Go.{ok}
use messenger_service_go.Models.{ObjectId, Time, Configuration, CreateConfigurationRequest}
use messenger_service_go.Backend.{Backend, IsLawful, bson_configuration, first_class}
use messenger_service_go.World.{World}
use messenger_service_go.Configuration.Settings.{Settings}
use messenger_service_go.Configuration.Create.{create_configuration_request}
use messenger_service_go.Configuration.Creation.{create_written}
use messenger_service_go.Configuration.Kept.{
  ClassIsValid, Kept, Kept-AllValid, Kept-subst, insert-Kept,
}
use messenger_service_go.Configuration.View.{first_class-insert}
use messenger_service_go.Configuration.Effects.{classes, Answers}

module _ (B : Backend) (L : IsLawful B) (S : Settings) (id : ObjectId) (now : Time)
    (request : CreateConfigurationRequest) where
  pub created_is_stored :
      (w : World B) {c : Configuration} {w' : World B}
      → create_configuration_request B S id now request w ≡ (ok c, w')
      → Kept (classes B L w)
      → Answers B L request.class_id w
      → ((j : String)
          → first_class j (classes B L w') ≡ (
              if request.class_id == j
              then some (bson_configuration c)
              else first_class j (classes B L w)))
        × (c.class_id ≡ request.class_id)
        × (first_class request.class_id (classes B L w) ≡ none)
        × ClassIsValid c
        × Kept (classes B L w')
  created_is_stored w {c} {w'} e kept asked =
      let (named, fresh, v, new_id, added) =
        create_written B L S id now request w {c = c} {w' = w'} e
          (Kept-AllValid (classes B L w) kept) in
      let unlisted : first_class c.class_id (classes B L w) ≡ none =
        ground (arith, fresh, named, asked) in
      (
        λ j. ground (arith, named, added, first_class-insert c (classes B L w) j unlisted),
        named,
        ground (arith, fresh, asked),
        v,
        Kept-subst added (insert-Kept c (classes B L w) v new_id unlisted kept),
      )

  -- Among stored classes that are valid and share no id and no class id: a creation that succeeds,
  -- and whose reading of the class id did not fail, was of a class id that no class has. The class
  -- is valid; it is stored under its class id, with its times rounded to milliseconds, and under
  -- every other class id what was stored before. The classes are still valid and share no id and no
  -- class id. A class id whose reading fails neither before nor after finds the class, if it is the
  -- class's, and what it found before otherwise.
  pub created_is_found :
      (w : World B) {c : Configuration} {w' : World B} (k : String)
      → create_configuration_request B S id now request w ≡ (ok c, w')
      → Kept (classes B L w)
      → Answers B L request.class_id w
      → Answers B L k w
      → Answers B L k w'
      → (c.class_id ≡ request.class_id)
        × (first_class request.class_id (classes B L w) ≡ none)
        × ClassIsValid c
        × Kept (classes B L w')
        × ((j : String)
            → first_class j (classes B L w') ≡ (
                if request.class_id == j
                then some (bson_configuration c)
                else first_class j (classes B L w)))
        × (B.find_configuration k w'.state ≡ (
            if request.class_id == k
            then some (bson_configuration c)
            else B.find_configuration k w.state))
  created_is_found w {c} {w'} k e kept asked before after =
      let (view, named, unlisted, v, kept') = created_is_stored w {c = c} {w' = w'} e kept asked in
      (named, unlisted, v, kept', view, ground (arith, before, after, view k))
