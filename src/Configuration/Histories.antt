-- ===== src/Configuration/Histories.antt =====
-- Any sequence of requests on classes (src/restful/services/configuration.go), as moves of a map from
-- class ids to classes.
use mathlib.Core.Path.{subst}
use messenger_service_go.Prelude.{
  Bool, true, false, sym, ◌≡◌, refl, ap, String, ◌==◌, Option, none, some, List, [], ◌∷◌, arith,
  if◌then◌else◌, inl, inr, eq_refl,
}
use messenger_service_go.Go.{Result, ok, err, panic}
use messenger_service_go.Models.{
  ObjectId, Time, Configuration, CreateConfigurationRequest, UpdateConfigurationRequest,
}
use messenger_service_go.Backend.{Backend, IsLawful, Catalog, bson_configuration, first_class}
use messenger_service_go.World.{World}
use messenger_service_go.Configuration.Settings.{Settings}
use messenger_service_go.Configuration.Customs.{customs_of}
use messenger_service_go.Configuration.Create.{
  create_configuration_request, update_configuration_request, delete_configuration_request,
}
use messenger_service_go.Configuration.Kept.{ClassIsValid, Kept, Kept-AllValid, Kept-subst}
use messenger_service_go.Configuration.Effects.{
  classes, Answers, fails, first_class-ClassIsValid, create-FailureKeeps,
}
use messenger_service_go.Configuration.Created.{created_is_stored}
use messenger_service_go.Configuration.Changed.{update-FailureKeeps}
use messenger_service_go.Configuration.Updated.{kept_update, updated_class_is_stored}
use messenger_service_go.Configuration.Runs.{deleted_is_gone}

pub data ClassRequest : Type 0 where
  create : ObjectId → Time → CreateConfigurationRequest → ClassRequest
  update : Time → UpdateConfigurationRequest → String → ClassRequest
  delete : String → ClassRequest

abbrev pub Classes : Type 0
Classes = String → Option Configuration

-- What is never changed of a class.
abbrev pub SameOrigin : Configuration → Configuration → Type 0
SameOrigin c d =
    (d.id ≡ c.id)
    × (d.class_id ≡ c.class_id)
    × (d.parent_id ≡ c.parent_id)
    × (d.persist ≡ c.persist)
    × (d.status_callbacks ≡ c.status_callbacks)
    × (customs_of d ≡ customs_of c)
    × (d.created_at ≡ c.created_at)

-- The class id that a request names.
abbrev pub named : ClassRequest → String
named (create id now request) = request.class_id
named (update now request id) = id
named (delete id) = id

-- What a request may do to the map, by whether it fails. One that fails may leave it as it is. A
-- creation that succeeds puts a valid class under the class id it names, which was free; an update
-- that succeeds changes the class under the class id it names to a valid one of the same origin; a
-- deletion takes the class id it names out, even if it fails.
pub data Move (f g : Classes) : ClassRequest → Bool → Type 0 where
  stays : (r : ClassRequest) → ((k : String) → g k ≡ f k) → Move f g r true
  comes :
      (id : ObjectId) (now : Time) (request : CreateConfigurationRequest) (c : Configuration)
      → ClassIsValid c
      → c.class_id ≡ request.class_id
      → f request.class_id ≡ none
      → ((k : String) → g k ≡ (if request.class_id == k then some c else f k))
      → Move f g (create id now request) false
  changes :
      (now : Time) (request : UpdateConfigurationRequest) (id : String) (c d : Configuration)
      → f id ≡ some c
      → ClassIsValid d
      → SameOrigin c d
      → ((k : String) → g k ≡ (if id == k then some d else f k))
      → Move f g (update now request id) false
  goes :
      (id : String) (failed : Bool)
      → ((k : String) → g k ≡ (if id == k then none else f k))
      → Move f g (delete id) failed

pub bson-ClassIsValid : (c : Configuration) → ClassIsValid c → ClassIsValid (bson_configuration c)
unfolding bson_configuration
bson-ClassIsValid c v = record {
  states_hold_deleted = v.states_hold_deleted;
  known_type = v.known_type;
  known_mode = v.known_mode;
  valid_actions = v.valid_actions;
}

bson-class_id : (c : Configuration) → (bson_configuration c).class_id ≡ c.class_id
unfolding bson_configuration
bson-class_id c = refl

module _ (B : Backend) (S : Settings) where
  -- The world after a request, however it ends.
  abbrev pub handle : ClassRequest → World B → World B
  handle (create id now request) w = (create_configuration_request B S id now request w).1
  handle (update now request id) w = (update_configuration_request B S now request id w).1
  handle (delete id) w = (delete_configuration_request B id w).1

  abbrev pub handle_all : List ClassRequest → World B → World B
  handle_all [] w = w
  handle_all (r ∷ rs) w = handle_all rs (handle r w)

  module _ (L : IsLawful B) where
    -- What is stored under each class id.
    abbrev pub stored_classes : World B → Classes
    stored_classes w = λ k. first_class k (classes B L w)

    -- Whether a request fails.
    abbrev pub failed : ClassRequest → World B → Bool
    failed (create id now request) w =
        fails B L (create_configuration_request B S id now request w).0
    failed (update now request id) w =
        fails B L (update_configuration_request B S now request id w).0
    failed (delete id) w = fails B L (delete_configuration_request B id w).0

    unchanged :
        (r : ClassRequest) (w w' : World B)
        → B.catalog w'.state ≡ B.catalog w.state
        → Kept (classes B L w)
        → Kept (classes B L w') × Move (stored_classes w) (stored_classes w') r true
    unchanged r w w' same kept = (
      Kept-subst (ap (λ (x : Catalog). x.configurations) same) kept,
      stays r (λ k. ground (arith, same)),
    )

    -- From valid classes that share no id and no class id, every request for which the reading of the
    -- class id it names does not fail leaves such classes. If it fails, the stored classes are what
    -- they were, or it was a deletion and the class id is out; if it succeeds, the class id it names
    -- is new and leads to a valid class, leads to a valid class of the same origin as before, or is
    -- out, according to whether it was a creation, an update or a deletion; and every other class id
    -- leads to what it led to.
    pub handle-Move :
        (r : ClassRequest) (w : World B)
        → Kept (classes B L w)
        → Answers B L (named r) w
        → Kept (classes B L (handle r w))
          × Move (stored_classes w) (stored_classes (handle r w)) r (failed r w)
    handle-Move (create id now request) w kept asked =
        go (create_configuration_request B S id now request w) refl
      where
        go :
            (p : Result Configuration × World B)
            → create_configuration_request B S id now request w ≡ p
            → Kept (classes B L p.1)
              × Move (stored_classes w) (stored_classes p.1) (create id now request) (fails B L p.0)
        go (ok c, w') e =
            let (view, same, unlisted, v, kept') =
              created_is_stored B L S id now request w {c = c} {w' = w'} e kept asked in
            (
              kept',
              comes id now request (bson_configuration c) (bson-ClassIsValid c v)
                  (ground (arith, same, bson-class_id c)) unlisted view,
            )
        go (err x, w') e =
            unchanged (create id now request) w w'
              (ground (arith, e, create-FailureKeeps B L S id now request w)) kept
        go (panic, w') e =
            unchanged (create id now request) w w'
              (ground (arith, e, create-FailureKeeps B L S id now request w)) kept
    handle-Move (update now request id) w kept asked =
        go (update_configuration_request B S now request id w) refl
      where
        go :
            (p : Result Configuration × World B)
            → update_configuration_request B S now request id w ≡ p
            → Kept (classes B L p.1)
              × Move (stored_classes w) (stored_classes p.1) (update now request id) (fails B L p.0)
        go (ok c, w') e =
            let (class, at, chosen, view, kept') =
              updated_class_is_stored B L S now request id w {c = c} {w' = w'} e kept in
            let listed : first_class id (classes B L w') ≡ some (kept_update now class c) =
              ground (arith, view id, eq_refl id) in
            (
              kept',
              changes now request id class (kept_update now class c)
                  ((L.find_configuration-catalog id {c = class} {s = w.state} at).0)
                  (first_class-ClassIsValid id (classes B L w')
                    (Kept-AllValid (classes B L w') kept') listed)
                  (refl, refl, refl, refl, refl, refl, refl) view,
            )
        go (err x, w') e =
            unchanged (update now request id) w w'
              (ground (arith, e, update-FailureKeeps B L S now request id w)) kept
        go (panic, w') e =
            unchanged (update now request id) w w'
              (ground (arith, e, update-FailureKeeps B L S now request id w)) kept
    handle-Move (delete id) w kept asked = elim (deleted_is_gone B L id w kept) [
      | inl (f, same) ↦
          let (kept', stay) =
            unchanged (delete id) w (delete_configuration_request B id w).1 same kept in
          (
            kept',
            subst
                (λ b.
                  Move (stored_classes w) (stored_classes (delete_configuration_request B id w).1)
                    (delete id) b)
                (sym f) stay,
          )
      | inr (view, none_there, kept') ↦
          (kept', goes id (fails B L (delete_configuration_request B id w).0) view)
    ]
