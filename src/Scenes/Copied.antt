-- ===== src/Scenes/Copied.antt =====
-- What `copySceneRelation` of src/restful/services/scenes.go leaves in the collections.
use messenger_service_go.Prelude.{
  ◌≡◌, refl, ◌⊎◌, ℕ, suc, String, eq_refl, List, [], ◌∷◌, ◌++◌, map, arith,
}
use messenger_service_go.Go.{Result, ok, err, internal}
use messenger_service_go.Common.{create_error}
use messenger_service_go.Models.{ObjectId, Configuration, Template, SceneRelation}
use messenger_service_go.Backend.{bson_configuration, bson_template}
use messenger_service_go.Scenes.Collection.{Collection, IsCollection, without_app, AllOf}
use messenger_service_go.Scenes.Copy.{
  class_copies, template_copies, relation_copies, bson_relation, All3, wipe,
}

-- What is copied is of the new application.
pub class_copies-AllOf :
    (exist : List String) (new_app_id : String) (ids : ℕ → ObjectId) (n : ℕ)
    (cs : List Configuration)
    → AllOf (λ c. c.app_id) new_app_id (class_copies exist new_app_id ids n cs)
unfolding class_copies
class_copies-AllOf exist new_app_id ids n [] = tt
class_copies-AllOf exist new_app_id ids n (c ∷ cs) =
    ground (arith, class_copies-AllOf exist new_app_id ids (suc n) cs, eq_refl new_app_id)

pub template_copies-AllOf :
    (exist : List String) (new_app_id : String) (ids : ℕ → ObjectId) (n : ℕ) (ts : List Template)
    → AllOf (λ t. t.app_id) new_app_id (template_copies exist new_app_id ids n ts)
unfolding template_copies
template_copies-AllOf exist new_app_id ids n [] = tt
template_copies-AllOf exist new_app_id ids n (t ∷ ts) =
    ground (arith, template_copies-AllOf exist new_app_id ids (suc n) ts, eq_refl new_app_id)

pub relation_copies-AllOf :
    (exist : List String) (new_app_id : String) (rs : List SceneRelation)
    → AllOf (λ r. r.app_id) new_app_id (relation_copies exist new_app_id rs)
unfolding relation_copies
relation_copies-AllOf exist new_app_id [] = tt
relation_copies-AllOf exist new_app_id (r ∷ rs) =
    ground (arith, relation_copies-AllOf exist new_app_id rs, eq_refl new_app_id)

pub class_app : (c : Configuration) → (bson_configuration c).app_id ≡ c.app_id
unfolding bson_configuration
class_app c = refl

pub template_app : (t : Template) → (bson_template t).app_id ≡ t.app_id
unfolding bson_template
template_app t = refl

pub relation_app : (r : SceneRelation) → (bson_relation r).app_id ≡ r.app_id
unfolding bson_relation
relation_app r = refl

module _ (CC : Collection Configuration) (CT : Collection Template) (CR : Collection SceneRelation)
    (LC : IsCollection (λ c. c.app_id) bson_configuration CC)
    (LT : IsCollection (λ t. t.app_id) bson_template CT)
    (LR : IsCollection (λ r. r.app_id) bson_relation CR) where
  -- The documents of other applications are the same.
  abbrev pub Spared : String → All3 CC CT CR → All3 CC CT CR → Type 0
  Spared a s s' =
      (without_app (λ c. c.app_id) a (CC.contents s'.classes)
        ≡ without_app (λ c. c.app_id) a (CC.contents s.classes))
      × (without_app (λ t. t.app_id) a (CT.contents s'.templates)
          ≡ without_app (λ t. t.app_id) a (CT.contents s.templates))
      × (without_app (λ r. r.app_id) a (CR.contents s'.relations)
          ≡ without_app (λ r. r.app_id) a (CR.contents s.relations))

  -- The three deletions were made, with or without an error, in collections that differed from the
  -- first at most in documents of the application.
  abbrev pub Wiped : String → All3 CC CT CR → All3 CC CT CR → Type 0
  Wiped a s s' = (t : All3 CC CT CR) × Spared a s t × (s' ≡ wipe CC CT CR a t)

  -- The documents were added at the end, as they are stored.
  abbrev pub Added :
      List Configuration
      → List Template
      → List SceneRelation
      → All3 CC CT CR
      → All3 CC CT CR
      → Type 0
  Added cs ts rs s s' =
      (CC.contents s'.classes ≡ CC.contents s.classes ++ map bson_configuration cs)
      × (CT.contents s'.templates ≡ CT.contents s.templates ++ map bson_template ts)
      × (CR.contents s'.relations ≡ CR.contents s.relations ++ map bson_relation rs)

  -- How an insertion ends: the documents were added, or the deletions were made.
  abbrev pub InsertEnd :
      String
      → List Configuration
      → List Template
      → List SceneRelation
      → All3 CC CT CR
      → Result (Unit {0}) × All3 CC CT CR
      → Type 0
  InsertEnd a cs ts rs s (end, s') =
      ((end ≡ ok tt) × Added cs ts rs s s')
      ⊎ ((end ≡ err (create_error internal 1001)) × Wiped a s s')
