-- ===== src/Tests/Scenes.antt =====
-- Tests of the copy of an application and of the requests on scenes.
use mathlib.Core.Path.{Path}
use messenger_service_go.Prelude.{
  ◌+◌, ℕ, ◌≡◌, refl, String, true, false, none, List, [], ◌∷◌, ◌++◌, map, take, length, ap, arith,
  ◌⊎◌,
}
use messenger_service_go.Go.{Error, ok, err}
use messenger_service_go.Common.{create_error}
use messenger_service_go.Models.{Configuration, Template, SceneRelation}
use messenger_service_go.Backend.{bson_configuration, bson_template}
use messenger_service_go.Backend.Memory.{memory_backend}
use messenger_service_go.Scenes.Collection.{
  Collection, IsCollection, Cursor, documents, of_app, without_app,
}
use messenger_service_go.Scenes.Copy.{bson_relation, All3, read_app, copy_scene_relation}
use messenger_service_go.Scenes.Whole.{Emptied, self_copy_loses}
use messenger_service_go.Scenes.Sending.{no_relation}
use messenger_service_go.Tests.Data.{alerts, external}

-- A collection as a list.
abbrev listed : {A : Type 0} → (A → String) → (A → A) → Collection A
listed {A = A} app stored = record {
  State = List A;
  find = λ a s. documents (of_app app a s);
  insert_many = λ xs s. (true, s ++ map stored xs);
  delete_many = λ a s. (true, without_app app a s);
  contents = λ s. s;
}

take-length : {A : Type 0} (xs : List A) → xs ≡ take (length xs) xs
take-length [] = refl
take-length (x ∷ xs) = ap (λ t. x ∷ t) (take-length xs)

all_read :
    {A : Type 0} (app : A → String) (a : String) (s xs : List A)
    → Path (Cursor A) (documents (of_app app a s)) (documents xs)
    → (n : ℕ) × (xs ≡ take n (of_app app a s))
all_read app a s xs e = (length xs, ground (arith, e, take-length xs))

listed-IsCollection :
    {A : Type 0} (app : A → String) (stored : A → A) → IsCollection app stored (listed app stored)
listed-IsCollection app stored = record {
  find_contents = λ a s xs e. all_read app a s xs e;
  inserted = λ xs s s' e. ground (arith, e);
  inserted_some = λ xs s s' e. absurd (ground (arith, e));
  deleted = λ a s s' e. ground (arith, e);
}

abbrev class_list : Collection Configuration
class_list = listed (λ c. c.app_id) bson_configuration

abbrev template_list : Collection Template
template_list = listed (λ t. t.app_id) bson_template

abbrev relation_list : Collection SceneRelation
relation_list = listed (λ r. r.app_id) bson_relation

abbrev relation : SceneRelation
relation = record (no_relation memory_backend external (λ i a s. none)) {
  scene_id = "s";
  config_id = "c";
  app_id = "app";
}

abbrev stores : All3 class_list template_list relation_list
stores = record { classes = alerts ∷ []; templates = []; relations = relation ∷ [] }

abbrev emptied : All3 class_list template_list relation_list
emptied = record { classes = []; templates = []; relations = [] }

self_copy_loses_example :
    (let (end, s') =
        copy_scene_relation class_list template_list relation_list
          (λ n. n)
          (λ n. n)
          "app"
          "app"
          true
          stores in
      Emptied class_list template_list relation_list
        (listed-IsCollection (λ c. c.app_id) bson_configuration)
        (listed-IsCollection (λ t. t.app_id) bson_template)
        (listed-IsCollection (λ r. r.app_id) bson_relation)
        "app"
        stores
        s'
      × ((end ≡ ok tt)
          ⊎ ((e : Error) × (end ≡ err e)
              × (read_app class_list template_list relation_list "app" emptied
                  ≡ (err e, emptied)))))
unfolding without_app
self_copy_loses_example =
    self_copy_loses class_list template_list relation_list
      (listed-IsCollection (λ c. c.app_id) bson_configuration)
      (listed-IsCollection (λ t. t.app_id) bson_template)
      (listed-IsCollection (λ r. r.app_id) bson_relation) (λ n. n) (λ n. n) "app" stores emptied
      refl refl refl

-- A copy adds the class under its new name, and the relation with so changed names.
copies_alerts :
    (copy_scene_relation class_list template_list relation_list
      (λ n. n + 200)
      (λ n. n + 300)
      "app"
      "new"
      false
      stores).1
    ≡ record stores {
      classes = alerts ∷ record alerts { id = 200; class_id = "c-new"; app_id = "new" } ∷ [];
      relations =
          relation
          ∷ record relation { config_id = "c-new"; template_id = "-new"; app_id = "new" }
          ∷ [];
    }
unfolding copy_scene_relation of_app messenger_service_go.Common.contains bson_configuration
    bson_relation
copies_alerts = refl
