-- ===== src/Scenes/Copy.antt =====
-- `copySceneRelation` of src/restful/services/scenes.go: the classes, the templates and the scenes of an
-- application are copied to another one.
use messenger_service_go.Prelude.{ℕ, suc, String, ◌<>◌, Bool, List, [], ◌∷◌, map, if◌then◌else◌}
use messenger_service_go.Go.{ok, err, internal}
use messenger_service_go.Go.Exec.{Exec, pure, fail, ◌>>=◌, ◌>>◌}
use messenger_service_go.Common.{contains, create_error}
use messenger_service_go.Models.{ObjectId, Configuration, Template, SceneRelation}
use messenger_service_go.Backend.{bson_time}
use messenger_service_go.Scenes.Collection.{Cursor, documents, find_error, decode_error, Collection}

-- `id + fmt.Sprintf("-%v", newAppId)`
abbrev pub renamed : String → String → String
renamed id new_app_id = id <> ("-" <> new_app_id)

abbrev pub class_copy : String → ObjectId → Configuration → Configuration
class_copy new_app_id id c = record c {
  id = id;
  class_id = renamed c.class_id new_app_id;
  app_id = new_app_id;
}

abbrev pub template_copy : String → ObjectId → Template → Template
template_copy new_app_id id t = record t {
  id = id;
  message_template_id = renamed t.message_template_id new_app_id;
  app_id = new_app_id;
}

abbrev pub relation_copy : String → SceneRelation → SceneRelation
relation_copy new_app_id r = record r {
  app_id = new_app_id;
  config_id = renamed r.config_id new_app_id;
  template_id = renamed r.template_id new_app_id;
}

-- A relation after its insertion and decoding.
unfoldable pub bson_relation : SceneRelation → SceneRelation
bson_relation r = record r {
  created_at = bson_time r.created_at;
  updated_at = bson_time r.updated_at;
}

-- The three loops. `ids` is what `primitive.NewObjectID` returns from the n-th call on.
unfoldable pub class_copies :
    List String → String → (ℕ → ObjectId) → ℕ → List Configuration → List Configuration
class_copies exist new_app_id ids n [] = []
class_copies exist new_app_id ids n (c ∷ cs) =
    let rest = class_copies exist new_app_id ids (suc n) cs in
    if contains exist (renamed c.class_id new_app_id)
    then rest
    else class_copy new_app_id (ids n) c ∷ rest

unfoldable pub template_copies :
    List String → String → (ℕ → ObjectId) → ℕ → List Template → List Template
template_copies exist new_app_id ids n [] = []
template_copies exist new_app_id ids n (t ∷ ts) =
    let rest = template_copies exist new_app_id ids (suc n) ts in
    if contains exist (renamed t.message_template_id new_app_id)
    then rest
    else template_copy new_app_id (ids n) t ∷ rest

unfoldable pub relation_copies : List String → String → List SceneRelation → List SceneRelation
relation_copies exist new_app_id [] = []
relation_copies exist new_app_id (r ∷ rs) =
    let rest = relation_copies exist new_app_id rs in
    if contains exist r.scene_id then rest else relation_copy new_app_id r ∷ rest

-- The state of the three collections.
pub record Stores (CC : Collection Configuration) (CT : Collection Template)
    (CR : Collection SceneRelation) : Type 0 where
  pub classes : CC.State
  pub templates : CT.State
  pub relations : CR.State

module _ (CC : Collection Configuration) (CT : Collection Template)
    (CR : Collection SceneRelation) where
  abbrev pub All3 : Type 0
  All3 = Stores CC CT CR

  -- A cursor that is read until `cursor.Next` is false.
  abbrev pub read_cursor : {A : Type 0} → Cursor A → Exec All3 (List A)
  read_cursor (documents xs) = pure xs
  read_cursor find_error = fail (create_error internal 1001)
  read_cursor decode_error = fail (create_error internal 1000)

  -- The three `DeleteMany`, whose errors are not looked at.
  unfoldable pub wipe : String → All3 → All3
  wipe app_id s = record {
    classes = (CC.delete_many app_id s.classes).1;
    templates = (CT.delete_many app_id s.templates).1;
    relations = (CR.delete_many app_id s.relations).1;
  }

  -- The classes, the templates and the scenes of an application are read in this order.
  unfoldable pub read_app :
      String → Exec All3 (List Configuration × List Template × List SceneRelation)
  read_app app_id s =
      (do
        cs ← read_cursor (CC.find app_id s.classes)
        ts ← read_cursor (CT.find app_id s.templates)
        rs ← read_cursor (CR.find app_id s.relations)
        pure (cs, ts, rs))
        s

  -- The names that the new application has: none after the deletion that `forceUpdate` asks for.
  unfoldable pub existing : Bool → String → Exec All3 (List String × List String × List String)
  unfolding wipe read_app
  existing force_update new_app_id s =
      if force_update
      then (ok ([], [], []), wipe new_app_id s)
      else ((do
        (cs, ts, rs) ← read_app new_app_id
        pure (
          map (λ c. c.class_id) cs,
          map (λ t. t.message_template_id) ts,
          map (λ r. r.scene_id) rs,
        ))
          s)

  -- `InsertMany` into one collection, unless there is nothing to insert; a failure wipes the new
  -- application.
  unfoldable pub insert_classes : String → List Configuration → Exec All3 (Unit {0})
  unfolding wipe
  insert_classes new_app_id [] s = (ok tt, s)
  insert_classes new_app_id (c ∷ cs) s =
      let (done, classes) = CC.insert_many (c ∷ cs) s.classes in
      if done
      then (ok tt, record s { classes = classes })
      else (err (create_error internal 1001), wipe new_app_id (record s { classes = classes }))

  unfoldable pub insert_templates : String → List Template → Exec All3 (Unit {0})
  unfolding wipe
  insert_templates new_app_id [] s = (ok tt, s)
  insert_templates new_app_id (t ∷ ts) s =
      let (done, templates) = CT.insert_many (t ∷ ts) s.templates in
      if done
      then (ok tt, record s { templates = templates })
      else (err (create_error internal 1001), wipe new_app_id (record s { templates = templates }))

  unfoldable pub insert_relations : String → List SceneRelation → Exec All3 (Unit {0})
  unfolding wipe
  insert_relations new_app_id [] s = (ok tt, s)
  insert_relations new_app_id (r ∷ rs) s =
      let (done, relations) = CR.insert_many (r ∷ rs) s.relations in
      if done
      then (ok tt, record s { relations = relations })
      else (err (create_error internal 1001), wipe new_app_id (record s { relations = relations }))

  -- What is read of the old application, as the copies to insert.
  unfoldable pub copies :
      (ℕ → ObjectId)
      → (ℕ → ObjectId)
      → String
      → String
      → List String × List String × List String
      → Exec All3 (List Configuration × List Template × List SceneRelation)
  unfolding class_copies template_copies relation_copies read_app
  copies class_ids template_ids old_app_id new_app_id (exist_configs, exist_templates, exist_scenes)
        s =
      (do
        (cs, ts, rs) ← read_app old_app_id
        pure (
          class_copies exist_configs new_app_id class_ids 0 cs,
          template_copies exist_templates new_app_id template_ids 0 ts,
          relation_copies exist_scenes new_app_id rs,
        ))
        s

  unfoldable pub insert_all :
      String → List Configuration × List Template × List SceneRelation → Exec All3 (Unit {0})
  unfolding insert_classes insert_templates insert_relations
  insert_all new_app_id (cs, ts, rs) = do
    insert_classes new_app_id cs
    insert_templates new_app_id ts
    insert_relations new_app_id rs

  -- `copySceneRelation`
  unfoldable pub copy_scene_relation :
      (ℕ → ObjectId) → (ℕ → ObjectId) → String → String → Bool → Exec All3 (Unit {0})
  unfolding existing copies insert_all
  copy_scene_relation class_ids template_ids old_app_id new_app_id force_update = do
    exist ← existing force_update new_app_id
    all ← copies class_ids template_ids old_app_id new_app_id exist
    insert_all new_app_id all
