-- ===== src/Backend/Defs.antt =====
-- The interface to MongoDB and Redis, and its laws.
use mathlib.Core.Option
use messenger_service_go.Prelude.{
  String, ◌≡◌, true, false, Option, none, some, [], ◌∷◌, ◌++◌, eqb, if◌then◌else◌,
}
use messenger_service_go.Models.{ObjectId, Configuration, Message, Template}
use messenger_service_go.Backend.Documents.{
  Key, key_eq, Value, Reply, bson_message, decodes, StatusUpdate, apply_update, bson_configuration,
  ConfigurationUpdate, bson_template, TemplateUpdate, Catalog, first_class, first_template,
  has_class, has_template, set_class_at, drop_class_at, set_template_at, drop_template_at, found,
}

pub record Backend : Type 1 where
  pub State : Type 0
  pub redis_get : Key → State → Reply
  pub redis_set : Key → Value → State → Option State
  pub redis_del : Key → State → Option State
  pub find_message : ObjectId → State → Option Message
  pub insert_message : Message → State → Option State
  pub update_message : ObjectId → StatusUpdate → State → Option State
  pub find_configuration : String → State → Option Configuration
  pub insert_configuration : Configuration → State → Option State
  pub update_configuration : ObjectId → ConfigurationUpdate → State → Option State
  pub delete_configuration : ObjectId → State → Option State
  pub find_template : String → State → Option Template
  pub insert_template : Template → State → Option State
  pub update_template : ObjectId → TemplateUpdate → State → Option State
  pub delete_template : ObjectId → State → Option State
  -- what the collections hold
  pub catalog : State → Catalog
  -- `primitive.ObjectIDFromHex` and `Hex`
  pub object_id_from_hex : String → Option ObjectId
  pub hex : ObjectId → String

-- What was written is read, and nothing else is changed by the write.
pub record IsLawful (B : Backend) : Type 0 where
  pub get-set :
      (k j : Key) (v : Value) {s s' : B.State}
      → B.redis_set k v s ≡ some s'
      → B.redis_get j s' ≡ (if key_eq k j then found v else B.redis_get j s)
  pub find-set :
      (k : Key) (v : Value) (i : ObjectId) {s s' : B.State}
      → B.redis_set k v s ≡ some s'
      → B.find_message i s' ≡ B.find_message i s
  pub find-insert :
      (m : Message) (i : ObjectId) {s s' : B.State}
      → B.insert_message m s ≡ some s'
      → B.find_message i s' ≡ (if eqb m.id i then some (bson_message m) else B.find_message i s)
  -- `_id` is unique
  pub insert-fresh :
      (m : Message) {s s' : B.State} → B.insert_message m s ≡ some s' → B.find_message m.id s ≡ none
  pub find-id : (i : ObjectId) {m : Message} {s : B.State} → B.find_message i s ≡ some m → m.id ≡ i
  pub get-insert :
      (m : Message) (k : Key) {s s' : B.State}
      → B.insert_message m s ≡ some s'
      → B.redis_get k s' ≡ B.redis_get k s
  pub find-update :
      (i j : ObjectId) (u : StatusUpdate) {s s' : B.State}
      → B.update_message i u s ≡ some s'
      → B.find_message j s'
        ≡ (if eqb i j then Option.map (apply_update u) (B.find_message j s) else B.find_message j s)
  pub get-update :
      (i : ObjectId) (u : StatusUpdate) (k : Key) {s s' : B.State}
      → B.update_message i u s ≡ some s'
      → B.redis_get k s' ≡ B.redis_get k s
  pub catalog-set :
      (k : Key) (v : Value) {s s' : B.State}
      → B.redis_set k v s ≡ some s'
      → B.catalog s' ≡ B.catalog s
  pub catalog-del :
      (k : Key) {s s' : B.State} → B.redis_del k s ≡ some s' → B.catalog s' ≡ B.catalog s
  -- A class that is read is the first of its class id, and could be decoded. A reading may also fail.
  pub find_configuration-catalog :
      (k : String) {c : Configuration} {s : B.State}
      → B.find_configuration k s ≡ some c
      → (first_class k (B.catalog s).configurations ≡ some c) × (decodes c.actions ≡ true)
  pub catalog-insert_configuration :
      (c : Configuration) {s s' : B.State}
      → B.insert_configuration c s ≡ some s'
      → B.catalog s' ≡ record (B.catalog s) {
        configurations = (B.catalog s).configurations ++ (bson_configuration c ∷ []);
      }
  -- `_id` is unique
  pub has_class-insert_configuration :
      (c : Configuration) {s s' : B.State}
      → B.insert_configuration c s ≡ some s'
      → has_class c.id (B.catalog s).configurations ≡ false
  pub catalog-update_configuration :
      (i : ObjectId) (u : ConfigurationUpdate) {s s' : B.State}
      → B.update_configuration i u s ≡ some s'
      → B.catalog s'
        ≡ record (B.catalog s) { configurations = set_class_at i u (B.catalog s).configurations }
  pub catalog-delete_configuration :
      (i : ObjectId) {s s' : B.State}
      → B.delete_configuration i s ≡ some s'
      → B.catalog s'
        ≡ record (B.catalog s) { configurations = drop_class_at i (B.catalog s).configurations }
  pub find_template-catalog :
      (k : String) {t : Template} {s : B.State}
      → B.find_template k s ≡ some t
      → first_template k (B.catalog s).templates ≡ some t
  pub catalog-insert_template :
      (t : Template) {s s' : B.State}
      → B.insert_template t s ≡ some s'
      → B.catalog s'
        ≡ record (B.catalog s) { templates = (B.catalog s).templates ++ (bson_template t ∷ []) }
  pub has_template-insert_template :
      (t : Template) {s s' : B.State}
      → B.insert_template t s ≡ some s'
      → has_template t.id (B.catalog s).templates ≡ false
  pub catalog-update_template :
      (i : ObjectId) (u : TemplateUpdate) {s s' : B.State}
      → B.update_template i u s ≡ some s'
      → B.catalog s'
        ≡ record (B.catalog s) { templates = set_template_at i u (B.catalog s).templates }
  pub catalog-delete_template :
      (i : ObjectId) {s s' : B.State}
      → B.delete_template i s ≡ some s'
      → B.catalog s'
        ≡ record (B.catalog s) { templates = drop_template_at i (B.catalog s).templates }
