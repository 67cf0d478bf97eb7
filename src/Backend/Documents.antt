-- ===== src/Backend/Documents.antt =====
-- The keys and the values of Redis, the documents as they are stored, and collections as lists.
use messenger_service_go.Prelude.{
  ◌*◌, ◌/◌, String, ◌==◌, Bool, true, false, ◌||◌, ◌&&◌, Option, none, some, List, [], ◌∷◌, eqb,
  if◌then◌else◌,
}
use messenger_service_go.Prelude.Maps.{Map}
use messenger_service_go.Models.{
  ObjectId, Time, Policy, ActionModel, Configuration, Message, Template, SceneRelation,
  FeishuConfigData, DingTalkConfigData,
}

-- The keys of Redis: a prefix of common.go and what follows it. No prefix begins another, so two
-- keys are the same text only if both parts agree.
pub data Key : Type 0 where
  message_key : ObjectId → Key
  user_messages_key : String → Key
  user_list_key : String → Key
  feishu_applications_key : String → Key
  ding_talk_applications_key : String → Key

abbrev pub key_eq : Key → Key → Bool
key_eq (message_key i) (message_key j) = eqb i j
key_eq (user_messages_key s) (user_messages_key t) = s == t
key_eq (user_list_key s) (user_list_key t) = s == t
key_eq (feishu_applications_key s) (feishu_applications_key t) = s == t
key_eq (ding_talk_applications_key s) (ding_talk_applications_key t) = s == t
key_eq _ _ = false

-- What the JSON text under a key is the encoding of.
pub data Value : Type 0 where
  message_json : Message → Value
  messages_json : List Message → Value
  user_map_json : Map (List String) → Value
  user_list_json : List String → Value
  feishu_json : FeishuConfigData → Value
  ding_talk_json : DingTalkConfigData → Value

-- An answer of `RedisGetStringCtx`: the value, `redis.Nil`, or another error.
pub data Reply : Type 0 where
  found : Value → Reply
  missing failed : Reply

-- The tag `omitempty` drops an empty map, which is read back as nil.
abbrev pub omit_empty : Option (Map String) → Option (Map String)
omit_empty none = none
omit_empty (some []) = none
omit_empty (some (e ∷ m)) = some (e ∷ m)

-- A message after `json.Marshal` and `json.Unmarshal`.
unfoldable pub json_message : Message → Message
json_message m = record m { status_sync = omit_empty m.status_sync }

-- A BSON date has milliseconds.
abbrev pub bson_time : Time → Time
bson_time t = t / 1000000 * 1000000

-- A message after its insertion into a collection and its decoding.
unfoldable pub bson_message : Message → Message
bson_message m = record m {
  status_sync = omit_empty m.status_sync;
  created_at = bson_time m.created_at;
  updated_at = bson_time m.updated_at;
}

-- The `$set` of `updateOneMessage`.
pub record StatusUpdate : Type 0 where
  pub status : String
  pub updated_at : Time
  pub status_sync : Option (Map String)

unfoldable pub apply_update : StatusUpdate → Message → Message
apply_update u m = record m {
  status = u.status;
  updated_at = bson_time u.updated_at;
  status_sync = u.status_sync;
}

-- The driver writes the query and the body of an action, but reads them only if they are empty: a
-- field of a `structpb.Value` is an interface, which it cannot decode.
abbrev pub is_empty : Option (Map String) → Bool
is_empty none = true
is_empty (some []) = true
is_empty (some (e ∷ m)) = false

unfoldable pub decodes : List ActionModel → Bool
decodes [] = true
decodes (a ∷ actions) = is_empty a.action.query && is_empty a.action.body && decodes actions

-- A class as it is stored. Whether it can be decoded is what `decodes` says.
unfoldable pub bson_configuration : Configuration → Configuration
bson_configuration c = record c {
  created_at = bson_time c.created_at;
  updated_at = bson_time c.updated_at;
}

-- The `$set` of `updateOneConfiguration`, and what it makes of a stored class.
pub record ConfigurationUpdate : Type 0 where
  pub class_id : String
  pub parent_id : String
  pub app_id : String
  pub name : String
  pub persist : Bool
  pub states : List String
  pub type : String
  pub mode : String
  pub status_callbacks : Policy
  pub actions : List ActionModel
  pub updated_at : Time

unfoldable pub set_configuration : ConfigurationUpdate → Configuration → Configuration
set_configuration u c = record c {
  class_id = u.class_id;
  parent_id = u.parent_id;
  app_id = u.app_id;
  name = u.name;
  persist = u.persist;
  states = u.states;
  type = u.type;
  mode = u.mode;
  status_callbacks = u.status_callbacks;
  actions = u.actions;
  updated_at = bson_time u.updated_at;
}

unfoldable pub bson_template : Template → Template
bson_template t = record t {
  created_at = bson_time t.created_at;
  updated_at = bson_time t.updated_at;
}

-- The `$set` of `updateOneTemplate`.
pub record TemplateUpdate : Type 0 where
  pub message_template_id : String
  pub name : String
  pub type : String
  pub params : List String
  pub content : String
  pub created_by : String
  pub language : String
  pub updated_at : Time

unfoldable pub set_template : TemplateUpdate → Template → Template
set_template u t = record t {
  message_template_id = u.message_template_id;
  name = u.name;
  type = u.type;
  params = u.params;
  content = u.content;
  created_by = u.created_by;
  language = u.language;
  updated_at = bson_time u.updated_at;
}

-- The collections besides that of the messages, in the order in which MongoDB gives them.
pub record Catalog : Type 0 where
  pub configurations : List Configuration
  pub templates : List Template
  pub relations : List SceneRelation

-- `FindOne` by the class id, and by the template id.
unfoldable pub first_class : String → List Configuration → Option Configuration
first_class k [] = none
first_class k (c ∷ cs) = if c.class_id == k then some c else first_class k cs

unfoldable pub first_template : String → List Template → Option Template
first_template k [] = none
first_template k (t ∷ ts) = if t.message_template_id == k then some t else first_template k ts

unfoldable pub has_class : ObjectId → List Configuration → Bool
has_class i [] = false
has_class i (c ∷ cs) = eqb i c.id || has_class i cs

unfoldable pub has_template : ObjectId → List Template → Bool
has_template i [] = false
has_template i (t ∷ ts) = eqb i t.id || has_template i ts

-- `UpdateOne` and `DeleteOne` by `_id`, which is unique.
unfoldable pub set_class_at :
    ObjectId → ConfigurationUpdate → List Configuration → List Configuration
unfolding set_configuration
set_class_at i u [] = []
set_class_at i u (c ∷ cs) =
    let rest = set_class_at i u cs in if eqb i c.id then set_configuration u c ∷ cs else c ∷ rest

unfoldable pub drop_class_at : ObjectId → List Configuration → List Configuration
drop_class_at i [] = []
drop_class_at i (c ∷ cs) = let rest = drop_class_at i cs in if eqb i c.id then cs else c ∷ rest

unfoldable pub set_template_at : ObjectId → TemplateUpdate → List Template → List Template
unfolding set_template
set_template_at i u [] = []
set_template_at i u (t ∷ ts) =
    let rest = set_template_at i u ts in if eqb i t.id then set_template u t ∷ ts else t ∷ rest

unfoldable pub drop_template_at : ObjectId → List Template → List Template
drop_template_at i [] = []
drop_template_at i (t ∷ ts) =
    let rest = drop_template_at i ts in if eqb i t.id then ts else t ∷ rest
