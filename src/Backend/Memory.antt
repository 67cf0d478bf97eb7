-- ===== src/Backend/Memory.antt =====
-- A backend in memory, which meets the laws: the tests and the instances of the theorems run on it.
use mathlib.Core.Option
use Prim.Native.Nat.{suc, zero}
use messenger_service_go.Prelude.{
  ℕ, String, ◌≡◌, sym, true, Option, none, some, List, [], ◌∷◌, ◌++◌, eqb, arith, if◌then◌else◌,
  Bool-cases, inl, inr, eqb_iff,
}
use messenger_service_go.Models.{ObjectId, Configuration, Message, Template}
use messenger_service_go.Backend.Documents.{
  Key, key_eq, Value, Reply, found, missing, StatusUpdate, apply_update, bson_message, Catalog,
  first_class, first_template, has_class, has_template, set_class_at, drop_class_at,
  set_template_at, drop_template_at, bson_configuration, bson_template, decodes,
}
use messenger_service_go.Backend.Defs.{Backend, IsLawful}

pub record Memory : Type 0 where
  pub redis : List (Key × Value)
  pub messages : List Message
  pub catalog : Catalog

abbrev pub empty : Memory
empty = record {
  redis = [];
  messages = [];
  catalog = record { configurations = []; templates = []; relations = [] };
}

unfoldable pub get : Key → List (Key × Value) → Reply
get k [] = missing
get k ((j, v) ∷ l) = if key_eq j k then found v else get k l

unfoldable pub del : Key → List (Key × Value) → List (Key × Value)
del k [] = []
del k ((j, v) ∷ l) = let rest = del k l in if key_eq j k then rest else (j, v) ∷ rest

unfoldable pub message_at : ObjectId → List Message → Option Message
message_at i [] = none
message_at i (m ∷ ms) = if eqb m.id i then some m else message_at i ms

unfoldable pub update_at : ObjectId → StatusUpdate → List Message → List Message
unfolding apply_update
update_at i u [] = []
update_at i u (m ∷ ms) = (if eqb i m.id then apply_update u m else m) ∷ update_at i u ms

-- An id as so many letters.
unfoldable pub unary : ℕ → String
unary zero = ""
unary (suc n) = String.◌∷◌ "x" (unary n)

unfoldable pub count : String → ℕ
count String.[] = 0
count (String.◌∷◌ c s) = suc (count s)

abbrev with_classes : Memory → List Configuration → Memory
with_classes s cs = record s { catalog = record s.catalog { configurations = cs } }

abbrev with_templates : Memory → List Template → Memory
with_templates s ts = record s { catalog = record s.catalog { templates = ts } }

-- A stored class that cannot be decoded is not found.
unfoldable pub decoded : Option Configuration → Option Configuration
unfolding decodes
decoded none = none
decoded (some c) = if decodes c.actions then some c else none

decoded_some :
    (o : Option Configuration) {c : Configuration}
    → decoded o ≡ some c
    → (o ≡ some c) × (decodes c.actions ≡ true)
unfolding decoded
decoded_some none e = absurd (ground (arith, e))
decoded_some (some d) {c} e = elim (Bool-cases (decodes d.actions)) [
  | inl p ↦ let same : d ≡ c = ground (arith, e, p) in (ground (arith, same), rw (sym same) p)
  | inr p ↦ absurd (ground (arith, e, p))
]

abbrev pub memory_backend : Backend
memory_backend = record {
  State = Memory;
  redis_get = λ k s. get k s.redis;
  redis_set = λ k v s. some (record s { redis = (k, v) ∷ s.redis });
  redis_del = λ k s. some (record s { redis = del k s.redis });
  find_message = λ i s. message_at i s.messages;
  insert_message = λ m s. elim (message_at m.id s.messages) [
    | none ↦ some (record s { messages = bson_message m ∷ s.messages })
    | some n ↦ none
  ];
  update_message = λ i u s. some (record s { messages = update_at i u s.messages });
  find_configuration = λ k s. decoded (first_class k s.catalog.configurations);
  insert_configuration = λ c s.
      if has_class c.id s.catalog.configurations
      then none
      else some (with_classes s (s.catalog.configurations ++ (bson_configuration c ∷ [])));
  update_configuration = λ i u s. some (with_classes s (set_class_at i u s.catalog.configurations));
  delete_configuration = λ i s. some (with_classes s (drop_class_at i s.catalog.configurations));
  find_template = λ k s. first_template k s.catalog.templates;
  insert_template = λ t s.
      if has_template t.id s.catalog.templates
      then none
      else some (with_templates s (s.catalog.templates ++ (bson_template t ∷ [])));
  update_template = λ i u s. some (with_templates s (set_template_at i u s.catalog.templates));
  delete_template = λ i s. some (with_templates s (drop_template_at i s.catalog.templates));
  catalog = λ s. s.catalog;
  object_id_from_hex = λ s. some (count s);
  hex = unary;
}

message_at-update_at :
    (i j : ObjectId) (u : StatusUpdate) (ms : List Message)
    → message_at j (update_at i u ms)
      ≡ (if eqb i j then Option.map (apply_update u) (message_at j ms) else message_at j ms)
unfolding message_at update_at
message_at-update_at i j u [] = ground arith
message_at-update_at i j u (m ∷ ms) = ground (arith, message_at-update_at i j u ms)

message_at-id :
    (i : ObjectId) (ms : List Message) {m : Message} → message_at i ms ≡ some m → m.id ≡ i
unfolding message_at
message_at-id i [] e = ground arith
message_at-id i (n ∷ ms) {m} e = elim (Bool-cases (eqb n.id i)) [
  | inl p ↦ ground (arith, e, p, eqb_iff n.id i)
  | inr p ↦ message_at-id i ms {m = m} (ground (arith, e, p))
]

pub memory_backend-IsLawful : IsLawful memory_backend
unfolding get message_at bson_message decoded
memory_backend-IsLawful = record {
  get-set = λ k j v {s} {s'} e. ground arith;
  find-set = λ k v i {s} {s'} e. ground arith;
  find-insert = λ m i {s} {s'} e. ground arith;
  insert-fresh = λ m {s} {s'} e. ground arith;
  find-id = λ i {m} {s} e. message_at-id i s.messages e;
  get-insert = λ m k {s} {s'} e. ground arith;
  find-update = λ i j u {s} {s'} e. ground (arith, message_at-update_at i j u s.messages);
  get-update = λ i u k {s} {s'} e. ground arith;
  catalog-set = λ k v {s} {s'} e. ground arith;
  catalog-del = λ k {s} {s'} e. ground arith;
  find_configuration-catalog =
      λ k {c} {s} e. decoded_some (first_class k s.catalog.configurations) {c = c} e;
  catalog-insert_configuration = λ c {s} {s'} e. ground arith;
  has_class-insert_configuration = λ c {s} {s'} e. ground arith;
  catalog-update_configuration = λ i u {s} {s'} e. ground arith;
  catalog-delete_configuration = λ i {s} {s'} e. ground arith;
  find_template-catalog = λ k {t} {s} e. e;
  catalog-insert_template = λ t {s} {s'} e. ground arith;
  has_template-insert_template = λ t {s} {s'} e. ground arith;
  catalog-update_template = λ i u {s} {s'} e. ground arith;
  catalog-delete_template = λ i {s} {s'} e. ground arith;
}
