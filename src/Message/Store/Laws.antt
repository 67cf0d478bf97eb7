-- ===== src/Message/Store/Laws.antt =====
-- A message that was stored is found again, and an update of its status is what is found next.
use mathlib.Core.Path.{subst}
use messenger_service_go.Prelude.{
  ◌≡◌, refl, ◌≢◌, Bool-cases, inl, inr, String, true, false, some, arith, if◌then◌else◌,
}
use messenger_service_go.Go.{ok, err, internal, not_found}
use messenger_service_go.Common.{create_error}
use messenger_service_go.Models.{ObjectId, Configuration, Message}
use messenger_service_go.Backend.{
  Backend, IsLawful, message_key, message_json, Value, Reply, found, missing, failed, json_message,
  bson_message, StatusUpdate, apply_update,
}
use messenger_service_go.World.{World, write_ok}
use messenger_service_go.Message.Store.{
  add_message_to_redis, insert_one_message, update_one_message, find_message_by_id,
  find_linking_message,
}

-- The message that the class's store gives back for one that was put in.
abbrev pub stored : Configuration → Message → Message
stored class m = if class.persist then bson_message m else json_message m

module _ (B : Backend) (L : IsLawful B) where
  abbrev pub NotCached : World B → ObjectId → Type 0
  NotCached w i = (v : Value) → B.redis_get (message_key i) w.state ≢ found v

  add_message_to_redis_lem :
      (m : Message) (w : World B) {w' : World B}
      → add_message_to_redis B m w ≡ (ok tt, w')
      → B.redis_get (message_key m.id) w'.state ≡ found (message_json (json_message m))
  unfolding add_message_to_redis
  add_message_to_redis_lem m w h =
      let set =
        (write_ok B (create_error internal 1001)
          (B.redis_set (message_key m.id) (message_json (json_message m))) w h).0 in
      ground
        (arith, L.get-set (message_key m.id) (message_key m.id) (message_json (json_message m)) set)

  find_cached :
      (id : String) (i : ObjectId) (m : Message) (w : World B)
      → B.object_id_from_hex id ≡ some i
      → B.redis_get (message_key i) w.state ≡ found (message_json m)
      → find_message_by_id B id w ≡ (ok m, w)
  unfolding find_message_by_id
  find_cached id i m w e r = ground (arith, e, r)

  find_uncached :
      (id : String) (i : ObjectId) (m : Message) (w : World B)
      → B.object_id_from_hex id ≡ some i
      → NotCached w i
      → B.find_message i w.state ≡ some m
      → find_message_by_id B id w ≡ (ok m, w)
  unfolding find_message_by_id
  find_uncached id i m w e n f = go (B.redis_get (message_key i) w.state) refl
    where
      go :
          (r : Reply)
          → B.redis_get (message_key i) w.state ≡ r
          → find_message_by_id B id w ≡ (ok m, w)
      go (found v) p = absurd (n v p)
      go missing p = ground (arith, e, f, p)
      go failed p = ground (arith, e, f, p)

  pub insert_persists :
      (m : Message) (class : Configuration) (w : World B) {w' : World B}
      → class.persist ≡ true
      → insert_one_message B m class w ≡ (ok tt, w')
      → B.insert_message m w.state ≡ some w'.state
  unfolding insert_one_message
  insert_persists m class w p h = ground (arith, p, h)

  insert_caches :
      (m : Message) (class : Configuration) (w : World B) {w' : World B}
      → class.persist ≡ false
      → insert_one_message B m class w ≡ (ok tt, w')
      → B.redis_get (message_key m.id) w'.state ≡ found (message_json (json_message m))
  unfolding insert_one_message
  insert_caches m class w {w'} p h = add_message_to_redis_lem m w {w' = w'} (ground (arith, p, h))

  -- A message that was inserted is found by its id, as its store gives it back: from MongoDB with
  -- times in milliseconds, from Redis with its times, and with an empty map of statuses as nil. For
  -- a class that persists this is so if Redis holds nothing under the id.
  pub find-insert_one_message :
      (id : String) (m : Message) (class : Configuration) (w : World B) {w' : World B}
      → B.object_id_from_hex id ≡ some m.id
      → (class.persist ≡ true → NotCached w m.id)
      → insert_one_message B m class w ≡ (ok tt, w')
      → find_message_by_id B id w' ≡ (ok (stored class m), w')
  find-insert_one_message id m class w {w'} e n h = elim (Bool-cases class.persist) [
    | inl p ↦
        let ins = insert_persists m class w p h in
        rw p (
          find_uncached id m.id (bson_message m) w' e
            (λ v q. n p v (ground (arith, L.get-insert m (message_key m.id) ins)))
            (ground (arith, L.find-insert m m.id ins)))
    | inr p ↦ rw p (find_cached id m.id (json_message m) w' e (insert_caches m class w p h))
  ]

  abbrev pub update_of : Message → StatusUpdate
  update_of message = record {
    status = message.status;
    updated_at = message.updated_at;
    status_sync = message.status_sync;
  }

  abbrev pub with_status_of : Message → Message → Message
  with_status_of message m = record m {
    status = message.status;
    status_sync = message.status_sync;
    updated_at = message.updated_at;
  }

  -- The change of a stored message by `updateOneMessage`.
  abbrev pub updated : Configuration → Message → Message → Message
  updated class message m =
      if class.persist
      then apply_update (update_of message) m
      else json_message (with_status_of message m)

  update_persists :
      (message : Message) (class : Configuration) (w : World B) {w' : World B}
      → class.persist ≡ true
      → update_one_message B message class w ≡ (ok tt, w')
      → B.update_message message.id (update_of message) w.state ≡ some w'.state
  unfolding update_one_message
  update_persists message class w p h = ground (arith, p, h)

  update_caches :
      (message m : Message) (class : Configuration) (w : World B) {w' : World B}
      → class.persist ≡ false
      → B.redis_get (message_key message.id) w.state ≡ found (message_json m)
      → update_one_message B message class w ≡ (ok tt, w')
      → add_message_to_redis B (with_status_of message m) w ≡ (ok tt, w')
  unfolding update_one_message
  update_caches message m class w p f h = ground (arith, p, f, h)

  -- After an update that succeeded the message is found with the new status, statuses and time, and
  -- with all else as it was: of a class that persists if MongoDB had the message and Redis has
  -- nothing under its id, else if Redis had it.
  pub find-update_one_message :
      (id : String) (message m : Message) (class : Configuration) (w : World B) {w' : World B}
      → B.object_id_from_hex id ≡ some message.id
      → m.id ≡ message.id
      → (class.persist ≡ true
          → NotCached w message.id × (B.find_message message.id w.state ≡ some m))
      → (class.persist ≡ false
          → B.redis_get (message_key message.id) w.state ≡ found (message_json m))
      → update_one_message B message class w ≡ (ok tt, w')
      → find_message_by_id B id w' ≡ (ok (updated class message m), w')
  find-update_one_message id message m class w {w'} e same inDb inCache h =
      elim (Bool-cases class.persist) [
        | inl p ↦
            let set = update_persists message class w p h in
            rw p (
              find_uncached id message.id (apply_update (update_of message) m) w' e
                (λ v q. (inDb p).0 v (
                  ground (
                    arith,
                    L.get-update message.id (update_of message) (message_key message.id) set,
                  )))
                (ground
                  (arith, (inDb p).1, L.find-update message.id message.id (update_of message) set)))
        | inr p ↦ rw p (
            find_cached id message.id (json_message (with_status_of message m)) w' e (
              subst
                (λ (i : ObjectId).
                  B.redis_get (message_key i) w'.state
                  ≡ found (message_json (json_message (with_status_of message m))))
                same
                (add_message_to_redis_lem (with_status_of message m) w {w' = w'}
                  (update_caches message m class w p (inCache p) h))))
      ]

-- Of a class that does not persist, the partner of a linked message is looked for under the id that
-- the caller's empty message has, and not under the linkage id: whatever the linkage id, the answer
-- is the same, and it is the error 100306 if Redis holds nothing under that id.
pub find_linking_message_unlinked :
    (B : Backend) (i j : ObjectId) (m : Message) (class : Configuration) (w : World B)
    → class.persist ≡ false
    → (find_linking_message B i m class w ≡ find_linking_message B j m class w)
      × (B.redis_get (message_key m.id) w.state ≡ missing
          → find_linking_message B i m class w ≡ (err (create_error not_found 100306), w))
unfolding find_linking_message
find_linking_message_unlinked B i j m class w p = (ground (arith, p), λ n. ground (arith, p, n))
