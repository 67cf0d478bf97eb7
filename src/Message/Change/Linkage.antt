-- ===== src/Message/Change/Linkage.antt =====
-- The update and the deletion of a linked message (class type "linkage").
use messenger_service_go.Prelude.{
  ◌≡◌, ◌≢◌, refl, eq_iff, true, false, Option-cases, inl, inr, some, arith,
}
use messenger_service_go.Go.{err, internal, not_found}
use messenger_service_go.Common.{create_error}
use messenger_service_go.Models.{ObjectId, Configuration, Message, MessageStatus}
use messenger_service_go.Backend.{
  Backend, IsLawful, message_key, message_json, json_message, missing,
}
use messenger_service_go.World.{World}
use messenger_service_go.Message.Store.{
  find_in_collection, find_linking_message, add_message_to_redis, insert_one_linking_message,
}
use messenger_service_go.Message.Change.{
  change_partner, change_pulled, push_partner, spread_update, update_message_status, delete_message,
}
use messenger_service_go.Socket.Removal.{view}
use messenger_service_go.Socket.Removal.Laws.{Distinct}
use messenger_service_go.Socket.Deliver.Redirect.{redirect_lem}

-- Of a class that does not persist, no linked message can be updated, and none of mode "pull" can
-- be deleted: if Redis holds no message with the zero id, the answer is the error 100306, and
-- nothing is changed.
pub linked_change_fails :
    (B : Backend) (message : Message) (class : Configuration) (s : MessageStatus) (w : World B)
    → class.persist ≡ false
    → class.type ≡ "linkage"
    → B.redis_get (message_key 0) w.state ≡ missing
    → (update_message_status B message class s w ≡ (err (create_error not_found 100306), w))
      × (class.mode ≡ "pull"
          → delete_message B message class s w ≡ (err (create_error not_found 100306), w))
unfolding update_message_status delete_message spread_update push_partner change_pulled
    change_partner find_linking_message
linked_change_fails B message class s w p t n = (
  ground (arith, p, t, n, eq_iff class.type "linkage"),
  λ m. ground (arith, p, t, n, m, eq_iff class.type "linkage", eq_iff class.mode "pull"),
)

module _ (B : Backend) (L : IsLawful B) where
  insert_again_fails :
      (m n : Message) (w : World B)
      → B.find_message m.id w.state ≡ some n
      → (class : Configuration) → class.persist ≡ true
      → insert_one_linking_message B m class w ≡ (err (create_error internal 1001), w)
  unfolding insert_one_linking_message
  insert_again_fails m n w f class p = elim (Option-cases (B.insert_message m w.state)) [
    | inl e ↦ ground (arith, p, e)
    | inr (s, e) ↦ ground (arith, p, f, L.insert-fresh m e)
  ]

  -- Of a class that persists and is not pulled, no linked message can be updated either: its
  -- partner, which is stored already, is inserted once more under the same id. If the partner is
  -- found and its targets are distinct, the answer is the error 1001, and no message in MongoDB is
  -- changed.
  pub linked_update_inserts_twice :
      (message partner : Message) (class : Configuration) (s : MessageStatus) (w : World B)
      → class.persist ≡ true
      → class.type ≡ "linkage"
      → class.mode ≢ "pull"
      → B.find_message message.linkage_id w.state ≡ some partner
      → Distinct partner.target
      → (w' : World B) × (update_message_status B message class s w
          ≡ (err (create_error internal 1001), w'))
        × ((i : ObjectId) → B.find_message i w'.state ≡ B.find_message i w.state)
  unfolding update_message_status spread_update push_partner change_partner find_linking_message
      find_in_collection add_message_to_redis
  linked_update_inserts_twice message partner class s w p t m f d =
      let changed : Message = record partner {
        status = s.status;
        updated_at = message.updated_at;
      } in
      elim (Option-cases
        (B.redis_set (message_key partner.id) (message_json (json_message changed)) w.state)) [
          | inl e ↦ (
            w,
            ground (arith, p, t, f, e, m, eq_iff class.type "linkage", eq_iff class.mode "pull"),
            λ i. refl,
          )
          | inr (st, e) ↦
              let w1 : World B = record w { state = st } in
              let (sl, w2, r, same, shown, clients) = redirect_lem B changed class w1 d in
              let same_id = L.find-id message.linkage_id f in
              let at_i : (i : ObjectId) → B.find_message i w2.state ≡ B.find_message i w.state =
                λ i. ground (
                  arith,
                  same,
                  L.find-set (message_key partner.id) (message_json (json_message changed)) i e,
                ) in
              let again =
                insert_again_fails (record changed { target = view sl }) partner w2
                  (ground (arith, at_i partner.id, f, same_id)) class p in
              (
                w2,
                ground (
                  arith,
                  p,
                  t,
                  f,
                  e,
                  m,
                  r,
                  again,
                  eq_iff class.type "linkage",
                  eq_iff class.mode "pull",
                ),
                at_i,
              )
        ]
