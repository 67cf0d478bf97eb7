-- ===== src/Message/Change/Stored.antt =====
-- From the request of a change of status to the next look at the message.
use mathlib.Core.Path.{subst}
use messenger_service_go.Prelude.{◌≡◌, ◌≢◌, String, eq_iff, true, none, arith}
use messenger_service_go.Go.{ok}
use messenger_service_go.Models.{Time, Configuration, Message, MessageStatus}
use messenger_service_go.Backend.{Backend, IsLawful, StatusUpdate, apply_update, bson_time}
use messenger_service_go.World.{World}
use messenger_service_go.Message.Store.{update_one_message, find_message_by_id}
use messenger_service_go.Message.External.{External}
use messenger_service_go.Message.Change.{
  spread_update, update_quietly, change_pulled, update_message_status_request,
  delete_message_request,
}
use messenger_service_go.Message.Change.Frame.{
  Same, update_cached_for_each-Keeps, push_change-Keeps,
}
use messenger_service_go.Message.Store.Laws.{find-update_one_message, update_of}
use messenger_service_go.Message.Status.Spec.{
  with_status, validate_delete_message_iff, validate_update_message_status_iff,
}
use messenger_service_go.Message.Change.Steps.{deleting, IsStored}
use messenger_service_go.Message.Change.Steps.{
  update-split, delete-split, update-steps, delete-steps,
}

module _ (B : Backend) (L : IsLawful B) (m : Message) (class : Configuration) where
  apply-with_status :
      (now : Time) (u s : String)
      → apply_update (update_of B L (with_status now class m u s)) m
        ≡ with_status (bson_time now) class m u s
  unfolding apply_update with_status
  apply-with_status now u s = ground (arith)

  same_id : (now : Time) (u s : String) → (with_status now class m u s).id ≡ m.id
  unfolding with_status
  same_id now u s = ground arith

  changed_is_found :
      (now : Time) (id u s : String) (w v : World B) {w' : World B}
      → IsStored B L m class id w
      → Same B L w v
      → update_one_message B (with_status now class m u s) class v ≡ (ok tt, w')
      → find_message_by_id B id w' ≡ (ok (with_status (bson_time now) class m u s), w')
  changed_is_found now id u s w v {w'} h same e =
      let i : (with_status now class m u s).id ≡ m.id = same_id now u s in
      let r =
        find-update_one_message B L id (with_status now class m u s) m class v {w' = w'}
          (ground (arith, h.named, i)) (ground (arith, i))
          (λ p. (
            λ x q. h.uncached x (ground (arith, same m.id, q, i)),
            ground (arith, same m.id, i, h.in_collection),
          ))
          (λ p. ground (arith, p, h.persists)) e in
      ground (arith, h.persists, r, apply-with_status now u s)

  spread-Same :
      (m' : Message) (s : MessageStatus) (w v : World B)
      → class.type ≢ "linkage"
      → spread_update B m' class s.status s.open_id w ≡ (ok tt, v)
      → Same B L w v
  unfolding spread_update change_pulled
  spread-Same m' s w v t e i = ground (
    arith,
    e,
    t,
    eq_iff class.mode "pull",
    eq_iff class.type "linkage",
    update_cached_for_each-Keeps B L m'.target m' s.open_id w i,
    push_change-Keeps B L m' class s.open_id w i,
  )

  -- If MongoDB refuses no update of the message, the quiet update stores it.
  loud :
      (m' : Message) (v : World B) {w' : World B}
      → class.persist ≡ true
      → ((u : StatusUpdate) (st : B.State) → B.update_message m'.id u st ≢ none)
      → update_quietly B m' class v ≡ (ok tt, w')
      → update_one_message B m' class v ≡ (ok tt, w')
  unfolding update_quietly update_one_message
  loud m' v p n e = ground (arith, e, p, n (update_of B L m') v.state)

  module _ (X : External B) (now : Time) (id : String) (w : World B) where
    -- After an update request of a message of a class that persists and is not linked, which
    -- answered with a success, the message is found with the user's status changed and the time of
    -- the change in milliseconds, and with all else as it was, if MongoDB refuses no update of it.
    -- The message was in MongoDB, with its class, and not in Redis.
    pub updated_is_found :
        (s : MessageStatus) {w' : World B}
        → IsStored B L m class id w
        → class.type ≢ "linkage"
        → ((u : StatusUpdate) (st : B.State) → B.update_message m.id u st ≢ none)
        → update_message_status_request B X now id s w ≡ (ok tt, w')
        → find_message_by_id B id w'
          ≡ (ok (with_status (bson_time now) class m s.open_id s.status), w')
    updated_is_found s {w'} h t n e =
        let (m', valid, done) = update-steps B L m class X now id w s {w' = w'} h e in
        let (_, is) = (validate_update_message_status_iff now m m' class s).0 valid in
        let (v, spread, quiet) = update-split B L m class m' s w {w' = w'} done in
        changed_is_found now id s.open_id s.status w v {w' = w'} h (spread-Same m' s w v t spread) (
          subst (λ (x : Message). update_one_message B x class v ≡ (ok tt, w')) is
            (loud m' v {w' = w'} h.persists
              (λ u st q. n u st (ground (arith, q, is, same_id now s.open_id s.status))) quiet))

    -- After a deletion request of a message of a class that persists and is not linked, which
    -- answered with a success, the message is found with the user's status "deleted" and the time of
    -- the change in milliseconds, and with all else as it was. The message was in MongoDB, with its
    -- class, and not in Redis.
    pub deleted_is_found :
        (open_id : String) {w' : World B}
        → IsStored B L m class id w
        → class.type ≢ "linkage"
        → delete_message_request B X now id open_id w ≡ (ok tt, w')
        → find_message_by_id B id w'
          ≡ (ok (with_status (bson_time now) class m open_id "deleted"), w')
    deleted_is_found open_id {w'} h t e =
        let (m', valid, done) = delete-steps B L m class X now id w open_id {w' = w'} h e in
        let (_, is) = (validate_delete_message_iff now m m' class open_id).0 valid in
        let (v, spread, wrote) =
          delete-split B L m class m' (deleting open_id) w {w' = w'} t done in
        changed_is_found now id open_id "deleted" w v {w' = w'} h
          (spread-Same m' (deleting open_id) w v t spread)
          (subst (λ (x : Message). update_one_message B x class v ≡ (ok tt, w')) is wrote)
