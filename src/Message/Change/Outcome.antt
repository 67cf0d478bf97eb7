-- ===== src/Message/Change/Outcome.antt =====
-- What a change of status leaves behind, from the request to the next look at the message.
use messenger_service_go.Prelude.{
  ◌≡◌, ◌≢◌, refl, String, eq_iff, Bool, true, false, Option-cases, inl, inr, arith,
}
use messenger_service_go.Prelude.Maps.{lookup}
use messenger_service_go.Go.{ok}
use messenger_service_go.Models.{Configuration, Message, MessageStatus}
use messenger_service_go.Backend.{Backend, message_key, Reply, found, missing, failed}
use messenger_service_go.World.{World}
use messenger_service_go.Message.Store.{
  update_one_message, update_cached, add_message_to_redis, as_message,
}
use messenger_service_go.Message.Change.{
  push_change, spread_update, update_quietly, update_message_status, delete_message,
}
use messenger_service_go.Socket.Removal.{view}
use messenger_service_go.Socket.Removal.Laws.{Distinct}
use messenger_service_go.Socket.Deliver.{send_message_to_user_socket, keep_for_later}
use messenger_service_go.Socket.Deliver.Redirect.{redirect_lem}

module _ (B : Backend) where
  update_quietly-ok :
      (m : Message) (c : Configuration) (w : World B) → (update_quietly B m c w).0 ≡ ok tt
  unfolding update_quietly update_one_message update_cached add_message_to_redis
  update_quietly-ok m c w = go (B.redis_get (message_key m.id) w.state) refl
    where
      go :
          (r : Reply)
          → B.redis_get (message_key m.id) w.state ≡ r
          → (update_quietly B m c w).0 ≡ ok tt
      go (found v) p = elim (Option-cases (as_message v)) [
        | inl e ↦ ground (arith, p, e)
        | inr (n, e) ↦ ground (arith, p, e)
      ]
      go missing p = ground (arith, p)
      go failed p = ground (arith, p)

  send-ok :
      (u : String) (m : Message) (c : Configuration) (w : World B) (p : Bool)
      → (b : Bool) × ((send_message_to_user_socket B u m c p w).0 ≡ ok b)
  unfolding send_message_to_user_socket keep_for_later
  send-ok u m c w p = elim (Option-cases (lookup u w.server.clients)) [
    | inl e ↦ (false, ground (arith, e))
    | inr (cl, e) ↦ (true, ground (arith, e))
  ]

  push_change-ok :
      (m : Message) (c : Configuration) (u : String) (w : World B)
      → Distinct m.target
      → (push_change B m c u w).0 ≡ ok tt
  unfolding push_change
  push_change-ok m c u w d =
      let (sl, w1, r, same, shown, clients) = redirect_lem B m c w d in
      let (b, e) = send-ok m.open_id (record m { target = view sl }) c w1 true in
      ground (arith, r, e)

  -- A change of status that is pushed to targets that are pairwise distinct: an update that is not
  -- linked always succeeds, whatever the databases answer, also where the new status could not be
  -- stored. A deletion has the error of `updateOneMessage` in the world after the push.
  pub update_hides_errors :
      (m : Message) (class : Configuration) (s : MessageStatus) (w : World B)
      → class.mode ≢ "pull"
      → Distinct m.target
      → (class.type ≢ "linkage" → (update_message_status B m class s w).0 ≡ ok tt)
        × (delete_message B m class s w
            ≡ update_one_message B m class (push_change B m class s.open_id w).1)
  unfolding update_message_status spread_update delete_message
  update_hides_errors m class s w n d = (
    λ t. ground (
      arith,
      push_change-ok m class s.open_id w d,
      n,
      t,
      eq_iff class.mode "pull",
      eq_iff class.type "linkage",
      update_quietly-ok m class (push_change B m class s.open_id w).1,
    ),
    ground (arith, push_change-ok m class s.open_id w d, n, eq_iff class.mode "pull"),
  )
