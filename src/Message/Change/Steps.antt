-- ===== src/Message/Change/Steps.antt =====
-- The steps of a request of a change of status that succeeds: src/restful/services/messages.go.
use messenger_service_go.Prelude.{◌≡◌, ◌≢◌, refl, sym, ◌∙◌, String, eq_iff, true, some, arith}
use messenger_service_go.Go.{Result, ok, err, panic}
use messenger_service_go.Go.Exec.{Exec, ◌>>=◌, lift, bind-ok}
use messenger_service_go.Models.{Time, Configuration, Message, MessageStatus}
use messenger_service_go.Backend.{Backend, IsLawful, message_key, Reply, found, missing, failed}
use messenger_service_go.World.{World}
use messenger_service_go.Message.Store.{
  update_one_message, find_message_by_id, find_stored, find_in_collection, find_message,
  get_configuration_by_class_id,
}
use messenger_service_go.Message.External.{External}
use messenger_service_go.Message.Change.{
  spread_update, update_quietly, update_message_status, delete_message,
  update_message_status_request, delete_message_request,
}
use messenger_service_go.Message.Store.Laws.{NotCached}
use messenger_service_go.Message.Send.{validate_json}
use messenger_service_go.Message.Status.{validate_update_message_status, validate_delete_message}

abbrev pub deleting : String → MessageStatus
deleting open_id = record { status = "deleted"; open_id = open_id }

module _ (B : Backend) (L : IsLawful B) (m : Message) (class : Configuration) where
  -- The message is in MongoDB and not in Redis, and its class is found.
  pub record IsStored (id : String) (w : World B) : Type 0 where
    pub named : B.object_id_from_hex id ≡ some m.id
    pub persists : class.persist ≡ true
    pub uncached : NotCached B L w m.id
    pub in_collection : B.find_message m.id w.state ≡ some m
    pub class_found : B.find_configuration m.subclass_id w.state ≡ some class

  pub found_stored :
      (id : String) (w : World B) → IsStored id w → find_message B id w ≡ (ok (m, class), w)
  unfolding find_message find_message_by_id find_stored find_in_collection
      get_configuration_by_class_id
  found_stored id w h = go (B.redis_get (message_key m.id) w.state) refl
    where
      go :
          (r : Reply)
          → B.redis_get (message_key m.id) w.state ≡ r
          → find_message B id w ≡ (ok (m, class), w)
      go (found v) p = absurd (h.uncached v p)
      go missing p = ground (arith, p, h.named, h.in_collection, h.class_found)
      go failed p = ground (arith, p, h.named, h.in_collection, h.class_found)

  pub update-split :
      (m' : Message) (s : MessageStatus) (w : World B) {w' : World B}
      → update_message_status B m' class s w ≡ (ok tt, w')
      → (v : World B) × (spread_update B m' class s.status s.open_id w ≡ (ok tt, v))
        × (update_quietly B m' class v ≡ (ok tt, w'))
  unfolding update_message_status
  update-split m' s w {w'} e = go (spread_update B m' class s.status s.open_id w) refl
    where
      go :
          (r : Result (Unit {0}) × World B)
          → spread_update B m' class s.status s.open_id w ≡ r
          → (v : World B) × (spread_update B m' class s.status s.open_id w ≡ (ok tt, v))
            × (update_quietly B m' class v ≡ (ok tt, w'))
      go (ok tt, v) p = (v, p, ground (arith, e, p))
      go (err x, v) p = absurd (ground (arith, e, p))
      go (panic, v) p = absurd (ground (arith, e, p))

  pub delete-split :
      (m' : Message) (s : MessageStatus) (w : World B) {w' : World B}
      → class.type ≢ "linkage"
      → delete_message B m' class s w ≡ (ok tt, w')
      → (v : World B) × (spread_update B m' class s.status s.open_id w ≡ (ok tt, v))
        × (update_one_message B m' class v ≡ (ok tt, w'))
  unfolding delete_message spread_update
  delete-split m' s w {w'} t e = go (spread_update B m' class s.status s.open_id w) refl
    where
      go :
          (r : Result (Unit {0}) × World B)
          → spread_update B m' class s.status s.open_id w ≡ r
          → (v : World B) × (spread_update B m' class s.status s.open_id w ≡ (ok tt, v))
            × (update_one_message B m' class v ≡ (ok tt, w'))
      go (ok tt, v) p = (v, p, ground (arith, e, p, t, eq_iff class.type "linkage"))
      go (err x, v) p = absurd (ground (arith, e, p, t, eq_iff class.type "linkage"))
      go (panic, v) p = absurd (ground (arith, e, p, t, eq_iff class.type "linkage"))

  module _ (X : External B) (now : Time) (id : String) (w : World B) where
    collect :
        (valid : Message → Configuration → Result Message)
        (change : Message → Configuration → Exec (World B) (Unit {0}))
        (mc : Message × Configuration) (w1 w2 w3 : World B) (j : Result (Unit {0})) (n : Message)
        {w' : World B}
        → (Path (Result (Message × Configuration) × World B) (ok (m, class), w) (ok mc, w1))
        → (Path (Result (Unit {0}) × World B) (j, w1) (ok tt, w2))
        → (Path (Result Message × World B) (valid mc.0 mc.1, w2) (ok n, w3))
        → change n mc.1 w3 ≡ (ok tt, w')
        → (m' : Message) × (valid m class ≡ ok m') × (change m' class w ≡ (ok tt, w'))
    collect valid change (k, l) w1 w2 w3 j n {w'} a b c d =
        (n, ground (arith, a, b, c), ground (arith, a, b, c, d))

    pub update-steps :
        (s : MessageStatus) {w' : World B}
        → IsStored id w
        → update_message_status_request B X now id s w ≡ (ok tt, w')
        → (m' : Message) × (validate_update_message_status now m class s ≡ ok m')
          × (update_message_status B m' class s w ≡ (ok tt, w'))
    unfolding update_message_status_request
    update-steps s {w'} h e =
        let last : Configuration → Message → Exec (World B) (Unit {0}) =
          λ c n. update_message_status B n c s in
        let valid : Message → Configuration → Exec (World B) (Unit {0}) =
          λ n c. lift (validate_update_message_status now n c s) >>= last c in
        let (mc, w1, e1, f1) =
          bind-ok (find_message B id)
            (λ (mc : Message × Configuration).
              lift (validate_json B X mc.0) >>= λ _. valid mc.0 mc.1)
            w e in
        let (_, w2, e2, f2) =
          bind-ok (lift (validate_json B X mc.0)) (λ _. valid mc.0 mc.1) w1 f1 in
        let (n, w3, e3, f3) =
          bind-ok (lift (validate_update_message_status now mc.0 mc.1 s)) (last mc.1) w2 f2 in
        collect (λ n c. validate_update_message_status now n c s)
          (λ n c. update_message_status B n c s) mc w1 w2 w3 (validate_json B X mc.0) n
          (sym (found_stored id w h) ∙ e1) e2 e3 f3

    pub delete-steps :
        (open_id : String) {w' : World B}
        → IsStored id w
        → delete_message_request B X now id open_id w ≡ (ok tt, w')
        → (m' : Message) × (validate_delete_message now m class open_id ≡ ok m')
          × (delete_message B m' class (deleting open_id) w ≡ (ok tt, w'))
    unfolding delete_message_request
    delete-steps open_id {w'} h e =
        let last : Configuration → Message → Exec (World B) (Unit {0}) =
          λ c n. delete_message B n c (deleting open_id) in
        let valid : Message → Configuration → Exec (World B) (Unit {0}) =
          λ n c. lift (validate_delete_message now n c open_id) >>= last c in
        let (mc, w1, e1, f1) =
          bind-ok (find_message B id)
            (λ (mc : Message × Configuration).
              lift (validate_json B X mc.0) >>= λ _. valid mc.0 mc.1)
            w e in
        let (_, w2, e2, f2) =
          bind-ok (lift (validate_json B X mc.0)) (λ _. valid mc.0 mc.1) w1 f1 in
        let (n, w3, e3, f3) =
          bind-ok (lift (validate_delete_message now mc.0 mc.1 open_id)) (last mc.1) w2 f2 in
        collect (λ n c. validate_delete_message now n c open_id)
          (λ n c. delete_message B n c (deleting open_id)) mc w1 w2 w3 (validate_json B X mc.0) n
          (sym (found_stored id w h) ∙ e1) e2 e3 f3
