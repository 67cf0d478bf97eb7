-- ===== src/Message/Send/Outcome.antt =====
-- What a message that was sent leaves behind.
use messenger_service_go.Prelude.{
  ◌≡◌, ◌≢◌, refl, String, ◌==◌, eq_iff, true, false, some, length, ltb, arith, if◌then◌else◌,
}
use messenger_service_go.Prelude.Maps.{lookup}
use messenger_service_go.Go.{ok, err, bad_request}
use messenger_service_go.Go.Exec.{◌>>◌, pure, bind-ok}
use messenger_service_go.Common.{contains, create_error}
use messenger_service_go.Models.{Configuration, Message}
use messenger_service_go.Configuration.Validate.{message_modes}
use messenger_service_go.Backend.{Backend, IsLawful, message_key}
use messenger_service_go.World.{World}
use messenger_service_go.Message.Store.{insert_one_message, find_message_by_id}
use messenger_service_go.Message.Store.Laws.{
  find-insert_one_message, insert_persists, stored, NotCached,
}
use messenger_service_go.Message.External.{External, Env}
use messenger_service_go.Message.Send.{
  push_message, send_by_mode, send_message, send_by_mode_v2, send_message_v2,
}
use messenger_service_go.Socket.Removal.Laws.{Distinct, without}
use messenger_service_go.Socket.Deliver.Redirect.{online_of, redirect_lem, offered_to}

no_mode :
    (mode : String)
    → contains message_modes mode ≡ false
    → ((mode == "pull") ≡ false)
      × ((mode == "push") ≡ false)
      × ((mode == "third-party") ≡ false)
      × ((mode == "email") ≡ false)
      × ((mode == "sms") ≡ false)
      × ((mode == "feishu") ≡ false)
      × ((mode == "dingtalk") ≡ false)
      × ((mode == "listening") ≡ false)
unfolding contains
no_mode mode n = ground (
  arith,
  n,
  eq_iff mode "pull",
  eq_iff mode "push",
  eq_iff mode "third-party",
  eq_iff mode "email",
  eq_iff mode "sms",
  eq_iff mode "feishu",
  eq_iff mode "dingtalk",
  eq_iff mode "listening",
  eq_iff "pull" mode,
  eq_iff "push" mode,
  eq_iff "third-party" mode,
  eq_iff "email" mode,
  eq_iff "sms" mode,
  eq_iff "feishu" mode,
  eq_iff "dingtalk" mode,
  eq_iff "listening" mode,
)

module _ (B : Backend) (X : External B) (env : Env) (m : Message) (class : Configuration) where
  send-split :
      (w : World B) {m' : Message} {w' : World B}
      → send_message B X env m class w ≡ (ok m', w')
      → (v : World B) × (send_by_mode B X env m class w ≡ (ok m', v))
        × (insert_one_message B m' class v ≡ (ok tt, w'))
  unfolding send_message
  send-split w {m'} {w'} e =
      let (n, v, e1, f1) =
        bind-ok (send_by_mode B X env m class) (λ n. insert_one_message B n class >> pure n) w e in
      let (_, v2, e2, f2) = bind-ok (insert_one_message B n class) (λ _. pure n) v f1 in
      (v, ground (arith, e1, f2), ground (arith, e2, f2))

  -- A message that was sent in any mode is found by its id as its store gives it back, if Redis
  -- holds nothing under the id of one whose class persists.
  pub sent_is_found :
      (L : IsLawful B) (id : String) (w : World B) {m' : Message} {w' : World B}
      → send_message B X env m class w ≡ (ok m', w')
      → B.object_id_from_hex id ≡ some m'.id
      → (class.persist ≡ true → NotCached B L w' m'.id)
      → find_message_by_id B id w' ≡ (ok (stored class m'), w')
  sent_is_found L id w {m'} {w'} e i n =
      let (v, by, ins) = send-split w {m' = m'} {w' = w'} e in
      find-insert_one_message B L id m' class v {w' = w'} i
        (λ p x q. n p x (
          ground (
            arith,
            q,
            L.get-insert m' (message_key m'.id) (insert_persists B L m' class v {w' = w'} p ins),
          )))
        ins

  by_mode_refused :
      (w : World B)
      → contains message_modes class.mode ≡ false
      → (send_by_mode B X env m class w ≡ (err (create_error bad_request 100105), w))
        × (send_by_mode_v2 B X env m class w ≡ (err (create_error bad_request 100105), w))
  unfolding send_by_mode send_by_mode_v2
  by_mode_refused w n =
      let none_of = no_mode class.mode n in
      (
        rw none_of.0 (
            rw none_of.1 (
              rw none_of.2
                (rw none_of.3 (rw none_of.4 (rw none_of.5 (rw none_of.6 (rw none_of.7 refl))))))),
        rw none_of.0 (
            rw none_of.1 (
              rw none_of.2
                (rw none_of.3 (rw none_of.4 (rw none_of.5 (rw none_of.6 (rw none_of.7 refl))))))),
      )

  -- In a class whose mode is not one of those that `validateMessageMode` accepts, both versions of
  -- sending end in the error 100105 and change nothing.
  pub unknown_mode_refused :
      (w : World B)
      → contains message_modes class.mode ≡ false
      → (send_message B X env m class w ≡ (err (create_error bad_request 100105), w))
        × (send_message_v2 B X env m class w ≡ (err (create_error bad_request 100105), w))
  unfolding send_message send_message_v2
  unknown_mode_refused w n = let (a, b) = by_mode_refused w n in (rw a refl, rw b refl)

  -- A message of mode "push" that is not linked, to pairwise distinct targets, is stored with the
  -- targets that the redirection left: all, or those without a client if two or more have one. The
  -- answer of the store is the answer of the call, and every target that has a client got the
  -- message offered on each connection.
  pub send_message-push :
      (w : World B)
      → class.mode ≡ "push"
      → class.type ≢ "linkage"
      → Distinct m.target
      → (let online = online_of w.server.clients m.target in
          let kept = record m {
            target = if ltb 1 (length online) then without online m.target else m.target;
          } in
          (v : World B) × (v.state ≡ w.state)
          × ((u : String)
              → lookup u v.server.clients ≡ (
                  if contains m.target u
                  then offered_to m class (lookup u w.server.clients)
                  else lookup u w.server.clients))
          × (send_message B X env m class w ≡ (insert_one_message B kept class >> pure kept) v))
  unfolding send_message send_by_mode push_message
  send_message-push w p t d =
      let (s, v, e, same, shown, clients) = redirect_lem B m class w d in
      (
        v,
        same,
        clients,
        ground (
          arith,
          p,
          t,
          e,
          shown,
          eq_iff class.mode "push",
          eq_iff class.mode "pull",
          eq_iff "push" "pull",
          eq_iff class.type "linkage",
        ),
      )
