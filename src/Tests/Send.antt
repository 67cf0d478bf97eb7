-- ===== src/Tests/Send.antt =====
-- Tests of sending and of the stores.
use mathlib.Core.Option
use messenger_service_go.Prelude.{
  ◌≡◌, ◌≢◌, ◌↔◌, refl, String, ◌==◌, Bool, true, false, Option, none, some, List, [], ◌∷◌, ◌++◌,
  eqb, arith, differ, inl, inr, if◌then◌else◌, length, ltb,
}
use messenger_service_go.Prelude.Maps.{lookup}
use messenger_service_go.Go.{ok, err, bad_request}
use messenger_service_go.Go.Exec.{◌>>◌, pure}
use messenger_service_go.Common.{contains, create_error}
use messenger_service_go.Models.{ObjectId, Configuration, Message}
use messenger_service_go.Backend.{found, messages_json, json_message}
use messenger_service_go.Backend.Memory.{
  memory_backend, memory_backend-IsLawful, count, get, message_at,
}
use messenger_service_go.World.{World}
use messenger_service_go.Message.Store.{
  insert_one_message, find_message_by_id, update_message_in_user_cached_messages_redis,
}
use messenger_service_go.Message.Store.Cache.{
  StartsFrom, user_reply, find_by_id, ids, update_message_lem,
}
use messenger_service_go.Message.Store.Laws.{stored}
use messenger_service_go.Message.Send.{send_message, send_message_v2, push_linked}
use messenger_service_go.Message.Send.Outcome.{
  sent_is_found, unknown_mode_refused, send_message-push,
}
use messenger_service_go.Message.Send.Linked.{linked_targets}
use messenger_service_go.Socket.Deliver.Redirect.{online_of, is_online, offered_to}
use messenger_service_go.Socket.Removal.Laws.{without}
use messenger_service_go.Tests.Data.{class_of, alerts, pairs, alert, world, external, env}

abbrev start : World memory_backend
start = world [] alerts ("ann" ∷ "bob" ∷ [])

abbrev sent : World memory_backend
sent = (send_message memory_backend external env alert alerts start).1

sent_is_found_example :
    find_message_by_id memory_backend "xxx" sent
    ≡ (ok (stored alerts (record alert { target = [] })), sent)
unfolding send_message lookup messenger_service_go.Prelude.Maps.insert
    messenger_service_go.Socket.Removal.remove_success
    messenger_service_go.Socket.Removal.remove_all messenger_service_go.Socket.Removal.remove_loop
    messenger_service_go.Socket.Removal.remove_step message_at count get
sent_is_found_example =
    sent_is_found memory_backend external env alert alerts memory_backend-IsLawful "xxx" start
      {m' = record alert { target = [] }} {w' = sent} refl refl (λ p v q. ground (arith, q))

send_message-push_example :
    (let online = online_of start.server.clients alert.target in
      let kept = record alert {
        target = if ltb 1 (length online) then without online alert.target else alert.target;
      } in
      (v : World memory_backend) × (v.state ≡ start.state)
      × ((u : String)
          → lookup u v.server.clients ≡ (
              if contains alert.target u
              then offered_to alert alerts (lookup u start.server.clients)
              else lookup u start.server.clients))
      × (send_message memory_backend external env alert alerts start
          ≡ (insert_one_message memory_backend kept alerts >> pure kept) v))
unfolding contains
send_message-push_example =
    send_message-push memory_backend external env alert alerts start refl
      (differ alerts.type "linkage" refl) (refl, (refl, tt))

abbrev odd : Configuration
odd = class_of "exclusive" "pigeon" true

unknown_mode_refused_example :
    (send_message memory_backend external env alert odd start
      ≡ (err (create_error bad_request 100105), start))
    × (send_message_v2 memory_backend external env alert odd start
        ≡ (err (create_error bad_request 100105), start))
unfolding contains
unknown_mode_refused_example = unknown_mode_refused memory_backend external env alert odd start refl

abbrev pushed : World memory_backend
pushed = (push_linked memory_backend env alert pairs start).1

abbrev twice : Message
twice = record alert { linkage_id = 5; target = "bob" ∷ "bob" ∷ [] }

linked_targets_example :
    ((a b : String)
      → alert.target ≡ a ∷ b ∷ []
      → a ≢ b
      → is_online start.server.clients a ≡ true
      → is_online start.server.clients b ≡ true
      → twice.target ≡ b ∷ b ∷ [])
    × (ltb 1 (length (online_of start.server.clients alert.target)) ≡ false
        → twice.target ≡ alert.target)
unfolding push_linked lookup messenger_service_go.Prelude.Maps.insert
    messenger_service_go.Socket.Removal.remove_success
    messenger_service_go.Socket.Removal.remove_all messenger_service_go.Socket.Removal.remove_loop
    messenger_service_go.Socket.Removal.remove_step message_at
linked_targets_example =
    linked_targets memory_backend env alert pairs start {m' = twice} {w' = pushed} refl

abbrev listed : World memory_backend
listed = (update_message_in_user_cached_messages_redis memory_backend "ann" alert start).1

update_message_lem_example :
    (ms ms' : List Message) × StartsFrom
      (user_reply memory_backend memory_backend-IsLawful start "ann")
      ms
    × (user_reply memory_backend memory_backend-IsLawful listed "ann" ≡ (
        if "ann" == "ann"
        then found (messages_json ms')
        else user_reply memory_backend memory_backend-IsLawful start "ann"))
    × ((i : ObjectId)
        → find_by_id i ms' ≡ (
            if eqb alert.id i
            then some (json_message alert)
            else Option.map json_message (find_by_id i ms)))
    × (ids ms'
        ≡ (elim (find_by_id alert.id ms) [ none ↦ ids ms ++ (alert.id ∷ []) | some n ↦ ids ms ]))
unfolding update_message_in_user_cached_messages_redis get
update_message_lem_example =
    update_message_lem memory_backend memory_backend-IsLawful "ann" "ann" alert start {w' = listed}
      refl
