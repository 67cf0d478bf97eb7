-- ===== src/Tests/Socket.antt =====
-- Tests of the delivery to sockets.
use messenger_service_go.Prelude.{
  ◌≡◌, refl, String, some, List, [], ◌∷◌, ◌++◌, if◌then◌else◌, length, ltb,
}
use messenger_service_go.Prelude.Maps.{lookup}
use messenger_service_go.Go.{ok, panic}
use messenger_service_go.Common.{contains}
use messenger_service_go.Models.{Message}
use messenger_service_go.Backend.Memory.{memory_backend}
use messenger_service_go.World.{World}
use messenger_service_go.Socket.Server.{message_frame}
use messenger_service_go.Socket.Removal.{Slice, view, slice_of, remove_success}
use messenger_service_go.Socket.Removal.Laws.{without, remove_success_lem}
use messenger_service_go.Socket.Deliver.{offer, redirect_message_to_sockets}
use messenger_service_go.Socket.Deliver.Filter.{Receives, offer_lem}
use messenger_service_go.Socket.Deliver.Redirect.{
  online_of, offered_to, redirect_lem, redirect_panics,
}
use messenger_service_go.Tests.Data.{alerts, alert, world, connection}

abbrev start : World memory_backend
start = world [] alerts ("ann" ∷ "cyd" ∷ [])

abbrev reached : List String
reached = "ann" ∷ "cyd" ∷ []

abbrev three : Message
three = record alert { target = "ann" ∷ "bob" ∷ "cyd" ∷ [] }

remove_success_lem_example :
    (s : Slice) × (remove_success reached (slice_of three.target) ≡ some s)
    × (view s ≡ (if ltb 1 (length reached) then without reached three.target else three.target))
unfolding contains
remove_success_lem_example = remove_success_lem reached three.target (refl, (refl, (refl, tt)))

redirect_lem_example :
    (let online = online_of start.server.clients three.target in
      (s : Slice) × (w' : World memory_backend) × (redirect_message_to_sockets memory_backend three
          alerts start
        ≡ (ok s, w'))
      × (w'.state ≡ start.state)
      × (view s ≡ (if ltb 1 (length online) then without online three.target else three.target))
      × ((v : String)
          → lookup v w'.server.clients ≡ (
              if contains three.target v
              then offered_to three alerts (lookup v start.server.clients)
              else lookup v start.server.clients)))
unfolding contains
redirect_lem_example = redirect_lem memory_backend three alerts start (refl, (refl, (refl, tt)))

redirect_panics_example :
    (redirect_message_to_sockets memory_backend
      (record alert { target = "bob" ∷ "ann" ∷ "ann" ∷ [] })
      alerts
      start).0
    ≡ panic
unfolding messenger_service_go.Socket.Deliver.Redirect.is_online lookup contains online_of
redirect_panics_example =
    redirect_panics memory_backend (record alert { target = "bob" ∷ "ann" ∷ "ann" ∷ [] }) alerts
      start "ann" ("bob" ∷ []) refl refl refl refl

offer_lem_example :
    (Receives alert alerts (connection "ann")
      → offer alert alerts (connection "ann")
        ≡ record (connection "ann") { send = [] ++ (message_frame alert ∷ []) })
    × (¬ Receives alert alerts (connection "ann")
        → offer alert alerts (connection "ann") ≡ connection "ann")
offer_lem_example = offer_lem alert alerts (connection "ann")
