-- ===== src/Message/Status/Default.antt =====
-- What `setDefaultMessageStatus` gives a new message.
use messenger_service_go.Prelude.{
  String, ◌==◌, eq_iff, ◌≡◌, refl, ap, ◌≢◌, true, false, none, some, List, [], ◌∷◌, arith,
  if◌then◌else◌,
}
use messenger_service_go.Prelude.Maps.{Map, lookup, insert, lookup-insert}
use messenger_service_go.Go.{ok}
use messenger_service_go.Common.{contains}
use messenger_service_go.Models.{Configuration, Message}
use messenger_service_go.Message.Status.{
  read_sync, default_sync, broadcast_default, made_map, set_default_message_status,
}
use messenger_service_go.Message.Status.Spec.{current_status}

lookup-nil : (u : String) → lookup {V = String} u [] ≡ none
unfolding lookup
lookup-nil u = refl

lookup-default_sync :
    (target : List String) (status : String) (sync : Map String) (u : String)
    → lookup u (default_sync target status sync)
      ≡ (if contains target u then some status else lookup u sync)
unfolding default_sync contains
lookup-default_sync [] status sync u = refl
lookup-default_sync (r ∷ target) status sync u = ground (
  arith,
  lookup-default_sync target status (insert r status sync) u,
  lookup-insert r u status sync,
)

abbrev defaulted : Message → Configuration → String → Message
defaulted message class first =
    if class.type == "broadcast"
    then record message {
      status_sync = some (default_sync message.target first (made_map message.status_sync));
    }
    else record message { status = first }

broadcast_default_lem :
    (target : List String) (first : String) (states : List String) (sync : Map String)
    → broadcast_default target (first ∷ states) sync ≡ ok (default_sync target first sync)
unfolding broadcast_default default_sync
broadcast_default_lem [] first states sync = refl
broadcast_default_lem (r ∷ target) first states sync = refl

set_default_message_status-defaulted :
    (message : Message) (class : Configuration) (first : String) (states : List String)
    → class.states ≡ first ∷ states
    → set_default_message_status message class ≡ ok (defaulted message class first)
unfolding set_default_message_status
set_default_message_status-defaulted message class first states e = ground (
  arith,
  e,
  broadcast_default_lem message.target first states (made_map message.status_sync),
  ap (λ (l : List String). broadcast_default message.target l (made_map message.status_sync)) e,
)

current_status-defaulted :
    (message : Message) (class : Configuration) (first u : String)
    → current_status class (defaulted message class first) u ≡ (
        if contains message.target u
        then first
        else if class.type == "broadcast"
        then read_sync message.status_sync u
        else first)
unfolding current_status read_sync
current_status-defaulted message class first u =
    ground (
      arith,
      lookup-default_sync message.target first (made_map message.status_sync) u,
      lookup-nil u,
    )

-- A class with a first state gives every target of a new message that state: a broadcast to each
-- target by an entry of the map, which is made if it is nil, with the other entries as they were;
-- another message by its one status.
pub set_default_message_status_lem :
    (message : Message) (class : Configuration) (first : String) (states : List String)
    → class.states ≡ first ∷ states
    → (m' : Message) × (set_default_message_status message class ≡ ok m')
      × ((u : String) → contains message.target u ≡ true → current_status class m' u ≡ first)
      × ((u : String)
          → contains message.target u ≡ false
          → current_status class m' u
            ≡ (if class.type == "broadcast" then read_sync message.status_sync u else first))
      × (class.type ≡ "broadcast" → m'.status_sync ≢ none)
set_default_message_status_lem message class first states e = (
  defaulted message class first,
  set_default_message_status-defaulted message class first states e,
  λ u h. ground (arith, current_status-defaulted message class first u),
  λ u h. ground (arith, current_status-defaulted message class first u),
  λ b. ground (arith, eq_iff class.type "broadcast"),
)
