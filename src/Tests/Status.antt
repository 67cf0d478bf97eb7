-- ===== src/Tests/Status.antt =====
-- Tests of the statuses.
use messenger_service_go.Prelude.{
  ◌≡◌, ◌≢◌, ◌↔◌, refl, String, ◌==◌, Bool, true, false, Option, none, some, List, [], ◌∷◌, arith,
  differ, inl, inr, if◌then◌else◌,
}
use messenger_service_go.Go.{ok}
use messenger_service_go.Common.{contains}
use messenger_service_go.Models.{Message, MessageStatus}
use messenger_service_go.Message.Status.{
  read_sync, validate_update_message_status, validate_delete_message, http_update_checks,
  http_delete_checks, set_default_message_status, default_sync,
}
use messenger_service_go.Message.Status.Spec.{
  current_status, with_status, AllowsUpdate, AllowsDelete, validate_update_message_status_iff,
  validate_delete_message_iff,
}
use messenger_service_go.Message.Status.Lifecycle.{
  Request, update, delete, run, deleted_stays, status_stays-IsKnown, broadcast_isolates, author,
}
use messenger_service_go.Message.Status.Default.{set_default_message_status_lem}
use messenger_service_go.Tests.Data.{alerts, news, alert, bulletin}

abbrev reading : MessageStatus
reading = record { status = "read"; open_id = "ann" }

validate_update_message_status_iff_example :
    AllowsUpdate alerts alert reading
    × (record alert { status = "read"; updated_at = 7 } ≡ with_status 7 alerts alert "ann" "read")
unfolding validate_update_message_status contains
validate_update_message_status_iff_example =
    (validate_update_message_status_iff 7 alert (record alert { status = "read"; updated_at = 7 })
        alerts reading).0
      refl

validate_delete_message_iff_example :
    AllowsDelete alerts alert "ann"
    × (record alert { status = "deleted"; updated_at = 7 }
        ≡ with_status 7 alerts alert "ann" "deleted")
unfolding validate_delete_message contains
validate_delete_message_iff_example =
    (validate_delete_message_iff 7 alert (record alert { status = "deleted"; updated_at = 7 })
        alerts "ann").0
      refl

abbrev requests : List Request
requests = update 1 reading ∷ delete 2 "ann" ∷ update 3 reading ∷ []

deleted_stays_example : current_status news (run news bulletin requests) "bob" ≡ "deleted"
unfolding current_status read_sync messenger_service_go.Prelude.Maps.lookup
deleted_stays_example = deleted_stays news bulletin "bob" requests refl

run_example :
    (run news bulletin requests).status_sync ≡ some (("ann", "deleted") ∷ ("bob", "deleted") ∷ [])
unfolding run messenger_service_go.Message.Status.Lifecycle.answer validate_update_message_status
    contains validate_delete_message messenger_service_go.Prelude.Maps.lookup
    messenger_service_go.Prelude.Maps.insert
run_example = refl

broadcast_isolates_example :
    current_status news (run news bulletin requests) "bob" ≡ current_status news bulletin "bob"
broadcast_isolates_example =
    broadcast_isolates news bulletin "bob" requests refl
      (differ "ann" "bob" refl, (differ "ann" "bob" refl, (differ "ann" "bob" refl, tt)))

set_default_message_status_lem_example :
    (m' : Message) × (set_default_message_status alert news ≡ ok m')
    × ((u : String) → contains alert.target u ≡ true → current_status news m' u ≡ "unread")
    × ((u : String)
        → contains alert.target u ≡ false
        → current_status news m' u
          ≡ (if news.type == "broadcast" then read_sync alert.status_sync u else "unread"))
    × (news.type ≡ "broadcast" → m'.status_sync ≢ none)
set_default_message_status_lem_example =
    set_default_message_status_lem alert news "unread" ("read" ∷ "deleted" ∷ []) refl
