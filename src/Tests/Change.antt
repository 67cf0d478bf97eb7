-- ===== src/Tests/Change.antt =====
-- Tests of the changes of stored messages.
use messenger_service_go.Prelude.{
  ◌≡◌, ◌≢◌, ◌↔◌, refl, String, ◌==◌, Bool, true, false, Option, none, some, List, [], ◌∷◌, arith,
  differ, inl, inr, if◌then◌else◌, eqb,
}
use messenger_service_go.Go.{ok, err, internal, not_found}
use messenger_service_go.Common.{contains, create_error}
use messenger_service_go.Models.{ObjectId, MessageStatus}
use messenger_service_go.Backend.{first_class, decodes}
use messenger_service_go.Backend.Memory.{
  decoded, memory_backend, memory_backend-IsLawful, count, message_at, get,
}
use messenger_service_go.World.{World}
use messenger_service_go.Message.Status.Spec.{with_status}
use messenger_service_go.Message.Store.{
  find_message, find_message_by_id, update_one_message, replace_or_append,
}
use messenger_service_go.Message.Store.Cache.{find_by_id, find_by_id-replace_or_append}
use messenger_service_go.Message.Change.{
  push_change, update_message_status, delete_message, update_message_status_request,
  delete_message_request, http_update_message_status_request, http_delete_message_request,
}
use messenger_service_go.Message.Change.Linkage.{linked_change_fails, linked_update_inserts_twice}
use messenger_service_go.Message.Change.Outcome.{update_hides_errors}
use messenger_service_go.Message.Change.Steps.{IsStored, found_stored}
use messenger_service_go.Message.Send.{validate_json}
use messenger_service_go.Message.Status.{http_update_checks}
use messenger_service_go.Message.Status.Paths.{
  changed_after, update_paths_agree, delete_paths_agree,
}
use messenger_service_go.Message.Change.Stored.{updated_is_found, deleted_is_found}
use messenger_service_go.Tests.Data.{
  alerts, pairs, quick_pairs, alert, partner, bulletin, world, external,
}

abbrev reading : MessageStatus
reading = record { status = "read"; open_id = "ann" }

-- "xxx" writes the id 3.
abbrev start : World memory_backend
start = world (alert ∷ []) alerts ("bob" ∷ [])

start-IsStored : IsStored memory_backend memory_backend-IsLawful alert alerts "xxx" start
unfolding count get message_at first_class decoded decodes
start-IsStored = record {
  named = refl;
  persists = refl;
  uncached = λ v q. ground (arith, q);
  in_collection = refl;
  class_found = refl;
}

abbrev after_update : World memory_backend
after_update = (update_message_status_request memory_backend external 7000000 "xxx" reading start).1

updated_is_found_example :
    find_message_by_id memory_backend "xxx" after_update
    ≡ (ok (with_status 7000000 alerts alert "ann" "read"), after_update)
unfolding update_message_status_request get message_at count first_class decoded decodes contains
    messenger_service_go.Prelude.Maps.lookup messenger_service_go.Socket.Removal.remove_success
    messenger_service_go.Prelude.Maps.insert
updated_is_found_example =
    updated_is_found memory_backend memory_backend-IsLawful alert alerts external 7000000 "xxx"
      start reading {w' = after_update} start-IsStored (differ alerts.type "linkage" refl)
      (λ u st. ground arith) refl

abbrev after_delete : World memory_backend
after_delete = (delete_message_request memory_backend external 7000000 "xxx" "ann" start).1

deleted_is_found_example :
    find_message_by_id memory_backend "xxx" after_delete
    ≡ (ok (with_status 7000000 alerts alert "ann" "deleted"), after_delete)
unfolding delete_message_request get message_at count first_class decoded decodes contains
    messenger_service_go.Prelude.Maps.lookup messenger_service_go.Socket.Removal.remove_success
    messenger_service_go.Prelude.Maps.insert
deleted_is_found_example =
    deleted_is_found memory_backend memory_backend-IsLawful alert alerts external 7000000 "xxx"
      start "ann" {w' = after_delete} start-IsStored (differ alerts.type "linkage" refl) refl

update_hides_errors_example :
    (alerts.type ≢ "linkage"
      → (update_message_status memory_backend alert alerts reading start).0 ≡ ok tt)
    × (delete_message memory_backend alert alerts reading start
        ≡ update_one_message memory_backend alert alerts
            (push_change memory_backend alert alerts "ann" start).1)
unfolding contains
update_hides_errors_example =
    update_hides_errors memory_backend alert alerts reading start (differ alerts.mode "pull" refl)
      (refl, (refl, tt))

abbrev quick : World memory_backend
quick = world [] quick_pairs []

linked_change_fails_example :
    (update_message_status memory_backend alert quick_pairs reading quick
      ≡ (err (create_error not_found 100306), quick))
    × (quick_pairs.mode ≡ "pull"
        → delete_message memory_backend alert quick_pairs reading quick
          ≡ (err (create_error not_found 100306), quick))
unfolding get
linked_change_fails_example =
    linked_change_fails memory_backend alert quick_pairs reading quick refl refl refl

abbrev paired : World memory_backend
paired = world (alert ∷ partner ∷ []) pairs ("bob" ∷ [])

linked_update_inserts_twice_example :
    (w' : World memory_backend) × (update_message_status memory_backend alert pairs reading paired
      ≡ (err (create_error internal 1001), w'))
    × ((i : ObjectId)
        → memory_backend.find_message i w'.state ≡ memory_backend.find_message i paired.state)
unfolding message_at contains
linked_update_inserts_twice_example =
    linked_update_inserts_twice memory_backend memory_backend-IsLawful alert partner pairs reading
      paired refl refl (differ pairs.mode "pull" refl) refl (refl, (refl, tt))

find_by_id-replace_or_append_example :
    find_by_id 3 (replace_or_append alert (partner ∷ bulletin ∷ []))
    ≡ (if eqb alert.id 3 then some alert else find_by_id 3 (partner ∷ bulletin ∷ []))
find_by_id-replace_or_append_example =
    find_by_id-replace_or_append 3 alert (partner ∷ bulletin ∷ [])

update_paths_agree_example :
    (let checks = http_update_checks alert alerts "read" "ann" in
      (update_message_status_request memory_backend external 7 "xxx" reading start
        ≡ changed_after memory_backend
            (λ m'. record m' { updated_at = 7 })
            checks
            alerts
            reading
            start)
      × (http_update_message_status_request memory_backend "xxx" "read" "ann" start
          ≡ changed_after memory_backend (λ m'. m') checks alerts reading start))
unfolding find_message validate_json
update_paths_agree_example =
    update_paths_agree memory_backend external 7 "xxx" start start alert alerts reading
      (found_stored memory_backend memory_backend-IsLawful alert alerts "xxx" start start-IsStored)
      refl (differ "ann" "" refl) (differ "read" "" refl)

delete_paths_agree_example :
    delete_message_request memory_backend external 7 "xxx" "ann" start
    ≡ http_delete_message_request memory_backend 7 "xxx" "ann" start
unfolding validate_json
delete_paths_agree_example =
    delete_paths_agree memory_backend external 7 "xxx" start start alert alerts "ann"
      (found_stored memory_backend memory_backend-IsLawful alert alerts "xxx" start start-IsStored)
      refl (differ "ann" "" refl)
