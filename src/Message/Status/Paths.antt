-- ===== src/Message/Status/Paths.antt =====
-- The gRPC and the HTTP way to a change of status: `UpdateMessageStatus` beside
-- `HttpUpdateMessageStatus`, and `DeleteMessage` beside `HttpDeleteMessage`.
use messenger_service_go.Prelude.{◌≡◌, ◌≢◌, refl, String, eq_iff, arith}
use messenger_service_go.Go.{Result, ok, err, panic, ◌>>=◌}
use messenger_service_go.Models.{Time, Configuration, Message, MessageStatus}
use messenger_service_go.Backend.{Backend}
use messenger_service_go.World.{World}
use messenger_service_go.Message.Store.{find_message}
use messenger_service_go.Message.External.{External}
use messenger_service_go.Message.Send.{validate_json}
use messenger_service_go.Message.Change.{
  update_message_status, http_update_message_status, delete_message, http_delete_message,
  update_message_status_request, http_update_message_status_request, delete_message_request,
  http_delete_message_request,
}
use messenger_service_go.Message.Status.{
  set_sync, validate_update_message_status, http_update_checks, validate_delete_message,
  http_delete_checks,
}

update_checks_agree :
    (now : Time) (message : Message) (class : Configuration) (s : MessageStatus)
    → validate_update_message_status now message class s ≡ (
        http_update_checks message class s.status s.open_id >>= λ m'.
        ok (record m' { updated_at = now }))
unfolding validate_update_message_status http_update_checks
update_checks_agree now message class s = ground arith

set_sync_keeps_time :
    (message : Message) (u s : String) {m' : Message}
    → set_sync message u s ≡ ok m'
    → m'.updated_at ≡ message.updated_at
unfolding set_sync
set_sync_keeps_time message u s h = ground arith

pub http_update_keeps_time :
    (message : Message) (class : Configuration) (status open_id : String) {m' : Message}
    → http_update_checks message class status open_id ≡ ok m'
    → m'.updated_at ≡ message.updated_at
unfolding http_update_checks
http_update_keeps_time message class status open_id h = ground arith

delete_checks_agree :
    (now : Time) (message : Message) (class : Configuration) (open_id : String)
    → validate_delete_message now message class open_id
      ≡ http_delete_checks now message class open_id
unfolding validate_delete_message http_delete_checks
delete_checks_agree now message class open_id = ground arith

http_update_same :
    (B : Backend) (message : Message) (class : Configuration) (s : MessageStatus) (w : World B)
    → http_update_message_status B message class s.status s.open_id w
      ≡ update_message_status B message class s w
unfolding http_update_message_status update_message_status
http_update_same B message class s w = refl

http_delete_same :
    (B : Backend) (message : Message) (class : Configuration) (u : String) (w : World B)
    → http_delete_message B message class u w
      ≡ delete_message B message class (record { status = "deleted"; open_id = u }) w
unfolding http_delete_message delete_message
http_delete_same B message class u w = refl

-- What an update comes to after the checks: their error, or the change of the message, whose time is
-- set by `stamp`.
abbrev pub changed_after :
    (B : Backend)
    → (Message → Message)
    → Result Message
    → Configuration
    → MessageStatus
    → World B
    → Result (Unit {0}) × World B
changed_after B stamp (ok m) class s w = update_message_status B (stamp m) class s w
changed_after B stamp (err e) class s w = (err e, w)
changed_after B stamp panic class s w = (panic, w)

module _ (B : Backend) (X : External B) (now : Time) (id : String) (w v : World B) (m : Message)
    (class : Configuration) where
  -- An update request whose message is found with its class, under a user and a status that are not
  -- "", and where the message passes the validation of its JSON, which only the gRPC way has: both
  -- ways make the same checks with the same errors, and then the same changes, but for the time of
  -- the message: the gRPC way sets it to the present, the HTTP way leaves the old one.
  pub update_paths_agree :
      (s : MessageStatus)
      → find_message B id w ≡ (ok (m, class), v)
      → validate_json B X m ≡ ok tt
      → s.open_id ≢ ""
      → s.status ≢ ""
      → (let checks = http_update_checks m class s.status s.open_id in
          (update_message_status_request B X now id s w
            ≡ changed_after B (λ m'. record m' { updated_at = now }) checks class s v)
          × (http_update_message_status_request B id s.status s.open_id w
              ≡ changed_after B (λ m'. m') checks class s v))
  unfolding update_message_status_request http_update_message_status_request
  update_paths_agree s e j u t = go (http_update_checks m class s.status s.open_id) refl
    where
      go :
          (r : Result Message)
          → http_update_checks m class s.status s.open_id ≡ r
          → (update_message_status_request B X now id s w
              ≡ changed_after B (λ m'. record m' { updated_at = now }) r class s v)
            × (http_update_message_status_request B id s.status s.open_id w
                ≡ changed_after B (λ m'. m') r class s v)
      go (ok m') q = (
        ground (arith, e, j, q, update_checks_agree now m class s),
        ground (
          arith,
          e,
          q,
          u,
          t,
          eq_iff s.open_id "",
          eq_iff s.status "",
          http_update_same B m' class s v,
        ),
      )
      go (err x) q = (
        ground (arith, e, j, q, update_checks_agree now m class s),
        ground (arith, e, q, u, t, eq_iff s.open_id "", eq_iff s.status ""),
      )
      go panic q = (
        ground (arith, e, j, q, update_checks_agree now m class s),
        ground (arith, e, q, u, t, eq_iff s.open_id "", eq_iff s.status ""),
      )

  -- A deletion request whose message is found with its class, under a user that is not "", and where
  -- the message passes the validation of its JSON, which only the gRPC way has: both ways end with
  -- the same answer, errors included, and leave the same world.
  pub delete_paths_agree :
      (open_id : String)
      → find_message B id w ≡ (ok (m, class), v)
      → validate_json B X m ≡ ok tt
      → open_id ≢ ""
      → delete_message_request B X now id open_id w ≡ http_delete_message_request B now id open_id w
  unfolding delete_message_request http_delete_message_request
  delete_paths_agree open_id e j u = go (http_delete_checks now m class open_id) refl
    where
      go :
          (r : Result Message)
          → http_delete_checks now m class open_id ≡ r
          → delete_message_request B X now id open_id w
            ≡ http_delete_message_request B now id open_id w
      go (ok m') q = ground (
        arith,
        e,
        j,
        q,
        u,
        eq_iff open_id "",
        delete_checks_agree now m class open_id,
        http_delete_same B m' class open_id v,
      )
      go (err x) q =
          ground (arith, e, j, q, u, eq_iff open_id "", delete_checks_agree now m class open_id)
      go panic q =
          ground (arith, e, j, q, u, eq_iff open_id "", delete_checks_agree now m class open_id)
