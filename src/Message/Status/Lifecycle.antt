-- ===== src/Message/Status/Lifecycle.antt =====
-- What any sequence of answers of `validateUpdateMessageStatus` and `validateDeleteMessage` to updates
-- and deletions of one message does to the statuses that its users see. A refused request leaves the
-- message as it was. The stores, and what an update of a linked message does to its partner, are not
-- part of it.
use messenger_service_go.Prelude.{
  String, ◌==◌, eq_iff, ◌≡◌, refl, ◌≢◌, ◌⊎◌, true, false, Option, none, some, List, [], ◌∷◌, All,
  arith, if◌then◌else◌,
}
use messenger_service_go.Prelude.Maps.{Map, lookup-insert}
use messenger_service_go.Go.{Result, ok, err, panic}
use messenger_service_go.Common.{contains}
use messenger_service_go.Models.{Time, Configuration, Message, MessageStatus}
use messenger_service_go.Message.Status.{
  read_sync, validate_update_message_status, validate_delete_message,
}
use messenger_service_go.Message.Status.Spec.{
  inserted, current_status, with_status, validate_update_message_status_iff,
  validate_delete_message_iff,
}

pub data Request : Type 0 where
  update : Time → MessageStatus → Request
  delete : Time → String → Request

abbrev pub author : Request → String
author (update now s) = s.open_id
author (delete now open_id) = open_id

unfoldable pub answer : Configuration → Message → Request → Result Message
answer class message (update now s) = validate_update_message_status now message class s
answer class message (delete now open_id) = validate_delete_message now message class open_id

abbrev pub or_unchanged : Message → Result Message → Message
or_unchanged message (ok m') = m'
or_unchanged message (err e) = message
or_unchanged message panic = message

unfoldable pub run : Configuration → Message → List Request → Message
run class message [] = message
run class message (r ∷ requests) =
    run class (or_unchanged message (answer class message r)) requests

abbrev pub asked : Request → String
asked (update now s) = s.status
asked (delete now open_id) = "deleted"

abbrev pub time_of : Request → Time
time_of (update now s) = now
time_of (delete now open_id) = now

read_sync-inserted :
    (sync : Option (Map String)) (u v s : String)
    → sync ≢ none
    → read_sync (inserted sync u s) v ≡ (if u == v then s else read_sync sync v)
unfolding read_sync
read_sync-inserted none u v s h = absurd (h refl)
read_sync-inserted (some m) u v s h = ground (arith, lookup-insert u v s m)

-- The status that every user sees after a change.
current_status-with_status :
    (now : Time) (class : Configuration) (m : Message) (u v s : String)
    → (class.type ≡ "broadcast" → m.status_sync ≢ none)
    → current_status class (with_status now class m u s) v
      ≡ (if class.type == "broadcast" then (if u == v then s else current_status class m v) else s)
unfolding current_status with_status
current_status-with_status now class m u v s h =
    ground (arith, read_sync-inserted m.status_sync u v s, eq_iff class.type "broadcast")

-- What an answer with a message says, whichever request it answers.
record Accepted (class : Configuration) (m m' : Message) (r : Request) : Type 0 where
  changed : m' ≡ with_status (time_of r) class m (author r) (asked r)
  known : contains class.states (asked r) ≡ true
  live : asked r ≢ "deleted" → current_status class m (author r) ≢ "deleted"
  map_made : class.type ≡ "broadcast" → m.status_sync ≢ none

answer-Accepted :
    (class : Configuration) (m m' : Message) (r : Request)
    → answer class m r ≡ ok m'
    → Accepted class m m' r
unfolding answer
answer-Accepted class m m' (update now s) h =
    let (a, e) = (validate_update_message_status_iff now m m' class s).0 h in
    record { changed = e; known = a.known; live = λ _. a.live; map_made = a.map_made }
answer-Accepted class m m' (delete now u) h =
    let (a, e) = (validate_delete_message_iff now m m' class u).0 h in
    record { changed = e; known = a.known; live = λ d. absurd (d refl); map_made = a.map_made }

-- But for a broadcast the users see one status.
current_status_shared :
    (class : Configuration) (m : Message) (u v : String)
    → (class.type == "broadcast") ≡ false
    → current_status class m u ≡ current_status class m v
unfolding current_status
current_status_shared class m u v h = ground arith

with_status_frame :
    (class : Configuration) (m m₁ m' : Message) (r : Request)
    → Accepted class m₁ m' r
    → m₁ ≡ record m { status = m₁.status; status_sync = m₁.status_sync; updated_at = m₁.updated_at }
    → m' ≡ record m { status = m'.status; status_sync = m'.status_sync; updated_at = m'.updated_at }
unfolding with_status
with_status_frame class m m₁ m' r a p = ground (arith, a.changed)

-- The rule of induction over a run: what every accepted request keeps, the run keeps. Of each
-- request in the list, `Q` is known.
module _ (class : Configuration) (P : Message → Type 0) (Q : Request → Type 0)
    (keep : (m m' : Message) (r : Request) → Q r → Accepted class m m' r → P m → P m') where
  answer_keeps : (m : Message) (r : Request) → Q r → P m → P (or_unchanged m (answer class m r))
  answer_keeps m r q p = go (answer class m r) refl
    where
      go : (x : Result Message) → answer class m r ≡ x → P (or_unchanged m x)
      go (ok m') e = keep m m' r q (answer-Accepted class m m' r e) p
      go (err x) e = p
      go panic e = p

  run_keeps :
      (m : Message) (requests : List Request) → All Q requests → P m → P (run class m requests)
  unfolding run
  run_keeps m [] q p = p
  run_keeps m (r ∷ requests) q p =
      run_keeps (or_unchanged m (answer class m r)) requests q.1 (answer_keeps m r q.0 p)

abbrev Any : Request → Type 0
Any r = Unit {0}

All-Any : (requests : List Request) → All Any requests
All-Any [] = tt
All-Any (r ∷ requests) = (tt, All-Any requests)

-- The validators never take a deletion back. Of a message and its class, if a user sees the status
-- "deleted" in the message, the user sees it in what is left of the message after every sequence of
-- updates and deletions, of whatever users, each of which changes the message as
-- `validateUpdateMessageStatus` or `validateDeleteMessage` says, or leaves it if they refuse it.
-- (Where messages are linked, an update of the other message is not among these: it writes its status
-- to this one without asking them.)
pub deleted_stays :
    (class : Configuration) (m : Message) (u : String) (requests : List Request)
    → current_status class m u ≡ "deleted"
    → current_status class (run class m requests) u ≡ "deleted"
deleted_stays class m u requests h =
    run_keeps class (λ m. current_status class m u ≡ "deleted") Any
      (λ m m' r _ a p. rw a.changed (
        rw (current_status-with_status (time_of r) class m (author r) u (asked r) a.map_made) (
          ground (
            arith,
            a.live,
            eq_iff (asked r) "deleted",
            eq_iff (author r) u,
            current_status_shared class m u (author r),
          ))))
      m requests (All-Any requests) h

abbrev IsKnown : Configuration → Message → String → Type 0
IsKnown class m u =
    (current_status class m u ≡ "") ⊎ (contains class.states (current_status class m u) ≡ true)

-- If a user sees no status or one of the class's states, so the user does after every sequence of
-- updates and deletions.
pub status_stays-IsKnown :
    (class : Configuration) (m : Message) (u : String) (requests : List Request)
    → IsKnown class m u
    → IsKnown class (run class m requests) u
status_stays-IsKnown class m u requests h =
    run_keeps class (λ m. IsKnown class m u) Any
      (λ m m' r _ a p. rw a.changed (
        rw (current_status-with_status (time_of r) class m (author r) u (asked r) a.map_made)
          (ground (arith, a.known))))
      m requests (All-Any requests) h

-- The requests of others do not change the status that a user sees of a broadcast.
pub broadcast_isolates :
    (class : Configuration) (m : Message) (u : String) (requests : List Request)
    → class.type ≡ "broadcast"
    → All (λ r. author r ≢ u) requests
    → current_status class (run class m requests) u ≡ current_status class m u
broadcast_isolates class m u requests b others =
    run_keeps class (λ m'. current_status class m' u ≡ current_status class m u) (λ r. author r ≢ u)
      (λ m₁ m' r other a p. rw a.changed (
        rw (current_status-with_status (time_of r) class m₁ (author r) u (asked r) a.map_made)
          (ground (arith, eq_iff (author r) u, eq_iff class.type "broadcast"))))
      m requests others refl

-- Whatever is asked, a message keeps all but its statuses and its time of change.
pub run_frame :
    (class : Configuration) (m : Message) (requests : List Request)
    → (let m' = run class m requests in
        m'
        ≡ record m { status = m'.status; status_sync = m'.status_sync; updated_at = m'.updated_at })
run_frame class m requests =
    run_keeps class
      (λ m'.
        m'
        ≡ record m { status = m'.status; status_sync = m'.status_sync; updated_at = m'.updated_at })
      Any (λ m₁ m' r _ a p. with_status_frame class m m₁ m' r a p) m requests (All-Any requests)
      refl
