-- ===== src/Message/Store/Cache.antt =====
-- The lists of messages that Redis keeps for the users.
use mathlib.Core.Option
use messenger_service_go.Prelude.{
  String, ◌==◌, ◌≡◌, refl, true, false, Option, none, some, List, [], ◌∷◌, ◌++◌, arith, eqb,
  eqb_iff, if◌then◌else◌, ap, ◌⊎◌, inl, inr,
}
use messenger_service_go.Go.{ok, internal}
use messenger_service_go.Common.{create_error}
use messenger_service_go.Models.{ObjectId, Message}
use messenger_service_go.Backend.{
  Backend, IsLawful, json_message, user_messages_key, messages_json, Reply, found, missing, failed,
}
use messenger_service_go.World.{World, write_ok}
use messenger_service_go.Message.Store.{
  json_messages, replace_message, replace_or_append, set_user_messages, change_user_messages,
  update_message_in_user_cached_messages_redis,
}

-- The first message of a list that has an id.
unfoldable pub find_by_id : ObjectId → List Message → Option Message
find_by_id i [] = none
find_by_id i (m ∷ ms) = if eqb m.id i then some m else find_by_id i ms

abbrev pub ids : List Message → List ObjectId
ids [] = []
ids (m ∷ ms) = m.id ∷ ids ms

find_by_id-append :
    (i : ObjectId) (ms : List Message) (m : Message)
    → find_by_id i (ms ++ (m ∷ []))
      ≡ (elim (find_by_id i ms) [ none ↦ if eqb m.id i then some m else none | some n ↦ some n ])
unfolding find_by_id
find_by_id-append i [] m = ground arith
find_by_id-append i (n ∷ ms) m = ground (arith, find_by_id-append i ms m)

replace_message-found :
    (message : Message) (ms : List Message)
    → (replace_message message ms).1
      ≡ (elim (find_by_id message.id ms) [ none ↦ false | some n ↦ true ])
unfolding replace_message find_by_id
replace_message-found message [] = refl
replace_message-found message (m ∷ ms) = ground (arith, replace_message-found message ms)

find_by_id-replace_message :
    (i : ObjectId) (message : Message) (ms : List Message)
    → find_by_id i (replace_message message ms).0 ≡ (elim (find_by_id i ms) [
      | none ↦ none
      | some n ↦ if eqb message.id i then some message else some n
    ])
unfolding replace_message find_by_id
find_by_id-replace_message i message [] = refl
find_by_id-replace_message i message (m ∷ ms) =
    ground (arith, find_by_id-replace_message i message ms)

find_by_id_same :
    (i j : ObjectId) (ms : List Message) → eqb i j ≡ true → find_by_id i ms ≡ find_by_id j ms
find_by_id_same i j ms h = ap (λ (k : ObjectId). find_by_id k ms) ((eqb_iff i j).0 h)

-- After the update of a user's list the id of the message leads to it, and every other id to what
-- it led to before.
pub find_by_id-replace_or_append :
    (i : ObjectId) (message : Message) (ms : List Message)
    → find_by_id i (replace_or_append message ms)
      ≡ (if eqb message.id i then some message else find_by_id i ms)
unfolding replace_or_append
find_by_id-replace_or_append i message ms = ground (
  arith,
  replace_message-found message ms,
  find_by_id-replace_message i message ms,
  find_by_id-append i (replace_message message ms).0 message,
  find_by_id_same message.id i ms,
)

replace_message-ids :
    (message : Message) (ms : List Message) → ids (replace_message message ms).0 ≡ ids ms
unfolding replace_message
replace_message-ids message [] = refl
replace_message-ids message (m ∷ ms) = ground (arith, replace_message-ids message ms)

ids-append : (ms : List Message) (m : Message) → ids (ms ++ (m ∷ [])) ≡ ids ms ++ (m.id ∷ [])
ids-append [] m = refl
ids-append (n ∷ ms) m = ap (λ (l : List ObjectId). n.id ∷ l) (ids-append ms m)

-- The update puts a message that is there in its place, and one that is not at the end.
pub ids-replace_or_append :
    (message : Message) (ms : List Message)
    → ids (replace_or_append message ms)
      ≡ (elim (find_by_id message.id ms) [ none ↦ ids ms ++ (message.id ∷ []) | some n ↦ ids ms ])
unfolding replace_or_append
ids-replace_or_append message ms = ground (
  arith,
  replace_message-found message ms,
  replace_message-ids message ms,
  ids-append (replace_message message ms).0 message,
)

find_by_id-json_messages :
    (i : ObjectId) (ms : List Message)
    → find_by_id i (json_messages ms) ≡ Option.map json_message (find_by_id i ms)
unfolding find_by_id json_message
find_by_id-json_messages i [] = refl
find_by_id-json_messages i (m ∷ ms) = ground (arith, find_by_id-json_messages i ms)

ids-json_messages : (ms : List Message) → ids (json_messages ms) ≡ ids ms
unfolding json_message
ids-json_messages [] = refl
ids-json_messages (m ∷ ms) = ap (λ (l : List ObjectId). m.id ∷ l) (ids-json_messages ms)

-- The list that a change of a user's list starts from: the one that Redis has, or the empty one, if
-- the key is not there, and also if the reading fails.
abbrev pub StartsFrom : Reply → List Message → Type 0
StartsFrom r ms =
    (r ≡ found (messages_json ms)) ⊎ ((r ≡ missing) × (ms ≡ [])) ⊎ ((r ≡ failed) × (ms ≡ []))

module _ (B : Backend) (L : IsLawful B) where
  abbrev pub user_reply : World B → String → Reply
  user_reply w u = B.redis_get (user_messages_key u) w.state

  set_user_messages_lem :
      (u v : String) (ms : List Message) (w : World B) {w' : World B}
      → set_user_messages B u ms w ≡ (ok tt, w')
      → user_reply w' v
        ≡ (if u == v then found (messages_json (json_messages ms)) else user_reply w v)
  unfolding set_user_messages
  set_user_messages_lem u v ms w h =
      let set =
        (write_ok B (create_error internal 1001)
          (B.redis_set (user_messages_key u) (messages_json (json_messages ms))) w h).0 in
      ground (
        arith,
        L.get-set (user_messages_key u) (user_messages_key v) (messages_json (json_messages ms))
            set,
      )

  change_user_messages_lem :
      (change : List Message → List Message) (u v : String) (m : Message) (r : Reply) (w : World B)
      {w' : World B}
      → change [] ≡ m ∷ []
      → change_user_messages B change u m r w ≡ (ok tt, w')
      → (ms : List Message) × StartsFrom r ms
        × (user_reply w' v ≡ (
            if u == v then found (messages_json (json_messages (change ms))) else user_reply w v))
  unfolding change_user_messages
  change_user_messages_lem change u v m (found (messages_json ms)) w e h =
      (ms, inl refl, set_user_messages_lem u v (change ms) w h)
  change_user_messages_lem change u v m (found _) w e h = absurd (cc)
  change_user_messages_lem change u v m missing w e h =
      ([], inr (inl (refl, refl)), rw e (set_user_messages_lem u v (m ∷ []) w h))
  change_user_messages_lem change u v m failed w e h =
      ([], inr (inr (refl, refl)), rw e (set_user_messages_lem u v (m ∷ []) w h))

  -- An update of a message in a user's list that succeeds starts from the list that Redis has, or
  -- from the empty one, if the key is not there or the reading fails: in the last case what Redis had
  -- is overwritten. Redis then has a list in which the message's id leads to the message, as its JSON
  -- is read back, and every other id to what it led to in the first list; the ids are the same in the
  -- same order, but for the message's id, which is added at the end if it was not there. What Redis
  -- has for other users is as it was.
  pub update_message_lem :
      (u v : String) (m : Message) (w : World B) {w' : World B}
      → update_message_in_user_cached_messages_redis B u m w ≡ (ok tt, w')
      → (ms ms' : List Message) × StartsFrom (user_reply w u) ms
        × (user_reply w' v ≡ (if u == v then found (messages_json ms') else user_reply w v))
        × ((i : ObjectId)
            → find_by_id i ms' ≡ (
                if eqb m.id i
                then some (json_message m)
                else Option.map json_message (find_by_id i ms)))
        × (ids ms' ≡ (elim (find_by_id m.id ms) [ none ↦ ids ms ++ (m.id ∷ []) | some n ↦ ids ms ]))
  unfolding update_message_in_user_cached_messages_redis
  update_message_lem u v m w h =
      let (ms, start, end) =
        change_user_messages_lem (replace_or_append m) u v m
          (B.redis_get (user_messages_key u) w.state) w (unfold replace_or_append in refl) h in
      (
        ms,
        json_messages (replace_or_append m ms),
        start,
        end,
        λ i. ground (
          arith,
          find_by_id-json_messages i (replace_or_append m ms),
          find_by_id-replace_or_append i m ms,
        ),
        ground (arith, ids-json_messages (replace_or_append m ms), ids-replace_or_append m ms),
      )
