-- ===== src/Socket/Deliver/Redirect.antt =====
-- What `redirectMessageToSockets` does with the users that are there and with the targets.
use messenger_service_go.Prelude.{
  String, ◌==◌, eq_iff, ◌≡◌, refl, ap, Bool, true, false, Option, none, some, List, [], ◌∷◌, ◌++◌,
  arith, length, ltb, if◌then◌else◌, Option-cases, inl, inr,
}
use messenger_service_go.Prelude.Maps.{Map, lookup, insert, lookup-insert}
use messenger_service_go.Go.{ok, panic}
use messenger_service_go.Common.{contains}
use messenger_service_go.Models.{Configuration, Message}
use messenger_service_go.Backend.{Backend}
use messenger_service_go.World.{World}
use messenger_service_go.Socket.Server.{message_frame, ClientConnection}
use messenger_service_go.Socket.Removal.{Slice, view, slice_of, remove_success}
use messenger_service_go.Socket.Removal.Laws.{
  without, Distinct, remove_success_lem, remove_success_twice,
}
use messenger_service_go.Socket.Deliver.{
  offer_all, push_applications, push_connected, send_message_to_user_socket, send_to_each,
  redirect_message_to_sockets,
}

-- Whether a user has a client.
unfoldable pub is_online : Map ClientConnection → String → Bool
is_online clients u = elim (lookup u clients) [ none ↦ false | some c ↦ true ]

-- The targets that have a client, in their order.
unfoldable pub online_of : Map ClientConnection → List String → List String
online_of clients [] = []
online_of clients (u ∷ us) =
    let rest = online_of clients us in if is_online clients u then u ∷ rest else rest

-- The clients after the message was offered to each target in turn.
unfoldable pub offered :
    Message → Configuration → List String → Map ClientConnection → Map ClientConnection
offered m configuration [] clients = clients
offered m configuration (u ∷ us) clients = offered m configuration us (elim (lookup u clients) [
  | none ↦ clients
  | some c ↦ insert u (offer_all m configuration c) clients
])

same_key :
    (u v : String) (clients : Map ClientConnection)
    → (u == v) ≡ true
    → lookup u clients ≡ lookup v clients
same_key u v clients h = ap (λ (x : String). lookup x clients) ((eq_iff u v).0 h)

module _ (B : Backend) (m : Message) (configuration : Configuration) where
  abbrev with_clients_of : World B → Map ClientConnection → World B
  with_clients_of w cs = record w { server = record w.server { clients = cs } }

  send_once :
      (u : String) (w : World B)
      → send_message_to_user_socket B u m configuration false w ≡ (
        ok (is_online w.server.clients u),
        with_clients_of w (offered m configuration (u ∷ []) w.server.clients),
      )
  unfolding send_message_to_user_socket is_online offered
  send_once u w = ground arith

  is_online-offered :
      (u v : String) (clients : Map ClientConnection)
      → is_online (offered m configuration (u ∷ []) clients) v ≡ is_online clients v
  unfolding is_online offered
  is_online-offered u v clients = elim (Option-cases (lookup u clients)) [
    | inl e ↦ ground (arith, e)
    | inr (c, e) ↦
        ground
          (arith, e, lookup-insert u v (offer_all m configuration c) clients, same_key u v clients)
  ]

  online_of-offered :
      (u : String) (us : List String) (clients : Map ClientConnection)
      → online_of (offered m configuration (u ∷ []) clients) us ≡ online_of clients us
  unfolding online_of
  online_of-offered u [] clients = refl
  online_of-offered u (v ∷ us) clients =
      ground (arith, is_online-offered u v clients, online_of-offered u us clients)

  offered-cons :
      (u : String) (us : List String) (clients : Map ClientConnection)
      → offered m configuration (u ∷ us) clients
        ≡ offered m configuration us (offered m configuration (u ∷ []) clients)
  unfolding offered
  offered-cons u us clients = refl

  send_to_each_lem :
      (us : List String) (w : World B)
      → send_to_each B us m configuration w ≡ (
        ok (online_of w.server.clients us),
        with_clients_of w (offered m configuration us w.server.clients),
      )
  unfolding send_to_each online_of
  send_to_each_lem [] w = unfold offered in refl
  send_to_each_lem (u ∷ us) w = ground (
    arith,
    send_once u w,
    offered-cons u us w.server.clients,
    online_of-offered u us w.server.clients,
    send_to_each_lem us (with_clients_of w (offered m configuration (u ∷ []) w.server.clients)),
  )

abbrev pub offered_to : Message → Configuration → Option ClientConnection → Option ClientConnection
offered_to m configuration none = none
offered_to m configuration (some c) = some (offer_all m configuration c)

same_contains : (u v : String) (us : List String) → (u == v) ≡ true → contains us u ≡ contains us v
same_contains u v us h = ap (contains us) ((eq_iff u v).0 h)

-- Each distinct target that has a client gets the message offered once on each of its connections;
-- the clients of users that are no targets are as they were.
pub lookup-offered :
    (m : Message) (configuration : Configuration) (us : List String) (v : String)
    (clients : Map ClientConnection)
    → Distinct us
    → lookup v (offered m configuration us clients)
      ≡ (if contains us v then offered_to m configuration (lookup v clients) else lookup v clients)
unfolding offered contains
lookup-offered m configuration [] v clients d = refl
lookup-offered m configuration (u ∷ us) v clients d = elim (Option-cases (lookup u clients)) [
  | inl e ↦ ground (arith, e, lookup-offered m configuration us v clients d.1, same_key u v clients)
  | inr (c, e) ↦ ground (
    arith,
    e,
    d.0,
    same_key u v clients,
    same_contains u v us,
    lookup-insert u v (offer_all m configuration c) clients,
    lookup-offered m configuration us v (insert u (offer_all m configuration c) clients) d.1,
  )
]

online_of-append :
    (clients : Map ClientConnection) (us vs : List String)
    → online_of clients (us ++ vs) ≡ online_of clients us ++ online_of clients vs
unfolding online_of
online_of-append clients [] vs = refl
online_of-append clients (u ∷ us) vs = ground (arith, online_of-append clients us vs)

removal_panics :
    (target : List String) (clients : Map ClientConnection) (r : String) (pre : List String)
    → target ≡ pre ++ (r ∷ r ∷ [])
    → is_online clients r ≡ true
    → contains pre r ≡ false
    → online_of clients pre ≡ []
    → remove_success (online_of clients target) (slice_of target) ≡ none
removal_panics target clients r pre e on free off =
    let both : online_of clients (r ∷ r ∷ []) ≡ r ∷ r ∷ [] =
      unfold online_of in ground (arith, on) in
    rw e (
      rw (online_of-append clients pre (r ∷ r ∷ []))
        (rw off (rw both (remove_success_twice r pre (r ∷ []) free (λ n. cc)))))

module _ (B : Backend) (m : Message) (configuration : Configuration) (w : World B) where
  -- A redirection to targets that are pairwise distinct always succeeds and leaves the databases
  -- alone. Each target that has a client gets the message offered once on each of its connections,
  -- and no other client changes. The targets that remain are those that have no client, if two or
  -- more have one; if one has, all remain.
  pub redirect_lem :
      Distinct m.target
      → (let online = online_of w.server.clients m.target in
          (s : Slice) × (w' : World B) × (redirect_message_to_sockets B m configuration w
            ≡ (ok s, w'))
          × (w'.state ≡ w.state)
          × (view s ≡ (if ltb 1 (length online) then without online m.target else m.target))
          × ((v : String)
              → lookup v w'.server.clients ≡ (
                  if contains m.target v
                  then offered_to m configuration (lookup v w.server.clients)
                  else lookup v w.server.clients)))
  unfolding redirect_message_to_sockets
  redirect_lem d =
      let (s, e, v) = remove_success_lem (online_of w.server.clients m.target) m.target d in
      (
        s,
        record w {
          server = record {
            application_connections = push_applications m w.server.application_connections;
            to_messenger_connections =
                push_connected (message_frame (record m { target = view s }))
                  w.server.to_messenger_connections;
            clients = offered m configuration m.target w.server.clients;
          };
        },
        ground (arith, e, send_to_each_lem B m configuration m.target w),
        refl,
        v,
        λ u. lookup-offered m configuration m.target u w.server.clients d,
      )

  -- What the message's slice and its array are after a redirection that succeeded.
  pub redirect-slice :
      {s : Slice} {w' : World B}
      → redirect_message_to_sockets B m configuration w ≡ (ok s, w')
      → remove_success (online_of w.server.clients m.target) (slice_of m.target) ≡ some s
  unfolding redirect_message_to_sockets
  redirect-slice e =
      elim (Option-cases
        (remove_success (online_of w.server.clients m.target) (slice_of m.target))) [
          | inl p ↦ ground (arith, e, p, send_to_each_lem B m configuration m.target w)
          | inr (t, p) ↦ ground (arith, e, p, send_to_each_lem B m configuration m.target w)
        ]

  -- If the last two targets are one user that has a client, and no target before them is that user
  -- or has a client, the redirection panics.
  pub redirect_panics :
      (r : String) (pre : List String)
      → m.target ≡ pre ++ (r ∷ r ∷ [])
      → is_online w.server.clients r ≡ true
      → contains pre r ≡ false
      → online_of w.server.clients pre ≡ []
      → (redirect_message_to_sockets B m configuration w).0 ≡ panic
  unfolding redirect_message_to_sockets
  redirect_panics r pre e on free off = ground (
    arith,
    send_to_each_lem B m configuration m.target w,
    removal_panics m.target w.server.clients r pre e on free off,
  )
