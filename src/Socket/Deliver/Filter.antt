-- ===== src/Socket/Deliver/Filter.antt =====
-- Which connections of a user receive a message, and what the sender is told.
use messenger_service_go.Prelude.{
  String, ◌==◌, eq_iff, ◌≡◌, refl, ◌≢◌, ◌⊎◌, inl, inr, Bool, true, false, none, some, [], ◌∷◌, ◌++◌,
  arith, if◌then◌else◌,
}
use messenger_service_go.Prelude.Maps.{lookup, insert, lookup-insert}
use messenger_service_go.Go.{ok}
use messenger_service_go.Common.{contains}
use messenger_service_go.Models.{Configuration, Message}
use messenger_service_go.Backend.{Backend}
use messenger_service_go.World.{World}
use messenger_service_go.Socket.Server.{message_frame, Connection, ClientConnection}
use messenger_service_go.Socket.Deliver.{offer, offer_all, send_message_to_user_socket}

-- A connection receives a message if its socket is there, it listens to the class of a message in
-- mode "listening", its blacklist (in mode "BlackList") does not have the class, and its whitelist
-- (in mode "WhiteList") has it.
pub record Receives (m : Message) (configuration : Configuration) (c : Connection) : Type 0 where
  pub connected : c.conn ≢ none
  pub listens : configuration.mode ≡ "listening" → contains c.channels m.class_id ≡ true
  pub not_black : c.mode ≡ "BlackList" → contains c.black_list m.class_id ≡ false
  pub white : c.mode ≡ "WhiteList" → contains c.white_list m.class_id ≡ true

skipped_or_Receives :
    (m : Message) (configuration : Configuration) (c : Connection)
    → (offer m configuration c ≡ c) ⊎ Receives m configuration c
unfolding offer
skipped_or_Receives m configuration c = ground (
  arith,
  eq_iff configuration.mode "listening",
  eq_iff c.mode "BlackList",
  eq_iff c.mode "WhiteList",
  eq_iff "BlackList" "WhiteList",
)

-- A connection that receives the message has it once more at the end of its queue, and is otherwise
-- as it was; a connection that does not receive it is as it was.
pub offer_lem :
    (m : Message) (configuration : Configuration) (c : Connection)
    → (Receives m configuration c
        → offer m configuration c ≡ record c { send = c.send ++ (message_frame m ∷ []) })
      × (¬ Receives m configuration c → offer m configuration c ≡ c)
unfolding offer
offer_lem m configuration c = (
  λ r. ground (
    arith,
    eq_iff configuration.mode "listening",
    eq_iff c.mode "BlackList",
    eq_iff c.mode "WhiteList",
    eq_iff "BlackList" "WhiteList",
  ),
  λ n. elim (skipped_or_Receives m configuration c) [ inl e ↦ e | inr r ↦ absurd (n r) ],
)

-- A user with a client gets the message offered on each connection, and the sender is told that it
-- was received, whatever the connections' filters say: nothing is kept for later. Other users'
-- clients and the databases are as they were.
pub send_to_online :
    (B : Backend) (u v : String) (m : Message) (configuration : Configuration) (persist : Bool)
    (w : World B) (client : ClientConnection)
    → lookup u w.server.clients ≡ some client
    → (w' : World B) × (send_message_to_user_socket B u m configuration persist w ≡ (ok true, w'))
      × (w'.state ≡ w.state)
      × (lookup v w'.server.clients
          ≡ (if u == v then some (offer_all m configuration client) else lookup v w.server.clients))
unfolding send_message_to_user_socket
send_to_online B u v m configuration persist w client e = (
  record w {
    server = record w.server {
      clients = insert u (offer_all m configuration client) w.server.clients;
    };
  },
  ground (arith, e),
  refl,
  lookup-insert u v (offer_all m configuration client) w.server.clients,
)
