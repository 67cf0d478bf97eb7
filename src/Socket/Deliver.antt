-- ===== src/Socket/Deliver.antt =====
-- `sendMessageToUserSocket` and `redirectMessageToSockets` (src/restful/services/messages.go), and
-- `handleBroadcastNotification` (src/restful/services/server.go). Go visits a map in any order; here
-- it is the order of insertion. A send is a push to one queue, so the order changes no queue.
pub mod Filter
pub mod Redirect
use messenger_service_go.Prelude.{
  String, ◌==◌, Bool, true, false, not, ◌&&◌, Option, none, some, List, [], ◌∷◌, ◌++◌,
  if◌then◌else◌,
}
use messenger_service_go.Prelude.Maps.{Map, lookup, insert}
use messenger_service_go.Go.{Result, ok, err, panic}
use messenger_service_go.Go.Exec.{Exec, pure, lift, ◌>>=◌, ◌>>◌}
use messenger_service_go.Common.{contains}
use messenger_service_go.Models.{Configuration, Message}
use messenger_service_go.Backend.{Backend}
use messenger_service_go.World.{World}
use messenger_service_go.Message.Store.{
  add_message_to_user_cached_messages_redis, get_configuration_by_class_id,
}
use messenger_service_go.Socket.Server.{
  Frame, message_frame, Connection, ClientConnection, Peer, Server,
}
use messenger_service_go.Socket.Removal.{Slice, view, slice_of, remove_success}

-- The test by `connection.mode`: any other mode lets all pass.
unfoldable pub passes_filter : Connection → String → Bool
passes_filter connection class_id =
    if connection.mode == "BlackList"
    then not (contains connection.black_list class_id)
    else if connection.mode == "WhiteList"
    then contains connection.white_list class_id
    else true

unfoldable pub passes_channel : Connection → Configuration → String → Bool
passes_channel connection configuration class_id =
    if configuration.mode == "listening" then contains connection.channels class_id else true

-- The body of the loop over a client's connections.
unfoldable pub offer : Message → Configuration → Connection → Connection
unfolding passes_filter passes_channel
offer message configuration connection = elim connection.conn [
  | none ↦ connection
  | some address ↦
      if passes_channel connection configuration message.class_id
      then (if passes_filter connection message.class_id
          then record connection { send = connection.send ++ (message_frame message ∷ []) }
          else connection)
      else connection
]

unfoldable pub offer_each : Message → Configuration → Map Connection → Map Connection
unfolding offer
offer_each message configuration [] = []
offer_each message configuration ((addr, c) ∷ connections) =
    (addr, offer message configuration c) ∷ offer_each message configuration connections

unfoldable pub offer_all : Message → Configuration → ClientConnection → ClientConnection
unfolding offer_each
offer_all message configuration client = record client {
  connections = offer_each message configuration client.connections;
}

abbrev pub with_clients : Server → Map ClientConnection → Server
with_clients server cs = record server { clients = cs }

unfoldable pub push_frame : Frame → Peer → Peer
push_frame f peer = record peer { send = peer.send ++ (f ∷ []) }

unfoldable pub push_each : Frame → Map Peer → Map Peer
unfolding push_frame
push_each f [] = []
push_each f ((k, peer) ∷ peers) = (k, push_frame f peer) ∷ push_each f peers

-- The loop over the other instances of the service: a nil connection is passed over.
unfoldable pub push_connected : Frame → Map Peer → Map Peer
unfolding push_frame
push_connected f [] = []
push_connected f ((k, peer) ∷ peers) =
    (k, (elim peer.conn [ none ↦ peer | some a ↦ push_frame f peer ])) ∷ push_connected f peers

-- The queues of the applications that listen to the message's class.
unfoldable pub push_applications : Message → Map (Map Peer) → Map (Map Peer)
unfolding push_each
push_applications message applications = elim (lookup message.class_id applications) [
  | none ↦ applications
  | some peers ↦ insert message.class_id (push_each (message_frame message) peers) applications
]

module _ (B : Backend) where
  -- The error of the cache is logged and dropped.
  unfoldable pub keep_for_later : String → Message → Exec (World B) (Unit {0})
  keep_for_later open_id message w =
      let (r, w') = add_message_to_user_cached_messages_redis B open_id message w in (ok tt, w')

  unfoldable pub send_message_to_user_socket :
      String → Message → Configuration → Bool → Exec (World B) Bool
  unfolding keep_for_later offer_all
  send_message_to_user_socket open_id message configuration persist w =
      elim (lookup open_id w.server.clients) [
        | some client ↦ (
          ok true,
          record w {
            server =
                with_clients w.server
                  (insert open_id (offer_all message configuration client) w.server.clients);
          },
        )
        | none ↦ (if persist then (do keep_for_later open_id message; pure false) else pure false) w
      ]

  -- The loop over the targets that collects `success`.
  unfoldable pub send_to_each : List String → Message → Configuration → Exec (World B) (List String)
  unfolding send_message_to_user_socket
  send_to_each [] message configuration = pure []
  send_to_each (receiver ∷ target) message configuration = do
    check ← send_message_to_user_socket receiver message configuration false
    success ← send_to_each target message configuration
    pure (if check then receiver ∷ success else success)

  unfoldable pub notify_applications : Message → Exec (World B) (Unit {0})
  unfolding push_applications
  notify_applications message w = (
    ok tt,
    record w {
      server = record w.server {
        application_connections = push_applications message w.server.application_connections;
      };
    },
  )

  unfoldable pub notify_instances : Message → Exec (World B) (Unit {0})
  unfolding push_connected
  notify_instances message w = (
    ok tt,
    record w {
      server = record w.server {
        to_messenger_connections =
            push_connected (message_frame message) w.server.to_messenger_connections;
      };
    },
  )

  abbrev pub or_panic : Option Slice → Result Slice
  or_panic none = panic
  or_panic (some s) = ok s

  -- `redirectMessageToSockets`. It returns the slice that `message.Target` is afterwards: what it
  -- shows is the message's new target, and its array is what other slices of it read.
  unfoldable pub redirect_message_to_sockets : Message → Configuration → Exec (World B) Slice
  unfolding send_to_each notify_applications notify_instances
  redirect_message_to_sockets message configuration = do
    success ← send_to_each message.target message configuration
    notify_applications message
    target ← lift (or_panic (remove_success success (slice_of message.target)))
    notify_instances (record message { target = view target })
    pure target

  -- The loop of `handleBroadcastNotification` over the targets.
  unfoldable pub deliver_to_each : List String → Message → Configuration → Exec (World B) (Unit {0})
  unfolding send_message_to_user_socket
  deliver_to_each [] message configuration = pure tt
  deliver_to_each (receiver ∷ target) message configuration = do
    check ← send_message_to_user_socket receiver message configuration true
    deliver_to_each target message configuration

  -- `handleBroadcastNotification` of a message that was decoded. An error only ends the handler.
  unfoldable pub handle_broadcast_notification : Message → Exec (World B) (Unit {0})
  unfolding get_configuration_by_class_id notify_applications deliver_to_each
  handle_broadcast_notification message = do
    configuration ← get_configuration_by_class_id B message.class_id
    notify_applications message
    deliver_to_each message.target message configuration
