-- ===== src/Socket/Server.antt =====
-- The server of src/restful/services/server.go and the client connections of messages.go. A channel
-- is the list of the frames that were put in, without its bound of 256; locks are not modelled.
use messenger_service_go.Prelude.{String, Option, List}
use messenger_service_go.Prelude.Maps.{Map}
use messenger_service_go.Models.{Message}

-- What is written to a socket: an encoded message, a `WebSocketMessage`, or the greeting.
pub data Frame : Type 0 where
  message_frame : Message → Frame
  web_socket_frame : String → String → Frame

-- `conn` is the remote address of the WebSocket, if the pointer is not nil.
pub record Connection : Type 0 where
  pub open_id : String
  pub addr : String
  pub channels : List String
  pub white_list : List String
  pub black_list : List String
  pub mode : String
  pub conn : Option String
  pub send : List Frame

pub record ClientConnection : Type 0 where
  pub open_id : String
  pub connections : Map Connection

-- An `ApplicationConnection` or a `ToMessengerConnection`.
pub record Peer : Type 0 where
  pub name : String
  pub conn : Option String
  pub send : List Frame

pub record Server : Type 0 where
  pub application_connections : Map (Map Peer)
  pub to_messenger_connections : Map Peer
  pub clients : Map ClientConnection
