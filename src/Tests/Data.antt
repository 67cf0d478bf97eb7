-- ===== src/Tests/Data.antt =====
-- The classes, messages, clients and databases that the tests run on.
use messenger_service_go.Prelude.{String, Bool, true, false, none, some, List, [], ◌∷◌}
use messenger_service_go.Prelude.Maps.{Map}
use messenger_service_go.Go.Exec.{pure}
use messenger_service_go.Models.{Configuration, Message, ActionModel}
use messenger_service_go.Backend.Memory.{memory_backend, empty}
use messenger_service_go.World.{World}
use messenger_service_go.Message.External.{External, Env, rendered}
use messenger_service_go.Message.Change.{zero_message}
use messenger_service_go.Socket.Server.{Connection, ClientConnection, Server}

abbrev pub class_of : String → String → Bool → Configuration
class_of type mode persist = record {
  id = 100;
  class_id = "c";
  parent_id = "0";
  app_id = "app";
  name = "Alerts";
  persist = persist;
  states = "unread" ∷ "read" ∷ "deleted" ∷ [];
  type = type;
  mode = mode;
  status_callbacks = record { kafka = ""; http = "" };
  actions = [];
  custom_email_configuration = record { email_account = ""; email_password = "" };
  custom_sms_configuration = record {
    huawei = record { channel = ""; signature = ""; template_id = "" };
  };
  custom_feishu_configuration = record { app_id = ""; app_secret = ""; type = "" };
  custom_ding_talk_configuration = record {
    suite_id = "";
    app_id = "";
    mini_app_id = "";
    suite_key = "";
    suite_secret = "";
    template_id = "";
    agent_id = "";
  };
  created_at = 0;
  updated_at = 0;
}

abbrev pub alerts : Configuration
alerts = class_of "exclusive" "push" true

abbrev pub news : Configuration
news = class_of "broadcast" "push" true

abbrev pub pairs : Configuration
pairs = class_of "linkage" "push" true

abbrev pub quick_pairs : Configuration
quick_pairs = class_of "linkage" "pull" false

-- An unread message with the id 3 to "ann" and "bob", from "eve".
abbrev pub alert : Message
alert = record zero_message {
  id = 3;
  linkage_id = 5;
  open_id = "eve";
  class_id = "c";
  subclass_id = "c";
  content = "Backup done";
  status = "unread";
  target = "ann" ∷ "bob" ∷ [];
}

abbrev pub partner : Message
partner = record alert { id = 5; linkage_id = 3; open_id = "ann" }

abbrev pub bulletin : Message
bulletin = record alert { status_sync = some (("ann", "unread") ∷ ("bob", "deleted") ∷ []) }

abbrev pub connection : String → Connection
connection open_id = record {
  open_id = open_id;
  addr = "10.0.0.1:80";
  channels = [];
  white_list = [];
  black_list = [];
  mode = "BlackList";
  conn = some "10.0.0.1:80";
  send = [];
}

abbrev pub client : String → ClientConnection
client open_id = record {
  open_id = open_id;
  connections = ("10.0.0.1:80", connection open_id) ∷ [];
}

abbrev pub online : List String → Map ClientConnection
online [] = []
online (u ∷ us) = (u, client u) ∷ online us

abbrev pub server : List String → Server
server us = record {
  application_connections = [];
  to_messenger_connections = [];
  clients = online us;
}

-- A server with clients for `us`, and the messages and the class in MongoDB.
abbrev pub world : List Message → Configuration → List String → World memory_backend
world messages class us = record {
  state = record empty {
    messages = messages;
    catalog = record empty.catalog { configurations = class ∷ [] };
  };
  server = server us;
}

abbrev pub external : External memory_backend
external = record {
  render = λ text entries. rendered text;
  parses_address = λ s. true;
  invalid_fields = λ m. none;
  deliver = λ channel m c. pure m;
  deliver_v2 = λ channel m c. pure (m, []);
}

abbrev pub env : Env
env = record { now = 7000000; id = 3; linkage_id = 5 }

abbrev pub action : String → String → ActionModel
action name next_action = record {
  name = name;
  tips = "";
  action = record { type = "http"; url = "http://a"; method = "post"; query = none; body = none };
  next_action = next_action;
}
