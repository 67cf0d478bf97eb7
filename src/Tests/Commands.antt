-- ===== src/Tests/Commands.antt =====
-- Tests of the commands of a client.
use messenger_service_go.Prelude.{
  ◌≡◌, refl, String, ◌==◌, true, false, List, [], ◌∷◌, if◌then◌else◌,
}
use messenger_service_go.Go.{Error}
use messenger_service_go.Common.{contains}
use messenger_service_go.Models.{Configuration}
use messenger_service_go.Backend.{user_list_key, user_map_json}
use messenger_service_go.Backend.Memory.{memory_backend, memory_backend-IsLawful}
use messenger_service_go.World.{World}
use messenger_service_go.Socket.Deliver.{passes_filter}
use messenger_service_go.Socket.Commands.{
  black_listed, not_black_listed, white_listed, not_white_listed, add_configuration, Session,
}
use messenger_service_go.Socket.Commands.Lists.{IsWellFormed}
use messenger_service_go.Socket.Commands.Run.{
  Command, to_blacklist, from_blacklist, filtering_mode, channel, no_channel, handle_all,
  commands_keep_lists,
}
use messenger_service_go.Socket.Commands.Silence.{listed-passes_filter, listed_undone}
use messenger_service_go.Socket.Commands.Users.{add_configuration_adds_nobody}
use messenger_service_go.Tests.Data.{class_of, connection, world}

abbrev text : Error → String
text e = e.message

abbrev live : Configuration
live = class_of "shared" "listening" true

abbrev start : World memory_backend
start = record (world [] live []) {
  state = record (world [] live []).state {
    redis = (user_list_key "c", user_map_json (("bob", "10.0.0.2:80" ∷ []) ∷ [])) ∷ [];
  };
}

abbrev session : Session memory_backend text
session = (connection "ann", start)

listed-passes_filter_example :
    ((connection "ann").mode ≡ "BlackList"
      → passes_filter (black_listed "c" (connection "ann")) "c"
        ≡ (if "c" == "c" then false else passes_filter (connection "ann") "c"))
    × ((connection "ann").mode ≡ "WhiteList"
        → passes_filter (white_listed "c" (connection "ann")) "c"
          ≡ (if "c" == "c" then true else passes_filter (connection "ann") "c"))
listed-passes_filter_example = listed-passes_filter (connection "ann") "c" "c"

listed_undone_example :
    (contains [] "c" ≡ false
      → (not_black_listed "c" (black_listed "c" (connection "ann"))).black_list ≡ [])
    × (contains [] "c" ≡ false
        → (not_white_listed "c" (white_listed "c" (connection "ann"))).white_list ≡ [])
listed_undone_example = listed_undone (connection "ann") "c"

start-IsWellFormed : IsWellFormed (connection "ann")
unfolding contains
start-IsWellFormed = record {
  black_distinct = tt;
  white_distinct = tt;
  channels_distinct = tt;
  mode_known = refl;
}

abbrev commands : List Command
commands =
    to_blacklist "c"
    ∷ to_blacklist "c"
    ∷ channel "c"
    ∷ no_channel "c"
    ∷ filtering_mode "WhiteList"
    ∷ from_blacklist "c"
    ∷ []

commands_keep_lists_example : IsWellFormed (handle_all memory_backend text commands session).0
commands_keep_lists_example =
    commands_keep_lists memory_backend text commands session start-IsWellFormed

add_configuration_adds_nobody_example :
    memory_backend.redis_get
      (user_list_key "c")
      (add_configuration memory_backend text "c" session).1.1.state
    ≡ memory_backend.redis_get (user_list_key "c") start.state
add_configuration_adds_nobody_example =
    add_configuration_adds_nobody memory_backend memory_backend-IsLawful text "c" session
      (user_list_key "c")
