-- ===== src/Socket/Commands/Run.antt =====
-- The lists of a connection under every sequence of commands of its client.
use messenger_service_go.Prelude.{String, List, [], ◌∷◌}
use messenger_service_go.Go.{Error}
use messenger_service_go.Go.Exec.{Exec}
use messenger_service_go.Backend.{Backend}
use messenger_service_go.Socket.Commands.{
  black_listed, not_black_listed, white_listed, not_white_listed, change_filtering_mode,
  add_to_blacklist, remove_from_blacklist, add_to_whitelist, remove_from_whitelist,
  add_configuration, changes, Session,
}
use messenger_service_go.Socket.Commands.Delete.{delete_configuration}
use messenger_service_go.Socket.Commands.Lists.{
  IsWellFormed, black_listed-IsWellFormed, not_black_listed-IsWellFormed, white_listed-IsWellFormed,
  not_white_listed-IsWellFormed, change_filtering_mode-IsWellFormed,
}
use messenger_service_go.Socket.Commands.Keeps.{
  KeepsLists, changes-KeepsLists, with_configuration-KeepsLists, add_configuration-KeepsLists,
  delete_configuration-KeepsLists,
}

-- The commands of a client that `handleNewMessage` dispatches. For any other text it puts an error in
-- the queue at most.
pub data Command : Type 0 where
  to_blacklist from_blacklist to_whitelist from_whitelist filtering_mode channel no_channel :
      String → Command

module _ (B : Backend) (error_text : Error → String) where
  unfoldable pub handle : Command → Exec (Session B error_text) (Unit {0})
  unfolding add_to_blacklist remove_from_blacklist add_to_whitelist remove_from_whitelist
      change_filtering_mode add_configuration delete_configuration
  handle (to_blacklist k) = add_to_blacklist B error_text k
  handle (from_blacklist k) = remove_from_blacklist B error_text k
  handle (to_whitelist k) = add_to_whitelist B error_text k
  handle (from_whitelist k) = remove_from_whitelist B error_text k
  handle (filtering_mode k) = changes B error_text (change_filtering_mode k)
  handle (channel k) = add_configuration B error_text k
  handle (no_channel k) = delete_configuration B error_text k

  unfoldable pub handle_all : List Command → Session B error_text → Session B error_text
  unfolding handle
  handle_all [] s = s
  handle_all (k ∷ ks) s = handle_all ks (handle k s).1

  handle-KeepsLists : (k : Command) → KeepsLists B error_text (handle k)
  unfolding handle add_to_blacklist remove_from_blacklist add_to_whitelist remove_from_whitelist
  handle-KeepsLists (to_blacklist k) =
      with_configuration-KeepsLists B error_text k (λ _. changes B error_text (black_listed k))
        (λ _. changes-KeepsLists B error_text (black_listed k) (black_listed-IsWellFormed k))
  handle-KeepsLists (from_blacklist k) =
      with_configuration-KeepsLists B error_text k (λ _. changes B error_text (not_black_listed k))
        (λ _.
          changes-KeepsLists B error_text (not_black_listed k) (not_black_listed-IsWellFormed k))
  handle-KeepsLists (to_whitelist k) =
      with_configuration-KeepsLists B error_text k (λ _. changes B error_text (white_listed k))
        (λ _. changes-KeepsLists B error_text (white_listed k) (white_listed-IsWellFormed k))
  handle-KeepsLists (from_whitelist k) =
      with_configuration-KeepsLists B error_text k (λ _. changes B error_text (not_white_listed k))
        (λ _.
          changes-KeepsLists B error_text (not_white_listed k) (not_white_listed-IsWellFormed k))
  handle-KeepsLists (filtering_mode k) =
      changes-KeepsLists B error_text (change_filtering_mode k)
        (change_filtering_mode-IsWellFormed k)
  handle-KeepsLists (channel k) = add_configuration-KeepsLists B error_text k
  handle-KeepsLists (no_channel k) = delete_configuration-KeepsLists B error_text k

  -- Whatever sequence of commands on its lists, its mode and its configurations a client sends, the
  -- blacklist, the whitelist and the channels of its connection keep having no class twice, and the
  -- mode stays "WhiteList" or "BlackList".
  pub commands_keep_lists :
      (ks : List Command) (s : Session B error_text)
      → IsWellFormed s.0
      → IsWellFormed (handle_all ks s).0
  unfolding handle_all
  commands_keep_lists [] s v = v
  commands_keep_lists (k ∷ ks) s v = commands_keep_lists ks (handle k s).1 (handle-KeepsLists k s v)
