-- ===== src/Tests/Configuration.antt =====
-- Tests of the actions of a class.
use messenger_service_go.Prelude.{◌≡◌, refl, ◌==◌, List, [], ◌∷◌, All, if◌then◌else◌, ltb}
use messenger_service_go.Go.{ok, err, invalid_argument}
use messenger_service_go.Common.{contains, create_error}
use messenger_service_go.Models.{ActionModel}
use messenger_service_go.Configuration.Validate.{
  validate_actions, validate_next_action, validate_each, validate_action,
}
use messenger_service_go.Configuration.Actions.{
  ActionIsValid, validate_actions_iff, validate_next_action_errors, count_named, has_name,
}
use messenger_service_go.Tests.Data.{action}

abbrev two : List ActionModel
two = action "open" "close" ∷ action "close" "" ∷ []

validate_actions_iff_example : All (ActionIsValid two) two
unfolding validate_actions validate_action messenger_service_go.Configuration.Validate.scan_actions
    messenger_service_go.Configuration.Validate.validate_action_trigger contains
validate_actions_iff_example = (validate_actions_iff two).0 refl

validate_next_action_errors_example :
    (validate_next_action (action "open" "open") two ≡ (
      if (action "open" "open").next_action == (action "open" "open").name
      then err (create_error invalid_argument 100106)
      else if ltb 1 (count_named "open" two)
      then err (create_error invalid_argument 100107)
      else if has_name "open" two
      then ok tt
      else err (create_error invalid_argument 100108)))
    × ((create_error invalid_argument 100106).message ≡ "Action name must be unique")
    × ((create_error invalid_argument 100107).message ≡ "Action nextAction not found")
    × ((create_error invalid_argument 100108).message ≡ "Action nextAction cannot be action itself")
validate_next_action_errors_example = validate_next_action_errors (action "open" "open") two
