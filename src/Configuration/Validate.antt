-- ===== src/Configuration/Validate.antt =====
-- The validators of src/restful/services/configuration.go, with its validation arrays.
use messenger_service_go.Prelude.{
  ℕ, ◌+◌, ltb, String, ◌==◌, Bool, true, false, not, List, [], ◌∷◌, if◌then◌else◌,
}
use messenger_service_go.Go.{Result, ok, err, ◌>>◌, invalid_argument}
use messenger_service_go.Common.{contains, create_error}
use messenger_service_go.Models.{ActionModel, ActionTrigger}

abbrev pub message_types : List String
message_types = "shared" ∷ "broadcast" ∷ "exclusive" ∷ "linkage" ∷ []

abbrev pub message_modes : List String
message_modes =
    "push" ∷ "pull" ∷ "third-party" ∷ "email" ∷ "sms" ∷ "feishu" ∷ "dingtalk" ∷ "listening" ∷ []

abbrev pub http_methods : List String
http_methods = "get" ∷ "post" ∷ "put" ∷ "delete" ∷ []

abbrev pub action_types : List String
action_types = "http" ∷ []

unfoldable pub validate_states_containing_deleted : List String → Result (Unit {0})
validate_states_containing_deleted states =
    if not (contains states "deleted") then err (create_error invalid_argument 100103) else ok tt

unfoldable pub validate_message_type : String → Result (Unit {0})
validate_message_type message_type =
    if not (contains message_types message_type)
    then err (create_error invalid_argument 100104)
    else ok tt

unfoldable pub validate_message_mode : String → Result (Unit {0})
validate_message_mode message_mode =
    if not (contains message_modes message_mode)
    then err (create_error invalid_argument 100105)
    else ok tt

unfoldable pub validate_action_trigger_type : String → Result (Unit {0})
validate_action_trigger_type trigger_type =
    if not (contains action_types trigger_type)
    then err (create_error invalid_argument 100109)
    else ok tt

unfoldable pub validate_action_trigger_method : String → Result (Unit {0})
validate_action_trigger_method method =
    if not (contains http_methods method) then err (create_error invalid_argument 100110) else ok tt

unfoldable pub validate_action_trigger : ActionTrigger → Result (Unit {0})
unfolding validate_action_trigger_type validate_action_trigger_method
validate_action_trigger action = do
  validate_action_trigger_type action.type
  validate_action_trigger_method action.method

-- The loop of `validateNextAction`, over the variables `count` and `check`.
unfoldable pub scan_actions : ActionModel → List ActionModel → ℕ → Bool → ℕ × Bool
scan_actions action [] count check = (count, check)
scan_actions action (other ∷ actions) count check =
    scan_actions action actions (if action.name == other.name then count + 1 else count)
      (if action.next_action == other.name then true else check)

-- What `validateNextAction` makes of the two variables after the loop.
unfoldable pub judge_scan : ℕ × Bool → Result (Unit {0})
judge_scan (count, check) =
    if ltb 1 count
    then err (create_error invalid_argument 100107)
    else if not check
    then err (create_error invalid_argument 100108)
    else ok tt

unfoldable pub validate_next_action : ActionModel → List ActionModel → Result (Unit {0})
unfolding judge_scan
validate_next_action action actions =
    if action.next_action == action.name
    then err (create_error invalid_argument 100106)
    else judge_scan (scan_actions action actions 0 false)

unfoldable pub validate_action : ActionModel → List ActionModel → Result (Unit {0})
unfolding validate_next_action
validate_action action actions = do
  if not (action.next_action == "") then validate_next_action action actions else ok tt
  if not (action.action.url == "") then validate_action_trigger action.action else ok tt

-- The loop of `validateActions`: `rest` is what is left of `actions`.
unfoldable pub validate_each : List ActionModel → List ActionModel → Result (Unit {0})
validate_each [] actions = ok tt
validate_each (action ∷ rest) actions = validate_action action actions >> validate_each rest actions

unfoldable pub validate_actions : List ActionModel → Result (Unit {0})
unfolding validate_each
validate_actions actions = validate_each actions actions
