-- ===== src/Configuration/Actions.antt =====
-- What a list of actions must satisfy to pass `validateActions`.
use messenger_service_go.Prelude.{
  ℕ, ◌+◌, ◌≤◌, String, ◌==◌, eq_iff, ◌≡◌, refl, ◌≢◌, ◌↔◌, ◌⊎◌, Bool, true, false, ◌||◌, List, [],
  ◌∷◌, All, arith, if◌then◌else◌, ltb,
}
use messenger_service_go.Go.{ok, err, invalid_argument}
use messenger_service_go.Common.{contains, create_error}
use messenger_service_go.Models.{ActionModel}
use messenger_service_go.Configuration.Validate.{
  scan_actions, validate_next_action, validate_action_trigger, validate_action, validate_each,
  validate_actions, http_methods,
}

-- How many of the actions have the name.
unfoldable pub count_named : String → List ActionModel → ℕ
count_named name [] = 0
count_named name (a ∷ actions) = count_named name actions + (if name == a.name then 1 else 0)

abbrev pub HasName : String → List ActionModel → Type 0
HasName name [] = ⊥
HasName name (a ∷ actions) = (name ≡ a.name) ⊎ HasName name actions

unfoldable pub has_name : String → List ActionModel → Bool
has_name name [] = false
has_name name (a ∷ actions) = name == a.name || has_name name actions

has_name_iff :
    (name : String) (actions : List ActionModel)
    → (has_name name actions ≡ true) ↔ HasName name actions
unfolding has_name
has_name_iff name [] = ground arith
has_name_iff name (a ∷ actions) = ground (arith, has_name_iff name actions, eq_iff name a.name)

scan_actions_lem :
    (action : ActionModel) (actions : List ActionModel) (count : ℕ) (check : Bool)
    → scan_actions action actions count check
      ≡ (count + count_named action.name actions, check || has_name action.next_action actions)
unfolding scan_actions count_named has_name
scan_actions_lem action [] count check = ground arith
scan_actions_lem action (o ∷ actions) count check = ground (
  arith,
  scan_actions_lem action actions (if action.name == o.name then count + 1 else count)
      (if action.next_action == o.name then true else check),
)

-- What one action must satisfy beside the others.
pub record ActionIsValid (actions : List ActionModel) (a : ActionModel) : Type 0 where
  pub not_itself : a.next_action ≢ "" → a.next_action ≢ a.name
  pub name_unique : a.next_action ≢ "" → count_named a.name actions ≤ 1
  pub next_exists : a.next_action ≢ "" → HasName a.next_action actions
  pub trigger_type : a.action.url ≢ "" → a.action.type ≡ "http"
  pub trigger_method : a.action.url ≢ "" → contains http_methods a.action.method ≡ true

-- The check of the next action passes exactly on these three facts.
validate_next_action_iff :
    (a : ActionModel) (actions : List ActionModel)
    → (validate_next_action a actions ≡ ok tt) ↔ (
        (a.next_action ≢ a.name)
        × (count_named a.name actions ≤ 1)
        × (has_name a.next_action actions ≡ true))
unfolding validate_next_action
validate_next_action_iff a actions =
    ground (arith, scan_actions_lem a actions 0 false, eq_iff a.next_action a.name)

validate_action_trigger_iff :
    (a : ActionModel)
    → (validate_action_trigger a.action ≡ ok tt)
      ↔ ((a.action.type ≡ "http") × (contains http_methods a.action.method ≡ true))
unfolding validate_action_trigger contains
validate_action_trigger_iff a = ground (arith, eq_iff "http" a.action.type)

validate_action_sound :
    (a : ActionModel) (actions : List ActionModel)
    → validate_action a actions ≡ ok tt
    → ActionIsValid actions a
unfolding validate_action
validate_action_sound a actions h = ground (
  arith,
  validate_next_action_iff a actions,
  validate_action_trigger_iff a,
  has_name_iff a.next_action actions,
  eq_iff a.next_action "",
  eq_iff a.action.url "",
)

validate_action_complete :
    (a : ActionModel) (actions : List ActionModel)
    → ActionIsValid actions a
    → validate_action a actions ≡ ok tt
unfolding validate_action
validate_action_complete a actions v = ground (
  arith,
  validate_next_action_iff a actions,
  validate_action_trigger_iff a,
  has_name_iff a.next_action actions,
  eq_iff a.next_action "",
  eq_iff a.action.url "",
)

validate_each_sound :
    (rest actions : List ActionModel)
    → validate_each rest actions ≡ ok tt
    → All (ActionIsValid actions) rest
unfolding validate_each
validate_each_sound [] actions h = tt
validate_each_sound (a ∷ rest) actions h = (
  validate_action_sound a actions (ground arith),
  validate_each_sound rest actions (ground arith),
)

validate_each_complete :
    (rest actions : List ActionModel)
    → All (ActionIsValid actions) rest
    → validate_each rest actions ≡ ok tt
unfolding validate_each
validate_each_complete [] actions v = refl
validate_each_complete (a ∷ rest) actions v =
    ground (arith, validate_action_complete a actions v.0, validate_each_complete rest actions v.1)

-- A list of actions is accepted exactly when every action is valid beside the list: one that
-- names a next action names another one that is in the list, and no other action shares its name;
-- one that has a URL triggers by "http" with one of the four methods.
pub validate_actions_iff :
    (actions : List ActionModel)
    → (validate_actions actions ≡ ok tt) ↔ All (ActionIsValid actions) actions
unfolding validate_actions
validate_actions_iff actions =
    (validate_each_sound actions actions, validate_each_complete actions actions)

-- The errors of the next action's check in the order of its tests: one that is the action itself
-- gives 100106, whose text says that names must be unique; a name that two actions share gives
-- 100107, whose text says that the next action is not found; one that is not found gives 100108,
-- whose text says that it cannot be the action itself.
pub validate_next_action_errors :
    (a : ActionModel) (actions : List ActionModel)
    → validate_next_action a actions ≡ (
        if a.next_action == a.name
        then err (create_error invalid_argument 100106)
        else if ltb 1 (count_named a.name actions)
        then err (create_error invalid_argument 100107)
        else if has_name a.next_action actions
        then ok tt
        else err (create_error invalid_argument 100108))
      × ((create_error invalid_argument 100106).message ≡ "Action name must be unique")
      × ((create_error invalid_argument 100107).message ≡ "Action nextAction not found")
      × ((create_error invalid_argument 100108).message
          ≡ "Action nextAction cannot be action itself")
unfolding validate_next_action create_error
validate_next_action_errors a actions =
    (ground (arith, scan_actions_lem a actions 0 false), refl, refl, refl)
