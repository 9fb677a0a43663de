-- ===== src/Dashboard/Commands.antt =====
-- What the reports of the controllers and keyboards ask for (`collect_actions` and `command` of
-- native/src/dashboard/app.rs).
use Prim.Native.Nat.{bit_and}
use retrodeck.Prelude.{
  ℕ, Bool, true, false, not, ◌&&◌, ◌||◌, List, [], ◌∷◌, ◌++◌, Option, none, some, ◌==◌,
  if◌then◌else◌,
}
use retrodeck.Input.{ControlReport, keyboard_report, gamepad_report}
use retrodeck.Dashboard.{View, Command, Action}

-- The derived equality of actions goes by their numbers.
abbrev pub action_number : Action → ℕ
action_number Action.back = 0
action_number Action.settings = 1
action_number Action.system_previous = 2
action_number Action.system_next = 3
action_number Action.left = 4
action_number Action.right = 5
action_number Action.up = 6
action_number Action.down = 7
action_number Action.confirm = 8

unfoldable pub has : List Action → Action → Bool
has [] a = false
has (b ∷ actions) a = action_number b == action_number a || has actions a

-- `if !list.contains(&action) { list.push(action) }`
pub add : List Action → Action → List Action
unfolding has
add actions a = if has actions a then actions else actions ++ (a ∷ [])

key_action : ℕ → ℕ → Option Action
key_action value flags =
    if value == 1
    then some Action.back
    else if value == 15
    then some (if not (bit_and flags 1 == 0) then Action.system_previous else Action.system_next)
    else if value == 28 || value == 96
    then some Action.confirm
    else if value == 103
    then some Action.up
    else if value == 105
    then some Action.left
    else if value == 106
    then some Action.right
    else if value == 108
    then some Action.down
    else none

add_some : List Action → Option Action → List Action
unfolding add
add_some actions none = actions
add_some actions (some a) = add actions a

-- The masks of the controller's buttons and directions.
abbrev masks : List (ℕ × Action)
masks =
    (1, Action.back)
    ∷ (2, Action.back)
    ∷ (4, Action.confirm)
    ∷ (8, Action.confirm)
    ∷ (16, Action.system_previous)
    ∷ (32, Action.system_next)
    ∷ (64, Action.settings)
    ∷ (256, Action.left)
    ∷ (512, Action.right)
    ∷ (1024, Action.up)
    ∷ (2048, Action.down)
    ∷ []

add_masked : ℕ → List Action → List (ℕ × Action) → List Action
unfolding add
add_masked value actions [] = actions
add_masked value actions ((mask, a) ∷ rest) =
    add_masked value (if not (bit_and value mask == 0) then add actions a else actions) rest

-- The controller's and the keyboard's actions, with those of a report added.
add_report : List Action × List Action → ControlReport → List Action × List Action
unfolding add_some key_action add_masked
add_report (gamepad, keyboard) r =
    if r.kind == keyboard_report
    then (gamepad, add_some keyboard (key_action r.value r.flags))
    else if r.kind == gamepad_report
    then (add_masked r.value gamepad masks, keyboard)
    else (gamepad, keyboard)

add_reports : List Action × List Action → List ControlReport → List Action × List Action
unfolding add_report
add_reports lists [] = lists
add_reports lists (r ∷ reports) = add_reports (add_report lists r) reports

unfoldable pub collect_actions : List ControlReport → List Action × List Action
unfolding add_reports
collect_actions reports = add_reports ([], []) reports

abbrev pub is_dashboard : View → Bool
is_dashboard View.dashboard = true
is_dashboard v = false

abbrev pub is_settings : View → Bool
is_settings View.settings = true
is_settings v = false

-- `matches!(view, View::Wifi | View::Credits)`
abbrev covers : View → Bool
covers View.wifi = true
covers View.credits = true
covers v = false

pub command : List Action → View → Option Command
unfolding has
command actions view =
    if not (is_dashboard view) && has actions Action.back
    then some Command.back
    else if covers view
    then none
    else if has actions Action.settings
    then some Command.settings
    else if not (is_settings view) && has actions Action.system_previous
    then some Command.system_previous
    else if not (is_settings view) && has actions Action.system_next
    then some Command.system_next
    else if has actions Action.left || has actions Action.up
    then some Command.previous
    else if has actions Action.right || has actions Action.down
    then some Command.next
    else if has actions Action.confirm
    then some Command.confirm
    else none
