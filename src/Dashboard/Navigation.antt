-- ===== src/Dashboard/Navigation.antt =====
-- The commands of a controller and the touches of the screens (`command`, `dashboard_touch` and
-- `wifi_touch` of native/src/dashboard/app.rs).
pub mod Requests
pub mod Selection
pub mod Reboot
use retrodeck.Prelude.{
  ℕ, ◌+◌, ◌-◌, ◌%◌, Bool, true, false, not, ◌&&◌, ◌||◌, List, [], ◌∷◌, ◌++◌, Option, none, some,
  ltb, ◌==◌, if◌then◌else◌, length, get_elem?, get_or,
}
use retrodeck.Prelude.Decimal.{bytes}
use retrodeck.Input.{TouchReport}
use retrodeck.Policy.{System}
use retrodeck.Menu.{MenuLayout, system_number, same_system, populated_systems}
use retrodeck.Menu
use retrodeck.Settings
use retrodeck.Settings.Reducer
use retrodeck.Wifi
use retrodeck.Dashboard.{View, Cue, Command, Pending, Effect, App}
use retrodeck.Dashboard.Commands.{is_settings}
use retrodeck.Dashboard.Operations.{
  cue_of, some_cue, screen, set_status, set_view, cancel_reboot, indices, selected_game, is_reboot,
  request_game, settings_plan,
}

-- `vec.push` at the end of the effects.
then_cue : App × List Effect → Cue → App × List Effect
then_cue (a, effects) c = (a, effects ++ (Effect.cue c ∷ []))

back_from : View → App → App
unfolding set_view set_status bytes
back_from View.credits a = set_status (set_view a View.dashboard) []
back_from View.settings a = set_status (set_view a View.dashboard) []
back_from View.wifi a = set_status (set_view a View.settings) (bytes "WIFI EDITOR CLOSED")
back_from View.dashboard a = a

go_back : App → App × List Effect
unfolding back_from cancel_reboot screen
go_back a = (let b = cancel_reboot a in back_from b.view b, screen (some Cue.back))

-- `settings.selected = VolumeDown`, on the way into the settings.
select_first : App → App
select_first a = record a {
  settings = record a.settings { selected = Settings.Target.volume_down };
}

toggle_settings : Bool → App → App × List Effect
unfolding select_first set_view set_status screen
toggle_settings true a = (set_status (set_view a View.dashboard) [], screen (some Cue.back))
toggle_settings false a =
    (set_status (set_view (select_first a) View.settings) [], screen (some Cue.confirm))

-- `position`, and `unwrap_or(0)`.
position_or_zero : System → List System → ℕ → ℕ
position_or_zero s [] i = 0
position_or_zero s (t ∷ rest) i = if same_system t s then i else position_or_zero s rest (i + 1)

-- The direction of a step: back, or on.
step_system : Bool → List System → System → System
unfolding position_or_zero
step_system backwards [] s = s
step_system backwards (t ∷ rest) s =
    let systems = t ∷ rest in
    let p = position_or_zero s systems 0 in
    get_or systems ((if backwards then p + length systems - 1 else p + 1) % length systems) t

step_cue : Bool → Cue
step_cue true = Cue.previous
step_cue false = Cue.next

change_system : Bool → App → App × List Effect
unfolding cancel_reboot step_system set_status screen step_cue populated_systems
change_system backwards a =
    let b = cancel_reboot a in
    (
      set_status
          (record b {
            system = step_system backwards (populated_systems b.games) b.system;
            position = 0;
          })
          [],
      screen (some (step_cue backwards)),
    )

direction : Bool → Settings.Direction
direction true = Settings.Direction.previous
direction false = Settings.Direction.next

move_in_settings : Bool → App → App × List Effect
unfolding direction set_status screen cue_of
move_in_settings backwards a =
    let moved = Settings.Reducer.move_selection a.settings (direction backwards) in
    (set_status (record a { settings = moved.0 }) moved.0.status, screen (some (cue_of moved.1)))

-- With `count` games of the system in view.
pub step_position : Bool → ℕ → ℕ → ℕ
step_position true count position = (position + count - 1) % count
step_position false count position = (position + 1) % count

move_in_menu : Bool → ℕ → App → App × List Effect
unfolding step_position set_status screen step_cue
move_in_menu backwards count a =
    if ltb 0 count
    then (
      set_status (record a { position = step_position backwards count a.position }) [],
      screen (some (step_cue backwards)),
    )
    else (set_status a [], screen none)

move_on : Bool → App → App × List Effect
unfolding cancel_reboot indices move_in_settings move_in_menu
move_on backwards a =
    let b = cancel_reboot a in
    if is_settings b.view
    then move_in_settings backwards b
    else move_in_menu backwards (length (indices b)) b

confirm_game : Option ℕ → App → ℕ → App × List Effect
unfolding then_cue
confirm_game none a now = (a, [])
confirm_game (some index) a now = then_cue (request_game a index now false) Cue.confirm

confirm : App → ℕ → App × List Effect
unfolding confirm_game
confirm a now =
    if is_settings a.view
    then settings_plan a (Settings.Reducer.activate a.settings a.settings.selected) false
    else confirm_game (selected_game a) a now

pub run_command : App → Command → ℕ → App × List Effect
unfolding go_back toggle_settings change_system move_on confirm
run_command a Command.back now = go_back a
run_command a Command.settings now =
    let b = cancel_reboot a in toggle_settings (is_settings b.view) b
run_command a Command.system_previous now = change_system true a
run_command a Command.system_next now = change_system false a
run_command a Command.previous now = move_on true a
run_command a Command.next now = move_on false a
run_command a Command.confirm now = confirm a now

-- The derived equality of the menu's targets.
same_menu_target : Menu.Target → Menu.Target → Bool
same_menu_target Menu.Target.credits Menu.Target.credits = true
same_menu_target Menu.Target.settings Menu.Target.settings = true
same_menu_target Menu.Target.previous Menu.Target.previous = true
same_menu_target Menu.Target.next Menu.Target.next = true
same_menu_target (Menu.Target.system s) (Menu.Target.system t) = same_system s t
same_menu_target (Menu.Target.game i) (Menu.Target.game j) = i == j
same_menu_target t u = false

same_target : Option Menu.Target → Option Menu.Target → Bool
unfolding same_menu_target
same_target none none = true
same_target (some t) (some u) = same_menu_target t u
same_target t u = false

reboot_target : App → Option Menu.Target → Bool
reboot_target a (some (Menu.Target.game i)) = elim (get_elem? a.games i) [
  | none ↦ false
  | some g ↦ is_reboot g
]
reboot_target a target = false

show_system : Bool → App → System → App × List Effect
unfolding set_status screen
show_system same a s = (
  set_status (record a { system = s; position = 0 }) [],
  screen (if same then none else some Cue.next),
)

tap_menu : Option Menu.Target → App → ℕ → App × List Effect
unfolding set_view set_status screen select_first then_cue show_system
tap_menu none a now = (a, [])
tap_menu (some Menu.Target.credits) a now = (
  set_status (set_view (record a { credits_started_at = now }) View.credits) [],
  screen (some Cue.confirm),
)
tap_menu (some Menu.Target.settings) a now =
    (set_status (set_view (select_first a) View.settings) [], screen (some Cue.confirm))
tap_menu (some (Menu.Target.game i)) a now = then_cue (request_game a i now true) Cue.confirm
tap_menu (some (Menu.Target.system s)) a now = show_system (same_system a.system s) a s
tap_menu (some Menu.Target.previous) a now = run_command a Command.previous now
tap_menu (some Menu.Target.next) a now = run_command a Command.next now

-- A touch elsewhere than on the reboot entry disarms it.
disarm : Bool → App → App
unfolding cancel_reboot
disarm true a = cancel_reboot a
disarm false a = a

release_menu : Bool → App → Option Menu.Target → ℕ → App × List Effect
unfolding disarm reboot_target same_target tap_menu
release_menu false a target now = (a, [])
release_menu true a target now =
    let b =
      disarm (ltb 0 a.reboot_deadline && not (reboot_target a target))
        (record a { pressed = none }) in
    if same_target target a.pressed then tap_menu target b now else (b, [])

press_menu : Bool → App → Option Menu.Target → App
press_menu true a target = record a { pressed = target }
press_menu false a target = a

pub dashboard_touch : App → TouchReport → MenuLayout → ℕ → App × List Effect
unfolding press_menu release_menu
dashboard_touch a r l now =
    let target = Menu.target_at l r.x r.y in
    release_menu r.released (press_menu r.pressed a target) target now
