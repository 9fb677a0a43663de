-- ===== src/Dashboard/Navigation/Requests.antt =====
-- The commands and the menu's touches ask only for what the loop carries out to the end
-- (native/src/dashboard/app.rs).
use retrodeck.Prelude.{
  ℕ, ◌≡◌, refl, sym, subst, Bool, true, false, not, ◌&&◌, List, [], ◌∷◌, Option, none, some, ltb,
  if◌then◌else◌, length, get_elem?, arith, Bool-cases, inl, inr,
}
use retrodeck.Prelude.Decimal.{text_eq}
use retrodeck.Input.{TouchReport}
use retrodeck.Policy.{Game}
use retrodeck.Menu.{MenuLayout, same_system}
use retrodeck.Menu
use retrodeck.Settings
use retrodeck.Settings.Reducer
use retrodeck.Dashboard.{View, Cue, Command, Effect, App}
use retrodeck.Dashboard.Commands.{is_settings}
use retrodeck.Dashboard.Protocol.{all_quiet, AtRest, Asks, quiet-Asks, all_quiet-append}
use retrodeck.Dashboard.Operations.{
  reboot_confirmation, screen, cue_effects, cue_of, some_cue, set_status, set_status_if,
  clear_all_pressed, set_view, cancel_reboot, indices, selected_game, is_reboot, request_game,
  request_of, request_reboot, request_other, settings_plan, settings_action_plan,
}
use retrodeck.Dashboard.Navigation

-- What an application waits for, kept.
set_status_if-pending :
    (b : Bool) (a : App) (status : List ℕ) → (set_status_if b a status).pending ≡ a.pending
unfolding set_status_if set_status
set_status_if-pending true a status = refl
set_status_if-pending false a status = refl

pub cancel_reboot-pending : (a : App) → (cancel_reboot a).pending ≡ a.pending
unfolding cancel_reboot
cancel_reboot-pending a =
    set_status_if-pending (text_eq a.status reboot_confirmation) (record a { reboot_deadline = 0 })
      []

pub all_quiet-screen : (c : Option Cue) → all_quiet (screen c) ≡ true
unfolding screen cue_effects
all_quiet-screen none = refl
all_quiet-screen (some c) = refl

pub all_quiet-cue_effects : (c : Option Cue) → all_quiet (cue_effects c) ≡ true
unfolding cue_effects
all_quiet-cue_effects none = refl
all_quiet-cue_effects (some c) = refl

-- A request for a game leaves only quiet effects.
abbrev pub Quietly : Bool → App × List Effect → Type 0
Quietly batch (a, es) = AtRest batch a.pending × (all_quiet es ≡ true)

request_reboot-Quietly :
    (armed : Bool) (batch : Bool) (a : App) (i now : ℕ)
    → AtRest batch a.pending
    → Quietly batch (request_reboot armed a i now batch)
unfolding request_reboot set_status screen cue_effects
request_reboot-Quietly true batch a i now r = (refl, refl)
request_reboot-Quietly false batch a i now r = (r, refl)

request_of-Quietly :
    (g : Option Game) (batch : Bool) (a : App) (i now : ℕ)
    → AtRest batch a.pending
    → Quietly batch (request_of g a i now batch)
unfolding request_of request_other
request_of-Quietly none batch a i now r = (r, refl)
request_of-Quietly (some g) batch a i now r = elim (Bool-cases (is_reboot g)) [
  | inl reboot ↦ rw reboot (
      request_reboot-Quietly (ltb 0 a.reboot_deadline && ltb now a.reboot_deadline) batch a i now r)
  | inr other ↦ rw other (refl, refl)
]

pub request_game-Quietly :
    (batch : Bool) (a : App) (i now : ℕ)
    → AtRest batch a.pending
    → Quietly batch (request_game a i now batch)
unfolding request_game
request_game-Quietly batch a i now r = request_of-Quietly (get_elem? a.games i) batch a i now r

pub Quietly-Asks : (batch : Bool) (p : App × List Effect) → Quietly batch p → Asks batch p
Quietly-Asks batch (a, es) (r, q) = quiet-Asks a.pending batch a es refl r q

then_cue-Quietly :
    (batch : Bool) (p : App × List Effect) (c : Cue)
    → Quietly batch p
    → Quietly batch (Navigation.then_cue p c)
unfolding Navigation.then_cue
then_cue-Quietly batch (a, es) c (r, q) = (r, all_quiet-append es (Effect.cue c ∷ []) q refl)

back_from-pending : (v : View) (a : App) → (Navigation.back_from v a).pending ≡ a.pending
unfolding Navigation.back_from set_view set_status clear_all_pressed
back_from-pending View.credits a = refl
back_from-pending View.settings a = refl
back_from-pending View.wifi a = refl
back_from-pending View.dashboard a = refl

-- With the reboot disarmed the application waits for what it did.
AtRest-cancel_reboot :
    (batch : Bool) (a : App) → AtRest batch a.pending → AtRest batch (cancel_reboot a).pending
AtRest-cancel_reboot batch a r = subst (AtRest batch) (sym (cancel_reboot-pending a)) r

toggle_settings-Asks :
    (shown : Bool) (batch : Bool) (a : App)
    → AtRest batch a.pending
    → Asks batch (Navigation.toggle_settings shown a)
unfolding Navigation.toggle_settings Navigation.select_first set_view set_status clear_all_pressed
toggle_settings-Asks true batch a r =
    Quietly-Asks batch (Navigation.toggle_settings true a) (r, all_quiet-screen (some Cue.back))
toggle_settings-Asks false batch a r =
    Quietly-Asks batch (Navigation.toggle_settings false a) (r, all_quiet-screen (some Cue.confirm))

move_in_menu-Quietly :
    (backwards : Bool) (count : ℕ) (batch : Bool) (a : App)
    → AtRest batch a.pending
    → Quietly batch (Navigation.move_in_menu backwards count a)
unfolding Navigation.move_in_menu set_status
move_in_menu-Quietly backwards count batch a r = elim (Bool-cases (ltb 0 count)) [
  | inl some_games ↦ rw some_games (r, all_quiet-screen (some (Navigation.step_cue backwards)))
  | inr no_games ↦ rw no_games (r, all_quiet-screen none)
]

move_in_settings-Quietly :
    (backwards : Bool) (batch : Bool) (a : App)
    → AtRest batch a.pending
    → Quietly batch (Navigation.move_in_settings backwards a)
unfolding Navigation.move_in_settings set_status
move_in_settings-Quietly backwards batch a r =
    let moved = Settings.Reducer.move_selection a.settings (Navigation.direction backwards) in
    (r, all_quiet-screen (some (cue_of moved.1)))

if_Quietly :
    (b : Bool) (batch : Bool) (p q : App × List Effect)
    → Quietly batch p
    → Quietly batch q
    → Quietly batch (if b then p else q)
if_Quietly true batch p q h k = h
if_Quietly false batch p q h k = k

move_on-Quietly :
    (backwards : Bool) (batch : Bool) (a : App)
    → AtRest batch a.pending
    → Quietly batch (Navigation.move_on backwards a)
unfolding Navigation.move_on
move_on-Quietly backwards batch a r =
    let b = cancel_reboot a in
    let s = AtRest-cancel_reboot batch a r in
    if_Quietly (is_settings b.view) batch (Navigation.move_in_settings backwards b)
      (Navigation.move_in_menu backwards (length (indices b)) b)
      (move_in_settings-Quietly backwards batch b s)
      (move_in_menu-Quietly backwards (length (indices b)) batch b s)

pub settings_plan-Asks :
    (action : Settings.Action) (plan : Settings.Effect) (batch : Bool) (a : App)
    → AtRest batch a.pending
    → Asks batch (settings_action_plan action plan a batch)
unfolding settings_action_plan set_view set_status clear_all_pressed
settings_plan-Asks Settings.Action.close plan batch a r =
    Quietly-Asks batch (settings_action_plan Settings.Action.close plan a batch)
      (r, all_quiet-screen (some_cue plan.cue))
settings_plan-Asks Settings.Action.terminal plan batch a r =
    (all_quiet-cue_effects (some_cue plan.cue), omega arith, refl)
settings_plan-Asks Settings.Action.wifi plan batch a r =
    Quietly-Asks batch (settings_action_plan Settings.Action.wifi plan a batch)
      (r, all_quiet-screen (some_cue plan.cue))
settings_plan-Asks (Settings.Action.volume v) plan batch a r = (refl, omega arith, tt)
settings_plan-Asks (Settings.Action.brightness v) plan batch a r = (refl, omega arith, tt)
settings_plan-Asks (Settings.Action.keymap v) plan batch a r = (refl, omega arith, tt)

confirm_game-Asks :
    (g : Option ℕ) (a : App) (now : ℕ)
    → AtRest false a.pending
    → Asks false (Navigation.confirm_game g a now)
unfolding Navigation.confirm_game
confirm_game-Asks none a now r = quiet-Asks a.pending false a [] refl r refl
confirm_game-Asks (some i) a now r =
    Quietly-Asks false (Navigation.then_cue (request_game a i now false) Cue.confirm) (
      then_cue-Quietly false (request_game a i now false) Cue.confirm
        (request_game-Quietly false a i now r))

if_Asks :
    (b : Bool) (batch : Bool) (p q : App × List Effect)
    → Asks batch p
    → Asks batch q
    → Asks batch (if b then p else q)
if_Asks true batch p q h k = h
if_Asks false batch p q h k = k

confirm-Asks : (a : App) (now : ℕ) → AtRest false a.pending → Asks false (Navigation.confirm a now)
unfolding Navigation.confirm settings_plan
confirm-Asks a now r =
    let plan = Settings.Reducer.activate a.settings a.settings.selected in
    if_Asks (is_settings a.view) false (settings_action_plan plan.action plan a false)
      (Navigation.confirm_game (selected_game a) a now)
      (settings_plan-Asks plan.action plan false a r) (confirm_game-Asks (selected_game a) a now r)

change_system-Quietly :
    (backwards : Bool) (a : App)
    → AtRest false a.pending
    → Quietly false (Navigation.change_system backwards a)
unfolding Navigation.change_system set_status
change_system-Quietly backwards a r =
    (AtRest-cancel_reboot false a r, all_quiet-screen (some (Navigation.step_cue backwards)))

go_back-Quietly : (a : App) → AtRest false a.pending → Quietly false (Navigation.go_back a)
unfolding Navigation.go_back
go_back-Quietly a r =
    let b = cancel_reboot a in
    (
      subst (AtRest false) (sym (back_from-pending b.view b)) (AtRest-cancel_reboot false a r),
      all_quiet-screen (some Cue.back),
    )

-- Whatever command of a controller or a keyboard is run.
pub run_command-Asks :
    (c : Command) (a : App) (now : ℕ)
    → AtRest false a.pending
    → Asks false (Navigation.run_command a c now)
unfolding Navigation.run_command
run_command-Asks Command.back a now r =
    Quietly-Asks false (Navigation.go_back a) (go_back-Quietly a r)
run_command-Asks Command.settings a now r =
    toggle_settings-Asks (is_settings (cancel_reboot a).view) false (cancel_reboot a)
      (AtRest-cancel_reboot false a r)
run_command-Asks Command.system_previous a now r =
    Quietly-Asks false (Navigation.change_system true a) (change_system-Quietly true a r)
run_command-Asks Command.system_next a now r =
    Quietly-Asks false (Navigation.change_system false a) (change_system-Quietly false a r)
run_command-Asks Command.previous a now r =
    Quietly-Asks false (Navigation.move_on true a) (move_on-Quietly true false a r)
run_command-Asks Command.next a now r =
    Quietly-Asks false (Navigation.move_on false a) (move_on-Quietly false false a r)
run_command-Asks Command.confirm a now r = confirm-Asks a now r

-- The touches of the menu.
disarm-pending : (b : Bool) (a : App) → (Navigation.disarm b a).pending ≡ a.pending
unfolding Navigation.disarm
disarm-pending true a = cancel_reboot-pending a
disarm-pending false a = refl

tap_menu-Quietly :
    (t : Option Menu.Target) (a : App) (now : ℕ)
    → AtRest true a.pending
    → Quietly true (Navigation.tap_menu t a now)
unfolding Navigation.tap_menu Navigation.show_system Navigation.select_first Navigation.run_command
    set_view set_status clear_all_pressed
tap_menu-Quietly none a now r = (r, refl)
tap_menu-Quietly (some Menu.Target.credits) a now r = (r, all_quiet-screen (some Cue.confirm))
tap_menu-Quietly (some Menu.Target.settings) a now r = (r, all_quiet-screen (some Cue.confirm))
tap_menu-Quietly (some (Menu.Target.game i)) a now r =
    then_cue-Quietly true (request_game a i now true) Cue.confirm
      (request_game-Quietly true a i now r)
tap_menu-Quietly (some (Menu.Target.system s)) a now r =
    (r, all_quiet-screen (if same_system a.system s then none else some Cue.next))
tap_menu-Quietly (some Menu.Target.previous) a now r = move_on-Quietly true true a r
tap_menu-Quietly (some Menu.Target.next) a now r = move_on-Quietly false true a r

press_menu-pending :
    (b : Bool) (a : App) (t : Option Menu.Target)
    → (Navigation.press_menu b a t).pending ≡ a.pending
unfolding Navigation.press_menu
press_menu-pending true a t = refl
press_menu-pending false a t = refl

release_menu-Quietly :
    (b : Bool) (a : App) (t : Option Menu.Target) (now : ℕ)
    → AtRest true a.pending
    → Quietly true (Navigation.release_menu b a t now)
unfolding Navigation.release_menu
release_menu-Quietly false a t now r = (r, refl)
release_menu-Quietly true a t now r =
    let kept = ltb 0 a.reboot_deadline && not (Navigation.reboot_target a t) in
    let b = Navigation.disarm kept (record a { pressed = none }) in
    let s = subst (AtRest true) (sym (disarm-pending kept (record a { pressed = none }))) r in
    if_Quietly (Navigation.same_target t a.pressed) true (Navigation.tap_menu t b now) (b, [])
      (tap_menu-Quietly t b now s) (s, refl)

pub dashboard_touch-Asks :
    (a : App) (r : TouchReport) (l : MenuLayout) (now : ℕ)
    → AtRest true a.pending
    → Asks true (Navigation.dashboard_touch a r l now)
unfolding Navigation.dashboard_touch
dashboard_touch-Asks a r l now h =
    let t = Menu.target_at l r.x r.y in
    let b = Navigation.press_menu r.pressed a t in
    Quietly-Asks true (Navigation.release_menu r.released b t now) (
      release_menu-Quietly r.released b t now
        (subst (AtRest true) (sym (press_menu-pending r.pressed a t)) h))
