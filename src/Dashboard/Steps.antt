-- ===== src/Dashboard/Steps.antt =====
-- What the events of the clock, the controllers and the Wi-Fi editor's touches do (`check_pending`,
-- `wifi_touch` and branches of `reduce` of native/src/dashboard/app.rs).
pub mod Requests
use retrodeck.Prelude.{
  ℕ, ◌+◌, ◌-◌, min, Bool, true, false, not, ◌&&◌, ◌||◌, List, [], ◌∷◌, ◌++◌, Option, none, some,
  ltb, leb, ◌==◌, if◌then◌else◌,
}
use retrodeck.Prelude.Decimal.{bytes, text_eq}
use retrodeck.Input.{TouchReport}
use retrodeck.Policy.{System, Game, LaunchKind, LaunchPlan, ControllerGuard}
use retrodeck.Policy
use retrodeck.Menu.{MenuLayout, populated_systems}
use retrodeck.Settings.{volume_default}
use retrodeck.Settings
use retrodeck.Settings.Reducer
use retrodeck.Wifi
use retrodeck.Dashboard.{
  View, Cue, Command, Action, LaunchRequest, Recovery, ActiveLaunch, ChildResult, NetworkStatus,
  Pending, Effect, Event, CreditsState, App,
}
use retrodeck.Dashboard.Commands.{has, command}
use retrodeck.Dashboard.Credits
use retrodeck.Dashboard.Launches.{terminal_title, child_status}
use retrodeck.Dashboard.Operations.{
  reboot_confirmation, saturating_add, screen, cue_effects, some_cue, set_status, clear_all_pressed,
  set_view, settings_plan,
}
use retrodeck.Dashboard.Navigation.{run_command, dashboard_touch}

-- What a call of the reducer comes to: it is done, it refuses an event out of order, the menu has
-- no layout, or it panics.
pub data Reduced : Type 0 where
  done : App → List Effect → Reduced
  out_of_order no_menu_layout panicked : Reduced

unfoldable pub expected : Option Recovery → Event → Bool
expected none (Event.child_returned r touch) = true
expected (some Recovery.controls) (Event.controls_rescanned now) = true
expected (some Recovery.presentation) Event.presentation_opened = true
expected (some Recovery.volume) (Event.child_complete v) = true
expected r e = false

unfoldable pub check_pending : Option Pending → Event → Bool
unfolding expected
check_pending none e = true
check_pending (some (Pending.launch r)) (Event.prepared g p) = true
check_pending (some (Pending.launch r)) (Event.touch now t) = r.touch_batch
check_pending (some (Pending.settings p)) (Event.settings_result is_ok) = true
check_pending (some (Pending.volume_tone p)) (Event.volume_tone_result is_ok) = true
check_pending (some Pending.wifi) (Event.wifi_result is_ok status) = true
check_pending (some Pending.network) (Event.network_result n) = true
check_pending (some (Pending.child active)) e = expected active.recovery e
check_pending p e = false

unfoldable pub of_pair : App × List Effect → Reduced
of_pair (a, effects) = Reduced.done a effects

-- One effect under its condition.
when : Bool → Effect → List Effect
when true e = e ∷ []
when false e = []

-- A second has passed, or the last scan is none or at time 0.
scan_due : Option ℕ → ℕ → Bool
scan_due none now = true
scan_due (some t) now = t == 0 || leb 1000 (now - t)

begin_scan : Bool → App → ℕ → App
begin_scan true a now = record a { last_scan = some now }
begin_scan false a now = a

begin_reconnect : Bool → App → ℕ → App
begin_reconnect true a now = record a { last_touch_reconnect = now }
begin_reconnect false a now = a

unfoldable pub begin_step : App → ℕ → Bool → Bool → App × List Effect
unfolding when scan_due begin_scan begin_reconnect
begin_step a now wayland rescan =
    let (guard, resumed) = Policy.recover_if_quiet a.guard now in
    let reconnect =
      not wayland && not a.touch_connected && leb 1000 (now - a.last_touch_reconnect) in
    let scan = rescan || scan_due a.last_scan now in
    (
      begin_scan scan (begin_reconnect reconnect (record a { guard = guard }) now) now,
      Effect.reap_sound ∷ when resumed Effect.controller_resumed
          ++ (when reconnect Effect.reconnect_touch ++ when scan Effect.scan_controls),
    )

-- The prompt of an expired reboot.
expire_prompt : Bool → App → App × List Effect
unfolding set_status screen
expire_prompt true a = (set_status a [], screen none)
expire_prompt false a = (a, [])

expire : Bool → App → App × List Effect
unfolding expire_prompt
expire true a =
    let b = record a { reboot_deadline = 0 } in
    expire_prompt (text_eq b.status reboot_confirmation) b
expire false a = (a, [])

in_settings : View → Bool
in_settings View.settings = true
in_settings View.wifi = true
in_settings v = false

is_credits : View → Bool
is_credits View.credits = true
is_credits v = false

refresh_network : Bool → App → ℕ → App × List Effect
refresh_network true a now = (
  record a { network_refreshed_at = now; pending = some Pending.network },
  Effect.network_action ∷ [],
)
refresh_network false a now = (a, [])

roll_credits : Bool → App → ℕ → App × List Effect
unfolding screen
roll_credits true a now = (record a { credits_rendered_at = now }, screen none)
roll_credits false a now = (a, [])

unfoldable pub tick_step : App → ℕ → App × List Effect
unfolding expire in_settings is_credits refresh_network roll_credits
tick_step a now =
    let (b, e) = expire (ltb 0 a.reboot_deadline && leb a.reboot_deadline now) a in
    let (c, f) =
      refresh_network (in_settings b.view && leb 2000 (now - b.network_refreshed_at)) b now in
    let (d, g) =
      roll_credits
        (is_credits c.view && not c.reduced_motion && leb 66 (now - c.credits_rendered_at)) c now in
    (d, e ++ (f ++ g))

-- The guard's answer to a batch of the controller, and whether it is suspended by it.
guard_batch : List Action → ControllerGuard → ℕ → ControllerGuard × Bool
guard_batch [] g now = (g, true)
guard_batch (a ∷ actions) g now = Policy.accept_edge g now

keep : Bool → List Action → List Action
keep true actions = actions
keep false actions = []

-- The keyboard's actions behind those of the controller.
merge : List Action → List Action → List Action
unfolding has
merge actions [] = actions
merge actions (a ∷ keyboard) =
    merge (if has actions a then actions else actions ++ (a ∷ [])) keyboard

obey : Option Command → App → ℕ → App × List Effect
unfolding clear_all_pressed
obey none a now = (a, [])
obey (some c) a now =
    let (b, e) = run_command (clear_all_pressed a) c now in (b, Effect.discard_touch ∷ e)

unfoldable pub controls_step : App → ℕ → List Action → List Action → Bool → App × List Effect
unfolding guard_batch keep merge obey when
controls_step a now gamepad keyboard quarantined =
    let (guard, accepted) = guard_batch gamepad a.guard now in
    let actions = merge (keep (accepted && not quarantined) gamepad) keyboard in
    let (b, e) = obey (command actions a.view) (record a { guard = guard }) now in
    (b, when (not a.guard.suspended && guard.suspended) Effect.controller_suspended ++ e)

-- The touch of the Wi-Fi editor: `pressed.take()`, and the target that both ends agree on.
wifi_number : Wifi.Target → ℕ
wifi_number Wifi.Target.back = 0
wifi_number Wifi.Target.ssid = 1
wifi_number Wifi.Target.password = 2
wifi_number Wifi.Target.save = 3
wifi_number Wifi.Target.mode = 4
wifi_number Wifi.Target.shift = 5
wifi_number Wifi.Target.space = 6
wifi_number Wifi.Target.delete = 7
wifi_number (Wifi.Target.key c) = 8 + c

agreed : Option Wifi.Target → Option Wifi.Target → Option Wifi.Target
unfolding wifi_number
agreed (some t) (some u) = if wifi_number t == wifi_number u then some u else none
agreed old target = none

wifi_screen : Cue → List Effect
wifi_screen c = Effect.render ∷ Effect.cue c ∷ Effect.present ∷ []

save_wifi : Option (List ℕ) → App → App × List Effect
unfolding wifi_screen
save_wifi (some status) a =
    (record a { wifi = record a.wifi { status = status } }, wifi_screen Cue.confirm)
save_wifi none a = (record a { pending = some Pending.wifi }, Effect.wifi_action ∷ [])

type_key : App → Wifi.Target → App × List Effect
unfolding wifi_screen
type_key a t =
    (record a { wifi = record (Wifi.apply a.wifi t) { status = [] } }, wifi_screen Cue.next)

shift_key : Wifi.Mode → App → App × List Effect
unfolding type_key
shift_key Wifi.Mode.symbols a = (a, Effect.present ∷ [])
shift_key Wifi.Mode.alphabet a = type_key a Wifi.Target.shift

tap_wifi : Option Wifi.Target → App → App × List Effect
unfolding set_view set_status save_wifi type_key shift_key wifi_screen bytes
tap_wifi none a = (a, [])
tap_wifi (some Wifi.Target.back) a =
    (set_status (set_view a View.settings) (bytes "WIFI EDITOR CLOSED"), wifi_screen Cue.back)
tap_wifi (some Wifi.Target.save) a = save_wifi (Wifi.valid a.wifi) a
tap_wifi (some Wifi.Target.shift) a = shift_key a.wifi.mode a
tap_wifi (some t) a = type_key a t

release_wifi : Bool → App → Option Wifi.Target → App × List Effect
unfolding agreed tap_wifi
release_wifi false a target = (a, [])
release_wifi true a target =
    tap_wifi (agreed a.wifi.pressed target) (record a { wifi = record a.wifi { pressed = none } })

press_wifi : Bool → App → Option Wifi.Target → App
press_wifi true a target = record a { wifi = record a.wifi { pressed = target } }
press_wifi false a target = a

unfoldable pub wifi_touch : App → TouchReport → App × List Effect
unfolding release_wifi press_wifi
wifi_touch a r =
    let target = Wifi.target_at_state a.wifi r.x r.y in
    release_wifi r.released (press_wifi r.pressed a target) target
