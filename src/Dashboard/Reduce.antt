-- ===== src/Dashboard/Reduce.antt =====
-- The reducer of the dashboard (`App::new`, `reduce` and `poll_timeout` of
-- native/src/dashboard/app.rs).
pub mod Completions
pub mod Requests
use retrodeck.Prelude.{
  ℕ, ◌-◌, min, Bool, true, false, not, ◌&&◌, List, [], ◌∷◌, ◌++◌, Option, none, some, ltb, ◌==◌,
  if◌then◌else◌,
}
use retrodeck.Prelude.Decimal.{bytes, text_eq}
use retrodeck.Input.{TouchReport}
use retrodeck.Policy.{System, Game, LaunchKind, LaunchPlan}
use retrodeck.Policy
use retrodeck.Menu.{MenuLayout, populated_systems}
use retrodeck.Settings.{volume_default}
use retrodeck.Settings
use retrodeck.Settings.Reducer
use retrodeck.Wifi
use retrodeck.Dashboard.{
  View, Cue, LaunchRequest, Recovery, ActiveLaunch, ChildResult, NetworkStatus, Pending, Effect,
  Event, CreditsState, App,
}
use retrodeck.Dashboard.Credits
use retrodeck.Dashboard.Launches.{terminal_title, child_status}
use retrodeck.Dashboard.Operations.{
  saturating_add, screen, cue_effects, some_cue, set_status, clear_all_pressed, set_view,
  settings_plan,
}
use retrodeck.Dashboard.Navigation.{dashboard_touch}
use retrodeck.Dashboard.Steps.{
  Reduced, check_pending, of_pair, begin_step, tick_step, controls_step, wifi_touch,
}

first_or_deck : List System → System
first_or_deck [] = System.deck
first_or_deck (s ∷ rest) = s

unfoldable pub new : List Game → CreditsState → Bool → App
unfolding first_or_deck populated_systems bytes
new games credits reduced_motion = record {
  games = games;
  view = View.dashboard;
  system = first_or_deck (populated_systems games);
  position = 0;
  status = [];
  pressed = none;
  settings = record (Settings.Reducer.opened volume_default 100 (bytes "us")) { is_open = false };
  wifi = record (Wifi.new [] [] Wifi.Field.ssid) { is_open = false };
  credits = credits;
  network = record { ssid = []; wlan_ipv4 = []; wireguard_ipv4 = []; selector = [] };
  reduced_motion = reduced_motion;
  credits_started_at = 0;
  credits_rendered_at = 0;
  guard = Policy.new;
  last_scan = none;
  touch_connected = true;
  last_touch_reconnect = 0;
  network_refreshed_at = 0;
  reboot_deadline = 0;
  pending = none;
}

planned : Option Settings.Effect → App → App × List Effect
unfolding settings_plan
planned none a = (a, [])
planned (some plan) a = settings_plan a plan true

settings_touch : App → TouchReport → App × List Effect
unfolding planned
settings_touch a r =
    let (s, plan) =
      Settings.Reducer.touch a.settings Settings.default_layout r.x r.y r.pressed r.released in
    planned plan (record a { settings = s })

leave_credits : Option Credits.CreditsEffect → App → App × List Effect
unfolding set_view set_status screen
leave_credits none a = (a, [])
leave_credits (some e) a = (set_status (set_view a View.dashboard) [], screen (some Cue.back))

credits_touch : App → TouchReport → App × List Effect
unfolding leave_credits
credits_touch a r =
    let (c, e) = Credits.touch a.credits r.x r.y r.pressed r.released in
    leave_credits e (record a { credits = c })

menu_touch : Option MenuLayout → App → TouchReport → ℕ → Reduced
menu_touch none a r now = Reduced.no_menu_layout
menu_touch (some l) a r now = of_pair (dashboard_touch a r l now)

touch_view : View → Option MenuLayout → App → TouchReport → ℕ → Reduced
unfolding menu_touch settings_touch credits_touch
touch_view View.dashboard l a r now = menu_touch l a r now
touch_view View.settings l a r now = of_pair (settings_touch a r)
touch_view View.credits l a r now = of_pair (credits_touch a r)
touch_view View.wifi l a r now = of_pair (wifi_touch a r)

pub show_touch_status : View → App → List ℕ → App
unfolding set_status
show_touch_status View.wifi a status = record a { wifi = record a.wifi { status = status } }
show_touch_status v a status = set_status a status

touch_status : Bool → List ℕ
unfolding bytes
touch_status true = bytes "TOUCHSCREEN RECONNECTED"
touch_status false = bytes "WAITING FOR TOUCHSCREEN"

touch_changed : App → Bool → App × List Effect
unfolding show_touch_status touch_status clear_all_pressed screen
touch_changed a connected = (
  show_touch_status a.view (record (clear_all_pressed a) { touch_connected = connected })
      (touch_status connected),
  screen none,
)

-- The derived equality of network states.
same_network : NetworkStatus → NetworkStatus → Bool
same_network a b =
    text_eq a.ssid b.ssid
    && text_eq a.wlan_ipv4 b.wlan_ipv4
    && text_eq a.wireguard_ipv4 b.wireguard_ipv4
    && text_eq a.selector b.selector

network_step : App → NetworkStatus → App × List Effect
unfolding same_network screen
network_step a n =
    (record a { network = n; pending = none }, if same_network a.network n then [] else screen none)

-- With the plan completed: what follows an action that succeeded or failed.
after_volume : Bool → ℕ → Settings.Effect → App → App × List Effect
unfolding screen
after_volume false v plan a = (a, screen none)
after_volume true v plan a = if v == 0 then (a, screen none ++ (Effect.stop_sound ∷ [])) else (
  record a { pending = some (Pending.volume_tone plan) },
  screen none ++ (Effect.volume_cue ∷ []),
)

after_settings : Settings.Action → Bool → Settings.Effect → App → App × List Effect
unfolding after_volume screen some_cue cue_effects
after_settings (Settings.Action.volume v) is_ok plan a = after_volume is_ok v plan a
after_settings action is_ok plan a = (a, screen none ++ cue_effects (some_cue plan.cue))

-- `settings::complete` and `set_status` of its status.
complete_settings : App → Settings.Effect → Bool → Bool → App
unfolding set_status
complete_settings a plan is_ok tone_ok =
    let s = Settings.Reducer.complete a.settings plan is_ok tone_ok in
    set_status (record a { settings = s; pending = none }) s.status

settings_step : Option Pending → App → Bool → Reduced
unfolding after_settings complete_settings
settings_step (some (Pending.settings plan)) a is_ok =
    of_pair (after_settings plan.action is_ok plan (complete_settings a plan is_ok true))
settings_step p a is_ok = Reduced.panicked

tone_answer : Bool → Settings.Effect → App → App × List Effect
unfolding complete_settings screen
tone_answer true plan a = (record a { pending = none }, [])
tone_answer false plan a = (complete_settings a plan true false, screen none)

tone_step : Option Pending → App → Bool → Reduced
unfolding tone_answer
tone_step (some (Pending.volume_tone plan)) a is_ok = of_pair (tone_answer is_ok plan a)
tone_step p a is_ok = Reduced.panicked

wifi_step : App → Bool → Option (List ℕ) → App × List Effect
wifi_step a succeeded failure_status = (
  record a { pending = none; wifi = Wifi.complete_save a.wifi succeeded failure_status },
  Effect.render ∷ Effect.cue Cue.confirm ∷ Effect.present ∷ [],
)

starting : LaunchKind → Game → LaunchPlan → List ℕ
unfolding bytes
starting LaunchKind.reboot g p = bytes "REBOOTING"
starting LaunchKind.terminal g p = bytes "STARTING " ++ terminal_title p
starting LaunchKind.game g p = bytes "STARTING " ++ g.title

prepared_step : Option Pending → App → Game → LaunchPlan → Reduced
unfolding starting set_status
prepared_step (some (Pending.launch r)) a g p =
    Reduced.done
      (record (set_status a (starting p.kind g p)) {
        pending =
            some (Pending.child (record { game = g; plan = p; result = none; recovery = none }));
      })
      (Effect.render ∷ Effect.present ∷ Effect.finish_sound ∷ Effect.close_controls ∷ Effect.launch
        ∷ [])
prepared_step p a g plan = Reduced.panicked

note_disconnect : Bool → App → App
note_disconnect true a = record a { touch_connected = false }
note_disconnect false a = a

recover : ActiveLaunch → ChildResult → App → Reduced
recover active result a =
    Reduced.done
      (record a {
        pending = some (
            Pending.child
              (record active { result = some result; recovery = some Recovery.controls }));
      })
      (Effect.scan_controls ∷ [])

returned_step : Option Pending → App → ChildResult → Bool → Reduced
unfolding recover note_disconnect
returned_step p a result disconnected = elim result.shutdown_requested [
  | true ↦ Reduced.done (record a { pending = none }) (Effect.stop_loop ∷ [])
  | false ↦ elim p [
    | some q ↦ elim q [
      | Pending.child active ↦ recover active result (note_disconnect disconnected a)
      | _ ↦ Reduced.panicked
    ]
    | none ↦ Reduced.panicked
  ]
]

rescanned_step : Option Pending → App → ℕ → App × List Effect
rescanned_step (some (Pending.child active)) a now = (
  record a {
    last_scan = some now;
    pending = some (Pending.child (record active { recovery = some Recovery.presentation }));
  },
  Effect.open_presentation ∷ [],
)
rescanned_step p a now = (record a { last_scan = some now }, [])

opened_step : Option Pending → App → Reduced
opened_step (some (Pending.child active)) a =
    Reduced.done
      (record a {
        pending = some (Pending.child (record active { recovery = some Recovery.volume }));
      })
      (Effect.reload_volume ∷ [])
opened_step p a = Reduced.panicked

reload : Option ℕ → Settings.State → Settings.State
reload none s = s
reload (some v) s = record s {
  volume = v;
  last_audible_volume = if ltb 0 v then v else s.last_audible_volume;
}

finish : Option (List ℕ) → App → Reduced
unfolding set_status screen
finish none a = Reduced.panicked
finish (some status) a = Reduced.done (set_status a status) (screen none)

complete_step : Option Pending → App → Option ℕ → Reduced
unfolding finish reload child_status
complete_step (some (Pending.child active)) a v =
    finish (child_status active) (record a { pending = none; settings = reload v a.settings })
complete_step p a v = Reduced.panicked

pub handle : App → Event → Option MenuLayout → Reduced
unfolding of_pair begin_step tick_step controls_step touch_view touch_changed settings_step
    tone_step wifi_step network_step prepared_step returned_step clear_all_pressed rescanned_step
    opened_step complete_step
handle a (Event.begin now wayland rescan) l = of_pair (begin_step a now wayland rescan)
handle a (Event.tick now) l = of_pair (tick_step a now)
handle a (Event.controls now gamepad keyboard quarantined) l =
    of_pair (controls_step a now gamepad keyboard quarantined)
handle a (Event.touch now r) l = touch_view a.view l a r now
handle a Event.touch_lost l = of_pair (touch_changed a false)
handle a Event.touch_reconnected l = of_pair (touch_changed a true)
handle a (Event.network_result n) l = of_pair (network_step a n)
handle a (Event.settings_result is_ok) l = settings_step a.pending a is_ok
handle a (Event.volume_tone_result is_ok) l = tone_step a.pending a is_ok
handle a (Event.wifi_result succeeded status) l = of_pair (wifi_step a succeeded status)
handle a (Event.prepared g p) l = prepared_step a.pending a g p
handle a (Event.child_returned r disconnected) l =
    returned_step a.pending (clear_all_pressed a) r disconnected
handle a (Event.controls_rescanned now) l = of_pair (rescanned_step a.pending a now)
handle a Event.presentation_opened l = opened_step a.pending a
handle a (Event.child_complete v) l = complete_step a.pending a v

unfoldable pub reduce : App → Event → Option MenuLayout → Reduced
unfolding handle
reduce a e l = if check_pending a.pending e then handle a e l else Reduced.out_of_order

-- The time that the loop waits at most, in milliseconds.
pub poll_timeout : App → ℕ → ℕ
unfolding saturating_add
poll_timeout a now = elim a.view [
  | View.credits ↦
      if not a.reduced_motion then min (saturating_add a.credits_rendered_at 66 - now) 66 else 250
  | _ ↦ 250
]
