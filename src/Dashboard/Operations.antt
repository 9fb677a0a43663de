-- ===== src/Dashboard/Operations.antt =====
-- The methods of `App` below its reducer (native/src/dashboard/app.rs). Each gives the application
-- and the effects it asks for.
use retrodeck.Prelude.{
  ℕ, ◌+◌, ◌%◌, min, max, Bool, true, false, ◌&&◌, List, [], ◌∷◌, Option, none, some, ltb,
  if◌then◌else◌, length, get_elem?,
}
use retrodeck.Prelude.Decimal.{bytes, text_eq}
use retrodeck.Policy.{Game}
use retrodeck.Menu.{indices_from}
use retrodeck.Settings
use retrodeck.Wifi
use retrodeck.Dashboard.{View, Cue, GameIndex, Pending, Effect, App}
use retrodeck.Dashboard.Credits.{clear_pressed}

abbrev pub reboot_confirmation : List ℕ
unfolding bytes
reboot_confirmation = bytes "PRESS A OR TAP AGAIN TO REBOOT"

-- `saturating_add` on `u64`.
unfoldable pub saturating_add : ℕ → ℕ → ℕ
saturating_add a b = min (a + b) 18446744073709551615

unfoldable pub cue_of : Settings.Cue → Cue
cue_of Settings.Cue.previous = Cue.previous
cue_of Settings.Cue.next = Cue.next
cue_of Settings.Cue.confirm = Cue.confirm
cue_of Settings.Cue.back = Cue.back

unfoldable pub some_cue : Option Settings.Cue → Option Cue
unfolding cue_of
some_cue none = none
some_cue (some c) = some (cue_of c)

unfoldable pub cue_effects : Option Cue → List Effect
cue_effects none = []
cue_effects (some c) = Effect.cue c ∷ []

unfoldable pub screen : Option Cue → List Effect
unfolding cue_effects
screen c = Effect.render ∷ Effect.present ∷ cue_effects c

unfoldable pub set_status : App → List ℕ → App
set_status a status = record a { status = status; settings = record a.settings { status = status } }

unfoldable pub clear_all_pressed : App → App
clear_all_pressed a = record a {
  pressed = none;
  settings = record a.settings { pressed = none };
  wifi = record a.wifi { pressed = none };
  credits = clear_pressed a.credits;
}

settings_open : View → Bool
settings_open View.settings = true
settings_open View.wifi = true
settings_open v = false

wifi_open : View → Bool
wifi_open View.wifi = true
wifi_open v = false

unfoldable pub set_view : App → View → App
unfolding clear_all_pressed settings_open wifi_open
set_view a view =
    let b = clear_all_pressed a in
    record b {
      view = view;
      settings = record b.settings { is_open = settings_open view };
      wifi = record b.wifi { is_open = wifi_open view };
    }

unfoldable pub set_status_if : Bool → App → List ℕ → App
unfolding set_status
set_status_if true a status = set_status a status
set_status_if false a status = a

unfoldable pub cancel_reboot : App → App
unfolding set_status_if
cancel_reboot a =
    set_status_if (text_eq a.status reboot_confirmation) (record a { reboot_deadline = 0 }) []

unfoldable pub indices : App → List ℕ
indices a = indices_from 0 a.games a.system

unfoldable pub selected_game : App → Option ℕ
unfolding indices
selected_game a = get_elem? (indices a) (a.position % max (length (indices a)) 1)

abbrev pub launch_of : ℕ → Bool → Pending
launch_of index touch_batch =
    Pending.launch
      (record { game = GameIndex.catalog index; mode = none; touch_batch = touch_batch })

-- A first request of the reboot arms it, and a second one before the deadline is a launch.
unfoldable pub request_reboot : Bool → App → ℕ → ℕ → Bool → App × List Effect
unfolding screen set_status saturating_add
request_reboot true a index now touch_batch =
    (record a { reboot_deadline = 0; pending = some (launch_of index touch_batch) }, [])
request_reboot false a index now touch_batch = (
  set_status (record a { reboot_deadline = saturating_add now 4000 }) reboot_confirmation,
  screen (some Cue.confirm),
)

unfoldable pub request_other : App → ℕ → Bool → App × List Effect
unfolding cancel_reboot
request_other a index touch_batch =
    (record (cancel_reboot a) { pending = some (launch_of index touch_batch) }, [])

unfoldable pub is_reboot : Game → Bool
unfolding bytes
is_reboot g = text_eq g.id (bytes "reboot")

unfoldable pub request_of : Option Game → App → ℕ → ℕ → Bool → App × List Effect
unfolding request_reboot request_other is_reboot
request_of none a index now touch_batch = (a, [])
request_of (some g) a index now touch_batch =
    if is_reboot g
    then request_reboot (ltb 0 a.reboot_deadline && ltb now a.reboot_deadline) a index now
        touch_batch
    else request_other a index touch_batch

unfoldable pub request_game : App → ℕ → ℕ → Bool → App × List Effect
unfolding request_of
request_game a index now touch_batch = request_of (get_elem? a.games index) a index now touch_batch

unfoldable pub settings_action_plan :
    Settings.Action → Settings.Effect → App → Bool → App × List Effect
unfolding set_view set_status screen some_cue cue_effects bytes
settings_action_plan Settings.Action.close plan a touch_batch =
    (set_status (set_view a View.dashboard) [], screen (some_cue plan.cue))
settings_action_plan Settings.Action.terminal plan a touch_batch = (
  record a {
    pending = some (
        Pending.launch (record {
          game = GameIndex.terminal;
          mode = some (bytes "shell");
          touch_batch = touch_batch;
        }));
  },
  cue_effects (some_cue plan.cue),
)
settings_action_plan Settings.Action.wifi plan a touch_batch =
    (set_view (record a { wifi = Wifi.open_editor a.wifi }) View.wifi, screen (some_cue plan.cue))
settings_action_plan action plan a touch_batch =
    (record a { pending = some (Pending.settings plan) }, Effect.settings_action plan ∷ [])

unfoldable pub settings_plan : App → Settings.Effect → Bool → App × List Effect
unfolding settings_action_plan
settings_plan a plan touch_batch = settings_action_plan plan.action plan a touch_batch
