-- ===== src/Dashboard/Reduce/Completions.antt =====
-- What the reducer does with the answer that it waits for (`reduce` of
-- native/src/dashboard/app.rs).
use retrodeck.Prelude.{
  ℕ, ◌≡◌, refl, sym, ◌∙◌, subst, Bool, true, false, List, [], Option, none, some, if◌then◌else◌,
  arith, Bool-cases, inl, inr, ◌==◌,
}
use retrodeck.Policy.{Game, LaunchPlan}
use retrodeck.Settings
use retrodeck.Menu.{MenuLayout}
use retrodeck.Dashboard.{
  View, Cue, LaunchRequest, Recovery, ActiveLaunch, ChildResult, NetworkStatus, Pending, Effect,
  Event, App,
}
use retrodeck.Dashboard.Launches.{child_status, status_of}
use retrodeck.Dashboard.Operations.{screen, cue_effects, some_cue, set_status, clear_all_pressed}
use retrodeck.Dashboard.Protocol.{all_quiet, all_quiet-all_calm, Fits, has_result}
use retrodeck.Dashboard.Steps.{Reduced, check_pending, expected, of_pair}
use retrodeck.Dashboard.Reduce.{
  handle, reduce, settings_step, after_settings, after_volume, complete_settings, tone_step,
  tone_answer, network_step, same_network, wifi_step, prepared_step, returned_step, recover,
  note_disconnect, rescanned_step, opened_step, complete_step, finish, touch_changed, touch_status,
  show_touch_status,
}

-- An expected event is handled.
pub reduce-handle :
    (a : App) (e : Event) (l : Option MenuLayout) (p : Option Pending)
    → a.pending ≡ p
    → check_pending p e ≡ true
    → reduce a e l ≡ handle a e l
unfolding reduce
reduce-handle a e l p h c = let here : check_pending a.pending e ≡ true = rw h c in rw here refl

cue_effects-all_quiet : (c : Option Cue) → all_quiet (cue_effects c) ≡ true
unfolding cue_effects
cue_effects-all_quiet none = refl
cue_effects-all_quiet (some c) = refl

-- Quiet effects of an application that waits for nothing.
pub quiet-Fits :
    (n : ℕ) (a : App) (es : List Effect)
    → a.pending ≡ none
    → all_quiet es ≡ true
    → Fits n none (Reduced.done a es)
quiet-Fits n a es h q = rw h (all_quiet-all_calm es q, rw q (omega arith), refl)

settings-Fits :
    (action : Settings.Action) (is_ok : Bool) (plan : Settings.Effect) (a : App)
    → a.pending ≡ none
    → Fits 1 none (of_pair (after_settings action is_ok plan a))
unfolding of_pair after_settings after_volume screen cue_effects
settings-Fits (Settings.Action.volume v) false plan a h = quiet-Fits 1 a _ h refl
settings-Fits (Settings.Action.volume v) true plan a h = elim (Bool-cases (v == 0)) [
  | inl muted ↦ rw muted (quiet-Fits 1 a _ h refl)
  | inr audible ↦ rw audible (refl, omega arith, refl)
]
settings-Fits action is_ok plan a h = quiet-Fits 1 a _ h (cue_effects-all_quiet (some_cue plan.cue))

pub settings_result-Fits :
    (a : App) (plan : Settings.Effect) (is_ok : Bool) (l : Option MenuLayout)
    → a.pending ≡ some (Pending.settings plan)
    → Fits 1 none (reduce a (Event.settings_result is_ok) l)
unfolding check_pending handle settings_step complete_settings set_status
settings_result-Fits a plan is_ok l h =
    subst (Fits 1 none) (sym (reduce-handle a (Event.settings_result is_ok) l _ h refl))
      (rw h (settings-Fits plan.action is_ok plan (complete_settings a plan is_ok true) refl))

pub volume_tone_result-Fits :
    (a : App) (plan : Settings.Effect) (is_ok : Bool) (l : Option MenuLayout)
    → a.pending ≡ some (Pending.volume_tone plan)
    → Fits 0 none (reduce a (Event.volume_tone_result is_ok) l)
unfolding check_pending handle tone_step tone_answer of_pair complete_settings set_status screen
    cue_effects
volume_tone_result-Fits a plan true l h =
    subst (Fits 0 none) (sym (reduce-handle a (Event.volume_tone_result true) l _ h refl))
      (rw h (refl, omega arith, refl))
volume_tone_result-Fits a plan false l h =
    subst (Fits 0 none) (sym (reduce-handle a (Event.volume_tone_result false) l _ h refl))
      (rw h (refl, omega arith, refl))

pub wifi_result-Fits :
    (a : App) (saved : Bool) (status : Option (List ℕ)) (l : Option MenuLayout)
    → a.pending ≡ some Pending.wifi
    → Fits 0 none (reduce a (Event.wifi_result saved status) l)
unfolding check_pending handle wifi_step of_pair
wifi_result-Fits a saved status l h =
    subst (Fits 0 none) (sym (reduce-handle a (Event.wifi_result saved status) l _ h refl))
      (refl, omega arith, refl)

screen_unless-Fits :
    (b : Bool) (a : App)
    → a.pending ≡ none
    → Fits 0 none (Reduced.done a (if b then [] else screen none))
unfolding screen cue_effects
screen_unless-Fits true a h = quiet-Fits 0 a [] h refl
screen_unless-Fits false a h = quiet-Fits 0 a _ h refl

pub network_result-Fits :
    (a : App) (n : NetworkStatus) (l : Option MenuLayout)
    → a.pending ≡ some Pending.network
    → Fits 0 none (reduce a (Event.network_result n) l)
unfolding check_pending handle network_step of_pair
network_result-Fits a n l h =
    subst (Fits 0 none) (sym (reduce-handle a (Event.network_result n) l _ h refl)) (
      screen_unless-Fits (same_network a.network n) (record a { network = n; pending = none }) refl)

pub prepared-Fits :
    (a : App) (r : LaunchRequest) (g : Game) (p : LaunchPlan) (l : Option MenuLayout)
    → a.pending ≡ some (Pending.launch r)
    → Fits 4 none (reduce a (Event.prepared g p) l)
unfolding check_pending handle prepared_step set_status
prepared-Fits a r g p l h =
    subst (Fits 4 none) (sym (reduce-handle a (Event.prepared g p) l _ h refl))
      (rw h (refl, omega arith, refl))

returned-Fits :
    (stop : Bool) (active : ActiveLaunch) (a : App) (result : ChildResult) (lost : Bool)
    → result.shutdown_requested ≡ stop
    → Fits 3 none (returned_step (some (Pending.child active)) a result lost)
unfolding returned_step recover note_disconnect
returned-Fits true active a result lost h = rw h (refl, omega arith, refl)
returned-Fits false active a result lost h = rw h (refl, omega arith, refl)

pub child_returned-Fits :
    (a : App) (active : ActiveLaunch) (result : ChildResult) (lost : Bool) (l : Option MenuLayout)
    → a.pending ≡ some (Pending.child active)
    → active.recovery ≡ none
    → Fits 3 none (reduce a (Event.child_returned result lost) l)
unfolding handle check_pending expected
child_returned-Fits a active result lost l h k =
    subst (Fits 3 none) (sym (reduce-handle a (Event.child_returned result lost) l _ h (rw k refl)))
      (subst (λ p. Fits 3 none (returned_step p (clear_all_pressed a) result lost)) (sym h)
        (returned-Fits result.shutdown_requested active (clear_all_pressed a) result lost refl))

pub controls_rescanned-Fits :
    (a : App) (active : ActiveLaunch) (now : ℕ) (l : Option MenuLayout)
    → a.pending ≡ some (Pending.child active)
    → active.recovery ≡ some Recovery.controls
    → has_result active.result ≡ true
    → Fits 2 none (reduce a (Event.controls_rescanned now) l)
unfolding handle check_pending expected rescanned_step of_pair
controls_rescanned-Fits a active now l h k r =
    subst (Fits 2 none) (sym (reduce-handle a (Event.controls_rescanned now) l _ h (rw k refl)))
      (rw h (ground arith, omega arith, refl))

pub presentation_opened-Fits :
    (a : App) (active : ActiveLaunch) (l : Option MenuLayout)
    → a.pending ≡ some (Pending.child active)
    → active.recovery ≡ some Recovery.presentation
    → has_result active.result ≡ true
    → Fits 1 none (reduce a Event.presentation_opened l)
unfolding handle check_pending expected opened_step
presentation_opened-Fits a active l h k r =
    subst (Fits 1 none) (sym (reduce-handle a Event.presentation_opened l _ h (rw k refl)))
      (rw h (ground arith, omega arith, refl))

status_of-some :
    (active : ActiveLaunch) (r : Option ChildResult)
    → has_result r ≡ true
    → (status : List ℕ) × (status_of active r ≡ some status)
unfolding status_of
status_of-some active none h = absurd (cc h)
status_of-some active (some r) h = (_, refl)

pub child_complete-Fits :
    (a : App) (active : ActiveLaunch) (v : Option ℕ) (l : Option MenuLayout)
    → a.pending ≡ some (Pending.child active)
    → active.recovery ≡ some Recovery.volume
    → has_result active.result ≡ true
    → Fits 0 none (reduce a (Event.child_complete v) l)
unfolding handle check_pending expected complete_step finish child_status set_status screen
    cue_effects
child_complete-Fits a active v l h k r =
    let (status, said) = status_of-some active active.result r in
    subst (Fits 0 none) (sym (reduce-handle a (Event.child_complete v) l _ h (rw k refl)))
      (rw (h, said) (refl, omega arith, refl))

-- Answers to a scan and to a reconnection, with nothing to wait for.
pub idle_rescanned-Fits :
    (a : App) (now : ℕ) (l : Option MenuLayout)
    → a.pending ≡ none
    → Fits 0 none (reduce a (Event.controls_rescanned now) l)
unfolding handle check_pending rescanned_step of_pair
idle_rescanned-Fits a now l h =
    subst (Fits 0 none) (sym (reduce-handle a (Event.controls_rescanned now) l _ h refl))
      (rw h (refl, omega arith, refl))

pub show_touch_status-pending :
    (v : View) (a : App) (status : List ℕ) → (show_touch_status v a status).pending ≡ a.pending
unfolding show_touch_status set_status
show_touch_status-pending View.wifi a status = refl
show_touch_status-pending v a status = refl

touch_changed-Fits :
    (a : App) (connected : Bool)
    → a.pending ≡ none
    → Fits 0 none (of_pair (touch_changed a connected))
unfolding touch_changed of_pair screen cue_effects clear_all_pressed
touch_changed-Fits a connected h =
    let b = record (clear_all_pressed a) { touch_connected = connected } in
    let status = touch_status connected in
    quiet-Fits 0 (show_touch_status a.view b status) (screen none)
      (show_touch_status-pending a.view b status ∙ h) refl

pub touch_reconnected-Fits :
    (a : App) (l : Option MenuLayout)
    → a.pending ≡ none
    → Fits 0 none (reduce a Event.touch_reconnected l)
unfolding handle check_pending
touch_reconnected-Fits a l h =
    subst (Fits 0 none) (sym (reduce-handle a Event.touch_reconnected l _ h refl))
      (touch_changed-Fits a true h)
