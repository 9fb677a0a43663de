-- ===== src/Dashboard/Reduce/Requests.antt =====
-- What the reducer makes of the events of the loop (`reduce` of native/src/dashboard/app.rs).
use retrodeck.Prelude.{
  ℕ, ◌≡◌, refl, sym, ap, ◌∙◌, subst, ◌⊎◌, Bool, true, false, List, [], Option, none, some,
}
use retrodeck.Input.{TouchReport}
use retrodeck.Settings
use retrodeck.Menu.{MenuLayout}
use retrodeck.Dashboard.{View, Cue, Action, Pending, Effect, Event, App}
use retrodeck.Dashboard.Credits
use retrodeck.Dashboard.Operations.{screen, set_status, clear_all_pressed, set_view, settings_plan}
use retrodeck.Dashboard.Protocol.{rest_of, AtRest, Asks, quiet-Asks}
use retrodeck.Dashboard.Navigation.Requests.{
  Quietly-Asks, all_quiet-screen, settings_plan-Asks, dashboard_touch-Asks,
}
use retrodeck.Dashboard.Steps.{
  Reduced, check_pending, of_pair, begin_step, tick_step, controls_step,
}
use retrodeck.Dashboard.Steps.Requests.{
  begin_step-pending, tick_step-rest, begin-Asks, tick-Asks, controls-Asks, controls-discards,
  discards, wifi_touch-Asks,
}
use retrodeck.Dashboard.Reduce.{reduce}
use retrodeck.Dashboard.Reduce
use retrodeck.Dashboard.Reduce.Completions.{reduce-handle, show_touch_status-pending}

-- A reduction that is done and comes to rest, or finds the menu without a layout.
abbrev pub Requested : Bool → Reduced → Type 0
Requested batch (Reduced.done a es) = Asks batch (a, es)
Requested batch Reduced.no_menu_layout = Unit
Requested batch r = ⊥

requested : (batch : Bool) (x : App × List Effect) → Asks batch x → Requested batch (of_pair x)
unfolding of_pair
requested batch (a, es) h = h

planned-Asks :
    (plan : Option Settings.Effect) (a : App)
    → AtRest true a.pending
    → Asks true (Reduce.planned plan a)
unfolding Reduce.planned settings_plan
planned-Asks none a r = quiet-Asks a.pending true a [] refl r refl
planned-Asks (some plan) a r = settings_plan-Asks plan.action plan true a r

leave_credits-Asks :
    (e : Option Credits.CreditsEffect) (a : App)
    → AtRest true a.pending
    → Asks true (Reduce.leave_credits e a)
unfolding Reduce.leave_credits set_view set_status clear_all_pressed
leave_credits-Asks none a r = quiet-Asks a.pending true a [] refl r refl
leave_credits-Asks (some e) a r =
    Quietly-Asks true (Reduce.leave_credits (some e) a) (r, all_quiet-screen (some Cue.back))

touch_view-Requested :
    (v : View) (l : Option MenuLayout) (a : App) (r : TouchReport) (now : ℕ)
    → AtRest true a.pending
    → Requested true (Reduce.touch_view v l a r now)
unfolding Reduce.touch_view Reduce.menu_touch Reduce.settings_touch Reduce.credits_touch
touch_view-Requested View.dashboard none a r now h = tt
touch_view-Requested View.dashboard (some l) a r now h =
    requested true _ (dashboard_touch-Asks a r l now h)
touch_view-Requested View.settings l a r now h =
    requested true (Reduce.settings_touch a r) (planned-Asks _ _ h)
touch_view-Requested View.credits l a r now h =
    requested true (Reduce.credits_touch a r) (leave_credits-Asks _ _ h)
touch_view-Requested View.wifi l a r now h = requested true _ (wifi_touch-Asks a r h)

touch_lost-Asks : (a : App) → a.pending ≡ none → Asks false (Reduce.touch_changed a false)
unfolding Reduce.touch_changed clear_all_pressed
touch_lost-Asks a h =
    let b = record (clear_all_pressed a) { touch_connected = false } in
    let status = Reduce.touch_status false in
    quiet-Asks none false (Reduce.show_touch_status a.view b status) (screen none)
      (show_touch_status-pending a.view b status ∙ h) tt (all_quiet-screen none)

-- The events that the loop itself sends, while nothing is pending.
pub begin-Requested :
    (a : App) (now : ℕ) (wayland rescan : Bool) (l : Option MenuLayout)
    → a.pending ≡ none
    → Requested false (reduce a (Event.begin now wayland rescan) l)
unfolding Reduce.handle check_pending
begin-Requested a now wayland rescan l h =
    subst (Requested false) (sym (reduce-handle a (Event.begin now wayland rescan) l none h refl))
      (requested false (begin_step a now wayland rescan) (begin-Asks a now wayland rescan h))

pub tick-Requested :
    (a : App) (now : ℕ) (l : Option MenuLayout)
    → a.pending ≡ none
    → Requested false (reduce a (Event.tick now) l)
unfolding Reduce.handle check_pending
tick-Requested a now l h =
    subst (Requested false) (sym (reduce-handle a (Event.tick now) l none h refl))
      (requested false (tick_step a now) (tick-Asks a now h))

pub touch_lost-Requested :
    (a : App) (l : Option MenuLayout)
    → a.pending ≡ none
    → Requested false (reduce a Event.touch_lost l)
unfolding Reduce.handle check_pending
touch_lost-Requested a l h =
    subst (Requested false) (sym (reduce-handle a Event.touch_lost l none h refl))
      (requested false (Reduce.touch_changed a false) (touch_lost-Asks a h))

pub controls-Requested :
    (a : App) (now : ℕ) (gamepad keyboard : List Action) (quarantined : Bool)
    (l : Option MenuLayout)
    → a.pending ≡ none
    → Requested false (reduce a (Event.controls now gamepad keyboard quarantined) l)
unfolding Reduce.handle check_pending
controls-Requested a now gamepad keyboard quarantined l h =
    subst (Requested false)
      (sym (reduce-handle a (Event.controls now gamepad keyboard quarantined) l none h refl))
      (requested false (controls_step a now gamepad keyboard quarantined)
        (controls-Asks a now gamepad keyboard quarantined h))

-- A reduction that asks for no launch.
abbrev pub Idle : Reduced → Type 0
Idle (Reduced.done a es) = rest_of a.pending ≡ none
Idle r = Unit

idle : (x : App × List Effect) → rest_of x.0.pending ≡ none → Idle (of_pair x)
unfolding of_pair
idle (a, es) h = h

pub begin-Idle :
    (a : App) (now : ℕ) (wayland rescan : Bool) (l : Option MenuLayout)
    → a.pending ≡ none
    → Idle (reduce a (Event.begin now wayland rescan) l)
unfolding Reduce.handle check_pending
begin-Idle a now wayland rescan l h =
    subst Idle (sym (reduce-handle a (Event.begin now wayland rescan) l none h refl)) (
      idle (begin_step a now wayland rescan)
        (ap (λ p. rest_of p) (begin_step-pending a now wayland rescan ∙ h)))

pub tick-Idle :
    (a : App) (now : ℕ) (l : Option MenuLayout)
    → a.pending ≡ none
    → Idle (reduce a (Event.tick now) l)
unfolding Reduce.handle check_pending
tick-Idle a now l h =
    subst Idle (sym (reduce-handle a (Event.tick now) l none h refl))
      (idle (tick_step a now) (tick_step-rest a now h))

pub touch_lost-Idle :
    (a : App) (l : Option MenuLayout) → a.pending ≡ none → Idle (reduce a Event.touch_lost l)
unfolding Reduce.handle check_pending Reduce.touch_changed clear_all_pressed
touch_lost-Idle a l h = subst Idle (sym (reduce-handle a Event.touch_lost l none h refl)) (
    idle (Reduce.touch_changed a false) (
      ap (λ p. rest_of p)
        (show_touch_status-pending a.view (record (clear_all_pressed a) { touch_connected = false })
            (Reduce.touch_status false)
          ∙ h)))

-- A reduction after which nothing is pending, or the touches of the batch are discarded.
abbrev pub Discards : Reduced → Type 0
Discards (Reduced.done a es) = (a.pending ≡ none) ⊎ (discards es ≡ true)
Discards r = Unit

discarding :
    (x : App × List Effect) → (x.0.pending ≡ none) ⊎ (discards x.1 ≡ true) → Discards (of_pair x)
unfolding of_pair
discarding (a, es) h = h

pub controls-Discards :
    (a : App) (now : ℕ) (gamepad keyboard : List Action) (quarantined : Bool)
    (l : Option MenuLayout)
    → a.pending ≡ none
    → Discards (reduce a (Event.controls now gamepad keyboard quarantined) l)
unfolding Reduce.handle check_pending
controls-Discards a now gamepad keyboard quarantined l h =
    subst Discards
      (sym (reduce-handle a (Event.controls now gamepad keyboard quarantined) l none h refl))
      (discarding (controls_step a now gamepad keyboard quarantined)
        (controls-discards a now gamepad keyboard quarantined h))

touch_expected :
    (p : Option Pending) (now : ℕ) (r : TouchReport)
    → AtRest true p
    → check_pending p (Event.touch now r) ≡ true
unfolding check_pending
touch_expected none now r h = refl
touch_expected (some (Pending.launch q)) now r h = h
touch_expected (some (Pending.settings p)) now r h = absurd h
touch_expected (some (Pending.volume_tone p)) now r h = absurd h
touch_expected (some Pending.wifi) now r h = absurd h
touch_expected (some Pending.network) now r h = absurd h
touch_expected (some (Pending.child p)) now r h = absurd h

-- A touch, while nothing is pending or a launch that a touch of its batch asked for.
pub touch-Requested :
    (a : App) (now : ℕ) (r : TouchReport) (l : Option MenuLayout)
    → AtRest true a.pending
    → Requested true (reduce a (Event.touch now r) l)
unfolding Reduce.handle
touch-Requested a now r l h =
    subst (Requested true)
      (sym
        (reduce-handle a (Event.touch now r) l a.pending refl (touch_expected a.pending now r h)))
      (touch_view-Requested a.view l a r now h)
