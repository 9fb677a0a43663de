-- ===== src/Dashboard/Steps/Requests.antt =====
-- The events of the clock, the controllers and the Wi-Fi editor ask only for what the loop carries
-- out to the end (native/src/dashboard/app.rs).
use retrodeck.Prelude.{
  ℕ, ◌-◌, ◌≤◌, ◌≡◌, refl, sym, ap, ◌∙◌, ◌⊎◌, subst, Bool, true, false, not, ◌&&◌, ◌||◌, List, [],
  ◌∷◌, ◌++◌, Option, none, some, ltb, leb, if◌then◌else◌, arith, inl, inr,
}
use retrodeck.Prelude.Decimal.{text_eq}
use retrodeck.Input.{TouchReport}
use retrodeck.Policy
use retrodeck.Wifi
use retrodeck.Dashboard.{Command, Action, Pending, Effect, App}
use retrodeck.Dashboard.Commands.{command}
use retrodeck.Dashboard.Protocol.{
  quiet, calm, all_quiet, all_calm, answers, awaits, settled, depth, rest_of, AtRest, Asks,
  quiet-Asks, all_quiet-append, all_quiet-all_calm,
}
use retrodeck.Dashboard.Operations.{reboot_confirmation, set_status, clear_all_pressed, set_view}
use retrodeck.Dashboard.Navigation.{run_command}
use retrodeck.Dashboard.Navigation.Requests.{
  Quietly, Quietly-Asks, all_quiet-screen, run_command-Asks,
}
use retrodeck.Dashboard.Steps

all_calm-append :
    (es fs : List Effect) → all_calm es ≡ true → all_calm fs ≡ true → all_calm (es ++ fs) ≡ true
all_calm-append [] fs h k = k
all_calm-append (e ∷ es) fs h k = let rest = all_calm-append es fs (ground arith) k in ground arith

all_calm-when : (b : Bool) (e : Effect) → calm e ≡ true → all_calm (Steps.when b e) ≡ true
unfolding Steps.when
all_calm-when true e h = ground arith
all_calm-when false e h = refl

-- Calm effects of an application that waits for nothing.
calm-Asks :
    (batch : Bool) (x : App × List Effect) → x.0.pending ≡ none → all_calm x.1 ≡ true → Asks batch x
calm-Asks batch (a, es) h c = rw h (c, shallow (all_quiet es), tt)
  where
    shallow : (b : Bool) → (if b then 0 else 1) ≤ 2
    shallow true = omega arith
    shallow false = omega arith

begin_scan-pending : (b : Bool) (a : App) (now : ℕ) → (Steps.begin_scan b a now).pending ≡ a.pending
unfolding Steps.begin_scan
begin_scan-pending true a now = refl
begin_scan-pending false a now = refl

begin_reconnect-pending :
    (b : Bool) (a : App) (now : ℕ) → (Steps.begin_reconnect b a now).pending ≡ a.pending
unfolding Steps.begin_reconnect
begin_reconnect-pending true a now = refl
begin_reconnect-pending false a now = refl

pub begin-Asks :
    (a : App) (now : ℕ) (wayland rescan : Bool)
    → a.pending ≡ none
    → Asks false (Steps.begin_step a now wayland rescan)
unfolding Steps.begin_step
begin-Asks a now wayland rescan h =
    let resumed = (Policy.recover_if_quiet a.guard now).1 in
    let b = record a { guard = (Policy.recover_if_quiet a.guard now).0 } in
    let reconnect =
      not wayland && not a.touch_connected && leb 1000 (now - a.last_touch_reconnect) in
    let scan = rescan || Steps.scan_due a.last_scan now in
    calm-Asks false (Steps.begin_step a now wayland rescan)
      (begin_scan-pending scan (Steps.begin_reconnect reconnect b now) now
        ∙ begin_reconnect-pending reconnect b now
        ∙ h)
      (all_calm-append (Steps.when resumed Effect.controller_resumed) _
        (all_calm-when resumed Effect.controller_resumed refl)
        (all_calm-append (Steps.when reconnect Effect.reconnect_touch) _
          (all_calm-when reconnect Effect.reconnect_touch refl)
          (all_calm-when scan Effect.scan_controls refl)))

both : (a b : Bool) → (a && b) ≡ true → (a ≡ true) × (b ≡ true)
both true b h = (refl, h)
both false b h = absurd (cc h)

second : (a b c d : Bool) → c ≡ true → d ≡ true → ((a && b) || (c && d)) ≡ true
second true true c d h k = refl
second true false c d h k = rw (h, k) refl
second false b c d h k = rw (h, k) refl

-- Quiet effects in front of others change nothing.
awaits-append :
    (p : Pending) (es fs : List Effect)
    → all_quiet es ≡ true
    → awaits p fs ≡ true
    → awaits p (es ++ fs) ≡ true
awaits-append p [] fs q h = h
awaits-append p (e ∷ es) fs q h =
    let (this, others) = both (quiet e) (all_quiet es) q in
    second (answers p e) (all_quiet (es ++ fs)) (quiet e) (awaits p (es ++ fs)) this
      (awaits-append p es fs others h)

settled-append :
    (p : Option Pending) (es fs : List Effect)
    → all_quiet es ≡ true
    → settled p fs ≡ true
    → settled p (es ++ fs) ≡ true
settled-append none es fs q h = all_calm-append es fs (all_quiet-all_calm es q) h
settled-append (some (Pending.launch r)) es fs q h = all_quiet-append es fs q h
settled-append (some (Pending.settings p)) es fs q h = awaits-append (Pending.settings p) es fs q h
settled-append (some (Pending.volume_tone p)) es fs q h =
    awaits-append (Pending.volume_tone p) es fs q h
settled-append (some Pending.wifi) es fs q h = awaits-append Pending.wifi es fs q h
settled-append (some Pending.network) es fs q h = awaits-append Pending.network es fs q h
settled-append (some (Pending.child p)) es fs q h = awaits-append (Pending.child p) es fs q h

all_quiet-prefix : (es fs : List Effect) → all_quiet es ≡ true → all_quiet (es ++ fs) ≡ all_quiet fs
all_quiet-prefix [] fs q = refl
all_quiet-prefix (e ∷ es) fs q = let rest = all_quiet-prefix es fs (ground arith) in ground arith

depth-append :
    (p : Option Pending) (es fs : List Effect)
    → all_quiet es ≡ true
    → depth p (es ++ fs) ≡ depth p fs
depth-append none es fs q = rw (all_quiet-prefix es fs q) refl
depth-append (some (Pending.launch r)) es fs q = refl
depth-append (some (Pending.settings p)) es fs q = refl
depth-append (some (Pending.volume_tone p)) es fs q = refl
depth-append (some Pending.wifi) es fs q = refl
depth-append (some Pending.network) es fs q = refl
depth-append (some (Pending.child p)) es fs q = refl

prefix-Asks :
    (batch : Bool) (es : List Effect) (x : App × List Effect)
    → all_quiet es ≡ true
    → Asks batch x
    → Asks batch (x.0, es ++ x.1)
prefix-Asks batch es (a, fs) q (s, d, r) =
    let same = depth-append a.pending es fs q in
    (settled-append a.pending es fs q s, omega arith, r)

expire-kept :
    (b : Bool) (a : App)
    → ((Steps.expire b a).0.pending ≡ a.pending) × (all_quiet (Steps.expire b a).1 ≡ true)
unfolding Steps.expire
expire-kept false a = (refl, refl)
expire-kept true a = prompt (text_eq a.status reboot_confirmation)
  where
    prompt :
        (b : Bool)
        → ((Steps.expire_prompt b (record a { reboot_deadline = 0 })).0.pending ≡ a.pending)
          × (all_quiet (Steps.expire_prompt b (record a { reboot_deadline = 0 })).1 ≡ true)
    prompt true = (refl, all_quiet-screen none)
    prompt false = (refl, refl)

roll_credits-kept :
    (b : Bool) (a : App) (now : ℕ)
    → ((Steps.roll_credits b a now).0.pending ≡ a.pending)
      × (all_quiet (Steps.roll_credits b a now).1 ≡ true)
unfolding Steps.roll_credits
roll_credits-kept true a now = (refl, all_quiet-screen none)
roll_credits-kept false a now = (refl, refl)

-- The network's action, with quiet effects behind it.
refresh-Asks :
    (b : Bool) (a : App) (now : ℕ) (d : App) (g : List Effect)
    → a.pending ≡ none
    → d.pending ≡ (Steps.refresh_network b a now).0.pending
    → all_quiet g ≡ true
    → Asks false (d, (Steps.refresh_network b a now).1 ++ g)
unfolding Steps.refresh_network
refresh-Asks false a now d g h k q = quiet-Asks none false d g (k ∙ h) tt q
refresh-Asks true a now d g h k q = rw k (ground arith, omega arith, tt)

pub tick-Asks : (a : App) (now : ℕ) → a.pending ≡ none → Asks false (Steps.tick_step a now)
unfolding Steps.tick_step
tick-Asks a now h =
    let over = ltb 0 a.reboot_deadline && leb a.reboot_deadline now in
    let (b, e) = Steps.expire over a in
    let (kept, quiet_e) = expire-kept over a in
    let due = Steps.in_settings b.view && leb 2000 (now - b.network_refreshed_at) in
    let (c, f) = Steps.refresh_network due b now in
    let roll =
      Steps.is_credits c.view && not c.reduced_motion && leb 66 (now - c.credits_rendered_at) in
    let (d, g) = Steps.roll_credits roll c now in
    let (held, quiet_g) = roll_credits-kept roll c now in
    prefix-Asks false e (d, f ++ g) quiet_e (refresh-Asks due b now d g (kept ∙ h) held quiet_g)

pub begin_step-pending :
    (a : App) (now : ℕ) (wayland rescan : Bool)
    → (Steps.begin_step a now wayland rescan).0.pending ≡ a.pending
unfolding Steps.begin_step
begin_step-pending a now wayland rescan =
    let b = record a { guard = (Policy.recover_if_quiet a.guard now).0 } in
    let reconnect =
      not wayland && not a.touch_connected && leb 1000 (now - a.last_touch_reconnect) in
    begin_scan-pending (rescan || Steps.scan_due a.last_scan now)
      (Steps.begin_reconnect reconnect b now) now
    ∙ begin_reconnect-pending reconnect b now

refresh_network-rest :
    (b : Bool) (a : App) (now : ℕ)
    → rest_of a.pending ≡ none
    → rest_of (Steps.refresh_network b a now).0.pending ≡ none
unfolding Steps.refresh_network
refresh_network-rest true a now h = refl
refresh_network-rest false a now h = h

pub tick_step-rest :
    (a : App) (now : ℕ) → a.pending ≡ none → rest_of (Steps.tick_step a now).0.pending ≡ none
unfolding Steps.tick_step
tick_step-rest a now h =
    let over = ltb 0 a.reboot_deadline && leb a.reboot_deadline now in
    let b = (Steps.expire over a).0 in
    let due = Steps.in_settings b.view && leb 2000 (now - b.network_refreshed_at) in
    let c = (Steps.refresh_network due b now).0 in
    let roll =
      Steps.is_credits c.view && not c.reduced_motion && leb 66 (now - c.credits_rendered_at) in
    ap (λ p. rest_of p) ((roll_credits-kept roll c now).0)
    ∙ refresh_network-rest due b now (ap (λ p. rest_of p) ((expire-kept over a).0 ∙ h))

all_quiet-when : (b : Bool) (e : Effect) → quiet e ≡ true → all_quiet (Steps.when b e) ≡ true
unfolding Steps.when
all_quiet-when true e h = ground arith
all_quiet-when false e h = refl

obey-Asks :
    (c : Option Command) (a : App) (now : ℕ) → a.pending ≡ none → Asks false (Steps.obey c a now)
unfolding Steps.obey clear_all_pressed
obey-Asks none a now h = quiet-Asks none false a [] h tt refl
obey-Asks (some c) a now h =
    prefix-Asks false (Effect.discard_touch ∷ []) (run_command (clear_all_pressed a) c now) refl
      (run_command-Asks c (clear_all_pressed a) now (subst (AtRest false) (sym h) tt))

-- A command comes with the effect that discards the touches of its batch.
abbrev pub discards : List Effect → Bool
discards [] = false
discards (Effect.discard_touch ∷ es) = true
discards (e ∷ es) = discards es

obey-discards :
    (c : Option Command) (a : App) (now : ℕ)
    → a.pending ≡ none
    → ((Steps.obey c a now).0.pending ≡ none) ⊎ (discards (Steps.obey c a now).1 ≡ true)
unfolding Steps.obey
obey-discards none a now h = inl h
obey-discards (some c) a now h = inr refl

discards-when :
    (b : Bool) (es : List Effect)
    → discards es ≡ true
    → discards (Steps.when b Effect.controller_suspended ++ es) ≡ true
unfolding Steps.when
discards-when true es h = h
discards-when false es h = h

pub controls-Asks :
    (a : App) (now : ℕ) (gamepad keyboard : List Action) (quarantined : Bool)
    → a.pending ≡ none
    → Asks false (Steps.controls_step a now gamepad keyboard quarantined)
unfolding Steps.controls_step
controls-Asks a now gamepad keyboard quarantined h =
    let (guard, accepted) = Steps.guard_batch gamepad a.guard now in
    let actions = Steps.merge (Steps.keep (accepted && not quarantined) gamepad) keyboard in
    let stopped = not a.guard.suspended && guard.suspended in
    prefix-Asks false (Steps.when stopped Effect.controller_suspended)
      (Steps.obey (command actions a.view) (record a { guard = guard }) now)
      (all_quiet-when stopped Effect.controller_suspended refl)
      (obey-Asks (command actions a.view) (record a { guard = guard }) now h)

pub controls-discards :
    (a : App) (now : ℕ) (gamepad keyboard : List Action) (quarantined : Bool)
    → a.pending ≡ none
    → ((Steps.controls_step a now gamepad keyboard quarantined).0.pending ≡ none)
      ⊎ (discards (Steps.controls_step a now gamepad keyboard quarantined).1 ≡ true)
unfolding Steps.controls_step
controls-discards a now gamepad keyboard quarantined h =
    let (guard, accepted) = Steps.guard_batch gamepad a.guard now in
    let actions = Steps.merge (Steps.keep (accepted && not quarantined) gamepad) keyboard in
    let stopped = not a.guard.suspended && guard.suspended in
    let b = record a { guard = guard } in
    elim (obey-discards (command actions a.view) b now h) [
      | inl idle ↦ inl idle
      | inr drops ↦ inr (discards-when stopped (Steps.obey (command actions a.view) b now).1 drops)
    ]

-- The touches of the Wi-Fi editor.
type_key-Quietly :
    (t : Wifi.Target) (a : App) → AtRest true a.pending → Quietly true (Steps.type_key a t)
unfolding Steps.type_key Steps.wifi_screen
type_key-Quietly t a r = (r, refl)

save_wifi-Asks :
    (v : Option (List ℕ)) (a : App) → AtRest true a.pending → Asks true (Steps.save_wifi v a)
unfolding Steps.save_wifi Steps.wifi_screen
save_wifi-Asks none a r = (refl, omega arith, tt)
save_wifi-Asks (some status) a r = Quietly-Asks true (Steps.save_wifi (some status) a) (r, refl)

shift_key-Quietly :
    (m : Wifi.Mode) (a : App) → AtRest true a.pending → Quietly true (Steps.shift_key m a)
unfolding Steps.shift_key
shift_key-Quietly Wifi.Mode.symbols a r = (r, refl)
shift_key-Quietly Wifi.Mode.alphabet a r = type_key-Quietly Wifi.Target.shift a r

tap_wifi-Asks :
    (t : Option Wifi.Target) (a : App) → AtRest true a.pending → Asks true (Steps.tap_wifi t a)
unfolding Steps.tap_wifi Steps.wifi_screen set_view set_status clear_all_pressed
tap_wifi-Asks none a r = quiet-Asks a.pending true a [] refl r refl
tap_wifi-Asks (some Wifi.Target.back) a r =
    Quietly-Asks true (Steps.tap_wifi (some Wifi.Target.back) a) (r, refl)
tap_wifi-Asks (some Wifi.Target.save) a r = save_wifi-Asks (Wifi.valid a.wifi) a r
tap_wifi-Asks (some Wifi.Target.shift) a r =
    Quietly-Asks true (Steps.shift_key a.wifi.mode a) (shift_key-Quietly a.wifi.mode a r)
tap_wifi-Asks (some t) a r = Quietly-Asks true (Steps.type_key a t) (type_key-Quietly t a r)

release_wifi-Asks :
    (b : Bool) (a : App) (t : Option Wifi.Target)
    → AtRest true a.pending
    → Asks true (Steps.release_wifi b a t)
unfolding Steps.release_wifi
release_wifi-Asks false a t r = quiet-Asks a.pending true a [] refl r refl
release_wifi-Asks true a t r =
    tap_wifi-Asks (Steps.agreed a.wifi.pressed t)
      (record a { wifi = record a.wifi { pressed = none } }) r

press_wifi-pending :
    (b : Bool) (a : App) (t : Option Wifi.Target) → (Steps.press_wifi b a t).pending ≡ a.pending
unfolding Steps.press_wifi
press_wifi-pending true a t = refl
press_wifi-pending false a t = refl

pub wifi_touch-Asks :
    (a : App) (r : TouchReport) → AtRest true a.pending → Asks true (Steps.wifi_touch a r)
unfolding Steps.wifi_touch
wifi_touch-Asks a r h =
    let t = Wifi.target_at_state a.wifi r.x r.y in
    release_wifi-Asks r.released (Steps.press_wifi r.pressed a t) t
      (subst (AtRest true) (sym (press_wifi-pending r.pressed a t)) h)
