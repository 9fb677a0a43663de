-- ===== src/Dashboard/Protocol.antt =====
-- The protocol between the reducer and the loop (native/src/dashboard/app.rs and runtime.rs): which
-- effects fit what the application waits for.
use retrodeck.Prelude.{
  ℕ, ◌≤◌, ◌≡◌, refl, Bool, true, false, ◌&&◌, ◌||◌, List, [], ◌∷◌, ◌++◌, Option, none, some,
  if◌then◌else◌, arith,
}
use retrodeck.Dashboard.{Recovery, ChildResult, Pending, Effect, App}
use retrodeck.Dashboard.Steps.{Reduced}

-- An effect that no event answers.
abbrev pub quiet : Effect → Bool
quiet Effect.volume_cue = false
quiet Effect.scan_controls = false
quiet Effect.reconnect_touch = false
quiet Effect.open_presentation = false
quiet (Effect.settings_action plan) = false
quiet Effect.wifi_action = false
quiet Effect.network_action = false
quiet Effect.prepare_launch = false
quiet Effect.launch = false
quiet Effect.reload_volume = false
quiet e = true

-- One that the application may ask for while it waits for nothing.
abbrev pub calm : Effect → Bool
calm Effect.scan_controls = true
calm Effect.reconnect_touch = true
calm e = quiet e

abbrev pub all_quiet : List Effect → Bool
all_quiet [] = true
all_quiet (e ∷ effects) = quiet e && all_quiet effects

abbrev pub all_calm : List Effect → Bool
all_calm [] = true
all_calm (e ∷ effects) = calm e && all_calm effects

abbrev pub has_result : Option ChildResult → Bool
has_result none = false
has_result (some r) = true

-- The effect whose answer ends the wait.
abbrev pub answers_child : Option Recovery → Option ChildResult → Effect → Bool
answers_child none r Effect.launch = true
answers_child (some Recovery.controls) r Effect.scan_controls = has_result r
answers_child (some Recovery.presentation) r Effect.open_presentation = has_result r
answers_child (some Recovery.volume) r Effect.reload_volume = has_result r
answers_child recovery r e = false

abbrev pub answers : Pending → Effect → Bool
answers (Pending.settings p) (Effect.settings_action q) = true
answers (Pending.volume_tone p) Effect.volume_cue = true
answers Pending.wifi Effect.wifi_action = true
answers Pending.network Effect.network_action = true
answers (Pending.child active) e = answers_child active.recovery active.result e
answers p e = false

-- Exactly one effect answers, among quiet ones.
abbrev pub awaits : Pending → List Effect → Bool
awaits p [] = false
awaits p (e ∷ effects) = (answers p e && all_quiet effects) || (quiet e && awaits p effects)

abbrev pub settled : Option Pending → List Effect → Bool
settled none effects = all_calm effects
settled (some (Pending.launch r)) effects = all_quiet effects
settled (some p) effects = awaits p effects

-- How deep the completions nest.
abbrev pub depth_child : Option Recovery → ℕ
depth_child none = 4
depth_child (some Recovery.controls) = 3
depth_child (some Recovery.presentation) = 2
depth_child (some Recovery.volume) = 1

abbrev pub depth : Option Pending → List Effect → ℕ
depth none effects = if all_quiet effects then 0 else 1
depth (some (Pending.launch r)) effects = 0
depth (some (Pending.settings p)) effects = 2
depth (some (Pending.volume_tone p)) effects = 1
depth (some Pending.wifi) effects = 1
depth (some Pending.network) effects = 1
depth (some (Pending.child active)) effects = depth_child active.recovery

-- What is pending when the effects are carried out.
abbrev pub rest_of : Option Pending → Option Pending
rest_of (some (Pending.launch r)) = some (Pending.launch r)
rest_of p = none

-- A reduction after which the effects fit and nest at most so deep, and that comes to rest as `q`.
abbrev pub Fits : ℕ → Option Pending → Reduced → Type 0
Fits n q (Reduced.done a effects) =
    (settled a.pending effects ≡ true) × (depth a.pending effects ≤ n) × (rest_of a.pending ≡ q)
Fits n q r = ⊥

-- At rest: nothing is pending, or a launch that a batch of touches asked for or not.
abbrev pub AtRest : Bool → Option Pending → Type 0
AtRest batch none = Unit
AtRest batch (some (Pending.launch r)) = r.touch_batch ≡ batch
AtRest batch (some p) = ⊥

-- What a request comes to: effects that fit, after which the application is at rest.
abbrev pub Asks : Bool → App × List Effect → Type 0
Asks batch (a, effects) =
    (settled a.pending effects ≡ true)
    × (depth a.pending effects ≤ 2)
    × AtRest batch (rest_of a.pending)

pub all_quiet-all_calm : (es : List Effect) → all_quiet es ≡ true → all_calm es ≡ true
all_quiet-all_calm [] h = refl
all_quiet-all_calm (e ∷ es) h =
    let rest = all_quiet-all_calm es (ground arith) in
    let this = quiet-calm e (ground arith) in ground arith
  where
    quiet-calm : (e : Effect) → quiet e ≡ true → calm e ≡ true
    quiet-calm Effect.scan_controls q = refl
    quiet-calm Effect.reconnect_touch q = refl
    quiet-calm e q = q

-- Quiet effects leave an application at rest as it is.
pub quiet-Asks :
    (p : Option Pending) (batch : Bool) (a : App) (es : List Effect)
    → a.pending ≡ p
    → AtRest batch p
    → all_quiet es ≡ true
    → Asks batch (a, es)
quiet-Asks none batch a es h r q = rw h (all_quiet-all_calm es q, rw q (omega arith), tt)
quiet-Asks (some (Pending.launch l)) batch a es h r q = rw h (q, omega arith, r)
quiet-Asks (some (Pending.settings p)) batch a es h r q = absurd r
quiet-Asks (some (Pending.volume_tone p)) batch a es h r q = absurd r
quiet-Asks (some Pending.wifi) batch a es h r q = absurd r
quiet-Asks (some Pending.network) batch a es h r q = absurd r
quiet-Asks (some (Pending.child p)) batch a es h r q = absurd r

pub all_quiet-append :
    (es fs : List Effect) → all_quiet es ≡ true → all_quiet fs ≡ true → all_quiet (es ++ fs) ≡ true
all_quiet-append [] fs h k = k
all_quiet-append (e ∷ es) fs h k =
    let rest = all_quiet-append es fs (ground arith) k in ground arith
