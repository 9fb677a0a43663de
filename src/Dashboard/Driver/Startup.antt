-- ===== src/Dashboard/Driver/Startup.antt =====
-- The start of the dashboard (`Runtime::new`, `initialize` and `main` of
-- native/src/dashboard/runtime.rs), before the first turn of its loop.
use retrodeck.Prelude.{
  ℕ, ◌≤◌, ◌≡◌, refl, Bool, true, false, not, ◌||◌, List, Option, none, some, Option-cases, inl, inr,
  ltb, if◌then◌else◌,
}
use retrodeck.Prelude.Result.{Result, ok, err}
use retrodeck.Policy.{Game}
use retrodeck.StateFile.{Fs}
use retrodeck.Settings.Codec.{Error, parse_inherited_volume}
use retrodeck.Settings.Store.{Environment, load_volume, load_backlight, load_keymap}
use retrodeck.Dashboard.{NetworkStatus, CreditsState, Pending, App}
use retrodeck.Dashboard.Reduce.{new}
use retrodeck.Dashboard.Driver.{
  Presentation, Host, Runtime, Outcome, Poll, drawn, open_presentation, then_run, run_loop,
}
use retrodeck.Dashboard.Driver.Completion.{Ends, then_run-Ends}
use retrodeck.Dashboard.Driver.Turn.{run_loop-Ends}

-- What the start meets: whether the signal handlers are installed, the inherited volume, the files,
-- and whether the devices, drawing and presenting work.
pub record Startup : Type 0 where
  pub handlers_installed : Bool
  pub inherited : Option (List ℕ)
  pub clock : ℕ
  pub environment : Environment
  pub files : Fs
  pub presentation : Presentation
  pub touch_opens : Bool
  pub controls_scanned : Bool
  pub network : NetworkStatus
  pub draws : Bool
  pub presents : Bool

-- `Runtime::new`, with the inherited volume.
new_runtime : ℕ → Runtime
new_runtime default_volume = record {
  widget = false;
  presentation_owned = false;
  touch_owned = false;
  controls_owned = false;
  audio_owned = false;
  sound_active = false;
  input_until = 0;
  brightness_maximum = none;
  default_volume = default_volume;
  layout = none;
  running = false;
  rescan = false;
  now = 0;
  effects_done = 0;
}

-- The end of the start: the controls, the network and the first frame.
first_frame : Startup → Runtime → App → Outcome
unfolding drawn
first_frame s rt a =
    if not s.controls_scanned || not s.draws || not s.presents
    then Outcome.failed
    else elim (drawn a.view a) [
      | none ↦ Outcome.unplanned
      | some l ↦
          Outcome.stepped (record rt { controls_owned = true; layout = l; running = true })
            (record a {
              last_scan = some rt.now;
              network = s.network;
              network_refreshed_at = rt.now;
            })
            false
    ]

-- The touchscreen is opened where no widget is.
with_touch : Startup → Runtime → App → Outcome
unfolding first_frame
with_touch s rt a =
    if rt.widget
    then first_frame s rt a
    else if s.touch_opens
    then first_frame s (record rt { touch_owned = true }) (record a { touch_connected = true })
    else Outcome.failed

with_presentation : Startup → Option Runtime → App → Outcome
unfolding with_touch
with_presentation s none a = Outcome.failed
with_presentation s (some rt) a = with_touch s rt a

with_keymap : Startup → Runtime → App → Result Error (List ℕ) × Fs → Outcome
unfolding with_presentation open_presentation
with_keymap s rt a (err e, fs) = Outcome.failed
with_keymap s rt a (ok keymap, fs) =
    with_presentation s (open_presentation s.presentation rt)
      (record a { settings = record a.settings { keymap = keymap } })

with_backlight : Host → Startup → Runtime → App → Result Error (ℕ × Option ℕ) × Fs → Outcome
unfolding with_keymap
with_backlight h s rt a (err e, fs) = Outcome.failed
with_backlight h s rt a (ok (brightness, maximum), fs) =
    with_keymap s (record rt { brightness_maximum = maximum })
      (record a { settings = record a.settings { brightness = brightness } })
      (load_keymap s.environment fs h.keymap_path)

audible : ℕ → ℕ → ℕ
audible volume default = if ltb 0 volume then volume else if ltb 0 default then default else 5

with_volume : Host → Startup → Runtime → App → Result Error ℕ × Fs → Outcome
unfolding with_backlight audible
with_volume h s rt a (err e, fs) = Outcome.failed
with_volume h s rt a (ok volume, fs) =
    with_backlight h s rt
      (record a {
        settings = record a.settings {
          volume = volume;
          last_audible_volume = audible volume rt.default_volume;
        };
      })
      (load_backlight s.environment fs h.brightness_path h.brightness_max_path
        h.brightness_state_path)

pub initialize : Host → Startup → Runtime → App → Outcome
unfolding with_volume
initialize h s rt a =
    if rt.running
    then Outcome.failed
    else with_volume h s (record rt { now = s.clock }) a
        (load_volume s.environment s.files h.volume_path rt.default_volume)

start : ℕ → Host → Startup → List Poll → App → Result Error ℕ → Outcome
unfolding new_runtime initialize then_run run_loop
start fuel h s polls a (err e) = Outcome.failed
start fuel h s polls a (ok default_volume) =
    then_run (initialize h s (new_runtime default_volume) a)
      (λ rt a' d. run_loop fuel h polls rt a')

-- The program of `main`, from a catalog and the credits on.
pub run_dashboard : ℕ → Host → Startup → List Poll → List Game → CreditsState → Bool → Outcome
unfolding start new
run_dashboard fuel h s polls games credits reduced_motion =
    if s.handlers_installed
    then start fuel h s polls (new games credits reduced_motion)
        (parse_inherited_volume s.inherited)
    else Outcome.failed

-- A test in front of an outcome, which fails it.
unless_failed :
    (b : Bool) (q : Option Pending) (o : Outcome)
    → Ends q o
    → Ends q (if b then Outcome.failed else o)
unless_failed true q o h = tt
unless_failed false q o h = h

first_frame-Ends :
    (s : Startup) (rt : Runtime) (a : App) → a.pending ≡ none → Ends none (first_frame s rt a)
unfolding first_frame
first_frame-Ends s rt a e =
    unless_failed (not s.controls_scanned || not s.draws || not s.presents) none _
      (elim (Option-cases (drawn a.view a)) [ inl h ↦ rw h tt | inr (l, h) ↦ rw h e ])

with_touch-Ends :
    (s : Startup) (rt : Runtime) (a : App) → a.pending ≡ none → Ends none (with_touch s rt a)
unfolding with_touch
with_touch-Ends s rt a e = choose rt.widget s.touch_opens
  where
    choose :
        (widget opens : Bool)
        → Ends none (
            if widget
            then first_frame s rt a
            else if opens
            then first_frame s
                (record rt { touch_owned = true })
                (record a { touch_connected = true })
            else Outcome.failed)
    choose true opens = first_frame-Ends s rt a e
    choose false true =
        first_frame-Ends s (record rt { touch_owned = true }) (record a { touch_connected = true })
          e
    choose false false = tt

with_presentation-Ends :
    (s : Startup) (o : Option Runtime) (a : App)
    → a.pending ≡ none
    → Ends none (with_presentation s o a)
unfolding with_presentation
with_presentation-Ends s none a e = tt
with_presentation-Ends s (some rt) a e = with_touch-Ends s rt a e

with_keymap-Ends :
    (s : Startup) (rt : Runtime) (a : App) (r : Result Error (List ℕ) × Fs)
    → a.pending ≡ none
    → Ends none (with_keymap s rt a r)
unfolding with_keymap
with_keymap-Ends s rt a (err x, fs) e = tt
with_keymap-Ends s rt a (ok keymap, fs) e =
    with_presentation-Ends s (open_presentation s.presentation rt)
      (record a { settings = record a.settings { keymap = keymap } }) e

with_backlight-Ends :
    (h : Host) (s : Startup) (rt : Runtime) (a : App) (r : Result Error (ℕ × Option ℕ) × Fs)
    → a.pending ≡ none
    → Ends none (with_backlight h s rt a r)
unfolding with_backlight
with_backlight-Ends h s rt a (err x, fs) e = tt
with_backlight-Ends h s rt a (ok (brightness, maximum), fs) e =
    with_keymap-Ends s (record rt { brightness_maximum = maximum })
      (record a { settings = record a.settings { brightness = brightness } })
      (load_keymap s.environment fs h.keymap_path) e

with_volume-Ends :
    (h : Host) (s : Startup) (rt : Runtime) (a : App) (r : Result Error ℕ × Fs)
    → a.pending ≡ none
    → Ends none (with_volume h s rt a r)
unfolding with_volume
with_volume-Ends h s rt a (err x, fs) e = tt
with_volume-Ends h s rt a (ok volume, fs) e =
    with_backlight-Ends h s rt
      (record a {
        settings = record a.settings {
          volume = volume;
          last_audible_volume = audible volume rt.default_volume;
        };
      })
      (load_backlight s.environment fs h.brightness_path h.brightness_max_path
        h.brightness_state_path)
      e

initialize-Ends :
    (h : Host) (s : Startup) (rt : Runtime) (a : App)
    → a.pending ≡ none
    → Ends none (initialize h s rt a)
unfolding initialize
initialize-Ends h s rt a e = unless_failed rt.running none _ (
    with_volume-Ends h s (record rt { now = s.clock }) a
      (load_volume s.environment s.files h.volume_path rt.default_volume) e)

start-Ends :
    (fuel : ℕ) (h : Host) (s : Startup) (polls : List Poll) (a : App) (r : Result Error ℕ)
    → 5 ≤ fuel
    → a.pending ≡ none
    → Ends none (start fuel h s polls a r)
unfolding start
start-Ends fuel h s polls a (err x) le e = tt
start-Ends fuel h s polls a (ok default_volume) le e =
    then_run-Ends none none (initialize h s (new_runtime default_volume) a) _
      (initialize-Ends h s (new_runtime default_volume) a e)
      (λ rt a' d e'. run_loop-Ends fuel h polls rt a' le e')

-- From the start of the program, with whatever it finds in its files and devices, however many turns
-- its loop takes and whatever they meet, no event reaches the reducer out of order, the reducer never
-- panics, and the completions nest at most five deep: after every turn nothing is pending, unless an
-- error of the start, of a device or of a launch, or a menu without a layout, has ended the program.
pub run_dashboard-Ends :
    (fuel : ℕ) (h : Host) (s : Startup) (polls : List Poll) (games : List Game)
    (credits : CreditsState) (reduced_motion : Bool)
    → 5 ≤ fuel
    → Ends none (run_dashboard fuel h s polls games credits reduced_motion)
unfolding run_dashboard new
run_dashboard-Ends fuel h s polls games credits reduced_motion le = installed s.handlers_installed
  where
    installed :
        (b : Bool)
        → Ends none (
            if b
            then start fuel h s polls
                (new games credits reduced_motion)
                (parse_inherited_volume s.inherited)
            else Outcome.failed)
    installed true =
        start-Ends fuel h s polls (new games credits reduced_motion)
          (parse_inherited_volume s.inherited) le refl
    installed false = tt
