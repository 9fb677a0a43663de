-- ===== src/Settings/Reducer.antt =====
-- The reducer of the settings screen (native/src/dashboard/settings.rs): what a touch or a
-- controller's command asks for, and how the answer changes the screen's state.
pub mod Screen
pub mod Touch
use retrodeck.Prelude.{
  ℕ, ◌+◌, ◌-◌, ◌%◌, min, max, Bool, true, false, not, ◌&&◌, ◌||◌, List, [], ◌∷◌, ◌++◌, Option, none,
  some, ltb, leb, ◌==◌, if◌then◌else◌, get_or,
}
use retrodeck.Prelude.Decimal.{bytes, text_eq, decimal}
use retrodeck.Prelude.Int.{ℤ}
use retrodeck.Settings.{
  Target, Direction, Cue, Action, Effect, Rect, contains, Layout, State, volume_default,
  volume_step,
}

-- The two keymaps of the terminal.
unfoldable pub known_keymap : List ℕ → Bool
known_keymap k = text_eq k (bytes "us") || text_eq k (bytes "cz")

unfoldable pub opened : ℕ → ℕ → List ℕ → State
opened volume brightness keymap = record {
  is_open = true;
  selected = Target.volume_down;
  pressed = none;
  volume = volume;
  last_audible_volume = if volume == 0 then volume_default else volume;
  brightness = brightness;
  keymap = keymap;
  status = [];
}

-- `none` where one of the source's assertions fails.
unfoldable pub new : ℕ → ℕ → List ℕ → Option State
new volume brightness keymap =
    if leb volume 100 && leb brightness 100 && known_keymap keymap
    then some (opened volume brightness keymap)
    else none

-- `find_map` over the rectangles and their targets.
find_target : List (Target × Rect) → ℤ → ℤ → Option Target
find_target [] x y = none
find_target ((t, r) ∷ rest) x y = if contains r x y then some t else find_target rest x y

abbrev pub places : Layout → List (Target × Rect)
places l =
    (Target.close, l.close)
    ∷ (Target.volume_down, l.volume_down)
    ∷ (Target.volume_up, l.volume_up)
    ∷ (Target.brightness_down, l.brightness_down)
    ∷ (Target.brightness_up, l.brightness_up)
    ∷ (Target.terminal, l.terminal)
    ∷ (Target.keymap, l.keymap)
    ∷ (Target.wifi, l.wifi)
    ∷ []

pub target_at : Layout → ℤ → ℤ → Option Target
target_at l x y = find_target (places l) x y

cue_of : Target → Cue
cue_of Target.close = Cue.back
cue_of Target.volume_down = Cue.previous
cue_of Target.brightness_down = Cue.previous
cue_of Target.volume_up = Cue.next
cue_of Target.brightness_up = Cue.next
cue_of t = Cue.confirm

-- `saturating_sub` is the subtraction of ℕ, which stops at 0.
action_of : State → Target → Action
unfolding bytes
action_of s Target.close = Action.close
action_of s Target.volume_down = Action.volume (s.volume - volume_step)
action_of s Target.volume_up = Action.volume (
    if s.volume == 0
    then max s.last_audible_volume volume_step
    else min (s.volume + volume_step) 100)
action_of s Target.brightness_down = Action.brightness (max (s.brightness - 10) 10)
action_of s Target.brightness_up = Action.brightness (min (s.brightness + 10) 100)
action_of s Target.terminal = Action.terminal
action_of s Target.keymap =
    Action.keymap (if text_eq s.keymap (bytes "cz") then bytes "us" else bytes "cz")
action_of s Target.wifi = Action.wifi

pub activate : State → Target → Effect
unfolding action_of
activate s t = record { action = action_of s t; cue = some (cue_of t) }

volume_status : ℕ → Bool → List ℕ
volume_status v tone_ok =
    if v == 0
    then bytes "GAME VOLUME MUTED"
    else if not tone_ok
    then bytes "VOLUME SAVED; CONFIRMATION TONE FAILED"
    else bytes "GAME VOLUME " ++ decimal v

complete_volume : State → ℕ → Bool → Bool → State
complete_volume s v true tone_ok = record s {
  volume = v;
  last_audible_volume = if ltb 0 v then v else s.last_audible_volume;
  status = volume_status v tone_ok;
}
complete_volume s v false tone_ok = record s { status = bytes "VOLUME STATE ERROR" }

complete_brightness : State → ℕ → Bool → State
complete_brightness s v true = record s {
  brightness = v;
  status = bytes "BRIGHTNESS " ++ decimal v;
}
complete_brightness s v false = record s { status = bytes "BRIGHTNESS ERROR - CHECK LOG" }

complete_keymap : State → List ℕ → Bool → State
complete_keymap s v true = record s {
  keymap = v;
  status =
      if text_eq v (bytes "cz")
      then bytes "TERMINAL KEYS: CZECH"
      else bytes "TERMINAL KEYS: US ANSI";
}
complete_keymap s v false = record s { status = bytes "KEYMAP STATE ERROR" }

complete_action : State → Action → Bool → Bool → State
unfolding complete_volume complete_brightness complete_keymap
complete_action s Action.close is_ok tone_ok = record s { is_open = false; status = [] }
complete_action s (Action.volume v) is_ok tone_ok = complete_volume s v is_ok tone_ok
complete_action s (Action.brightness v) is_ok tone_ok = complete_brightness s v is_ok
complete_action s (Action.keymap v) is_ok tone_ok = complete_keymap s v is_ok
complete_action s Action.terminal is_ok tone_ok = s
complete_action s Action.wifi is_ok tone_ok = s

pub complete : State → Effect → Bool → Bool → State
unfolding complete_action
complete s e is_ok tone_ok = complete_action s e.action is_ok tone_ok

-- The derived equality of targets goes by their numbers.
abbrev pub target_number : Target → ℕ
target_number Target.close = 0
target_number Target.volume_down = 1
target_number Target.volume_up = 2
target_number Target.brightness_down = 3
target_number Target.brightness_up = 4
target_number Target.terminal = 5
target_number Target.keymap = 6
target_number Target.wifi = 7

abbrev pub same_target : Target → Target → Bool
same_target t u = target_number t == target_number u

-- `position`, and `unwrap_or(0)`.
position_or_zero : Target → List Target → ℕ → ℕ
position_or_zero t [] i = 0
position_or_zero t (u ∷ rest) i = if same_target u t then i else position_or_zero t rest (i + 1)

abbrev pub order : List Target
order =
    Target.volume_down ∷ Target.volume_up ∷ Target.brightness_down ∷ Target.brightness_up
    ∷ Target.terminal ∷ Target.keymap ∷ Target.wifi ∷ []

abbrev offset : Direction → ℕ
offset Direction.previous = 6
offset Direction.next = 1

abbrev move_cue : Direction → Cue
move_cue Direction.previous = Cue.previous
move_cue Direction.next = Cue.next

pub selection_after : Target → Direction → Target
unfolding position_or_zero
selection_after t d = get_or order ((position_or_zero t order 0 + offset d) % 7) Target.volume_down

pub move_selection : State → Direction → State × Cue
unfolding selection_after
move_selection s d = (record s { selected = selection_after s.selected d; status = [] }, move_cue d)

-- `old.is_some() && old == t`, with the target in both.
pub agreed : Option Target → Option Target → Option Target
agreed (some old) (some t) = if same_target old t then some t else none
agreed (some old) none = none
agreed none t = none

activate_agreed : State → Option Target → Option Effect
activate_agreed s none = none
activate_agreed s (some t) = some (activate s t)

release : State → Option Target → Bool → State × Option Effect
unfolding agreed activate_agreed
release s t true =
    let s' = record s { pressed = none } in (s', activate_agreed s' (agreed s.pressed t))
release s t false = (s, none)

press : State → Option Target → Bool → State
press s t true = record s { pressed = t }
press s t false = s

pub touch : State → Layout → ℤ → ℤ → Bool → Bool → State × Option Effect
unfolding release press
touch s l x y pressed released = let t = target_at l x y in release (press s t pressed) t released

pub data Command : Type 0 where
  back previous next confirm : Command

pub controller : State → Command → State × Option Effect
controller s Command.back = (s, some (activate s Target.close))
controller s Command.previous = ((move_selection s Direction.previous).0, none)
controller s Command.next = ((move_selection s Direction.next).0, none)
controller s Command.confirm = (s, some (activate s s.selected))
