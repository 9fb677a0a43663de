-- ===== src/Controls.antt =====
-- The controllers and keyboards: native/src/controls.rs without the devices. The event devices and
-- their kernel interface are a package's (evdev): an event is one of its summaries, with the codes of
-- the kernel, and what a device holds when it is read anew is a parameter.
pub mod Keyboard
pub mod Axis
pub mod Reports
mod Examples
use Prim.Native.Nat.{bit_and, bit_or, bit_xor}
use retrodeck.Prelude.{
  ℕ, ◌+◌, ◌-◌, ◌/◌, ◌^◌, Bool, true, false, not, ◌&&◌, ◌||◌, List, [], ◌∷◌, ◌++◌, Option, none,
  some, ltb, leb, ◌==◌, if◌then◌else◌, length,
}
use retrodeck.Prelude.Int.{ℤ, pos, pos_part, ◌+ℤ◌, ◌-ℤ◌, leb_ℤ}
use retrodeck.Input.{ControlReport, keyboard_report, gamepad_report}

-- `EventSummary`: the codes and values of a synchronisation, a key or button, and an axis.
pub data InputEvent : Type 0 where
  synchronization : ℕ → InputEvent
  key : ℕ → ℕ → InputEvent
  absolute_axis : ℕ → ℤ → InputEvent
  other : InputEvent

abbrev pub syn_report : ℕ
syn_report = 0

abbrev pub syn_dropped : ℕ
syn_dropped = 3

abbrev pub left_shift_key : ℕ
left_shift_key = 42

abbrev pub right_shift_key : ℕ
right_shift_key = 54

pub data ControlAction : Type 0 where
  ignore resynchronize : ControlAction
  report : ControlReport → ControlAction

pub record KeyboardState : Type 0 where
  pub left_shift : Bool
  pub right_shift : Bool
  pub dropping_events : Bool

-- KEY_UP, KEY_DOWN, KEY_LEFT and KEY_RIGHT.
unfoldable pub keyboard_key_repeats : ℕ → Bool
keyboard_key_repeats code = code == 103 || code == 108 || code == 105 || code == 106

-- While events are dropped only the end of the report counts.
while_dropping : InputEvent → ControlAction
while_dropping (InputEvent.synchronization code) =
    if code == syn_report then ControlAction.resynchronize else ControlAction.ignore
while_dropping e = ControlAction.ignore

key_flags : Bool → Bool → ℕ
key_flags shift repeat = bit_or (if shift then 1 else 0) (if repeat then 2 else 0)

other_key : KeyboardState → ℕ → ℕ → ControlAction
unfolding keyboard_key_repeats key_flags
other_key s code value =
    let repeat = value == 2 && keyboard_key_repeats code in
    if not (value == 1) && not repeat
    then ControlAction.ignore
    else ControlAction.report (record {
      kind = keyboard_report;
      value = code;
      flags = key_flags (s.left_shift || s.right_shift) repeat;
    })

handle_key : KeyboardState → InputEvent → KeyboardState × ControlAction
unfolding other_key
handle_key s (InputEvent.synchronization code) =
    if code == syn_dropped
    then (record s { dropping_events = true }, ControlAction.ignore)
    else (s, ControlAction.ignore)
handle_key s (InputEvent.key code value) =
    if code == left_shift_key
    then (record s { left_shift = not (value == 0) }, ControlAction.ignore)
    else if code == right_shift_key
    then (record s { right_shift = not (value == 0) }, ControlAction.ignore)
    else (s, other_key s code value)
handle_key s e = (s, ControlAction.ignore)

pub keyboard_handle : KeyboardState → InputEvent → KeyboardState × ControlAction
unfolding while_dropping handle_key
keyboard_handle s e = if s.dropping_events then (s, while_dropping e) else handle_key s e

pub keyboard_resynchronize : Bool → Bool → KeyboardState
keyboard_resynchronize left right = record {
  left_shift = left;
  right_shift = right;
  dropping_events = false;
}

pub record AxisInfo : Type 0 where
  pub value : ℤ
  pub minimum : ℤ
  pub maximum : ℤ

pub record GamepadSnapshot : Type 0 where
  pub x : AxisInfo
  pub y : AxisInfo
  pub raw_buttons : ℕ

pub record GamepadState : Type 0 where
  pub snapshot : GamepadSnapshot
  pub state : ℕ
  pub dropping_events : Bool

-- A third of the span, which is not negative where it is used.
pub third : AxisInfo → ℤ
third axis = pos (pos_part (axis.maximum -ℤ axis.minimum) / 3)

pub axis_state : AxisInfo → ℕ → ℕ → ℕ
unfolding third
axis_state axis negative positive =
    if leb_ℤ axis.maximum axis.minimum
    then 0
    else if leb_ℤ axis.value (axis.minimum +ℤ third axis)
    then negative
    else if leb_ℤ (axis.maximum -ℤ third axis) axis.value
    then positive
    else 0

pub gamepad_state : GamepadSnapshot → ℕ
unfolding axis_state
gamepad_state g = bit_or (bit_or g.raw_buttons (axis_state g.x 256 512)) (axis_state g.y 1024 2048)

-- `a & !b`
and_not : ℕ → ℕ → ℕ
and_not a b = bit_xor a (bit_and a b)

press_button : GamepadSnapshot → ℕ → Bool → GamepadSnapshot
unfolding and_not
press_button g bit true = record g { raw_buttons = bit_or g.raw_buttons bit }
press_button g bit false = record g { raw_buttons = and_not g.raw_buttons bit }

with_snapshot : GamepadState → GamepadSnapshot → GamepadState
with_snapshot s g = record s { snapshot = g }

end_report : GamepadState → GamepadState × ControlAction
unfolding gamepad_state and_not
end_report s =
    let state = gamepad_state s.snapshot in
    let pressed = and_not state s.state in
    (
      record s { state = state },
      if pressed == 0
          then ControlAction.ignore
          else ControlAction.report (record { kind = gamepad_report; value = pressed; flags = 0 }),
    )

-- Buttons from BTN_TRIGGER to BTN_BASE2.
handle_gamepad : GamepadState → InputEvent → GamepadState × ControlAction
unfolding press_button with_snapshot end_report
handle_gamepad s (InputEvent.synchronization code) =
    if code == syn_dropped
    then (record s { dropping_events = true }, ControlAction.ignore)
    else if code == syn_report
    then end_report s
    else (s, ControlAction.ignore)
handle_gamepad s (InputEvent.key code value) =
    if leb 288 code && leb code 295
    then (
      with_snapshot s (press_button s.snapshot (2 ^ (code - 288)) (not (value == 0))),
      ControlAction.ignore,
    )
    else (s, ControlAction.ignore)
handle_gamepad s (InputEvent.absolute_axis code value) =
    if code == 0
    then (
      with_snapshot s (record s.snapshot { x = record s.snapshot.x { value = value } }),
      ControlAction.ignore,
    )
    else if code == 1
    then (
      with_snapshot s (record s.snapshot { y = record s.snapshot.y { value = value } }),
      ControlAction.ignore,
    )
    else (s, ControlAction.ignore)
handle_gamepad s InputEvent.other = (s, ControlAction.ignore)

pub gamepad_handle : GamepadState → InputEvent → GamepadState × ControlAction
unfolding while_dropping handle_gamepad
gamepad_handle s e = if s.dropping_events then (s, while_dropping e) else handle_gamepad s e

pub gamepad_resynchronize : GamepadSnapshot → GamepadState
unfolding gamepad_state
gamepad_resynchronize g = record { snapshot = g; state = gamepad_state g; dropping_events = false }

same_report : ControlReport → ControlReport → Bool
same_report r q = r.kind == q.kind && r.value == q.value && r.flags == q.flags

abbrev pub maximum_control_reports : ℕ
maximum_control_reports = 64

has_report : List ControlReport → ControlReport → Bool
unfolding same_report
has_report [] r = false
has_report (q ∷ reports) r = same_report q r || has_report reports r

push_report : List ControlReport → ControlReport → List ControlReport
unfolding has_report
push_report reports r =
    if ltb (length reports) maximum_control_reports && not (has_report reports r)
    then reports ++ (r ∷ [])
    else reports

-- The first report of a controller takes in the buttons; none where there is no such report.
merge_report : List ControlReport → ControlReport → Option (List ControlReport)
merge_report [] r = none
merge_report (q ∷ reports) r =
    let rest = merge_report reports r in
    if q.kind == gamepad_report
    then some (record q { value = bit_or q.value r.value } ∷ reports)
    else elim rest [ none ↦ none | some merged ↦ some (q ∷ merged) ]

merged_or_pushed :
    Option (List ControlReport) → List ControlReport → ControlReport → List ControlReport
unfolding push_report
merged_or_pushed (some merged) reports r = merged
merged_or_pushed none reports r = push_report reports r

pub queue_report : List ControlReport → ControlReport → List ControlReport
unfolding merge_report merged_or_pushed push_report
queue_report reports r =
    if r.kind == gamepad_report
    then merged_or_pushed (merge_report reports r) reports r
    else push_report reports r

-- The events that a keyboard holds, until it would block. What `resynchronize` reads of its shift
-- keys, or its failure, depends on what is still to be read; a device is lost where it fails.
drain_action :
    KeyboardState × ControlAction
    → List ControlReport
    → Option (Bool × Bool)
    → (KeyboardState → List ControlReport → KeyboardState × (List ControlReport × Bool))
    → KeyboardState × (List ControlReport × Bool)
unfolding queue_report keyboard_resynchronize
drain_action (s, ControlAction.ignore) reports keys k = k s reports
drain_action (s, ControlAction.report r) reports keys k = k s (queue_report reports r)
drain_action (s, ControlAction.resynchronize) reports none k = (s, (reports, false))
drain_action (s, ControlAction.resynchronize) reports (some (left, right)) k =
    k (keyboard_resynchronize left right) reports

pub keyboard_drain :
    (List InputEvent → Option (Bool × Bool))
    → KeyboardState
    → List ControlReport
    → List InputEvent
    → KeyboardState × (List ControlReport × Bool)
unfolding drain_action keyboard_handle
keyboard_drain keys s reports [] = (s, (reports, true))
keyboard_drain keys s reports (e ∷ events) =
    drain_action (keyboard_handle s e) reports (keys events)
      (λ s' reports'. keyboard_drain keys s' reports' events)
