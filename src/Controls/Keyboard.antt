-- ===== src/Controls/Keyboard.antt =====
-- A keyboard whose events were dropped (`KeyboardState` and `drain` of native/src/controls.rs).
use retrodeck.Prelude.{
  ◌≡◌, refl, Bool, true, false, not, ◌&&◌, List, [], ◌∷◌, ◌++◌, Option, none, some, ◌==◌, arith,
}
use retrodeck.Input.{ControlReport}
use retrodeck.Controls.{
  InputEvent, ControlAction, KeyboardState, syn_report, syn_dropped, while_dropping, handle_key,
  keyboard_handle, keyboard_resynchronize, drain_action, keyboard_drain,
}

abbrev pub ends_report : InputEvent → Bool
ends_report (InputEvent.synchronization code) = code == syn_report
ends_report e = false

abbrev pub no_report_ends : List InputEvent → Bool
no_report_ends [] = true
no_report_ends (e ∷ es) = not (ends_report e) && no_report_ends es

while_dropping-ignore :
    (e : InputEvent) → ends_report e ≡ false → while_dropping e ≡ ControlAction.ignore
unfolding while_dropping
while_dropping-ignore (InputEvent.synchronization code) h = rw h refl
while_dropping-ignore (InputEvent.key code value) h = refl
while_dropping-ignore (InputEvent.absolute_axis code value) h = refl
while_dropping-ignore InputEvent.other h = refl

-- The state in which a keyboard waits for the end of the report that was dropped.
abbrev pub dropping : KeyboardState → KeyboardState
dropping s = record s { dropping_events = true }

-- The drain after the end of that report: from the shift keys that are read anew, or not at all where
-- they cannot be read.
pub resumed :
    (List InputEvent → Option (Bool × Bool))
    → KeyboardState
    → List ControlReport
    → List InputEvent
    → Option (Bool × Bool)
    → KeyboardState × (List ControlReport × Bool)
resumed keys s reports rest none = (dropping s, (reports, false))
resumed keys s reports rest (some (left, right)) =
    keyboard_drain keys (keyboard_resynchronize left right) reports rest

drain_report_end :
    (keys : List InputEvent → Option (Bool × Bool)) (s : KeyboardState)
    (reports : List ControlReport) (rest : List InputEvent) (o : Option (Bool × Bool))
    → keys rest ≡ o
    → keyboard_drain keys (dropping s) reports (InputEvent.synchronization syn_report ∷ rest)
      ≡ resumed keys s reports rest o
unfolding keyboard_drain drain_action keyboard_handle while_dropping resumed
drain_report_end keys s reports rest none h = rw h refl
drain_report_end keys s reports rest (some (left, right)) h = rw h refl

drain_dropping :
    (keys : List InputEvent → Option (Bool × Bool)) (s : KeyboardState)
    (reports : List ControlReport) (lost rest : List InputEvent)
    → no_report_ends lost ≡ true
    → keyboard_drain keys
        (dropping s)
        reports
        (lost ++ (InputEvent.synchronization syn_report ∷ rest))
      ≡ resumed keys s reports rest (keys rest)
unfolding keyboard_drain drain_action keyboard_handle
drain_dropping keys s reports [] rest h = drain_report_end keys s reports rest (keys rest) refl
drain_dropping keys s reports (e ∷ lost) rest h =
    let ignored = while_dropping-ignore e (ground arith) in
    rw ignored (drain_dropping keys s reports lost rest (ground arith))

handle_dropped :
    (s : KeyboardState)
    → keyboard_handle s (InputEvent.synchronization syn_dropped)
      ≡ (dropping s, ControlAction.ignore)
unfolding keyboard_handle handle_key while_dropping
handle_dropped s = by_state s.left_shift s.right_shift s.dropping_events
  where
    by_state :
        (l r d : Bool)
        → keyboard_handle
            (record { left_shift = l; right_shift = r; dropping_events = d })
            (InputEvent.synchronization syn_dropped)
          ≡ (
            record { left_shift = l; right_shift = r; dropping_events = true },
            ControlAction.ignore,
          )
    by_state l r true = refl
    by_state l r false = refl

-- What the kernel dropped leaves no trace: whatever state a keyboard is in, dropping already or not,
-- the events from the one that tells of the drop to the end of the report bring no report. After them
-- the drain goes on from the shift keys as they are read anew; where these cannot be read, it stops
-- with the reports it has.
pub keyboard_drain-dropped :
    (keys : List InputEvent → Option (Bool × Bool)) (s : KeyboardState)
    (reports : List ControlReport) (lost rest : List InputEvent)
    → no_report_ends lost ≡ true
    → keyboard_drain keys s reports (
        InputEvent.synchronization syn_dropped ∷ lost
        ++ (InputEvent.synchronization syn_report ∷ rest))
      ≡ resumed keys s reports rest (keys rest)
unfolding keyboard_drain drain_action
keyboard_drain-dropped keys s reports lost rest h =
    rw (handle_dropped s) (drain_dropping keys s reports lost rest h)
