-- ===== src/Controls/Examples.antt =====
-- Runs of native/src/controls.rs.
use retrodeck.Prelude.{◌↔◌, ◌≡◌, refl, arith, Bool, true, false, List, [], ◌∷◌, ◌++◌, Option, some}
use retrodeck.Prelude.Int.{pos, negsuc, ◌-ℤ◌}
use retrodeck.Input.{ControlReport}
use retrodeck.Controls.{
  InputEvent, KeyboardState, AxisInfo, axis_state, syn_dropped, syn_report, keyboard_drain,
}
use retrodeck.Controls.Axis.{IsThird, axis_state-thirds}
use retrodeck.Controls.Keyboard.{resumed, keyboard_drain-dropped}
use retrodeck.Controls.Reports.{Bounded, queue_all, queue_all-Bounded}

abbrev stick : AxisInfo
stick = record { value = pos 0; minimum = negsuc 127; maximum = pos 127 }

axis_state-thirds_example :
    ((axis_state stick 256 512 ≡ 256)
      ↔ IsThird (stick.value -ℤ stick.minimum) (stick.maximum -ℤ stick.minimum))
    × ((axis_state stick 256 512 ≡ 512)
        ↔ IsThird (stick.maximum -ℤ stick.value) (stick.maximum -ℤ stick.minimum))
axis_state-thirds_example =
    axis_state-thirds stick 256 512 refl (omega arith) (omega arith) (omega arith)

abbrev plain : KeyboardState
plain = record { left_shift = true; right_shift = false; dropping_events = false }

abbrev shifts : List InputEvent → Option (Bool × Bool)
shifts events = some (false, false)

keyboard_drain-dropped_example :
    keyboard_drain shifts plain [] (
      InputEvent.synchronization syn_dropped ∷ (InputEvent.key 103 1 ∷ [])
      ++ (InputEvent.synchronization syn_report ∷ InputEvent.key 28 1 ∷ []))
    ≡ resumed shifts plain [] (InputEvent.key 28 1 ∷ []) (some (false, false))
keyboard_drain-dropped_example =
    keyboard_drain-dropped shifts plain [] (InputEvent.key 103 1 ∷ []) (InputEvent.key 28 1 ∷ [])
      refl

abbrev brought : List ControlReport
brought =
    record { kind = 1; value = 4; flags = 0 }
    ∷ record { kind = 0; value = 28; flags = 0 }
    ∷ record { kind = 1; value = 256; flags = 0 }
    ∷ []

queue_all-Bounded_example : Bounded (queue_all [] brought)
queue_all-Bounded_example =
    queue_all-Bounded [] brought (record { short = omega arith; single = omega arith })
