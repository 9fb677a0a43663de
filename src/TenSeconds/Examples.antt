-- ===== src/TenSeconds/Examples.antt =====
-- Runs of the game: those of the tests in native/src/ten_seconds.rs.
use retrodeck.Prelude.{◌⊎◌, ◌≡◌, refl, inl, inr, true, false, [], ◌∷◌}
use retrodeck.Prelude.Decimal.{bytes}
use retrodeck.Prelude.Int.{pos}
use retrodeck.Input.{ControlReport, TouchReport}
use retrodeck.TenSeconds.{
  State, Mode, touch, controller_a, tick, apply, initial, format_time, pad_two, in_back, Polled,
  Turn, poll_step,
}
use retrodeck.TenSeconds.Timer.{
  Scores, Inv, ticks, round-Scores, run_events, run_events-initial-Inv,
}
use retrodeck.TenSeconds.Poll.{PressesBack, brings_input, has_exited, poll_step-PressesBack}
use retrodeck.Prelude.Decimal.{decimal}

round-Scores_example :
    Scores 1000 touch
      (apply (ticks (apply initial controller_a 100).0 (500 ∷ [])) touch 10_000_000_100)
round-Scores_example =
    round-Scores initial controller_a touch 100 10_000_000_100 (500 ∷ []) (λ e. cc) (inr refl)
      (inl refl)

shown_time : format_time 123 ≡ bytes "01.23"
unfolding format_time bytes pad_two decimal
shown_time = refl

abbrev started : State
started = record { mode = Mode.running; displayed = 0; started_at = 100; redraw_at = 100 }

run_events-initial-Inv_example :
    Inv (run_events initial ((touch, 100) ∷ (tick, 50) ∷ (controller_a, 0) ∷ []))
run_events-initial-Inv_example =
    run_events-initial-Inv ((touch, 100) ∷ (tick, 50) ∷ (controller_a, 0) ∷ [])

abbrev corner : TouchReport
corner = record { x = pos 16; y = pos 79; down = true; pressed = true; released = false }

abbrev pad_a : ControlReport
pad_a = record { kind = 1; value = 4; flags = 0 }

-- One report of the A button and one touch in the corner.
abbrev polled : Polled
polled = record {
  dispatched = true;
  control_count = 1;
  touch_count = 1;
  touch_lost = false;
  shutdown = false;
  reports = pad_a ∷ [];
  touches = corner ∷ [];
  times = 7 ∷ [];
}

poll_step-PressesBack_example :
    ((brings_input polled ≡ true)
      × PressesBack (corner ∷ [])
      × (poll_step started polled ≡ Turn.exits started))
    ⊎ (¬ ((brings_input polled ≡ true) × PressesBack (corner ∷ []))
        × (has_exited (poll_step started polled) ≡ false))
poll_step-PressesBack_example = poll_step-PressesBack started polled

corner_presses : PressesBack (corner ∷ [])
unfolding in_back
corner_presses = PressesBack.this corner [] refl refl
