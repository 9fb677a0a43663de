-- ===== src/Settings/Examples.antt =====
-- Runs of the settings screen and of its texts (native/src/dashboard/settings.rs).
use retrodeck.Prelude.{◌≡◌, ◌↔◌, refl, true, false, [], ◌∷◌, none, some, arith}
use retrodeck.Prelude.Decimal.{bytes, text_eq}
use retrodeck.Prelude.Int.{pos}
use retrodeck.Prelude.Result.{ok}
use retrodeck.Settings.{Target, default_layout, State}
use retrodeck.Settings.Codec.{
  parse_volume_state, volume_state_text, brightness_valid, brightness_raw_value,
  observed_brightness_percent,
}
use retrodeck.Settings.Codec.RoundTrip.{parse_volume_state_iff}
use retrodeck.Settings.Codec.Backlight.{observed-raw_value}
use retrodeck.Settings.Reducer.{known_keymap, opened, new, target_at, activate, Command}
use retrodeck.Settings.Reducer.Screen.{IsValid, Input, run, run-IsValid, new-IsValid}
use retrodeck.Settings.Reducer.Touch.{tap, tap_iff}

-- `42` and a newline; `050` and a newline.
parse_volume_state_iff_example :
    (parse_volume_state (52 ∷ 50 ∷ 10 ∷ []) ≡ ok 42)
    ↔ (volume_state_text 42 ≡ ok (52 ∷ 50 ∷ 10 ∷ []))
parse_volume_state_iff_example = parse_volume_state_iff (52 ∷ 50 ∷ 10 ∷ []) 42

observed-raw_value_example : observed_brightness_percent (brightness_raw_value 50 255) 255 ≡ ok 50
unfolding brightness_valid
observed-raw_value_example = observed-raw_value 50 255 refl (omega arith) (omega arith)

abbrev screen : State
screen = record {
  is_open = true;
  selected = Target.volume_down;
  pressed = none;
  volume = 42;
  last_audible_volume = 42;
  brightness = 50;
  keymap = 117 ∷ 115 ∷ [];
  status = [];
}

opens : new 42 50 (117 ∷ 115 ∷ []) ≡ some screen
unfolding new opened known_keymap text_eq bytes
opens = refl

run-IsValid_example : IsValid (
    run default_layout screen (
      (Input.contact (pos 150) (pos 250) true false, true, true)
      ∷ (Input.contact (pos 150) (pos 250) false true, true, true)
      ∷ (Input.command Command.next, true, true)
      ∷ (Input.command Command.confirm, false, true)
      ∷ []))
unfolding brightness_valid
run-IsValid_example =
    run-IsValid default_layout screen
      ((Input.contact (pos 150) (pos 250) true false, true, true)
        ∷ (Input.contact (pos 150) (pos 250) false true, true, true)
        ∷ (Input.command Command.next, true, true)
        ∷ (Input.command Command.confirm, false, true)
        ∷ [])
      (new-IsValid 42 50 (117 ∷ 115 ∷ []) screen opens refl)

tap_iff_example :
    ((tap screen default_layout (pos 150) (pos 250) (pos 160) (pos 260)).0
      ≡ record screen { pressed = none })
    × (((tap screen default_layout (pos 150) (pos 250) (pos 160) (pos 260)).1
          ≡ some (activate screen Target.volume_down))
        ↔ ((t : Target) × (target_at default_layout (pos 150) (pos 250) ≡ some t)
            × (target_at default_layout (pos 160) (pos 260) ≡ some t)
            × (activate screen Target.volume_down ≡ activate screen t)))
tap_iff_example =
    tap_iff screen default_layout (pos 150) (pos 250) (pos 160) (pos 260)
      (activate screen Target.volume_down)
