-- ===== src/Wifi/Examples.antt =====
-- Runs of the Wi-Fi editor of native/src/dashboard/wifi.rs.
use retrodeck.Prelude.{ℕ, arith, ◌≡◌, ◌↔◌, refl, get_elem?, true, List, [], ◌∷◌, ◌++◌, none, some}
use retrodeck.Prelude.Decimal.{bytes}
use retrodeck.Prelude.Int.{ℤ, pos}
use retrodeck.Settings.{Rect, contains}
use retrodeck.Wifi.{
  Field, Mode, Target, State, new, valid, helper_input, fixed, keys, target_at_mode, printable,
}
use retrodeck.Wifi.Bounds.{Fits, apply_all, apply_all-Fits}
use retrodeck.Wifi.Keyboard.{target_at_mode_iff}
use retrodeck.Wifi.Profile.{Accepted, valid_iff, profile_add, profile_add-helper_input}

abbrev home : State
unfolding bytes new
home = new (bytes "Home") (bytes "opensesame") Field.password

target_at_mode_iff_example :
    (target_at_mode Mode.alphabet (pos 40) (pos 100) ≡ some (Target.key b'q')) ↔ (
      (i : ℕ) × ((r : Rect) × (get_elem? (fixed ++ keys Mode.alphabet) i
          ≡ some (Target.key b'q', r))
        × (contains r (pos 40) (pos 100) ≡ true)))
target_at_mode_iff_example = target_at_mode_iff Mode.alphabet (pos 40) (pos 100) (Target.key b'q')

home-Fits : Fits home
unfolding printable bytes new
home-Fits = record {
  ssid_short = omega arith;
  passphrase_short = omega arith;
  ssid_printable = refl;
  passphrase_printable = refl;
}

abbrev points : List (ℤ × ℤ)
points = (pos 40, pos 100) ∷ (pos 500, pos 380) ∷ (pos 20, pos 370) ∷ (pos 0, pos 0) ∷ []

apply_all-Fits_example : Fits (apply_all home points)
apply_all-Fits_example = apply_all-Fits home points home-Fits

valid_iff_example : (valid home ≡ none) ↔ Accepted home
valid_iff_example = valid_iff home

profile_add-helper_input_example :
    (profile_add (helper_input (bytes "Home") (bytes "opensesame"))
      ≡ some (bytes "Home", bytes "opensesame"))
    ↔ (valid home ≡ none)
unfolding bytes new printable
profile_add-helper_input_example = profile_add-helper_input home refl refl
