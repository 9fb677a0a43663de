-- ===== src/DoomInput/Examples.antt =====
-- Polls of native/src/doom_input.rs.
use retrodeck.Prelude.{ℕ, ◌+◌, ◌≡◌, Bool, false, List, [], ◌∷◌, ◌==◌}
use retrodeck.DoomInput.{new}
use retrodeck.DoomInput.Edges.{presses, releases, held, polls, polls-new}

abbrev left_control : ℕ → Bool
left_control code = code == 29

abbrev no_key : ℕ → Bool
no_key code = false

-- Button A on both pads.
abbrev fire_button : ℕ → ℕ
fire_button port = 1

abbrev inputs : List ((ℕ → ℕ) × (ℕ → Bool))
inputs = (fire_button, left_control) ∷ (fire_button, no_key) ∷ []

polls-new_example :
    presses 163 (polls new inputs).1
    ≡ releases 163 (polls new inputs).1 + held 163 (polls new inputs).0
polls-new_example = polls-new 163 inputs
