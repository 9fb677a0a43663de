-- ===== src/Policy/Examples.antt =====
-- Runs of native/src/dashboard/policy.rs.
use retrodeck.Prelude.{Option, ℕ, ◌≤◌, ◌≡◌, refl, true, List, [], ◌∷◌, none, some}
use retrodeck.Prelude.Decimal.{bytes, text_eq}
use retrodeck.GameAudio.Volume.{volume_percent, chiptune_volume}
use retrodeck.TenSeconds.Volume.{volume}
use retrodeck.Policy.{System, Game, launch_plan, plan_by_mode, game_plan, is_deck}
use retrodeck.Policy.Plan.{lookup, volume_variable, launch_plan-volume, standard}
use retrodeck.Policy.Guard.{Step, run, start, within_second, run-few}

abbrev doom : Game
unfolding bytes
doom = record {
  id = bytes "doom";
  title = bytes "DOOM";
  system = System.deck;
  rom = bytes "/mnt/data/doom/DOOM1.WAD";
  cover = none;
  color = 0;
  terminal_mode = none;
}

abbrev told : Option (List ℕ)
unfolding plan_by_mode game_plan is_deck text_eq bytes
told =
    lookup volume_variable (plan_by_mode none doom 65 (bytes "us") true none standard).environment

launch_plan-volume_example :
    (volume told ≡ some 65) × (chiptune_volume told ≡ some 65) × (volume_percent told ≡ some 65)
unfolding launch_plan plan_by_mode game_plan is_deck text_eq bytes
launch_plan-volume_example =
    launch_plan-volume doom 65 (bytes "us") true none standard
      (plan_by_mode none doom 65 (bytes "us") true none standard) refl refl

-- Fourteen edges at once: the guard stops, and accepts one more after a second of quiet.
abbrev flood : List Step
flood =
    Step.edge 0
    ∷ Step.edge 0
    ∷ Step.edge 0
    ∷ Step.edge 0
    ∷ Step.edge 0
    ∷ Step.edge 0
    ∷ Step.edge 0
    ∷ Step.edge 0
    ∷ Step.edge 0
    ∷ Step.edge 0
    ∷ Step.edge 0
    ∷ Step.edge 0
    ∷ Step.edge 0
    ∷ Step.edge 0
    ∷ Step.quiet_check 1000
    ∷ Step.edge 5
    ∷ []

run-few_example : within_second 5500 (run (start 5000) flood).accepted ≤ 12
run-few_example = run-few 5000 5500 flood
