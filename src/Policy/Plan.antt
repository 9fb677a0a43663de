-- ===== src/Policy/Plan.antt =====
-- What a child process is told (`launch_plan` of native/src/dashboard/policy.rs).
use retrodeck.Prelude.{
  ◌⊎◌, true, ℕ, ◌≤◌, ◌≡◌, refl, sym, ap, ◌∙◌, inl, inr, Bool, ◌&&◌, List, [], ◌∷◌, Option, none,
  some, leb, if◌then◌else◌, arith, Bool-cases,
}
use retrodeck.Prelude.Decimal.{bytes, text_eq, decimal}
use retrodeck.TenSeconds.Volume.{volume, volume-decimal}
use retrodeck.GameAudio.Volume.{
  volume_percent, volume_percent-volume, chiptune_volume, chiptune_volume_lem,
}
use retrodeck.Policy.{
  builtin, builtins, executable, configured, deck_route, default_executable, plays_rom,
  is_chiptunes, Game, LaunchKind, LaunchPlan, LaunchConfig, Route, is_deck, game_environment,
  route_of, game_plan, reboot_plan, terminal_plan, plan_by_mode, launch_plan,
}

-- The first entry of a name, as the child's C library finds it.
pub lookup : List ℕ → List (List ℕ × List ℕ) → Option (List ℕ)
lookup name [] = none
lookup name ((key, value) ∷ rest) = if text_eq key name then some value else lookup name rest

abbrev pub volume_variable : List ℕ
unfolding bytes
volume_variable = bytes "RETRO_DECK_VOLUME_PERCENT"

environment_volume :
    (g : Game) (route : Route) (v : ℕ) (wayland : Bool) (state : Option (List ℕ))
    (config : LaunchConfig)
    → lookup volume_variable (game_environment g route v wayland state config) ≡ some (decimal v)
unfolding lookup game_environment text_eq bytes
environment_volume g route v wayland state config = refl

plan_volume :
    (mode : Option (List ℕ)) (g : Game) (v : ℕ) (keymap : List ℕ) (wayland : Bool)
    (state : Option (List ℕ)) (config : LaunchConfig)
    → (plan_by_mode mode g v keymap wayland state config).kind ≡ LaunchKind.game
    → lookup volume_variable (plan_by_mode mode g v keymap wayland state config).environment
      ≡ some (decimal v)
unfolding plan_by_mode game_plan reboot_plan terminal_plan
plan_volume (some mode) g v keymap wayland state config h = absurd (cc h)
plan_volume none g v keymap wayland state config h =
    elim (Bool-cases (is_deck g.system && text_eq g.id (bytes "reboot"))) [
      | inl restart ↦ absurd (cc (rw restart at h))
      | inr play ↦ rw play (environment_volume g (route_of g g.system) v wayland state config)
    ]

told_volume :
    (g : Game) (v : ℕ) (keymap : List ℕ) (wayland : Bool) (state : Option (List ℕ))
    (config : LaunchConfig) (p : LaunchPlan)
    → launch_plan g v keymap wayland state config ≡ some p
    → p.kind ≡ LaunchKind.game
    → volume (lookup volume_variable p.environment) ≡ some v
unfolding launch_plan
told_volume g v keymap wayland state config p h kind = elim (Bool-cases (leb v 100)) [
  | inr loud ↦ absurd (cc (rw loud at h))
  | inl fits ↦
      let plan : plan_by_mode g.terminal_mode g v keymap wayland state config ≡ p =
        cc (rw fits at h) in
      let told =
        plan_volume g.terminal_mode g v keymap wayland state config
          (ap (λ q. q.kind) plan ∙ kind) in
      let small : v ≤ 100 = ground arith in
      ap (λ q. volume (lookup volume_variable q.environment)) (sym plan)
      ∙ ap volume told
      ∙ volume-decimal v small
]

-- A game is launched with an environment in which the dashboard's volume is told: Ten Seconds, the
-- chiptune player and the sound of the emulators each read that volume from it.
pub launch_plan-volume :
    (g : Game) (v : ℕ) (keymap : List ℕ) (wayland : Bool) (state : Option (List ℕ))
    (config : LaunchConfig) (p : LaunchPlan)
    → launch_plan g v keymap wayland state config ≡ some p
    → p.kind ≡ LaunchKind.game
    → (volume (lookup volume_variable p.environment) ≡ some v)
      × (chiptune_volume (lookup volume_variable p.environment) ≡ some v)
      × (volume_percent (lookup volume_variable p.environment) ≡ some v)
launch_plan-volume g v keymap wayland state config p h kind =
    let told = told_volume g v keymap wayland state config p h kind in
    let text = lookup volume_variable p.environment in
    (told, chiptune_volume_lem text ∙ told, volume_percent-volume text ∙ told)

-- No executable is overridden.
abbrev pub standard : LaunchConfig
standard = record {
  nes_emulator = none;
  gb_emulator = none;
  gba_emulator = none;
  zx_emulator = none;
  deck_game = none;
  doom_deck = none;
  tamagotchi_deck = none;
  chiptune_player = none;
  terminal = none;
  reboot = none;
  doom_state_directory = none;
}

-- A plan that runs the game's own file, or the chiptune player on it.
pub StartsGame : Game → LaunchPlan → Type 0
StartsGame g p =
    (p.executable ≡ g.rom)
    ⊎ ((p.executable ≡ bytes "/mnt/data/nes-deck/chiptune-deck") × (p.arguments ≡ g.rom ∷ []))

pub AllStart : List Game → ℕ → List ℕ → Bool → Option (List ℕ) → Type 0
AllStart [] v keymap wayland state = Unit
AllStart (g ∷ games) v keymap wayland state =
    ((p : LaunchPlan) × (launch_plan g v keymap wayland state standard ≡ some p) × StartsGame g p)
    × AllStart games v keymap wayland state

launch_plan_accepts :
    (g : Game) (v : ℕ) (keymap : List ℕ) (wayland : Bool) (state : Option (List ℕ))
    → v ≤ 100
    → launch_plan g v keymap wayland state standard
      ≡ some (plan_by_mode g.terminal_mode g v keymap wayland state standard)
unfolding launch_plan
launch_plan_accepts g v keymap wayland state h =
    let fits : leb v 100 ≡ true = ground arith in rw fits refl

starting :
    (g : Game) (v : ℕ) (keymap : List ℕ) (wayland : Bool) (state : Option (List ℕ))
    → v ≤ 100
    → StartsGame g (plan_by_mode g.terminal_mode g v keymap wayland state standard)
    → (p : LaunchPlan) × (launch_plan g v keymap wayland state standard ≡ some p) × StartsGame g p
starting g v keymap wayland state h starts = (
  plan_by_mode g.terminal_mode g v keymap wayland state standard,
  launch_plan_accepts g v keymap wayland state h,
  starts,
)

-- At any volume up to 100, and whatever the keymap and the presentation, each of the launcher's own
-- entries has a plan, which runs the file that the entry names, or the chiptune player on it, as
-- long as no executable is overridden.
pub builtins-AllStart :
    (v : ℕ) (keymap : List ℕ) (wayland : Bool) (state : Option (List ℕ))
    → v ≤ 100
    → AllStart builtins v keymap wayland state
unfolding AllStart StartsGame builtins builtin plan_by_mode game_plan reboot_plan terminal_plan
    executable configured route_of deck_route default_executable is_deck plays_rom is_chiptunes
    text_eq bytes
builtins-AllStart v keymap wayland state h = (
  starting _ v keymap wayland state h (inl refl),
  (
    starting _ v keymap wayland state h (inl refl),
    (
      starting _ v keymap wayland state h (inl refl),
      (
        starting _ v keymap wayland state h (inl refl),
        (
          starting _ v keymap wayland state h (inr (refl, refl)),
          (
            starting _ v keymap wayland state h (inl refl),
            (
              starting _ v keymap wayland state h (inl refl),
              (starting _ v keymap wayland state h (inl refl), tt),
            ),
          ),
        ),
      ),
    ),
  ),
)
