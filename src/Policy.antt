-- ===== src/Policy.antt =====
-- The dashboard's policy: native/src/dashboard/policy.rs, with the catalog's systems
-- (native/src/catalog_metadata.rs). This file has the plan of a child process and the guard against
-- a controller that floods the dashboard. Paths and strings are their bytes.
pub mod Guard
pub mod Plan
pub mod Manifest
mod Examples
use retrodeck.Prelude.{
  ℕ, ◌+◌, ◌-◌, Bool, true, false, not, ◌&&◌, ◌||◌, List, [], ◌∷◌, ◌++◌, Option, none, some, ltb,
  leb, ◌==◌, if◌then◌else◌, length, drop,
}
use retrodeck.Prelude.Decimal.{bytes, text_eq, decimal}

pub data System : Type 0 where
  nes gb gbc gba zx deck : System

pub record Game : Type 0 where
  pub id : List ℕ
  pub title : List ℕ
  pub system : System
  pub rom : List ℕ
  pub cover : Option (List ℕ)
  pub color : ℕ
  pub terminal_mode : Option (List ℕ)

-- `mode.map(str::to_owned)` is the identity on bytes.
builtin : List ℕ → List ℕ → List ℕ → ℕ → Option (List ℕ) → Game
builtin id title rom color mode = record {
  id = id;
  title = title;
  system = System.deck;
  rom = rom;
  cover = none;
  color = color;
  terminal_mode = mode;
}

pub builtins : List Game
unfolding builtin
builtins =
    builtin (bytes "lua-repl") (bytes "LUA REPL")
      (bytes "/mnt/data/nes-deck/terminal/retro-terminal") 6260735 (some (bytes "lua"))
    ∷ builtin (bytes "lisp-repl") (bytes "LISP REPL")
        (bytes "/mnt/data/nes-deck/terminal/retro-terminal") 11523935 (some (bytes "lisp"))
    ∷ builtin (bytes "python-repl") (bytes "PYTHON REPL")
        (bytes "/mnt/data/nes-deck/terminal/retro-terminal") 16766720 (some (bytes "python"))
    ∷ builtin (bytes "scheme-repl") (bytes "SCHEME REPL")
        (bytes "/mnt/data/nes-deck/terminal/retro-terminal") 8902535 (some (bytes "scheme"))
    ∷ builtin (bytes "chiptunes") (bytes "CHIPTUNES") (bytes "/mnt/data/chiptunes") 16746240 none
    ∷ builtin (bytes "terminal") (bytes "TERMINAL")
        (bytes "/mnt/data/nes-deck/terminal/retro-terminal") 6260655 (some (bytes "shell"))
    ∷ builtin (bytes "node-mode") (bytes "NODE MODE") (bytes "/mnt/data/nes-deck/menu/node-mode")
        16673831 none
    ∷ builtin (bytes "reboot") (bytes "REBOOT") (bytes "/sbin/reboot") 14114655 none
    ∷ []

pub data LaunchKind : Type 0 where
  game terminal reboot : LaunchKind

pub record LaunchPlan : Type 0 where
  pub executable : List ℕ
  pub arguments : List (List ℕ)
  pub environment : List (List ℕ × List ℕ)
  pub label : List ℕ
  pub kind : LaunchKind
  pub touch_supervision : Bool
  pub mirror_console : Bool
  pub volume : ℕ
  pub keymap : List ℕ
  pub wayland : Bool
  pub volume_state : Option (List ℕ)

pub record LaunchConfig : Type 0 where
  pub nes_emulator : Option (List ℕ)
  pub gb_emulator : Option (List ℕ)
  pub gba_emulator : Option (List ℕ)
  pub zx_emulator : Option (List ℕ)
  pub deck_game : Option (List ℕ)
  pub doom_deck : Option (List ℕ)
  pub tamagotchi_deck : Option (List ℕ)
  pub chiptune_player : Option (List ℕ)
  pub terminal : Option (List ℕ)
  pub reboot : Option (List ℕ)
  pub doom_state_directory : Option (List ℕ)

-- The routes, which the source names by strings.
pub data Route : Type 0 where
  nes gb gba zx deck doom tamagotchi chiptunes terminal reboot node_mode : Route

abbrev unwrap_or : Option (List ℕ) → List ℕ → List ℕ
unwrap_or none d = d
unwrap_or (some x) d = x

pub configured : LaunchConfig → Route → Option (List ℕ)
configured c Route.nes = c.nes_emulator
configured c Route.gb = c.gb_emulator
configured c Route.gba = c.gba_emulator
configured c Route.zx = c.zx_emulator
configured c Route.deck = c.deck_game
configured c Route.doom = c.doom_deck
configured c Route.tamagotchi = c.tamagotchi_deck
configured c Route.chiptunes = c.chiptune_player
configured c Route.terminal = c.terminal
configured c Route.reboot = c.reboot
configured c Route.node_mode = none

pub executable : LaunchConfig → Route → List ℕ → List ℕ
executable c route default = unwrap_or (configured c route) default

pub is_deck : System → Bool
is_deck System.deck = true
is_deck s = false

lower : ℕ → ℕ
lower b = if leb b'A' b && leb b b'Z' then b + 32 else b

-- `eq_ignore_ascii_case`
eq_ignore_case : List ℕ → List ℕ → Bool
eq_ignore_case [] [] = true
eq_ignore_case [] (y ∷ ys) = false
eq_ignore_case (x ∷ xs) [] = false
eq_ignore_case (x ∷ xs) (y ∷ ys) = lower x == lower y && eq_ignore_case xs ys

wad_application : Game → Bool
unfolding eq_ignore_case lower
wad_application g =
    is_deck g.system
    && ltb 4 (length g.rom)
    && eq_ignore_case (drop (length g.rom - 4) g.rom) (bytes ".wad")

deck_route : Game → Route
deck_route g =
    if text_eq g.id (bytes "node-mode")
    then Route.node_mode
    else if text_eq g.id (bytes "tamagotchi")
    then Route.tamagotchi
    else if text_eq g.id (bytes "chiptunes")
    then Route.chiptunes
    else if wad_application g
    then Route.doom
    else Route.deck

route_of : Game → System → Route
route_of g System.nes = Route.nes
route_of g System.gb = Route.gb
route_of g System.gbc = Route.gb
route_of g System.gba = Route.gba
route_of g System.zx = Route.zx
route_of g System.deck = deck_route g

default_executable : Route → List ℕ
default_executable Route.nes = bytes "/mnt/data/nes-deck/nes-deck"
default_executable Route.gb = bytes "/mnt/data/nes-deck/gb-deck"
default_executable Route.gba = bytes "/mnt/data/nes-deck/gba-deck"
default_executable Route.zx = bytes "/mnt/data/nes-deck/zx-deck"
default_executable Route.node_mode = bytes "/mnt/data/nes-deck/menu/node-mode"
default_executable Route.tamagotchi = bytes "/mnt/data/nes-deck/tamagotchi-deck"
default_executable Route.chiptunes = bytes "/mnt/data/nes-deck/chiptune-deck"
default_executable Route.doom = bytes "/mnt/data/nes-deck/doom-deck"
default_executable route = bytes "/mnt/data/nes-deck/ten-seconds-deck"

is_doom : Route → Bool
is_doom Route.doom = true
is_doom route = false

-- `matches!(route, "doom" | "tamagotchi")`
plays_rom : Route → Bool
plays_rom Route.doom = true
plays_rom Route.tamagotchi = true
plays_rom route = false

is_chiptunes : Route → Bool
is_chiptunes Route.chiptunes = true
is_chiptunes route = false

-- One `environment.push` under its condition.
push_if {ℓ} : {A : Type ℓ} → Bool → A → List A → List A
push_if true a rest = a ∷ rest
push_if false a rest = rest

-- `filter(|p| !p.as_os_str().is_empty())`
volume_state_entry : Option (List ℕ) → List (List ℕ × List ℕ)
volume_state_entry none = []
volume_state_entry (some []) = []
volume_state_entry (some (b ∷ path)) = (bytes "RETRO_DECK_VOLUME_STATE", b ∷ path) ∷ []

game_environment : Game → Route → ℕ → Bool → Option (List ℕ) → LaunchConfig → List (List ℕ × List ℕ)
unfolding push_if volume_state_entry is_doom plays_rom
game_environment g route volume wayland volume_state config =
    (bytes "RETRO_DECK_VOLUME_PERCENT", decimal volume)
    ∷ push_if (not (is_deck g.system) || plays_rom route) (bytes "RETRO_DECK_EXIT_HINT", bytes "1")
        (push_if (is_doom route)
          (
            bytes "RETRO_DECK_DOOM_STATE",
            unwrap_or config.doom_state_directory (bytes "/mnt/data/doom"),
          )
          (push_if wayland (bytes "RETRO_DECK_PRESENTATION", bytes "widget")
            (volume_state_entry volume_state)))

game_plan : Game → ℕ → List ℕ → Bool → Option (List ℕ) → LaunchConfig → LaunchPlan
unfolding route_of default_executable game_environment is_chiptunes
game_plan g volume keymap wayland volume_state config =
    let route = route_of g g.system in
    record {
      executable = executable config route (default_executable route);
      arguments =
          if not (is_deck g.system) || is_chiptunes route || plays_rom route
          then g.rom ∷ []
          else [];
      environment = game_environment g route volume wayland volume_state config;
      label = g.id;
      kind = LaunchKind.game;
      touch_supervision = wayland || not (is_deck g.system) || plays_rom route;
      mirror_console = false;
      volume = volume;
      keymap = keymap;
      wayland = wayland;
      volume_state = volume_state;
    }

reboot_plan : Game → ℕ → List ℕ → Bool → Option (List ℕ) → LaunchConfig → LaunchPlan
reboot_plan g volume keymap wayland volume_state config = record {
  executable = executable config Route.reboot g.rom;
  arguments = [];
  environment = [];
  label = bytes "reboot";
  kind = LaunchKind.reboot;
  touch_supervision = true;
  mirror_console = false;
  volume = volume;
  keymap = keymap;
  wayland = wayland;
  volume_state = volume_state;
}

terminal_plan : List ℕ → ℕ → List ℕ → Bool → Option (List ℕ) → LaunchConfig → LaunchPlan
terminal_plan mode volume keymap wayland volume_state config = record {
  executable =
      executable config Route.terminal (bytes "/mnt/data/nes-deck/terminal/retro-terminal");
  arguments = mode ∷ [];
  environment = (bytes "RETRO_DECK_KEYMAP", keymap) ∷ [];
  label = if text_eq mode (bytes "shell") then bytes "terminal" else mode ++ bytes " REPL";
  kind = LaunchKind.terminal;
  touch_supervision = true;
  mirror_console = true;
  volume = volume;
  keymap = keymap;
  wayland = wayland;
  volume_state = volume_state;
}

plan_by_mode :
    Option (List ℕ) → Game → ℕ → List ℕ → Bool → Option (List ℕ) → LaunchConfig → LaunchPlan
unfolding game_plan reboot_plan terminal_plan
plan_by_mode (some mode) g volume keymap wayland volume_state config =
    terminal_plan mode volume keymap wayland volume_state config
plan_by_mode none g volume keymap wayland volume_state config =
    if is_deck g.system && text_eq g.id (bytes "reboot")
    then reboot_plan g volume keymap wayland volume_state config
    else game_plan g volume keymap wayland volume_state config

-- `none` where the assertion on the volume fails.
pub launch_plan : Game → ℕ → List ℕ → Bool → Option (List ℕ) → LaunchConfig → Option LaunchPlan
unfolding plan_by_mode
launch_plan g volume keymap wayland volume_state config =
    if leb volume 100
    then some (plan_by_mode g.terminal_mode g volume keymap wayland volume_state config)
    else none

-- Times are milliseconds on the monotonic clock.
pub record ControllerGuard : Type 0 where
  pub edge_times : List ℕ
  pub suspended : Bool
  pub last_edge_at : Option ℕ

pub new : ControllerGuard
new = record { edge_times = []; suspended = false; last_edge_at = none }

-- `retain`: the edges of the last second.
retain_recent : ℕ → List ℕ → List ℕ
retain_recent now [] = []
retain_recent now (t ∷ times) =
    if ltb (now - t) 1000 then t ∷ retain_recent now times else retain_recent now times

-- With the edge recorded: accepted as long as there are at most twelve.
counted : ControllerGuard → List ℕ → ControllerGuard × Bool
counted g times =
    if leb (length times) 12
    then (record g { edge_times = times }, true)
    else (record g { edge_times = times; suspended = true }, false)

pub accept_edge : ControllerGuard → ℕ → ControllerGuard × Bool
unfolding retain_recent counted
accept_edge g now =
    let g' = record g { last_edge_at = some now } in
    if g.suspended then (g', false) else counted g' (retain_recent now g.edge_times ++ (now ∷ []))

is_quiet : Option ℕ → ℕ → Bool
is_quiet none now = false
is_quiet (some t) now = leb 1000 (now - t)

pub recover_if_quiet : ControllerGuard → ℕ → ControllerGuard × Bool
unfolding is_quiet
recover_if_quiet g now =
    if g.suspended && is_quiet g.last_edge_at now then (new, true) else (g, false)
