-- ===== src/Dashboard/Examples.antt =====
-- Runs of the dashboard of native/src/dashboard.
use retrodeck.Prelude.{
  ℕ, ◌<◌, ◌≡◌, ◌↔◌, refl, get_elem?, length, if◌then◌else◌, true, false, List, [], ◌∷◌, none, some,
  arith,
}
use retrodeck.Prelude.Decimal.{bytes, text_eq}
use retrodeck.Prelude.Int.{pos}
use retrodeck.Policy.{System, Game}
use retrodeck.Policy.Plan.{standard}
use retrodeck.Menu.{same_system}
use retrodeck.Dashboard.{Command, App}
use retrodeck.Dashboard.Operations.{is_reboot, launch_of, request_game, selected_game, indices}
use retrodeck.Dashboard.Navigation.{run_command}
use retrodeck.Dashboard.Navigation.Reboot.{request_game-twice, run_command-disarms}
use retrodeck.Dashboard.Navigation.Selection.{selected_game-system}
use retrodeck.Dashboard.Reduce.{new}
use retrodeck.StateFile.{Fs, file}
use retrodeck.ControlFile.{done}
use retrodeck.Settings.Store.{Environment}
use retrodeck.Dashboard.Driver.{Answers, Host, PlayOutcome, Presentation, Poll}
use retrodeck.Dashboard.Driver.Completion.{Ends}
use retrodeck.Dashboard.Driver.Startup.{Startup, run_dashboard, run_dashboard-Ends}

abbrev entry : List ℕ → Game
entry id = record {
  id = id;
  title = id;
  system = System.deck;
  rom = [];
  cover = none;
  color = 0;
  terminal_mode = none;
}

abbrev catalog : List Game
unfolding bytes
catalog = entry (bytes "doom") ∷ entry (bytes "reboot") ∷ []

abbrev app : App
app = new catalog (record { pressed_target = none }) false

abbrev working : Answers
working = record {
  works = true;
  audio = PlayOutcome.started;
  audio_active = true;
  presentation = Presentation.framebuffer_opened;
  touch_opened = true;
  setting_saved = true;
  wifi_saved = true;
  wifi_write_failed = false;
  network = record { ssid = []; wlan_ipv4 = []; wireguard_ipv4 = []; selector = [] };
  child = some (record {
    started = true;
    exited_for_touch = false;
    shutdown_requested = false;
    exit_code = some (pos 0);
    signal = none;
    error = none;
  });
  clock = 9000;
  volume = some 50;
}

abbrev host : Host
unfolding bytes
host = record {
  world = λ n. working;
  config = standard;
  volume_path = bytes "/volume";
  brightness_path = bytes "/brightness";
  brightness_max_path = bytes "/maximum";
  brightness_state_path = bytes "/kept";
  keymap_path = bytes "/keymap";
}

-- No system call fails, and the backlight reads as 5 of 10.
abbrev environment : Environment
unfolding bytes text_eq
environment = record {
  pid = 77;
  state_faults = record {
    open_fails = false;
    read_fails = false;
    create_fails = λ path. false;
    short_write = none;
    sync_fails = false;
    close_fails = false;
    rename_fails = false;
    remove_fails = false;
  };
  control_faults = record {
    open_fails = false;
    read_fails = false;
    truncate = done;
    short_write = none;
    close_fails = false;
  };
  device_bytes = λ path. [];
}

abbrev files : Fs
unfolding bytes text_eq
files path =
    if text_eq path (bytes "/volume")
    then some (file (bytes "30\n"))
    else if text_eq path (bytes "/brightness")
    then some (file (bytes "5\n"))
    else if text_eq path (bytes "/maximum")
    then some (file (bytes "10\n"))
    else if text_eq path (bytes "/kept")
    then some (file (bytes "50\n"))
    else if text_eq path (bytes "/keymap")
    then some (file (bytes "cz\n"))
    else none

abbrev startup : Startup
startup = record {
  handlers_installed = true;
  inherited = none;
  clock = 4000;
  environment = environment;
  files = files;
  presentation = Presentation.framebuffer_opened;
  touch_opens = true;
  controls_scanned = true;
  network = record { ssid = []; wlan_ipv4 = []; wireguard_ipv4 = []; selector = [] };
  draws = true;
  presents = true;
}

-- A press of the A button: the selected game is launched, and the loop recovers from it.
abbrev press : Poll
press = record {
  began_at = 5000;
  ended_at = 5010;
  dispatched = true;
  is_ready = true;
  control_count = 1;
  touch_count = 0;
  touch_lost = false;
  rescan = false;
  shutdown = false;
  refresh = false;
  reports = record { kind = 1; value = 4; flags = 0 } ∷ [];
  touches = [];
  presents = true;
  signalled = false;
  display_closed = false;
}

run_dashboard-Ends_example : Ends none (
    run_dashboard 5 host startup
      (press ∷ press ∷ [])
      catalog
      (record { pressed_target = none })
      false)
run_dashboard-Ends_example =
    run_dashboard-Ends 5 host startup (press ∷ press ∷ []) catalog
      (record { pressed_target = none }) false (omega arith)

request_game-twice_example :
    ((request_game app 1 100 false).0.pending ≡ none)
    × (((request_game (request_game app 1 100 false).0 1 3000 false).0.pending
          ≡ some (launch_of 1 false))
        ↔ (3000 < 4100))
unfolding new is_reboot bytes text_eq
request_game-twice_example =
    request_game-twice app 1 100 3000 false (entry (bytes "reboot")) refl refl refl refl
      (omega arith)

run_command-disarms_example :
    (run_command (record app { reboot_deadline = 4100 }) Command.next 200).0.reboot_deadline ≡ 0
run_command-disarms_example =
    run_command-disarms Command.next (record app { reboot_deadline = 4100 }) 200
      (λ h. absurd (cc h))

selected_game-system_example :
    ((j : ℕ)
      → selected_game app ≡ some j
      → (g : Game) × (get_elem? app.games j ≡ some g) × (same_system g.system app.system ≡ true))
    × (0 < length (indices app) → (j : ℕ) × (selected_game app ≡ some j))
selected_game-system_example = selected_game-system app
