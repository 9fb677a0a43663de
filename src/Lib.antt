-- ===== src/Lib.antt =====
-- Retro Deck: the parts of native/src that keep state, read or write texts, or move data between
-- threads, as executable definitions with their theorems.
--
-- The dashboard (native/src/dashboard) starts games as child processes. It tells a game the volume
-- by the environment, keeps its settings in state files, and controls the backlight through the
-- kernel's control files. The games read controllers and the touchscreen and mix their own sound.
--
-- Prelude: tests, lists, integers, decimal texts, UTF-8 and results, shared by all files.
-- NesSram: native/src/nes_sram.rs. `decode` is the loop `decode_from` by recursion on the input;
--   NesSram.Format describes the encodings by an inductive type, independently of the decoder.
-- Input: the reports that native/src/controls.rs and native/src/input.rs hand to the games.
-- Controls: native/src/controls.rs. `keyboard_handle` and `gamepad_handle` are the two `handle`s,
--   `keyboard_drain` is the loop of a keyboard over the events that its device holds.
-- Joypad: native/src/joypad.rs, the two players of the emulators. `scan_gamepads` gives the devices
--   of a scan to the players in three passes (`assign`); the devices themselves are its argument.
--   Joypad.Console has the bytes of the console keyboard.
-- Wifi: native/src/dashboard/wifi.rs, the editor of a network, with the lines that
--   ops/deck-wifi/deck-wifi-profile-add reads (Wifi.Profile).
-- Menu: the layout of native/src/dashboard/menu.rs and its targets.
-- Dashboard: native/src/dashboard/app.rs and the loop of native/src/dashboard/runtime.rs. `reduce` is
--   `App::reduce`, with the steps of its events in Dashboard.Steps and Dashboard.Reduce, the commands
--   in Dashboard.Navigation, and the launches in Dashboard.Launches. Dashboard.Driver has `step`,
--   `effect` (`carry_out`) and `iteration`; what devices, files and children answer is the parameter
--   `Host`. Completions call the reducer again, so `step` recurses on fuel: five is enough.
--   Dashboard.Driver.Startup has `initialize`, over the files of Settings.Store, and `main`.
--   Dashboard.Protocol says which effects fit what the application waits for.
-- TenSeconds: native/src/ten_seconds.rs. `apply` is `State::apply`, `poll_step` is
--   a turn of the loop of `run` from its poll on, and TenSeconds.Volume has `volume`.
-- DoomInput: native/src/doom_input.rs, with the tables as lists and `Mapper::poll` as `poll`.
-- GameAudio: native/src/game_audio.rs. The ring buffer between emulator and writer thread; each
--   critical section of the lock is a function on `Shared`, so an interleaving of the threads is a
--   list of such steps (GameAudio.Trace), which is compared with a bounded queue.
-- StateFile: native/src/state_file.rs over a file system, which is a function from paths to what
--   stands there; `Faults` says which system calls fail, so a theorem about all faults is one about
--   every failure.
-- ControlFile: native/src/control_file.rs over the same file system.
-- Policy: launch plans, the controller guard and the catalog loader (Policy.Manifest, from the
--   bytes of the file on) of native/src/dashboard/policy.rs.
-- Settings: native/src/dashboard/settings.rs. Settings.Codec has the texts, Settings.Reducer the
--   screen, and Settings.Store the loading and saving, on StateFile and ControlFile.
--
-- Numbers of the code are natural numbers with the wrap-around written out where it can happen;
-- signed ones are integers. Every loop is structural recursion, but for the decimal printer, whose
-- fuel is the printed number itself, which is at least its number of digits, and the loop's `step`.
-- The search for a temporary file counts its 16 attempts as the code does. What
-- the devices, the poll and the child processes answer is an input of each turn.
--
-- Not modelled: drawing, devices, sockets and child processes, which are system calls with little
-- logic of their own; the vendored Tamagotchi library; and, so far, the catalog editor, the palette,
-- the supervision of processes and the uploader.
pub mod Prelude
pub mod NesSram
pub mod Input
pub mod Controls
pub mod Joypad
pub mod TenSeconds
pub mod Wifi
pub mod Menu
pub mod Dashboard
pub mod DoomInput
pub mod GameAudio
pub mod StateFile
pub mod ControlFile
pub mod Policy
pub mod Settings
