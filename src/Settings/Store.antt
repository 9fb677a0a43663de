-- ===== src/Settings/Store.antt =====
-- Where the settings are kept (native/src/dashboard/settings.rs): volume, brightness and keymap in
-- state files, the brightness also in the backlight's control files. Each function returns its
-- result and the file system that it leaves.
pub mod Persistence
pub mod Brightness
mod Examples
use retrodeck.Prelude.{
  ℕ, ◌^◌, Bool, true, false, not, ◌&&◌, ◌||◌, List, [], ◌∷◌, ◌++◌, Option, none, some, ltb, ◌==◌,
  if◌then◌else◌,
}
use retrodeck.Prelude.Decimal.{bytes, decimal, text_eq}
use retrodeck.Prelude.Result.{Result, ok, err}
use retrodeck.Prelude.Utf8.{is_utf8}
use retrodeck.StateFile as StateFile
use retrodeck.StateFile.{Fs, StateRead, Outcome}
use retrodeck.ControlFile as ControlFile
use retrodeck.Settings.Codec.{
  Error, volume_state_text, brightness_state_text, parse_volume_state, parse_brightness_state,
  brightness_valid, brightness_raw_value, observed_brightness_percent, control_integer,
}
use retrodeck.Settings.Reducer.{known_keymap}

-- What the functions run in: the process id, and which system calls fail on state files and on
-- control files, and the bytes that a device at a path reads as.
pub record Environment : Type 0 where
  pub pid : ℕ
  pub state_faults : StateFile.Faults
  pub control_faults : ControlFile.Faults
  pub device_bytes : List ℕ → List ℕ

-- A write's answer as the caller passes it on by `?`.
saved {ℓ} : {A : Type ℓ} → A → Outcome → Result Error A × Fs
saved a o = (elim o.result [ ok t ↦ ok a | err e ↦ err (Error.state_error e) ], o.final)

pub save_text : Environment → Fs → List ℕ → Result Error (List ℕ) → Result Error (Unit {0}) × Fs
save_text env fs path (err e) = (err e, fs)
save_text env fs path (ok text) = saved tt (StateFile.write env.state_faults fs env.pid path text)

pub save_volume : Environment → Fs → List ℕ → ℕ → Result Error (Unit {0}) × Fs
unfolding save_text
save_volume env fs path v = save_text env fs path (volume_state_text v)

pub save_brightness : Environment → Fs → List ℕ → ℕ → Result Error (Unit {0}) × Fs
save_brightness env fs path v = save_text env fs path (brightness_state_text v)

-- `save_volume(path, v)?; v`
then_value {ℓ} : {A : Type ℓ} → A → Result Error (Unit {0}) × Fs → Result Error A × Fs
then_value a (ok t, fs) = (ok a, fs)
then_value a (err e, fs) = (err e, fs)

volume_of_read :
    Environment → Fs → List ℕ → ℕ → Result StateFile.Error StateRead → Result Error ℕ × Fs
unfolding then_value
volume_of_read env fs path default (err e) = (err (Error.state_error e), fs)
volume_of_read env fs path default (ok StateRead.missing) =
    then_value default (save_volume env fs path default)
volume_of_read env fs path default (ok (StateRead.value content)) =
    if text_eq content (bytes "on\n")
    then then_value default (save_volume env fs path default)
    else if text_eq content (bytes "off\n")
    then then_value 0 (save_volume env fs path 0)
    else if not (is_utf8 content)
    then (err Error.not_utf8, fs)
    else (parse_volume_state content, fs)

pub load_volume : Environment → Fs → List ℕ → ℕ → Result Error ℕ × Fs
unfolding volume_of_read
load_volume env fs path default =
    volume_of_read env fs path default (StateFile.read env.state_faults fs path)

-- The two saves of a brightness: first to the device, then to the state file.
brightness_saved : Result Error (Unit {0}) × Fs → Result Error (Unit {0}) × Fs
brightness_saved (ok t, fs) = (ok tt, fs)
brightness_saved (err e, fs) = (err Error.cannot_save_brightness, fs)

after_device :
    Environment
    → List ℕ
    → ℕ
    → Result ControlFile.Error (Unit {0}) × Fs
    → Result Error (Unit {0}) × Fs
unfolding brightness_saved
after_device env state percent (err e, fs) = (err Error.cannot_write_brightness, fs)
after_device env state percent (ok t, fs) = brightness_saved (save_brightness env fs state percent)

pub set_backlight : Environment → Fs → List ℕ → List ℕ → Option ℕ → ℕ → Result Error (Unit {0}) × Fs
unfolding after_device
set_backlight env fs device state none percent = (err Error.maximum_unknown, fs)
set_backlight env fs device state (some maximum) percent =
    if maximum == 0 || not (brightness_valid percent)
    then (err Error.brightness_step, fs)
    else after_device env state percent (
        ControlFile.write env.control_faults fs device
          (decimal (brightness_raw_value percent maximum) ++ (10 ∷ [])))

-- A control file's number.
control_value : Environment → Fs → List ℕ → Result Error ℕ
control_value env fs path =
    elim (ControlFile.read env.control_faults (env.device_bytes path) fs path) [
      | err e ↦ err (Error.control_error e)
      | ok content ↦ control_integer content
    ]

-- The kept brightness, or the one that the device shows if none is kept.
percent_of_read : ℕ → ℕ → Result StateFile.Error StateRead → Result Error ℕ
percent_of_read current maximum (err e) = err (Error.state_error e)
percent_of_read current maximum (ok StateRead.missing) = observed_brightness_percent current maximum
percent_of_read current maximum (ok (StateRead.value content)) =
    if is_utf8 content then parse_brightness_state content else err Error.not_utf8

set_loaded :
    Environment → Fs → List ℕ → List ℕ → ℕ → Result Error ℕ → Result Error (ℕ × Option ℕ) × Fs
unfolding then_value
set_loaded env fs device state maximum (err e) = (err e, fs)
set_loaded env fs device state maximum (ok percent) =
    then_value (percent, some maximum) (set_backlight env fs device state (some maximum) percent)

load_current :
    Environment → Fs → List ℕ → List ℕ → ℕ → Result Error ℕ → Result Error (ℕ × Option ℕ) × Fs
unfolding percent_of_read set_loaded
load_current env fs device state maximum (err e) = (err e, fs)
load_current env fs device state maximum (ok current) =
    if ltb maximum current
    then (err Error.outside_backlight, fs)
    else set_loaded env fs device state maximum
        (percent_of_read current maximum (StateFile.read env.state_faults fs state))

load_maximum :
    Environment → Fs → List ℕ → List ℕ → Result Error ℕ → Result Error (ℕ × Option ℕ) × Fs
unfolding control_value load_current
load_maximum env fs device state (err e) = (err e, fs)
load_maximum env fs device state (ok maximum) =
    if maximum == 0
    then (err Error.outside_backlight, fs)
    else load_current env fs device state maximum (control_value env fs device)

pub load_backlight : Environment → Fs → List ℕ → List ℕ → List ℕ → Result Error (ℕ × Option ℕ) × Fs
unfolding load_maximum
load_backlight env fs device maximum_path state =
    load_maximum env fs device state (control_value env fs maximum_path)

pub save_keymap : Environment → Fs → List ℕ → List ℕ → Result Error (Unit {0}) × Fs
save_keymap env fs path keymap =
    if not (known_keymap keymap)
    then (err Error.keymap_unknown, fs)
    else saved tt (StateFile.write env.state_faults fs env.pid path (keymap ++ (10 ∷ [])))

keymap_of_text : List ℕ → Result Error (List ℕ)
keymap_of_text text =
    if text_eq text (bytes "us\n")
    then ok (bytes "us")
    else if text_eq text (bytes "cz\n")
    then ok (bytes "cz")
    else err Error.keymap_state

keymap_of_read :
    Environment → Fs → List ℕ → Result StateFile.Error StateRead → Result Error (List ℕ) × Fs
unfolding keymap_of_text then_value
keymap_of_read env fs path (err e) = (err (Error.state_error e), fs)
keymap_of_read env fs path (ok StateRead.missing) =
    then_value (bytes "us") (save_keymap env fs path (bytes "us"))
keymap_of_read env fs path (ok (StateRead.value content)) =
    (if is_utf8 content then keymap_of_text content else err Error.not_utf8, fs)

pub load_keymap : Environment → Fs → List ℕ → Result Error (List ℕ) × Fs
unfolding keymap_of_read
load_keymap env fs path = keymap_of_read env fs path (StateFile.read env.state_faults fs path)
