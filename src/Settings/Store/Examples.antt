-- ===== src/Settings/Store/Examples.antt =====
-- Saves and loads of the settings (native/src/dashboard/settings.rs) on a disk that works.
use retrodeck.Prelude.{
  ℕ, ◌≤◌, ◌≡◌, ◌≢◌, ◌∙◌, refl, sym, inl, true, false, List, [], ◌∷◌, ◌++◌, none, some, length,
  arith,
}
use retrodeck.Prelude.Decimal.{bytes, text_eq, text_eq_iff, decimal}
use retrodeck.Prelude.Result.{Result, ok, err}
use retrodeck.StateFile as StateFile
use retrodeck.StateFile.{Fs, file, update, is_absolute, temporary_path}
use retrodeck.StateFile.Reading.{write_succeeds}
use retrodeck.ControlFile as ControlFile
use retrodeck.ControlFile.Access.{write_succeeds_control, write_other}
use retrodeck.Settings.Codec.{
  Error, volume_state_text, brightness_state_text, brightness_valid, brightness_raw_value,
}
use retrodeck.Settings.Reducer.{known_keymap}
use retrodeck.Settings.Store.{
  Environment, saved, save_text, save_volume, save_keymap, save_brightness, after_device,
  brightness_saved, set_backlight, load_volume,
}
use retrodeck.Settings.Store.Persistence.{load_volume-save_volume}
use retrodeck.Settings.Store.Brightness.{raw_line, set_backlight-stores}

abbrev working : Environment
working = record {
  pid = 7;
  state_faults = record {
    open_fails = false;
    read_fails = false;
    create_fails = λ _. false;
    short_write = none;
    sync_fails = false;
    close_fails = false;
    rename_fails = false;
    remove_fails = false;
  };
  control_faults = record {
    open_fails = false;
    read_fails = false;
    truncate = ControlFile.done;
    short_write = none;
    close_fails = false;
  };
  device_bytes = λ _. [];
}

-- `/s`, the state, and `/b`, the device.
abbrev state : List ℕ
state = 47 ∷ 115 ∷ []

abbrev device : List ℕ
device = 47 ∷ 98 ∷ []

abbrev empty : Fs
empty = λ _. none

state_absolute : is_absolute state ≡ true
unfolding is_absolute
state_absolute = refl

saves :
    (fs : Fs) (text : List ℕ)
    → length text ≤ 64
    → fs (temporary_path state 7 0) ≡ none
    → (save_text working fs state (ok text)).0 ≡ ok tt
unfolding save_text saved StateFile.write
saves fs text h free =
    rw
      (write_succeeds working.state_faults fs 7 state text 64 0
        (record { creates = λ _. refl; writes = refl; syncs = refl; closes = refl; renames = refl })
        (state_absolute, omega arith) h (omega arith) free)
      refl

volume_saved : (save_volume working empty state 42).0 ≡ ok tt
unfolding save_volume volume_state_text decimal
volume_saved = saves empty (52 ∷ 50 ∷ 10 ∷ []) (omega arith) refl

load_volume-save_volume_example :
    load_volume working (save_volume working empty state 42).1 state 10
    ≡ (ok 42, (save_volume working empty state 42).1)
load_volume-save_volume_example =
    load_volume-save_volume working working empty state 42 10 volume_saved (refl, refl)

keymap_saved : (save_keymap working empty state (99 ∷ 122 ∷ [])).0 ≡ ok tt
unfolding save_keymap save_text saved known_keymap bytes text_eq
keymap_saved = saves empty (99 ∷ 122 ∷ 10 ∷ []) (omega arith) refl

brightness_saved_lem :
    (r : Result Error (Unit {0}) × Fs) → r.0 ≡ ok tt → (brightness_saved r).0 ≡ ok tt
unfolding brightness_saved
brightness_saved_lem (ok t, fs) h = refl
brightness_saved_lem (err e, fs) h = cc h

after_device_lem :
    (percent : ℕ) (r : Result ControlFile.Error (Unit {0}) × Fs)
    → r.0 ≡ ok tt
    → (save_brightness working r.1 state percent).0 ≡ ok tt
    → (after_device working state percent r).0 ≡ ok tt
unfolding after_device
after_device_lem percent (ok t, fs) h k =
    brightness_saved_lem (save_brightness working fs state percent) k
after_device_lem percent (err e, fs) h k = cc h

-- The device holds `255` and a newline.
abbrev lit : List ℕ
lit = 50 ∷ 53 ∷ 53 ∷ 10 ∷ []

abbrev disk : Fs
disk = update empty device (some (file lit))

there : disk device ≡ some (file lit)
unfolding update text_eq
there = refl

half : raw_line 50 255 ≡ 49 ∷ 50 ∷ 56 ∷ 10 ∷ []
unfolding brightness_raw_value decimal
half = refl

device_absolute : is_absolute device ≡ true
unfolding is_absolute
device_absolute = refl

apart : (p q : List ℕ) → text_eq p q ≡ false → p ≢ q
apart p q h e = cc (sym h ∙ (text_eq_iff p q).1 e)

not_temporary : device ≢ temporary_path state 7 0
unfolding temporary_path bytes decimal text_eq
not_temporary = apart device (temporary_path state 7 0) refl

free : disk (temporary_path state 7 0) ≡ none
unfolding update text_eq temporary_path bytes decimal
free = refl

backlight_set : (set_backlight working disk device state (some 255) 50).0 ≡ ok tt
unfolding set_backlight brightness_valid save_brightness brightness_state_text decimal
backlight_set =
    let wrote =
      write_succeeds_control working.control_faults disk device lit (raw_line 50 255)
        (record { opens = refl; truncates = refl; writes = refl; closes = refl }) device_absolute
        (rw half (omega arith)) there in
    after_device_lem 50 (ControlFile.write working.control_faults disk device (raw_line 50 255))
      wrote
      (saves (ControlFile.write working.control_faults disk device (raw_line 50 255)).1
        (53 ∷ 48 ∷ 10 ∷ []) (omega arith)
        (write_other working.control_faults disk device (temporary_path state 7 0) (raw_line 50 255)
            not_temporary
          ∙ free))

set_backlight-stores_example :
    ((set_backlight working disk device state (some 255) 50).1 device
      ≡ some (file (raw_line 50 255)))
    × ((set_backlight working disk device state (some 255) 50).1 state
        ≡ some (file (decimal 50 ++ (10 ∷ []))))
    × (brightness_valid 50 ≡ true)
unfolding text_eq
set_backlight-stores_example =
    set_backlight-stores working disk device state lit 255 50 backlight_set there (inl refl)
      (apart device state refl)
