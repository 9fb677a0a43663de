-- ===== src/Settings/Store/Brightness.antt =====
-- `set_backlight` of native/src/dashboard/settings.rs: what is on the device and in the state file.
use retrodeck.Prelude.{
  ℕ, ◌≡◌, refl, sym, ap, ◌∙◌, ◌≢◌, inl, inr, true, ◌||◌, not, List, [], ◌∷◌, ◌++◌, some, ◌==◌,
  arith, Bool-cases,
}
use retrodeck.Prelude.Decimal.{decimal}
use retrodeck.Prelude.Result.{Result, ok, err}
use retrodeck.StateFile as StateFile
use retrodeck.StateFile.{Fs, Outcome, file}
use retrodeck.StateFile.Safety.{ended_ok, write_bounded-IsAtomic}
use retrodeck.ControlFile as ControlFile
use retrodeck.ControlFile.Access.{IsReplaced, write-stores}
use retrodeck.Settings.Codec.{Error, brightness_state_text, brightness_valid, brightness_raw_value}
use retrodeck.Settings.Store.{
  Environment, save_brightness, after_device, brightness_saved, set_backlight,
}
use retrodeck.Settings.Store.Persistence.{save_text_ok}

abbrev pub raw_line : ℕ → ℕ → List ℕ
raw_line percent maximum = decimal (brightness_raw_value percent maximum) ++ (10 ∷ [])

brightness_saved_ok :
    (r : Result Error (Unit {0}) × Fs)
    → (brightness_saved r).0 ≡ ok tt
    → (r.0 ≡ ok tt) × ((brightness_saved r).1 ≡ r.1)
unfolding brightness_saved
brightness_saved_ok (ok t, fs) h = (refl, refl)
brightness_saved_ok (err e, fs) h = absurd (cc h)

brightness_saved_same : (r : Result Error (Unit {0}) × Fs) → (brightness_saved r).1 ≡ r.1
unfolding brightness_saved
brightness_saved_same (ok t, fs) = refl
brightness_saved_same (err e, fs) = refl

after_device_ok :
    (env : Environment) (state : List ℕ) (percent : ℕ)
    (r : Result ControlFile.Error (Unit {0}) × Fs)
    → (after_device env state percent r).0 ≡ ok tt
    → (r.0 ≡ ok tt)
      × ((save_brightness env r.1 state percent).0 ≡ ok tt)
      × ((after_device env state percent r).1 ≡ (save_brightness env r.1 state percent).1)
unfolding after_device
after_device_ok env state percent (err e, fs) h = absurd (cc h)
after_device_ok env state percent (ok t, fs) h =
    let (good, same) = brightness_saved_ok (save_brightness env fs state percent) h in
    (refl, good, same)

-- A brightness whose setting succeeds is a step of ten and stands in both places: the device holds
-- its raw value in decimal and the state file the percent, each with a newline. The device is a regular file that the write empties
-- first, or that is no longer than the new text, and it is not the state file.
pub set_backlight-stores :
    (env : Environment) (fs : Fs) (device state old : List ℕ) (maximum percent : ℕ)
    → (set_backlight env fs device state (some maximum) percent).0 ≡ ok tt
    → fs device ≡ some (file old)
    → IsReplaced env.control_faults.truncate old (raw_line percent maximum)
    → device ≢ state
    → ((set_backlight env fs device state (some maximum) percent).1 device
        ≡ some (file (raw_line percent maximum)))
      × ((set_backlight env fs device state (some maximum) percent).1 state
          ≡ some (file (decimal percent ++ (10 ∷ []))))
      × (brightness_valid percent ≡ true)
unfolding set_backlight save_brightness StateFile.write brightness_state_text
set_backlight-stores env fs device state old maximum percent h here fresh apart =
    elim (Bool-cases (maximum == 0 || not (brightness_valid percent))) [
      | inl bad ↦ absurd (cc (rw bad at h))
      | inr good ↦
          let valid : brightness_valid percent ≡ true = ground arith in
          let write = ControlFile.write env.control_faults fs device (raw_line percent maximum) in
          let (wrote, kept, left) = after_device_ok env state percent write (rw good at h) in
          let stored =
            (write-stores env.control_faults fs device old (raw_line percent maximum) wrote here
              fresh).0 in
          let (text, made, result, final) =
            save_text_ok env write.1 state (brightness_state_text percent) kept in
          let line : decimal percent ++ (10 ∷ []) ≡ text = cc (rw valid at made) in
          let atomic =
            write_bounded-IsAtomic env.state_faults write.1 env.pid state text
              StateFile.maximum_bytes in
          let untouched = atomic.others device apart (file (raw_line percent maximum)) stored in
          (
            rw good (ap (λ f. f device) (left ∙ final) ∙ untouched.0 ∙ stored),
            rw good (
                ap (λ f. f state) (left ∙ final)
                ∙ ended_ok atomic result
                ∙ ap (λ t. some (file t)) (sym line)),
            valid,
          )
    ]
