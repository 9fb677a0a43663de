-- ===== src/ControlFile/Examples.antt =====
-- A run of native/src/control_file.rs: the values of its tests.
use retrodeck.Prelude.{ℕ, ◌≡◌, refl, inl, true, false, List, [], ◌∷◌, none, some, arith}
use retrodeck.Prelude.Decimal.{text_eq}
use retrodeck.Prelude.Result.{ok}
use retrodeck.StateFile.{Fs, file, update, is_absolute}
use retrodeck.ControlFile.{Faults, done, read, write}
use retrodeck.ControlFile.Access.{read-write_control, write_succeeds_control}

abbrev no_faults : Faults
no_faults = record {
  open_fails = false;
  read_fails = false;
  truncate = done;
  short_write = none;
  close_fails = false;
}

-- `/b` holds `12345` and a newline.
abbrev brightness : List ℕ
brightness = 47 ∷ 98 ∷ []

abbrev old : List ℕ
old = 49 ∷ 50 ∷ 51 ∷ 52 ∷ 53 ∷ 10 ∷ []

abbrev disk : Fs
disk = update (λ _. none) brightness (some (file old))

there : disk brightness ≡ some (file old)
unfolding update text_eq
there = refl

absolute : is_absolute brightness ≡ true
unfolding is_absolute
absolute = refl

read-write_control_example :
    read no_faults [] (write no_faults disk brightness (55 ∷ 10 ∷ [])).1 brightness
    ≡ ok (55 ∷ 10 ∷ [])
read-write_control_example =
    read-write_control no_faults no_faults disk brightness old (55 ∷ 10 ∷ []) []
      (write_succeeds_control no_faults disk brightness old (55 ∷ 10 ∷ [])
        (record { opens = refl; truncates = refl; writes = refl; closes = refl }) absolute
        (omega arith) there)
      there (inl refl) (refl, refl)
