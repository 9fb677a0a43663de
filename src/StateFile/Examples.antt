-- ===== src/StateFile/Examples.antt =====
-- Runs of native/src/state_file.rs.
use retrodeck.Prelude.{ℕ, ◌≡◌, refl, false, List, [], ◌∷◌, none, some, arith}
use retrodeck.Prelude.Decimal.{bytes, decimal, text_eq}
use retrodeck.Prelude.Result.{ok, err}
use retrodeck.StateFile.{
  Fs, file, Faults, cannot_write, value, write_bounded, read_bounded, temporary_path,
  find_temporary, begin, replace, finish, first_failure, stored, update, is_absolute, is_some,
}
use retrodeck.StateFile.Safety.{IsAtomic, write_bounded-IsAtomic}
use retrodeck.StateFile.Reading.{CanWrite, read-write, write_succeeds}

abbrev no_faults : Faults
no_faults = record {
  open_fails = false;
  read_fails = false;
  create_fails = λ _. false;
  short_write = none;
  sync_fails = false;
  close_fails = false;
  rename_fails = false;
  remove_fails = false;
}

abbrev full_disk : Faults
full_disk = record no_faults { short_write = some 1 }

-- `/v` holds `9` and a newline; the first temporary path of process 7 is taken.
abbrev path : List ℕ
path = 47 ∷ 118 ∷ []

abbrev old : List ℕ
old = 57 ∷ 10 ∷ []

abbrev new : List ℕ
new = 52 ∷ 50 ∷ 10 ∷ []

abbrev disk : Fs
disk = update (update (λ _. none) path (some (file old))) (temporary_path path 7 0) (some (file []))

full_disk_fails : (write_bounded full_disk disk 7 path new 64).result ≡ err cannot_write
unfolding write_bounded begin replace finish first_failure stored update text_eq is_absolute is_some
    find_temporary temporary_path bytes decimal
full_disk_fails = refl

write_bounded-IsAtomic_example :
    IsAtomic full_disk disk path new (write_bounded full_disk disk 7 path new 64)
write_bounded-IsAtomic_example = write_bounded-IsAtomic full_disk disk 7 path new 64

second_free : disk (temporary_path path 7 1) ≡ none
unfolding update text_eq temporary_path bytes decimal
second_free = refl

can_write : CanWrite no_faults
can_write = record {
  creates = λ _. refl;
  writes = refl;
  syncs = refl;
  closes = refl;
  renames = refl;
}

write_succeeds_example : (write_bounded no_faults disk 7 path new 64).result ≡ ok tt
unfolding is_absolute
write_succeeds_example =
    write_succeeds no_faults disk 7 path new 64 1 can_write (refl, omega arith) (omega arith)
      (omega arith) second_free

read-write_example :
    read_bounded no_faults (write_bounded no_faults disk 7 path new 64).final path 64
    ≡ ok (value new)
read-write_example =
    read-write no_faults no_faults disk 7 path new 64 write_succeeds_example (refl, refl)
