-- ===== src/StateFile/Reading.antt =====
-- What a state file written by native/src/state_file.rs reads as, and when a write succeeds.
use retrodeck.Prelude.{
  ℕ, zero, suc, ◌+◌, ◌≤◌, ◌<◌, ◌≡◌, sym, ap, ◌∙◌, ◌≢◌, inl, inr, true, false, List, none, ltb,
  length, arith, Bool-cases, Option-cases,
}
use retrodeck.Prelude.Result.{ok}
use retrodeck.StateFile.{
  Fs, Faults, value, temporary_path, find_temporary, first_failure, is_absolute, is_some, replace,
  finish, begin, refused, read_node, read_bounded, write_bounded, maximum_bounded_bytes,
  temporary_attempts,
}
use retrodeck.StateFile.Safety.{write_bounded-IsAtomic, ended_ok}

-- No system call fails that a read makes.
abbrev pub CanRead : Faults → Type 0
CanRead faults = (faults.open_fails ≡ false) × (faults.read_fails ≡ false)

-- No system call fails that a write makes, from the creation of the temporary file on.
pub record CanWrite (faults : Faults) : Type 0 where
  pub creates : (path : List ℕ) → faults.create_fails path ≡ false
  pub writes : faults.short_write ≡ none
  pub syncs : faults.sync_fails ≡ false
  pub closes : faults.close_fails ≡ false
  pub renames : faults.rename_fails ≡ false

-- What `write_bounded` and `read_bounded` ask of their arguments.
abbrev pub IsLegal : List ℕ → ℕ → Type 0
IsLegal path maximum = (is_absolute path ≡ true) × (maximum ≤ maximum_bounded_bytes)

write_ok-IsLegal :
    (faults : Faults) (fs : Fs) (pid : ℕ) (path content : List ℕ) (maximum : ℕ)
    → (write_bounded faults fs pid path content maximum).result ≡ ok tt
    → IsLegal path maximum × (length content ≤ maximum)
unfolding write_bounded refused
write_ok-IsLegal faults fs pid path content maximum h = elim (Bool-cases (is_absolute path)) [
  | inr relative ↦ absurd (cc (rw relative at h))
  | inl absolute ↦ elim (Bool-cases (ltb maximum_bounded_bytes maximum)) [
    | inl bad ↦ absurd (cc (rw (absolute, bad) at h))
    | inr bounded ↦ elim (Bool-cases (ltb maximum (length content))) [
      | inl long ↦ absurd (cc (rw (absolute, bounded, long) at h))
      | inr fits ↦ ((absolute, ground arith), ground arith)
    ]
  ]
]

-- What a successful write stored, by whatever faults it got there, a read gives back, under the same
-- size limit and as long as nothing else writes the file.
pub read-write :
    (faults later : Faults) (fs : Fs) (pid : ℕ) (path content : List ℕ) (maximum : ℕ)
    → (write_bounded faults fs pid path content maximum).result ≡ ok tt
    → CanRead later
    → read_bounded later (write_bounded faults fs pid path content maximum).final path maximum
      ≡ ok (value content)
unfolding read_bounded read_node
read-write faults later fs pid path content maximum h can =
    let legal = write_ok-IsLegal faults fs pid path content maximum h in
    let done = ended_ok (write_bounded-IsAtomic faults fs pid path content maximum) h in
    let bounded : ltb maximum_bounded_bytes maximum ≡ false = ground (arith, legal.0.1) in
    let fits : ltb maximum (length content) ≡ false = ground (arith, legal.1) in
    rw (legal.0.0, bounded, done, can.0, fits, can.1)

find_temporary_total :
    (faults : Faults) (fs : Fs) (path : List ℕ) (pid left attempt k : ℕ)
    → ((p : List ℕ) → faults.create_fails p ≡ false)
    → attempt ≤ k
    → k < attempt + left
    → fs (temporary_path path pid k) ≡ none
    → (t : List ℕ) × (find_temporary faults fs path pid left attempt ≡ ok t)
unfolding find_temporary is_some
find_temporary_total faults fs path pid zero attempt k c lo hi free = absurd (omega arith)
find_temporary_total faults fs path pid (suc left) attempt k c lo hi free =
    elim (Option-cases (fs (temporary_path path pid attempt))) [
      | inl here ↦ (temporary_path path pid attempt, rw (here, c (temporary_path path pid attempt)))
      | inr (entry, taken) ↦
          let further : attempt ≢ k =
            λ e. cc (sym taken ∙ ap (λ n. fs (temporary_path path pid n)) e ∙ free) in
          let (t, found) =
            find_temporary_total faults fs path pid left (attempt + 1) k c (omega arith)
              (omega arith) free in
          (t, rw taken found)
    ]

-- A write succeeds if no system call fails, the path is absolute, the bytes are within the limit,
-- and any one of the 16 temporary paths is free.
pub write_succeeds :
    (faults : Faults) (fs : Fs) (pid : ℕ) (path content : List ℕ) (maximum k : ℕ)
    → CanWrite faults
    → IsLegal path maximum
    → length content ≤ maximum
    → k < temporary_attempts
    → fs (temporary_path path pid k) ≡ none
    → (write_bounded faults fs pid path content maximum).result ≡ ok tt
unfolding write_bounded begin replace finish first_failure
write_succeeds faults fs pid path content maximum k can legal fits low free =
    let (t, found) =
      find_temporary_total faults fs path pid temporary_attempts 0 k can.creates (omega arith)
        (omega arith) free in
    let bounded : ltb maximum_bounded_bytes maximum ≡ false = ground (arith, legal.1) in
    let short : ltb maximum (length content) ≡ false = ground arith in
    rw (legal.0, bounded, short, found, can.writes, can.syncs, can.closes, can.renames)
