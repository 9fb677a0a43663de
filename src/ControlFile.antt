-- ===== src/ControlFile.antt =====
-- Control files of the kernel: native/src/control_file.rs. The files stand in the file system of the
-- state files; whether a system call fails is given by `Faults`.
pub mod Access
mod Examples
use retrodeck.Prelude.{
  ℕ, ◌-◌, Bool, true, false, not, ◌&&◌, List, [], ◌∷◌, ◌++◌, Option, none, some, ltb, if◌then◌else◌,
  length, take, drop,
}
use retrodeck.Prelude.Result.{Result, ok, err}
use retrodeck.StateFile.{Node, file, special, Fs, update, is_absolute}

abbrev pub maximum_bytes : ℕ
maximum_bytes = 64

-- How `ftruncate` ends: with EINVAL or EPERM the write goes on over the old bytes.
pub data Truncate : Type 0 where
  done unsupported failed : Truncate

pub record Faults : Type 0 where
  pub open_fails : Bool
  pub read_fails : Bool
  pub truncate : Truncate
  pub short_write : Option ℕ
  pub close_fails : Bool

-- One constructor for each message of the source.
pub data Error : Type 0 where
  not_absolute exceeds cannot_open cannot_read cannot_truncate cannot_write cannot_close : Error

-- A device's own bytes are an argument: the file system does not hold them.
read_node : Faults → List ℕ → Option Node → Result Error (List ℕ)
read_node faults device none = err cannot_open
read_node faults device (some node) =
    if faults.open_fails
    then err cannot_open
    else if faults.read_fails
    then err cannot_read
    else ok (take (maximum_bytes - 1) (elim node [ file content ↦ content | special ↦ device ]))

pub read : Faults → List ℕ → Fs → List ℕ → Result Error (List ℕ)
unfolding read_node
read faults device fs path =
    if not (is_absolute path) then err not_absolute else read_node faults device (fs path)

-- What `write_all` leaves in a file that held `old`, from its start.
abbrev overwrite : List ℕ → List ℕ → List ℕ
overwrite new old = new ++ drop (length new) old

store : Fs → List ℕ → Node → List ℕ → Fs
store fs path (file old) new = update fs path (some (file (overwrite new old)))
store fs path special new = fs

-- `write_all`, `close`, and `result.and(closed)`.
write_all : Faults → Fs → List ℕ → Node → List ℕ → Option ℕ → Result Error (Unit {0}) × Fs
unfolding store
write_all faults fs path node content (some n) =
    (err cannot_write, store fs path node (take n content))
write_all faults fs path node content none =
    (if faults.close_fails then err cannot_close else ok tt, store fs path node content)

-- A regular file that is not empty is cut to nothing first.
write_cut : Faults → Fs → List ℕ → List ℕ → Node → Truncate → Result Error (Unit {0}) × Fs
unfolding write_all
write_cut faults fs path content (file (b ∷ old)) done =
    write_all faults fs path (file []) content faults.short_write
write_cut faults fs path content (file (b ∷ old)) failed = (err cannot_truncate, fs)
write_cut faults fs path content node how = write_all faults fs path node content faults.short_write

write_node : Faults → Fs → List ℕ → List ℕ → Option Node → Result Error (Unit {0}) × Fs
unfolding write_cut
write_node faults fs path content none = (err cannot_open, fs)
write_node faults fs path content (some node) =
    if faults.open_fails
    then (err cannot_open, fs)
    else write_cut faults fs path content node faults.truncate

pub write : Faults → Fs → List ℕ → List ℕ → Result Error (Unit {0}) × Fs
unfolding write_node
write faults fs path content =
    if not (is_absolute path)
    then (err not_absolute, fs)
    else if ltb maximum_bytes (length content)
    then (err exceeds, fs)
    else write_node faults fs path content (fs path)
