-- ===== src/StateFile.antt =====
-- Small state files that survive a crash: native/src/state_file.rs.
-- The file system is a function from absolute paths (their bytes) to what stands there. Whether a
-- system call fails is given by `Faults`, so a theorem about all faults is one about every failure.
-- The process id is an argument. Modes, descriptors and the directory's `fsync`, whose result the
-- source ignores, are not modelled.
pub mod Safety
pub mod Reading
mod Examples
use retrodeck.Prelude.{
  ℕ, zero, suc, ◌+◌, ◌^◌, Bool, true, false, not, ◌&&◌, ◌||◌, List, [], ◌∷◌, ◌++◌, Option, none,
  some, ltb, leb, ◌==◌, if◌then◌else◌, length, take,
}
use retrodeck.Prelude.Decimal.{bytes, decimal, text_eq}
use retrodeck.Prelude.Result.{Result, ok, err}

abbrev pub maximum_bytes : ℕ
maximum_bytes = 64

abbrev pub maximum_bounded_bytes : ℕ
maximum_bounded_bytes = 16384

abbrev pub temporary_attempts : ℕ
temporary_attempts = 16

abbrev pub path_max : ℕ
path_max = 4096

-- A regular file with its bytes, or anything else that a path may name.
pub data Node : Type 0 where
  file : List ℕ → Node
  special : Node

abbrev pub Fs : Type 0
Fs = List ℕ → Option Node

unfoldable pub update : Fs → List ℕ → Option Node → Fs
update fs path node other = if text_eq path other then node else fs other

pub record Faults : Type 0 where
  pub open_fails : Bool
  pub read_fails : Bool
  pub create_fails : List ℕ → Bool
  pub short_write : Option ℕ
  pub sync_fails : Bool
  pub close_fails : Bool
  pub rename_fails : Bool
  pub remove_fails : Bool

-- One constructor for each message of the source.
pub data Error : Type 0 where
  not_absolute limit_exceeded cannot_open not_regular cannot_read : Error
  exceeds cannot_create cannot_allocate cannot_write cannot_sync cannot_close cannot_replace : Error

pub data StateRead : Type 0 where
  missing : StateRead
  value : List ℕ → StateRead

unfoldable pub is_absolute : List ℕ → Bool
is_absolute [] = false
is_absolute (b ∷ bs) = (b == b'/') && ltb (length (b ∷ bs)) path_max

pub read_node : Faults → Option Node → ℕ → Result Error StateRead
read_node faults none maximum = if faults.open_fails then err cannot_open else ok missing
read_node faults (some special) maximum =
    if faults.open_fails then err cannot_open else err not_regular
read_node faults (some (file content)) maximum =
    if faults.open_fails
    then err cannot_open
    else if ltb maximum (length content)
    then err not_regular
    else if faults.read_fails
    then err cannot_read
    else ok (value content)

pub read_bounded : Faults → Fs → List ℕ → ℕ → Result Error StateRead
unfolding is_absolute read_node
read_bounded faults fs path maximum =
    if not (is_absolute path)
    then err not_absolute
    else if ltb maximum_bounded_bytes maximum
    then err limit_exceeded
    else read_node faults (fs path) maximum

unfoldable pub read : Faults → Fs → List ℕ → Result Error StateRead
read faults fs path = read_bounded faults fs path maximum_bytes

unfoldable pub temporary_path : List ℕ → ℕ → ℕ → List ℕ
temporary_path path pid attempt =
    path ++ (bytes ".tmp." ++ (decimal pid ++ (b'.' ∷ decimal attempt)))

is_some : Option Node → Bool
is_some none = false
is_some (some node) = true

-- The loop over the attempts: the path of the temporary file that is created.
pub find_temporary : Faults → Fs → List ℕ → ℕ → ℕ → ℕ → Result Error (List ℕ)
find_temporary faults fs path pid zero attempt = err cannot_allocate
find_temporary faults fs path pid (suc left) attempt =
    let temporary = temporary_path path pid attempt in
    let next = find_temporary faults fs path pid left (attempt + 1) in
    if is_some (fs temporary)
    then next
    else if faults.create_fails temporary
    then err cannot_create
    else ok temporary

-- What a write leaves behind: its result, the file system after each of its system calls before the
-- last, and the one after it.
pub record Outcome : Type 0 where
  pub result : Result Error (Unit {0})
  pub passed : List Fs
  pub final : Fs

refused : Fs → Error → Outcome
refused fs e = record { result = err e; passed = []; final = fs }

-- The bytes that `write_all` brings to the file.
pub stored : Faults → List ℕ → List ℕ
stored faults content = elim faults.short_write [ none ↦ content | some n ↦ take n content ]

-- The first step of the closure that fails, in its order.
first_failure : Faults → Option Error
first_failure faults = elim faults.short_write [
  | some n ↦ some cannot_write
  | none ↦
      if faults.sync_fails
      then some cannot_sync
      else if faults.close_fails
      then some cannot_close
      else if faults.rename_fails
      then some cannot_replace
      else none
]

-- The end of the closure and the removal of the temporary file, by the step that failed, if any.
finish : Faults → List ℕ → List ℕ → List ℕ → Fs → Fs → Option Error → Outcome
finish faults path temporary content created filled none = record {
  result = ok tt;
  passed = created ∷ filled ∷ [];
  final = update (update filled path (some (file content))) temporary none;
}
finish faults path temporary content created filled (some e) = record {
  result = err e;
  passed = created ∷ filled ∷ [];
  final = if faults.remove_fails then filled else update filled temporary none;
}

-- The closure, from the creation of the temporary file on.
replace : Faults → Fs → List ℕ → List ℕ → List ℕ → Outcome
replace faults fs path temporary content =
    let created = update fs temporary (some (file [])) in
    let filled = update created temporary (some (file (stored faults content))) in
    finish faults path temporary content created filled (first_failure faults)

-- From the search for a temporary path on.
begin : Faults → Fs → List ℕ → List ℕ → Result Error (List ℕ) → Outcome
unfolding refused
begin faults fs path content (err e) = refused fs e
begin faults fs path content (ok temporary) = replace faults fs path temporary content

pub write_bounded : Faults → Fs → ℕ → List ℕ → List ℕ → ℕ → Outcome
unfolding is_absolute refused
write_bounded faults fs pid path content maximum =
    if not (is_absolute path)
    then refused fs not_absolute
    else if ltb maximum_bounded_bytes maximum
    then refused fs limit_exceeded
    else if ltb maximum (length content)
    then refused fs exceeds
    else begin faults fs path content (find_temporary faults fs path pid temporary_attempts 0)

unfoldable pub write : Faults → Fs → ℕ → List ℕ → List ℕ → Outcome
write faults fs pid path content = write_bounded faults fs pid path content maximum_bytes
