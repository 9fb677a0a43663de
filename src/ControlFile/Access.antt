-- ===== src/ControlFile/Access.antt =====
-- What a control file holds after a write of native/src/control_file.rs.
use retrodeck.Prelude.{
  ℕ, zero, suc, Option, ◌-◌, ◌≤◌, ◌≡◌, refl, ap, ◌∙◌, ◌≢◌, ◌⊎◌, inl, inr, true, false, List, [],
  ◌∷◌, none, some, append-nil, ltb, length, take, drop, arith, Bool-cases, Option-cases,
}
use retrodeck.Prelude.Result.{ok}
use retrodeck.StateFile.{Node, file, special, Fs, is_absolute}
use retrodeck.StateFile.Safety.{update_self, update_ne}
use retrodeck.ControlFile.{
  maximum_bytes, Truncate, done, unsupported, failed, Faults, read_node, read, overwrite, store,
  write_all, write_cut, write_node, write,
}

-- No system call fails that a read makes.
abbrev pub CanRead : Faults → Type 0
CanRead faults = (faults.open_fails ≡ false) × (faults.read_fails ≡ false)

store_other :
    (fs : Fs) (path other : List ℕ) (node : Node) (content : List ℕ)
    → path ≢ other
    → store fs path node content other ≡ fs other
unfolding store
store_other fs path other (file old) content h =
    update_ne fs path other (some (file (overwrite content old))) h
store_other fs path other special content h = refl

write_all_other :
    (faults : Faults) (fs : Fs) (path other : List ℕ) (node : Node) (content : List ℕ)
    (short : Option ℕ)
    → path ≢ other
    → (write_all faults fs path node content short).1 other ≡ fs other
unfolding write_all
write_all_other faults fs path other node content none h = store_other fs path other node content h
write_all_other faults fs path other node content (some n) h =
    store_other fs path other node (take n content) h

write_cut_other :
    (faults : Faults) (fs : Fs) (path other content : List ℕ) (node : Node) (how : Truncate)
    → path ≢ other
    → (write_cut faults fs path content node how).1 other ≡ fs other
unfolding write_cut
write_cut_other faults fs path other content (file []) how h =
    write_all_other faults fs path other (file []) content faults.short_write h
write_cut_other faults fs path other content (file (b ∷ old)) done h =
    write_all_other faults fs path other (file []) content faults.short_write h
write_cut_other faults fs path other content (file (b ∷ old)) unsupported h =
    write_all_other faults fs path other (file (b ∷ old)) content faults.short_write h
write_cut_other faults fs path other content (file (b ∷ old)) failed h = refl
write_cut_other faults fs path other content special how h =
    write_all_other faults fs path other special content faults.short_write h

-- However a write ends, it changes no other file.
pub write_other :
    (faults : Faults) (fs : Fs) (path other content : List ℕ)
    → path ≢ other
    → (write faults fs path content).1 other ≡ fs other
unfolding write write_node
write_other faults fs path other content h = elim (Bool-cases (is_absolute path)) [
  | inr relative ↦ rw relative
  | inl absolute ↦ elim (Bool-cases (ltb maximum_bytes (length content))) [
    | inl long ↦ rw (absolute, long)
    | inr fits ↦ elim (Option-cases (fs path)) [
      | inl gone ↦ rw (absolute, fits, gone)
      | inr (node, here) ↦ elim (Bool-cases faults.open_fails) [
        | inl shut ↦ rw (absolute, fits, here, shut)
        | inr opens ↦
            rw (absolute, fits, here, opens)
              (write_cut_other faults fs path other content node faults.truncate h)
      ]
    ]
  ]
]

drop_all : (n : ℕ) (xs : List ℕ) → length xs ≤ n → drop n xs ≡ []
drop_all zero [] h = refl
drop_all zero (x ∷ xs) h = absurd (omega arith)
drop_all (suc n) [] h = refl
drop_all (suc n) (x ∷ xs) h = drop_all n xs (omega arith)

overwrite_short : (new old : List ℕ) → length old ≤ length new → overwrite new old ≡ new
overwrite_short new old h = rw (drop_all (length new) old h) (append-nil new)

-- A regular file is emptied before a write, or is no longer than what is written over it.
abbrev pub IsReplaced : Truncate → List ℕ → List ℕ → Type 0
IsReplaced how old new = (how ≡ done) ⊎ (length old ≤ length new)

store_whole :
    (fs : Fs) (path old content : List ℕ)
    → length old ≤ length content
    → store fs path (file old) content path ≡ some (file content)
unfolding store
store_whole fs path old content h =
    update_self fs path (some (file (overwrite content old)))
    ∙ ap (λ c. some (file c)) (overwrite_short content old h)

write_all_whole :
    (faults : Faults) (fs : Fs) (path old content : List ℕ) (short : Option ℕ)
    → (write_all faults fs path (file old) content short).0 ≡ ok tt
    → length old ≤ length content
    → (write_all faults fs path (file old) content short).1 path ≡ some (file content)
unfolding write_all
write_all_whole faults fs path old content none h k = store_whole fs path old content k
write_all_whole faults fs path old content (some n) h k = absurd (cc h)

write_cut_whole :
    (faults : Faults) (fs : Fs) (path old content : List ℕ) (how : Truncate)
    → (write_cut faults fs path content (file old) how).0 ≡ ok tt
    → IsReplaced how old content
    → (write_cut faults fs path content (file old) how).1 path ≡ some (file content)
unfolding write_cut
write_cut_whole faults fs path [] content how h k =
    write_all_whole faults fs path [] content faults.short_write h (omega arith)
write_cut_whole faults fs path (b ∷ old) content done h k =
    write_all_whole faults fs path [] content faults.short_write h (omega arith)
write_cut_whole faults fs path (b ∷ old) content failed h k = absurd (cc h)
write_cut_whole faults fs path (b ∷ old) content unsupported h (inl e) = absurd (cc e)
write_cut_whole faults fs path (b ∷ old) content unsupported h (inr k) =
    write_all_whole faults fs path (b ∷ old) content faults.short_write h k

-- After a write that succeeds on a regular file, which it emptied first or which was no longer than
-- the new bytes, the file holds exactly those, the path is absolute, and the bytes are at most 64.
pub write-stores :
    (faults : Faults) (fs : Fs) (path old content : List ℕ)
    → (write faults fs path content).0 ≡ ok tt
    → fs path ≡ some (file old)
    → IsReplaced faults.truncate old content
    → ((write faults fs path content).1 path ≡ some (file content))
      × (is_absolute path ≡ true)
      × (length content ≤ maximum_bytes)
unfolding write write_node
write-stores faults fs path old content h here k = elim (Bool-cases (is_absolute path)) [
  | inr relative ↦ absurd (cc (rw relative at h))
  | inl absolute ↦ elim (Bool-cases (ltb maximum_bytes (length content))) [
    | inl long ↦ absurd (cc (rw (absolute, long) at h))
    | inr fits ↦ elim (Bool-cases faults.open_fails) [
      | inl shut ↦ absurd (cc (rw (absolute, fits, here, shut) at h))
      | inr opens ↦ (
        rw (absolute, fits, here, opens)
            (write_cut_whole faults fs path old content faults.truncate
              (rw (absolute, fits, here, opens) at h) k),
        absolute,
        ground arith,
      )
    ]
  ]
]

-- If a write to a regular file succeeds, and the file was emptied first or was no longer than the new
-- bytes, then a read in which no system call fails gives the first 63 of those bytes.
pub read-write_control :
    (faults later : Faults) (fs : Fs) (path old content device : List ℕ)
    → (write faults fs path content).0 ≡ ok tt
    → fs path ≡ some (file old)
    → IsReplaced faults.truncate old content
    → CanRead later
    → read later device (write faults fs path content).1 path
      ≡ ok (take (maximum_bytes - 1) content)
unfolding read read_node
read-write_control faults later fs path old content device h here k can =
    let (stored, absolute, fits) = write-stores faults fs path old content h here k in
    rw (absolute, stored, can.0, can.1)

-- No system call fails that a write makes.
pub record CanWrite (faults : Faults) : Type 0 where
  pub opens : faults.open_fails ≡ false
  pub truncates : faults.truncate ≡ done
  pub writes : faults.short_write ≡ none
  pub closes : faults.close_fails ≡ false

write_cut_succeeds :
    (faults : Faults) (fs : Fs) (path old content : List ℕ)
    → CanWrite faults
    → (write_cut faults fs path content (file old) done).0 ≡ ok tt
unfolding write_cut write_all
write_cut_succeeds faults fs path [] content can = rw (can.writes, can.closes) refl
write_cut_succeeds faults fs path (b ∷ old) content can = rw (can.writes, can.closes) refl

-- A write to a regular file succeeds if no system call fails and the path and the size are legal.
pub write_succeeds_control :
    (faults : Faults) (fs : Fs) (path old content : List ℕ)
    → CanWrite faults
    → is_absolute path ≡ true
    → length content ≤ maximum_bytes
    → fs path ≡ some (file old)
    → (write faults fs path content).0 ≡ ok tt
unfolding write write_node
write_succeeds_control faults fs path old content can absolute fits here =
    let short : ltb maximum_bytes (length content) ≡ false = ground arith in
    rw (absolute, short, here, can.opens, can.truncates)
      (write_cut_succeeds faults fs path old content can)
