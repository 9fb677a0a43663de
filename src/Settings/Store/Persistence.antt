-- ===== src/Settings/Store/Persistence.antt =====
-- What the settings read after they were saved (native/src/dashboard/settings.rs).
use retrodeck.Prelude.{
  ℕ, ◌≡◌, refl, ap, ◌∙◌, ◌≢◌, inl, inr, true, false, List, [], ◌∷◌, ◌++◌, leb, ◌==◌, arith,
  Bool-cases,
}
use retrodeck.Prelude.Decimal.{
  bytes, decimal, text_eq, text_eq_iff, all_digits, all_digits-decimal, decimal_ne_nil,
}
use retrodeck.Prelude.Result.{Result, ok, err}
use retrodeck.Prelude.Utf8.{is_utf8, IsAscii, ascii-is_utf8}
use retrodeck.StateFile as StateFile
use retrodeck.StateFile.{Fs, Outcome, file}
use retrodeck.StateFile.Reading.{CanRead, read-write}
use retrodeck.Settings.Codec.{Error, volume_state_text}
use retrodeck.Settings.Codec.RoundTrip.{parse_volume_state_iff}
use retrodeck.Settings.Reducer.{known_keymap}
use retrodeck.Settings.Store.{
  Environment, saved, save_text, save_volume, volume_of_read, load_volume, save_keymap,
  keymap_of_read, keymap_of_text, load_keymap,
}

line-IsAscii : (xs : List ℕ) → all_digits xs ≡ true → IsAscii (xs ++ (10 ∷ []))
unfolding all_digits
line-IsAscii [] h = (omega arith, tt)
line-IsAscii (x ∷ xs) h = (ground arith, line-IsAscii xs (ground arith))

-- A line that starts with a digit is neither of the two words of older versions.
line_no_word :
    (xs : List ℕ)
    → all_digits xs ≡ true
    → xs ≢ []
    → (text_eq (xs ++ (10 ∷ [])) (bytes "on\n") ≡ false)
      × (text_eq (xs ++ (10 ∷ [])) (bytes "off\n") ≡ false)
unfolding all_digits text_eq bytes
line_no_word [] h k = absurd (k refl)
line_no_word (x ∷ xs) h k = let other : (x == 111) ≡ false = ground arith in (rw other, rw other)

-- What a save that succeeds went through.
saved_ok : (o : Outcome) → (saved {0} {A = Unit {0}} tt o).0 ≡ ok tt → o.result ≡ ok tt
unfolding saved
saved_ok o h = go o.result refl h
  where
    go :
        (r : Result StateFile.Error (Unit {0}))
        → o.result ≡ r
        → (elim r as (λ x. Result Error (Unit {0})) [
          | ok t ↦ ok tt
          | err e ↦ err (Error.state_error e)
        ])
          ≡ ok tt
        → o.result ≡ ok tt
    go (ok t) e k = e
    go (err x) e k = absurd (cc k)

pub save_text_ok :
    (env : Environment) (fs : Fs) (path : List ℕ) (r : Result Error (List ℕ))
    → (save_text env fs path r).0 ≡ ok tt
    → (text : List ℕ) × (r ≡ ok text)
      × ((StateFile.write env.state_faults fs env.pid path text).result ≡ ok tt)
      × ((save_text env fs path r).1
          ≡ (StateFile.write env.state_faults fs env.pid path text).final)
unfolding save_text saved
save_text_ok env fs path (err e) h = absurd (cc h)
save_text_ok env fs path (ok text) h =
    (text, refl, saved_ok (StateFile.write env.state_faults fs env.pid path text) h, refl)

-- What such a save wrote is what the next read finds.
read_saved :
    (env later : Environment) (fs : Fs) (path : List ℕ) (r : Result Error (List ℕ))
    → (save_text env fs path r).0 ≡ ok tt
    → CanRead later.state_faults
    → (text : List ℕ) × (r ≡ ok text)
      × (StateFile.read later.state_faults (save_text env fs path r).1 path
          ≡ ok (StateFile.value text))
unfolding StateFile.read StateFile.write
read_saved env later fs path r h can =
    let (text, made, written, left) = save_text_ok env fs path r h in
    (
      text,
      made,
      rw left (
          read-write env.state_faults later.state_faults fs env.pid path text
            StateFile.maximum_bytes written can),
    )

volume_text :
    (v : ℕ) (text : List ℕ) → volume_state_text v ≡ ok text → text ≡ decimal v ++ (10 ∷ [])
unfolding volume_state_text
volume_text v text h = elim (Bool-cases (leb v 100)) [
  | inr big ↦ absurd (cc (rw big at h))
  | inl small ↦ cc (rw small at h)
]

-- After a save of a volume that succeeds, whatever the system calls did on the way, the next start
-- that can read the file loads this volume, and it writes nothing.
pub load_volume-save_volume :
    (env later : Environment) (fs : Fs) (path : List ℕ) (v default : ℕ)
    → (save_volume env fs path v).0 ≡ ok tt
    → CanRead later.state_faults
    → load_volume later (save_volume env fs path v).1 path default
      ≡ (ok v, (save_volume env fs path v).1)
unfolding save_volume load_volume volume_of_read
load_volume-save_volume env later fs path v default h can =
    let (text, made, found) = read_saved env later fs path (volume_state_text v) h can in
    let line = volume_text v text made in
    let digits = all_digits-decimal v in
    let words = line_no_word (decimal v) digits (decimal_ne_nil v) in
    let valid = ascii-is_utf8 (decimal v ++ (10 ∷ [])) (line-IsAscii (decimal v) digits) in
    let parsed = (parse_volume_state_iff (decimal v ++ (10 ∷ [])) v).1 (made ∙ ap ok line) in
    rw (found, line, words.0, words.1, valid, parsed)

keymap_line :
    (k : List ℕ)
    → known_keymap k ≡ true
    → (is_utf8 (k ++ (10 ∷ [])) ≡ true) × (keymap_of_text (k ++ (10 ∷ [])) ≡ ok k)
unfolding known_keymap keymap_of_text bytes text_eq
keymap_line k h = elim (Bool-cases (text_eq k (bytes "us"))) [
  | inl us ↦
      rw ((text_eq_iff k (bytes "us")).0 us)
        (ascii-is_utf8 (bytes "us\n") (omega arith, (omega arith, (omega arith, tt))), refl)
  | inr other ↦
      let cz : text_eq k (bytes "cz") ≡ true = ground arith in
      rw ((text_eq_iff k (bytes "cz")).0 cz)
        (ascii-is_utf8 (bytes "cz\n") (omega arith, (omega arith, (omega arith, tt))), refl)
]

-- After a save of a keymap that succeeds, the next start that can read the file loads this keymap,
-- and it writes nothing.
pub load_keymap-save_keymap :
    (env later : Environment) (fs : Fs) (path k : List ℕ)
    → (save_keymap env fs path k).0 ≡ ok tt
    → CanRead later.state_faults
    → load_keymap later (save_keymap env fs path k).1 path ≡ (ok k, (save_keymap env fs path k).1)
unfolding save_keymap load_keymap keymap_of_read save_text
load_keymap-save_keymap env later fs path k h can = elim (Bool-cases (known_keymap k)) [
  | inr unknown ↦ absurd (cc (rw unknown at h))
  | inl known ↦
      let (text, made, found) =
        read_saved env later fs path (ok (k ++ (10 ∷ []))) (rw known at h) can in
      let line : text ≡ k ++ (10 ∷ []) = cc made in
      let (valid, parsed) = keymap_line k known in rw (known, found, line, valid, parsed)
]
