-- ===== src/TenSeconds/Volume.antt =====
-- The inherited volume setting, read by `volume` of native/src/ten_seconds.rs and by
-- `volume_percent` of native/src/game_audio.rs.
use retrodeck.Prelude.{
  ap, ℕ, ◌+◌, ◌-◌, ◌*◌, ◌≤◌, ◌≡◌, refl, ◌≢◌, ◌↔◌, true, List, [], ◌∷◌, Option, none, some, leb,
  if◌then◌else◌, arith,
}
use retrodeck.Prelude.Decimal.{
  decimal, all_digits-decimal, value_from-decimal, decimal_ne_nil, is_ascii_digit, all_digits,
  value_from, value_from-le,
}

-- The `try_fold` of `volume`: it stops at a byte that is no digit and at a value above 100.
unfoldable pub digits_within : ℕ → List ℕ → Option ℕ
digits_within value [] = some value
digits_within value (digit ∷ digits) =
    let rest = digits_within (value * 10 + (digit - 48)) digits in
    if is_ascii_digit digit
    then if leb (value * 10 + (digit - 48)) 100 then rest else none
    else none

-- The variable's text, if it is set: 42 if it is not, and nothing where the source refuses it.
unfoldable pub volume : Option (List ℕ) → Option ℕ
volume none = some 42
volume (some []) = none
volume (some (digit ∷ digits)) = digits_within 0 (digit ∷ digits)

-- The numerals from 0 to 100, leading zeros included.
abbrev pub IsVolume : List ℕ → ℕ → Type 0
IsVolume text v = (text ≢ []) × (all_digits text ≡ true) × (value_from 0 text ≡ v) × (v ≤ 100)

digits_within_sound :
    (value : ℕ) (text : List ℕ) (v : ℕ)
    → value ≤ 100
    → digits_within value text ≡ some v
    → (all_digits text ≡ true) × (value_from value text ≡ v) × (v ≤ 100)
unfolding digits_within all_digits value_from
digits_within_sound value [] v h e = (refl, cc, ground arith)
digits_within_sound value (d ∷ ds) v h e =
    ground (arith, digits_within_sound (value * 10 + (d - 48)) ds v)

digits_within_complete :
    (value : ℕ) (text : List ℕ)
    → all_digits text ≡ true
    → value_from value text ≤ 100
    → digits_within value text ≡ some (value_from value text)
unfolding digits_within all_digits value_from
digits_within_complete value [] h e = refl
digits_within_complete value (d ∷ ds) h e = ground (
  arith,
  value_from-le (value * 10 + (d - 48)) ds,
  digits_within_complete (value * 10 + (d - 48)) ds,
)

-- A set variable is read as the volume `v` exactly when it is a numeral of digits alone, not empty,
-- whose value is `v` and at most 100: the early stop of the loop refuses nothing else.
pub volume-IsVolume : (text : List ℕ) (v : ℕ) → (volume (some text) ≡ some v) ↔ IsVolume text v
unfolding volume
volume-IsVolume [] v = (λ h. cc, λ h. absurd (h.0 refl))
volume-IsVolume (d ∷ ds) v = (
  λ h. let f = digits_within_sound 0 (d ∷ ds) v (omega arith) h in (λ e. cc, f.0, f.1, f.2),
  λ h. cc (digits_within_complete 0 (d ∷ ds) h.1 (omega arith)),
)

-- An unset variable is the default volume.
pub volume_default_lem :
    ((v : ℕ) → 42 ≡ v → volume none ≡ some v) × ((v : ℕ) → volume none ≡ some v → 42 ≡ v)
unfolding volume
volume_default_lem = (λ v h. ap some h, λ v h. cc h)

-- A printed volume is read back.
pub volume-decimal : (v : ℕ) → v ≤ 100 → volume (some (decimal v)) ≡ some v
volume-decimal v h =
    (volume-IsVolume (decimal v) v).1
      ((λ e. decimal_ne_nil v e), all_digits-decimal v, value_from-decimal v, h)
