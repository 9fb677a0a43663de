-- ===== src/GameAudio/Volume.antt =====
-- The emulators' reading of the volume, `volume_percent` of native/src/game_audio.rs, and that of the
-- chiptune player, beside that of Ten Seconds (native/src/ten_seconds.rs). Its messages are one and the same, so it is an option.
use retrodeck.Prelude.{
  ℕ, ◌+◌, ◌-◌, ◌*◌, ◌≡◌, refl, inl, inr, true, false, List, [], ◌∷◌, Option, none, some, ltb, leb,
  if◌then◌else◌, arith, Bool-cases,
}
use retrodeck.Prelude.Decimal.{is_ascii_digit}
use retrodeck.TenSeconds.Volume.{digits_within, volume}

-- `to_digit(10)`: a character that is not ASCII has bytes that are no digits.
to_digit : ℕ → Option ℕ
to_digit b = if is_ascii_digit b then some (b - 48) else none

-- The loop over the characters.
percent_from : ℕ → List ℕ → Option ℕ
unfolding to_digit
percent_from value [] = some value
percent_from value (b ∷ text) = elim (to_digit b) [
  | none ↦ none
  | some digit ↦
      let rest = percent_from (value * 10 + digit) text in
      if ltb 100 (value * 10 + digit) then none else rest
]

pub volume_percent : Option (List ℕ) → Option ℕ
unfolding percent_from
volume_percent none = some 42
volume_percent (some []) = none
volume_percent (some (b ∷ text)) = percent_from 0 (b ∷ text)

percent_from_lem : (value : ℕ) (text : List ℕ) → percent_from value text ≡ digits_within value text
unfolding percent_from to_digit digits_within
percent_from_lem value [] = refl
percent_from_lem value (b ∷ text) = elim (Bool-cases (is_ascii_digit b)) [
  | inr bad ↦ rw (bad, percent_from, digits_within) refl
  | inl digit ↦ elim (Bool-cases (leb (value * 10 + (b - 48)) 100)) [
    | inl fits ↦
        let small : ltb 100 (value * 10 + (b - 48)) ≡ false = ground arith in
        rw (digit, percent_from, digits_within, fits, small)
          (percent_from_lem (value * 10 + (b - 48)) text)
    | inr big ↦
        let large : ltb 100 (value * 10 + (b - 48)) ≡ true = ground arith in
        rw (digit, percent_from, digits_within, big, large) refl
  ]
]

-- The emulators and Ten Seconds read the same volume from the same variable, and refuse the same
-- texts.
pub volume_percent-volume : (text : Option (List ℕ)) → volume_percent text ≡ volume text
unfolding volume_percent volume
volume_percent-volume none = refl
volume_percent-volume (some []) = refl
volume_percent-volume (some (b ∷ text)) = percent_from_lem 0 (b ∷ text)

-- The chiptune player's reading (`volume` of native/src/chiptune_ui/mod.rs), a `try_fold`.
chiptune_from : ℕ → List ℕ → Option ℕ
chiptune_from value [] = some value
chiptune_from value (b ∷ text) =
    let rest = chiptune_from (value * 10 + (b - 48)) text in
    if is_ascii_digit b then if leb (value * 10 + (b - 48)) 100 then rest else none else none

pub chiptune_volume : Option (List ℕ) → Option ℕ
unfolding chiptune_from
chiptune_volume none = some 42
chiptune_volume (some []) = none
chiptune_volume (some (b ∷ text)) = chiptune_from 0 (b ∷ text)

chiptune_from_lem :
    (value : ℕ) (text : List ℕ) → chiptune_from value text ≡ digits_within value text
unfolding chiptune_from digits_within
chiptune_from_lem value [] = refl
chiptune_from_lem value (b ∷ text) = rw (chiptune_from_lem (value * 10 + (b - 48)) text) refl

pub chiptune_volume_lem : (text : Option (List ℕ)) → chiptune_volume text ≡ volume text
unfolding chiptune_volume volume
chiptune_volume_lem none = refl
chiptune_volume_lem (some []) = refl
chiptune_volume_lem (some (b ∷ text)) = chiptune_from_lem 0 (b ∷ text)
