-- ===== src/Settings/Codec.antt =====
-- The texts of the settings in native/src/dashboard/settings.rs: the inherited volume, the state
-- files of volume and brightness, the backlight's control files, and the backlight's scale.
pub mod RoundTrip
pub mod Inherited
pub mod Backlight
use retrodeck.Prelude.{
  ℕ, ◌+◌, ◌-◌, ◌*◌, ◌/◌, ◌%◌, ◌^◌, min, max, Bool, true, false, not, ◌&&◌, ◌||◌, List, [], ◌∷◌,
  ◌++◌, Option, none, some, ltb, leb, ◌==◌, if◌then◌else◌, length,
}
use retrodeck.Prelude.Decimal.{decimal, is_ascii_digit, all_digits, value_from}
use retrodeck.Prelude.Result.{Result, ok, err, ◌>>=◌}
use retrodeck.Settings.{volume_default}
use retrodeck.StateFile.{Error as StateError}
use retrodeck.ControlFile.{Error as ControlError}

-- One constructor for each message.
pub data Error : Type 0 where
  inherited_empty inherited_not_integer inherited_range : Error
  volume_outside no_newline not_canonical state_outside : Error
  brightness_step brightness_state_step outside_backlight maximum_unknown : Error
  control_empty control_not_integer control_too_large : Error
  not_utf8 keymap_unknown keymap_state : Error
  cannot_write_brightness cannot_save_brightness : Error
  state_error : StateError → Error
  control_error : ControlError → Error

-- `parse::<u16>()` and `parse::<u32>()` on a non-empty text of digits.
abbrev pub parse_below : ℕ → List ℕ → Option ℕ
parse_below limit text = if ltb (value_from 0 text) limit then some (value_from 0 text) else none

-- `.ok().filter(|x| *x <= 100).map(|x| x as u8).ok_or(e)`
pub percent_or : Error → Option ℕ → Result Error ℕ
percent_or e none = err e
percent_or e (some x) = if leb x 100 then ok x else err e

pub parse_inherited_volume : Option (List ℕ) → Result Error ℕ
unfolding percent_or
parse_inherited_volume none = ok volume_default
parse_inherited_volume (some []) = err inherited_empty
parse_inherited_volume (some (b ∷ text)) =
    if all_digits (b ∷ text)
    then percent_or inherited_range (parse_below (2 ^ 16) (b ∷ text))
    else err inherited_not_integer

unfoldable pub volume_state_text : ℕ → Result Error (List ℕ)
volume_state_text v = if leb v 100 then ok (decimal v ++ (10 ∷ [])) else err volume_outside

-- The text in front of a newline at its end.
pub strip_newline : List ℕ → Option (List ℕ)
strip_newline [] = none
strip_newline (b ∷ []) = if b == 10 then some [] else none
strip_newline (b ∷ c ∷ text) = elim (strip_newline (c ∷ text)) [
  | none ↦ none
  | some rest ↦ some (b ∷ rest)
]

-- `d.is_empty() || (d.len() > 1 && d.starts_with('0')) || !all digits`
is_bad_numeral : List ℕ → Bool
is_bad_numeral [] = true
is_bad_numeral (b ∷ []) = not (all_digits (b ∷ []))
is_bad_numeral (b ∷ c ∷ text) = b == b'0' || not (all_digits (b ∷ c ∷ text))

parse_numeral : Option (List ℕ) → Result Error ℕ
unfolding is_bad_numeral percent_or
parse_numeral none = err no_newline
parse_numeral (some d) =
    if is_bad_numeral d
    then err not_canonical
    else percent_or state_outside (parse_below (2 ^ 16) d)

pub parse_volume_state : List ℕ → Result Error ℕ
unfolding parse_numeral
parse_volume_state s = parse_numeral (strip_newline s)

unfoldable pub brightness_valid : ℕ → Bool
brightness_valid v = leb 10 v && leb v 100 && (v % 10 == 0)

unfoldable pub brightness_state_text : ℕ → Result Error (List ℕ)
brightness_state_text v =
    if brightness_valid v then ok (decimal v ++ (10 ∷ [])) else err brightness_step

pub parse_brightness_state : List ℕ → Result Error ℕ
parse_brightness_state s = do
  v ← parse_volume_state s
  if brightness_valid v then ok v else err brightness_state_step

-- `clamp(lo, hi)` on unsigned numbers.
abbrev pub clamp : ℕ → ℕ → ℕ → ℕ
clamp lo hi x = min (max x lo) hi

-- The intermediate values are `u64`, which no `u32` arguments exceed.
unfoldable pub brightness_raw_value : ℕ → ℕ → ℕ
brightness_raw_value percent maximum =
    if maximum == 0 then 0 else clamp 1 maximum ((percent * maximum + 50) / 100 % 2 ^ 32)

pub observed_brightness_percent : ℕ → ℕ → Result Error ℕ
observed_brightness_percent current maximum =
    let observed = (current * 100 + maximum / 2) / maximum % 2 ^ 32 in
    if maximum == 0 || ltb maximum current
    then err outside_backlight
    else ok (clamp 10 100 ((observed + 5) / 10 * 10))

-- The blanks that `control_integer` trims.
is_blank : ℕ → Bool
is_blank b = (leb 9 b && leb b 13) || b == 32

trim_start : List ℕ → List ℕ
trim_start [] = []
trim_start (b ∷ text) = if is_blank b then trim_start text else b ∷ text

-- The text without the blanks at its end.
trim_end : List ℕ → List ℕ
trim_end [] = []
trim_end (b ∷ text) = elim (trim_end text) [
  | [] ↦ if is_blank b then [] else b ∷ []
  | c ∷ rest ↦ b ∷ c ∷ rest
]

control_number : List ℕ → Result Error ℕ
control_number [] = err control_empty
control_number (b ∷ text) =
    if all_digits (b ∷ text)
    then elim (parse_below (2 ^ 32) (b ∷ text)) [ none ↦ err control_too_large | some n ↦ ok n ]
    else err control_not_integer

-- Bytes that are no UTF-8 hold one that is no digit and no blank, so they are refused with the same
-- message as other text.
pub control_integer : List ℕ → Result Error ℕ
unfolding is_blank trim_start trim_end control_number
control_integer content = control_number (trim_start (trim_end content))
