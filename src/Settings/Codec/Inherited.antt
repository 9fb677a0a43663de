-- ===== src/Settings/Codec/Inherited.antt =====
-- The inherited volume: `parse_inherited_volume` of native/src/dashboard/settings.rs beside the
-- games' own reading of the same variable (native/src/ten_seconds.rs).
use retrodeck.Prelude.{ℕ, ◌≡◌, refl, ◌↔◌, inl, inr, List, [], ◌∷◌, Option, none, some, Bool-cases}
use retrodeck.Prelude.Decimal.{all_digits, value_from}
use retrodeck.Prelude.Result.{ok}
use retrodeck.Settings.Codec.{Error, parse_inherited_volume}
use retrodeck.Settings.Codec.RoundTrip.{percent_or_ok, percent_or_sound}
use retrodeck.TenSeconds.Volume.{volume, IsVolume, volume-IsVolume, volume_default_lem}

inherited-IsVolume :
    (b : ℕ) (text : List ℕ) (v : ℕ)
    → (parse_inherited_volume (some (b ∷ text)) ≡ ok v) ↔ IsVolume (b ∷ text) v
unfolding parse_inherited_volume
inherited-IsVolume b text v = (
  λ h. elim (Bool-cases (all_digits (b ∷ text))) [
    | inr bad ↦ absurd (cc (rw bad at h))
    | inl good ↦
        let (same, small) =
          percent_or_sound Error.inherited_range (value_from 0 (b ∷ text)) v (rw good at h) in
        ((λ e. cc), good, same, small)
  ],
  λ h. rw (h.1, h.2) (percent_or_ok Error.inherited_range v h.3),
)

-- The launcher's reading of the inherited volume and the games' own are the same: where the one
-- reads `v`, so does the other, and where the one refuses the text, so does the other.
pub parse_inherited_volume-volume :
    (text : Option (List ℕ)) (v : ℕ) → (parse_inherited_volume text ≡ ok v) ↔ (volume text ≡ some v)
unfolding parse_inherited_volume
parse_inherited_volume-volume none v =
    (λ h. volume_default_lem.0 v (cc h), λ h. cc (volume_default_lem.1 v h))
parse_inherited_volume-volume (some []) v =
    (λ h. cc, λ h. absurd (((volume-IsVolume [] v).0 h).0 refl))
parse_inherited_volume-volume (some (b ∷ text)) v = (
  λ h. (volume-IsVolume (b ∷ text) v).1 ((inherited-IsVolume b text v).0 h),
  λ h. (inherited-IsVolume b text v).1 ((volume-IsVolume (b ∷ text) v).0 h),
)
