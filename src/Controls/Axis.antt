-- ===== src/Controls/Axis.antt =====
-- The thirds of an axis (`axis_state` of native/src/controls.rs).
use retrodeck.Prelude.{
  ℕ, ◌≡◌, ◌≢◌, ◌↔◌, refl, sym, Bool, true, false, if◌then◌else◌, Bool-cases, inl, inr, arith, ◌+◌,
  ◌≤◌, ◌<◌, leb, leb→le,
}
use retrodeck.Prelude.Int.{ℤ, pos_part, ◌+ℤ◌, ◌-ℤ◌, ◌≤ℤ◌, leb_ℤ, neg_part, +ℤ_parts, -ℤ_parts}
use retrodeck.Controls.{AxisInfo, third, axis_state}

-- Three times an integer is at most another one.
abbrev pub IsThird : ℤ → ℤ → Type 0
IsThird d span = (d +ℤ (d +ℤ d)) ≤ℤ span

-- The parts of a span that is not empty, and of its third.
span_parts :
    (axis : AxisInfo)
    → leb_ℤ axis.maximum axis.minimum ≡ false
    → (pos_part (axis.maximum -ℤ axis.minimum) + pos_part axis.minimum + neg_part axis.maximum
        ≡ pos_part axis.maximum + neg_part axis.minimum)
      × (neg_part (axis.maximum -ℤ axis.minimum) ≡ 0)
      × (0 < pos_part (axis.maximum -ℤ axis.minimum))
unfolding ◌-ℤ◌
span_parts axis h = (ground arith, ground arith, ground arith)

le→leb : (a b : ℕ) → a ≤ b → leb a b ≡ true
le→leb a b h = ground arith

low_third :
    (axis : AxisInfo)
    → leb_ℤ axis.maximum axis.minimum ≡ false
    → (leb_ℤ axis.value (axis.minimum +ℤ third axis) ≡ true)
      ↔ IsThird (axis.value -ℤ axis.minimum) (axis.maximum -ℤ axis.minimum)
unfolding third
low_third axis h =
    let span = axis.maximum -ℤ axis.minimum in
    let d = axis.value -ℤ axis.minimum in
    let parts = span_parts axis h in
    let sum = +ℤ_parts axis.minimum (third axis) in
    let difference = -ℤ_parts axis.value axis.minimum in
    let twice = +ℤ_parts d d in
    let thrice = +ℤ_parts d (d +ℤ d) in
    ((λ t. let le = leb→le _ _ t in omega arith), (λ le. le→leb _ _ (omega arith)))

high_third :
    (axis : AxisInfo)
    → leb_ℤ axis.maximum axis.minimum ≡ false
    → (leb_ℤ (axis.maximum -ℤ third axis) axis.value ≡ true)
      ↔ IsThird (axis.maximum -ℤ axis.value) (axis.maximum -ℤ axis.minimum)
unfolding third
high_third axis h =
    let span = axis.maximum -ℤ axis.minimum in
    let d = axis.maximum -ℤ axis.value in
    let parts = span_parts axis h in
    let rest = -ℤ_parts axis.maximum (third axis) in
    let difference = -ℤ_parts axis.maximum axis.value in
    let twice = +ℤ_parts d d in
    let thrice = +ℤ_parts d (d +ℤ d) in
    ((λ t. let le = leb→le _ _ t in omega arith), (λ le. le→leb _ _ (omega arith)))

not_both :
    (axis : AxisInfo)
    → leb_ℤ axis.maximum axis.minimum ≡ false
    → leb_ℤ (axis.maximum -ℤ third axis) axis.value ≡ true
    → leb_ℤ axis.value (axis.minimum +ℤ third axis) ≡ false
unfolding third
not_both axis h t =
    let parts = span_parts axis h in
    let rest = -ℤ_parts axis.maximum (third axis) in
    let sum = +ℤ_parts axis.minimum (third axis) in
    let le = leb→le _ _ t in
    elim (Bool-cases (leb_ℤ axis.value (axis.minimum +ℤ third axis))) [
      | inl u ↦ let le' = leb→le _ _ u in absurd (omega arith)
      | inr u ↦ u
    ]

-- The three branches, with two tests of which at most one succeeds.
by_tests :
    (low high : Bool) (negative positive : ℕ)
    → negative ≢ 0
    → positive ≢ 0
    → negative ≢ positive
    → (high ≡ true → low ≡ false)
    → (((if low then negative else if high then positive else 0) ≡ negative) ↔ (low ≡ true))
      × (((if low then negative else if high then positive else 0) ≡ positive) ↔ (high ≡ true))
by_tests true true negative positive n p d b = absurd (cc (b refl))
by_tests true false negative positive n p d b =
    (((λ e. refl), (λ e. refl)), ((λ e. absurd (d e)), (λ e. cc)))
by_tests false true negative positive n p d b =
    (((λ e. absurd (d (sym e))), (λ e. cc)), ((λ e. refl), (λ e. refl)))
by_tests false false negative positive n p d b =
    (((λ e. absurd (n (sym e))), (λ e. cc)), ((λ e. absurd (p (sym e))), (λ e. cc)))

-- On an axis whose span is not empty, the negative button is held exactly while the value is within
-- a third of the span from the minimum, and the positive one exactly while it is within a third of
-- the span from the maximum. The buttons are different ones and not 0.
pub axis_state-thirds :
    (axis : AxisInfo) (negative positive : ℕ)
    → leb_ℤ axis.maximum axis.minimum ≡ false
    → negative ≢ 0
    → positive ≢ 0
    → negative ≢ positive
    → ((axis_state axis negative positive ≡ negative)
        ↔ IsThird (axis.value -ℤ axis.minimum) (axis.maximum -ℤ axis.minimum))
      × ((axis_state axis negative positive ≡ positive)
          ↔ IsThird (axis.maximum -ℤ axis.value) (axis.maximum -ℤ axis.minimum))
unfolding axis_state
axis_state-thirds axis negative positive h n p d =
    let low = leb_ℤ axis.value (axis.minimum +ℤ third axis) in
    let high = leb_ℤ (axis.maximum -ℤ third axis) axis.value in
    let (is_low, is_high) = by_tests low high negative positive n p d (not_both axis h) in
    let low_iff = low_third axis h in
    let high_iff = high_third axis h in
    rw h (
      ((λ e. low_iff.0 (is_low.0 e)), (λ e. is_low.1 (low_iff.1 e))),
      ((λ e. high_iff.0 (is_high.0 e)), (λ e. is_high.1 (high_iff.1 e))),
    )
