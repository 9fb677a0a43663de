-- ===== src/Settings/Codec/RoundTrip.antt =====
-- The state texts of native/src/dashboard/settings.rs: printing and parsing are inverse.
use retrodeck.Prelude.{
  ℕ, ◌+◌, ◌-◌, ◌*◌, ◌/◌, ◌%◌, ◌^◌, ◌≤◌, ◌<◌, ◌≡◌, refl, sym, ap, ◌∙◌, ◌↔◌, inl, inr, true, false,
  List, [], ◌∷◌, ◌++◌, none, some, ltb, leb, if◌then◌else◌, arith, Bool-cases, Option-cases,
}
use retrodeck.Prelude.Decimal.{
  decimal, all_digits, value_from, value_from-le, value_from-decimal, all_digits-decimal,
  decimal_starts, StartsCanonically, decimal_one, decimal_two,
}
use retrodeck.Prelude.Result.{Result, ok, err, ◌>>=◌}
use retrodeck.Settings.Codec.{
  Error, percent_or, volume_state_text, strip_newline, is_bad_numeral, parse_volume_state,
  brightness_valid, brightness_state_text, parse_brightness_state,
}

strip_newline-append : (text : List ℕ) → strip_newline (text ++ (10 ∷ [])) ≡ some text
unfolding strip_newline
strip_newline-append [] = refl
strip_newline-append (b ∷ []) = refl
strip_newline-append (b ∷ c ∷ text) = rw (strip_newline-append (c ∷ text))

strip_newline_sound :
    (s : List ℕ) {text : List ℕ} → strip_newline s ≡ some text → s ≡ text ++ (10 ∷ [])
unfolding strip_newline
strip_newline_sound [] h = cc
strip_newline_sound (b ∷ []) h = ground arith
strip_newline_sound (b ∷ c ∷ text) h = elim (Option-cases (strip_newline (c ∷ text))) [
  | inl none_there ↦ cc (rw none_there at h)
  | inr (rest, e) ↦ ap (◌∷◌ b) (strip_newline_sound (c ∷ text) e) ∙ cc (rw e at h)
]

-- A canonical numeral: digits without a leading zero, but `0` itself.
abbrev IsNumeral : List ℕ → Type 0
IsNumeral d = is_bad_numeral d ≡ false

IsNumeral-of : (n : ℕ) (d : List ℕ) → all_digits d ≡ true → StartsCanonically n d → IsNumeral d
unfolding is_bad_numeral all_digits
IsNumeral-of n [] a s = absurd s
IsNumeral-of n (b ∷ []) a s = ground arith
IsNumeral-of n (b ∷ c ∷ d) a (inl s) = ground arith
IsNumeral-of n (b ∷ c ∷ d) a (inr s) = cc s.2

decimal-IsNumeral : (n : ℕ) → IsNumeral (decimal n)
decimal-IsNumeral n = IsNumeral-of n (decimal n) (all_digits-decimal n) (decimal_starts n)

first_digit : (a b : ℕ) (rest : List ℕ) → IsNumeral (a ∷ b ∷ rest) → (48 < a) × (a ≤ 57)
unfolding is_bad_numeral all_digits
first_digit a b rest h = (ground arith, ground arith)

next_digit : (a b : ℕ) (rest : List ℕ) → IsNumeral (a ∷ b ∷ rest) → (48 ≤ b) × (b ≤ 57)
unfolding is_bad_numeral all_digits
next_digit a b rest h = (ground arith, ground arith)

last_digit : (a b c : ℕ) → IsNumeral (a ∷ b ∷ c ∷ []) → (48 ≤ c) × (c ≤ 57)
unfolding is_bad_numeral all_digits
last_digit a b c h = (ground arith, ground arith)

only_digit : (a : ℕ) → IsNumeral (a ∷ []) → (48 ≤ a) × (a ≤ 57)
unfolding is_bad_numeral all_digits
only_digit a h = (ground arith, ground arith)

one_digit : (a n : ℕ) → n ≡ a - 48 → (48 ≤ a) × (a ≤ 57) → a ∷ [] ≡ decimal n
one_digit a n e h =
    let f : a ≡ 48 + n = omega arith in sym (decimal_one n (omega arith) ∙ (λ i. sym f i ∷ []))

two_digits :
    (a b n : ℕ)
    → n ≡ (a - 48) * 10 + (b - 48)
    → (48 < a) × (a ≤ 57)
    → (48 ≤ b) × (b ≤ 57)
    → a ∷ b ∷ [] ≡ decimal n
two_digits a b n e h k =
    let f : 48 + n / 10 ≡ a = omega arith in
    let g : 48 + n % 10 ≡ b = omega arith in
    sym (decimal_two n (omega arith) (omega arith) ∙ (λ i. f i ∷ g i ∷ []))

hundred : (a b c n : ℕ) → a ≡ 49 → b ≡ 48 → c ≡ 48 → n ≡ 100 → a ∷ b ∷ c ∷ [] ≡ decimal n
unfolding decimal
hundred a b c n ha hb hc hn = rw (ha, hb, hc, hn)

-- A canonical numeral up to 100 is the print of its value: it has one, two or three digits.
IsNumeral-decimal : (d : List ℕ) → IsNumeral d → value_from 0 d ≤ 100 → d ≡ decimal (value_from 0 d)
unfolding is_bad_numeral all_digits value_from
IsNumeral-decimal [] c h = cc
IsNumeral-decimal (a ∷ []) c h = one_digit a _ (omega arith) (only_digit a c)
IsNumeral-decimal (a ∷ b ∷ []) c h =
    two_digits a b _ (omega arith) (first_digit a b [] c) (next_digit a b [] c)
IsNumeral-decimal (a ∷ b ∷ c ∷ []) k h =
    let fa = first_digit a b (c ∷ []) k in
    let fb = next_digit a b (c ∷ []) k in
    let fc = last_digit a b c k in
    hundred a b c _ (omega arith) (omega arith) (omega arith) (omega arith)
IsNumeral-decimal (a ∷ b ∷ c ∷ d ∷ rest) k h =
    let fa = first_digit a b (c ∷ d ∷ rest) k in
    absurd (
      omega (
        arith,
        value_from-le ((((0 + (a - 48)) * 10 + (b - 48)) * 10 + (c - 48)) * 10 + (d - 48)) rest,
      ))

pub percent_or_ok :
    (e : Error) (n : ℕ) → n ≤ 100 → percent_or e (if ltb n (2 ^ 16) then some n else none) ≡ ok n
unfolding percent_or
percent_or_ok e n h =
    let a : ltb n (2 ^ 16) ≡ true = ground arith in
    let b : leb n 100 ≡ true = ground arith in rw (a, b)

pub percent_or_sound :
    (e : Error) (n v : ℕ)
    → percent_or e (if ltb n (2 ^ 16) then some n else none) ≡ ok v
    → (n ≡ v) × (v ≤ 100)
unfolding percent_or
percent_or_sound e n v h = ground arith

parse_sound :
    (text : List ℕ) (v : ℕ) → parse_volume_state text ≡ ok v → volume_state_text v ≡ ok text
unfolding parse_volume_state volume_state_text
parse_sound text v h = elim (Option-cases (strip_newline text)) [
  | inl none_there ↦ cc (rw none_there at h)
  | inr (d, e) ↦ elim (Bool-cases (is_bad_numeral d)) [
    | inl bad ↦ cc (rw (e, bad) at h)
    | inr good ↦
        let (same, small) =
          percent_or_sound Error.state_outside (value_from 0 d) v (rw (e, good) at h) in
        let fits : leb v 100 ≡ true = ground arith in
        let printed = IsNumeral-decimal d good (omega arith) ∙ ap decimal same in
        rw fits
          (ap (λ t. ok (t ++ (10 ∷ []))) (sym printed) ∙ ap ok (sym (strip_newline_sound text e)))
  ]
]

print_sound :
    (text : List ℕ) (v : ℕ) → volume_state_text v ≡ ok text → parse_volume_state text ≡ ok v
unfolding parse_volume_state volume_state_text
print_sound text v h = elim (Bool-cases (leb v 100)) [
  | inr big ↦ cc (rw big at h)
  | inl small ↦
      let e : decimal v ++ (10 ∷ []) ≡ text = cc (rw small at h) in
      rw (← e, strip_newline-append (decimal v), decimal-IsNumeral v, value_from-decimal v)
        (percent_or_ok Error.state_outside v (ground arith))
]

-- The volume's state text and its parser are inverse to each other: a text is read as `v` exactly
-- when `v` is printed so. So every volume up to 100 survives a restart, each has one text only, and
-- no other text is accepted.
pub parse_volume_state_iff :
    (text : List ℕ) (v : ℕ) → (parse_volume_state text ≡ ok v) ↔ (volume_state_text v ≡ ok text)
parse_volume_state_iff text v = (parse_sound text v, print_sound text v)

valid_small : (v : ℕ) → brightness_valid v ≡ true → v ≤ 100
unfolding brightness_valid
valid_small v h = ground arith

brightness_parse :
    (text : List ℕ) (v : ℕ) → parse_brightness_state text ≡ ok v → brightness_state_text v ≡ ok text
unfolding parse_brightness_state brightness_state_text volume_state_text
brightness_parse text v h = read_as (parse_volume_state text) refl h
  where
    read_as :
        (r : Result Error ℕ)
        → parse_volume_state text ≡ r
        → (r >>= λ w. if brightness_valid w then ok w else err Error.brightness_state_step) ≡ ok v
        → (if brightness_valid v then ok (decimal v ++ (10 ∷ [])) else err Error.brightness_step)
          ≡ ok text
    read_as (err e) p q = cc
    read_as (ok w) p q = elim (Bool-cases (brightness_valid w)) [
      | inr bad ↦ cc (rw bad at q)
      | inl good ↦
          let e : w ≡ v = cc (rw good at q) in
          let small : leb w 100 ≡ true = ground (arith, valid_small w) in
          let print = parse_sound text w p in rw (← e, good) (rw small at print)
    ]

brightness_print :
    (text : List ℕ) (v : ℕ) → brightness_state_text v ≡ ok text → parse_brightness_state text ≡ ok v
unfolding parse_brightness_state brightness_state_text volume_state_text
brightness_print text v h = elim (Bool-cases (brightness_valid v)) [
  | inr bad ↦ cc (rw bad at h)
  | inl good ↦
      let small : leb v 100 ≡ true = ground (arith, valid_small v) in
      rw (print_sound text v (rw small (rw good at h)), good)
]

-- A brightness text is read as `v` exactly when `v` is one of the ten steps from 10 to 100 and the
-- text is its print.
pub parse_brightness_state_iff :
    (text : List ℕ) (v : ℕ)
    → (parse_brightness_state text ≡ ok v) ↔ (brightness_state_text v ≡ ok text)
parse_brightness_state_iff text v = (brightness_parse text v, brightness_print text v)
