-- ===== src/DoomInput/Mapping.antt =====
-- Which Linux key codes native/src/doom_input.rs samples and translates.
use retrodeck.Prelude.{
  ℕ, zero, suc, ◌≤◌, ◌<◌, ◌≡◌, refl, sym, inl, inr, Bool, true, false, ◌&&◌, ◌||◌, List, [], ◌∷◌,
  Option, none, some, ltb, ◌==◌, arith, Bool-cases,
}
use retrodeck.Prelude.Decimal.{bytes}
use retrodeck.DoomInput.{
  keyboard_codes, keyboard_key, find_key, letter_key, find_letter, digit_key, punctuation_key,
  function_key, codes_from, row_codes, insert, sort, dedup_after, dedup,
}

pub is_in : ℕ → List ℕ → Bool
is_in code [] = false
is_in code (c ∷ codes) = c == code || is_in code codes

abbrev pub is_translated : Option (ℕ × ℕ) → Bool
is_translated none = false
is_translated (some key) = true

same : Bool → Bool → Bool
same true b = b
same false true = false
same false false = true

same_eq : (a b : Bool) → same a b ≡ true → a ≡ b
unfolding same
same_eq true b h = sym h
same_eq false true h = absurd (cc h)
same_eq false false h = refl

agrees : ℕ → Bool
agrees code = same (is_in code keyboard_codes) (is_translated (keyboard_key code))

all_below : ℕ → (ℕ → Bool) → Bool
all_below zero test = true
all_below (suc n) test = test n && all_below n test

below : (n : ℕ) (test : ℕ → Bool) → all_below n test ≡ true → (i : ℕ) → i < n → test i ≡ true
unfolding all_below
below zero test h i k = absurd (omega arith)
below (suc n) test h i k = elim (Bool-cases (i == n)) [
  | inl last ↦ let e : i ≡ n = ground arith in rw e (ground arith)
  | inr other ↦ below n test (ground arith) i (ground arith)
]

low_agree : all_below 128 agrees ≡ true
unfolding all_below agrees same is_in keyboard_codes keyboard_key find_key letter_key find_letter
    digit_key punctuation_key function_key codes_from row_codes insert sort dedup_after dedup bytes
low_agree = refl

high_codes : (code : ℕ) → 128 ≤ code → is_in code keyboard_codes ≡ false
unfolding is_in keyboard_codes codes_from row_codes insert sort dedup_after dedup bytes
high_codes code h = ground arith

high_keys : (code : ℕ) → 128 ≤ code → keyboard_key code ≡ none
unfolding keyboard_key find_key letter_key find_letter digit_key punctuation_key function_key bytes
high_keys code h = ground arith

-- The poller samples exactly the key codes that the mapping translates.
pub is_in-keyboard_codes :
    (code : ℕ) → is_in code keyboard_codes ≡ is_translated (keyboard_key code)
unfolding agrees
is_in-keyboard_codes code = elim (Bool-cases (ltb code 128)) [
  | inl low ↦
      same_eq (is_in code keyboard_codes) (is_translated (keyboard_key code))
        (below 128 agrees low_agree code (ground arith))
  | inr high ↦
      let far : 128 ≤ code = ground arith in rw (high_codes code far, high_keys code far) refl
]
