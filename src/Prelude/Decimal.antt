-- ===== src/Prelude/Decimal.antt =====
-- Byte text: a Rust string is the list of its UTF-8 bytes. Decimal numerals as `format!("{}")`
-- prints them and `parse` reads them, and the tests of the `u8` methods.
use Prim.Native.Char.{code}
use Prim.Native.String.{String}
use Prim.Native.Nat.{ℕ, zero, suc, ◌+◌, ◌-◌, ◌*◌, ◌/◌, ◌%◌, ◌≤◌, ◌<◌}
use mathlib.Core.Path.{subst, ◌≡◌, refl, ap, ◌∙◌}
use mathlib.Core.Logic.{◌≢◌, ◌↔◌, ◌⊎◌, inl, inr}
use mathlib.Core.Bool.{Bool, true, false, ◌&&◌}
use mathlib.Core.List.{List, [], ◌∷◌}
use native.Mathlib.Omega.{arith}
use retrodeck.Prelude.Tests.{ltb, leb, ◌==◌, if◌then◌else◌, Bool-cases}

-- The bytes of a literal. (All literals of the modelled code are ASCII.)
unfoldable pub bytes : String → List ℕ
bytes String.[] = []
bytes (String.◌∷◌ c s) = code c ∷ bytes s

-- `==` on byte slices.
unfoldable pub text_eq : List ℕ → List ℕ → Bool
text_eq [] [] = true
text_eq [] (y ∷ ys) = false
text_eq (x ∷ xs) [] = false
text_eq (x ∷ xs) (y ∷ ys) = x == y && text_eq xs ys

pub text_eq_iff : (xs ys : List ℕ) → (text_eq xs ys ≡ true) ↔ (xs ≡ ys)
unfolding text_eq
text_eq_iff [] [] = (λ h. refl, λ h. refl)
text_eq_iff [] (y ∷ ys) = (λ h. cc, λ h. cc)
text_eq_iff (x ∷ xs) [] = (λ h. cc, λ h. cc)
text_eq_iff (x ∷ xs) (y ∷ ys) =
    (λ h. ground (arith, (text_eq_iff xs ys).0), λ h. ground (arith, (text_eq_iff xs ys).1))

pub text_eq_refl : (xs : List ℕ) → text_eq xs xs ≡ true
text_eq_refl xs = (text_eq_iff xs xs).1 refl

abbrev pub is_ascii_digit : ℕ → Bool
is_ascii_digit b = leb 48 b && leb b 57

-- `bytes().all(|b| b.is_ascii_digit())`
unfoldable pub all_digits : List ℕ → Bool
all_digits [] = true
all_digits (b ∷ bs) = is_ascii_digit b && all_digits bs

-- The number that a text of digits stands for, read behind a number already read.
unfoldable pub value_from : ℕ → List ℕ → ℕ
value_from v [] = v
value_from v (b ∷ bs) = value_from (v * 10 + (b - 48)) bs

pub value_from-le : (v : ℕ) (bs : List ℕ) → v ≤ value_from v bs
unfolding value_from
value_from-le v [] = omega arith
value_from-le v (b ∷ bs) = omega (arith, value_from-le (v * 10 + (b - 48)) bs)

-- `format!("{n}")`: the digits of `n` in front of `acc`. Fuel `n` is enough, as `n / 10 < n`.
decimal_onto : ℕ → ℕ → List ℕ → List ℕ
decimal_onto zero n acc = (48 + n % 10) ∷ acc
decimal_onto (suc fuel) n acc =
    let more = decimal_onto fuel (n / 10) ((48 + n % 10) ∷ acc) in
    if ltb n 10 then (48 + n) ∷ acc else more

unfoldable pub decimal : ℕ → List ℕ
unfolding decimal_onto
decimal n = decimal_onto n n []

value_from-decimal_onto :
    (fuel n : ℕ) (acc : List ℕ)
    → n ≤ fuel
    → value_from 0 (decimal_onto fuel n acc) ≡ value_from n acc
unfolding decimal_onto value_from
value_from-decimal_onto zero zero acc h = refl
value_from-decimal_onto zero (suc n) acc h = absurd (omega arith)
value_from-decimal_onto (suc fuel) n acc h = elim (Bool-cases (ltb n 10)) [
  | inl small ↦ rw small (ap (λ v. value_from v acc) (omega arith))
  | inr big ↦ rw big (
      value_from-decimal_onto fuel (n / 10) ((48 + n % 10) ∷ acc) (ground arith)
      ∙ ap (λ v. value_from v acc) (omega arith))
]

-- Reading a printed number gives the number.
pub value_from-decimal : (n : ℕ) → value_from 0 (decimal n) ≡ n
unfolding decimal value_from
value_from-decimal n = value_from-decimal_onto n n [] (omega arith)

all_digits-decimal_onto :
    (fuel n : ℕ) (acc : List ℕ)
    → all_digits acc ≡ true
    → all_digits (decimal_onto fuel n acc) ≡ true
unfolding decimal_onto all_digits
all_digits-decimal_onto zero n acc h = ground arith
all_digits-decimal_onto (suc fuel) n acc h = elim (Bool-cases (ltb n 10)) [
  | inl small ↦ rw small (ground arith)
  | inr big ↦ rw big (all_digits-decimal_onto fuel (n / 10) ((48 + n % 10) ∷ acc) (ground arith))
]

pub all_digits-decimal : (n : ℕ) → all_digits (decimal n) ≡ true
unfolding decimal all_digits
all_digits-decimal n = all_digits-decimal_onto n n [] refl

-- A printed number starts with a digit, and with `0` only if it is 0.
abbrev pub StartsCanonically : ℕ → List ℕ → Type 0
StartsCanonically n [] = ⊥
StartsCanonically n (b ∷ bs) = (48 < b) ⊎ ((n ≡ 0) × (b ≡ 48) × (bs ≡ []))

decimal_onto_starts :
    (fuel n m : ℕ) (acc : List ℕ) → n ≤ fuel → 0 < n → StartsCanonically m (decimal_onto fuel n acc)
unfolding decimal_onto
decimal_onto_starts zero n m acc h p = absurd (omega arith)
decimal_onto_starts (suc fuel) n m acc h p = elim (Bool-cases (ltb n 10)) [
  | inl small ↦ rw small (inl (ground arith))
  | inr big ↦
      rw big
        (decimal_onto_starts fuel (n / 10) m ((48 + n % 10) ∷ acc) (ground arith) (ground arith))
]

pub decimal_starts : (n : ℕ) → StartsCanonically n (decimal n)
unfolding decimal
decimal_starts zero = inr (refl, refl, refl)
decimal_starts (suc n) = decimal_onto_starts (suc n) (suc n) (suc n) [] (omega arith) (omega arith)

pub decimal_ne_nil : (n : ℕ) → decimal n ≢ []
decimal_ne_nil n e = subst (StartsCanonically n) e (decimal_starts n)

-- The print of a number below 100, as its digits.
pub decimal_one : (n : ℕ) → n < 10 → decimal n ≡ (48 + n) ∷ []
unfolding decimal
decimal_one zero h = refl
decimal_one (suc n) h = ground arith

pub decimal_two : (n : ℕ) → 10 ≤ n → n < 100 → decimal n ≡ (48 + n / 10) ∷ (48 + n % 10) ∷ []
unfolding decimal decimal_onto
decimal_two zero lo hi = absurd (omega arith)
decimal_two (suc zero) lo hi = absurd (omega arith)
decimal_two (suc (suc n)) lo hi =
    let big : ltb (suc (suc n)) 10 ≡ false = ground arith in
    let small : ltb (suc (suc n) / 10) 10 ≡ true = ground arith in rw (big, small)
