-- ===== src/GameAudio/Gain.antt =====
-- The arithmetic on samples of native/src/game_audio.rs: mixing, gain and interpolation stay within
-- the bounds of the samples, so no conversion to `i16` loses anything.
use retrodeck.Prelude.{
  ℕ, zero, suc, ◌+◌, ◌-◌, ◌*◌, ◌/◌, ◌%◌, ◌^◌, ◌≤◌, ◌<◌, ◌≡◌, List, [], ◌∷◌, leb, length, get_or,
  arith, Bool-cases, inl, inr,
}
use retrodeck.Prelude.Int.{
  ℤ, pos, negsuc, pos_part, neg_part, sub_ℕ, ◌+ℤ◌, ◌-ℤ◌, ◌*ℤ◌, ◌≤ℤ◌, int_laws, -ℤ_parts,
}
use retrodeck.GameAudio.{quot, shift_16, clamp, scale_sample, mix, interpolate}

-- `lo ≤ x ≤ hi`.
abbrev pub Within : ℤ → ℤ → ℤ → Type 0
Within lo hi x = (lo ≤ℤ x) × (x ≤ℤ hi)

abbrev pub AllWithin : ℤ → ℤ → List ℤ → Type 0
AllWithin lo hi [] = Unit {0}
AllWithin lo hi (x ∷ xs) = Within lo hi x × AllWithin lo hi xs

-- Between 0 and `d`, on either side.
abbrev Towards : ℤ → ℤ → Type 0
Towards (pos n) x = Within (pos 0) (pos n) x
Towards (negsuc n) x = Within (negsuc n) (pos 0) x

div-le_of : (n m k : ℕ) → 0 < k → n ≤ m * k → n / k ≤ m
div-le_of n m k p h = grind arith

mul_le : (n f k : ℕ) → f ≤ k → n * f ≤ n * k
mul_le n f k h = grind arith

pos_mul : (n f : ℕ) → pos n *ℤ pos f ≡ pos (n * f)
unfolding ◌*ℤ◌
pos_mul n f = ground arith

negsuc_mul : (n f : ℕ) → negsuc n *ℤ pos f ≡ sub_ℕ 0 (suc n * f)
unfolding ◌*ℤ◌
negsuc_mul n f = ground arith

shift_neg : (m n : ℕ) → m ≤ suc n * 65536 → Towards (negsuc n) (shift_16 (sub_ℕ 0 m))
unfolding shift_16
shift_neg zero n h = omega arith
shift_neg (suc m) n h = ground arith

quot_neg : (m n : ℕ) → m ≤ suc n * 100 → Towards (negsuc n) (quot (sub_ℕ 0 m) 100)
unfolding quot ◌-ℤ◌
quot_neg zero n h = omega arith
quot_neg (suc m) n h = ground arith

shift_16-Towards : (d : ℤ) (f : ℕ) → f < 65536 → Towards d (shift_16 (d *ℤ pos f))
unfolding shift_16
shift_16-Towards (pos n) f h = rw (pos_mul n f) (omega (arith, mul_le n f 65536))
shift_16-Towards (negsuc n) f h =
    rw (negsuc_mul n f) (shift_neg (suc n * f) n (mul_le (suc n) f 65536 (omega arith)))

quot_100-Towards : (d : ℤ) (p : ℕ) → p ≤ 100 → Towards d (quot (d *ℤ pos p) 100)
unfolding quot
quot_100-Towards (pos n) p h = rw (pos_mul n p) (omega (arith, mul_le n p 100))
quot_100-Towards (negsuc n) p h =
    rw (negsuc_mul n p) (quot_neg (suc n * p) n (mul_le (suc n) p 100 h))

-- What lies between 0 and `d` lies within bounds around 0 that hold `d`.
Towards-Within :
    (lo hi d x : ℤ) → lo ≤ℤ pos 0 → pos 0 ≤ℤ hi → Within lo hi d → Towards d x → Within lo hi x
Towards-Within lo hi (pos n) x l h w t = omega arith
Towards-Within lo hi (negsuc n) x l h w t = omega arith

abbrev pub i16_min : ℤ
i16_min = negsuc 32767

abbrev pub i16_max : ℤ
i16_max = pos 32767

clamp-Within : (x : ℤ) → Within i16_min i16_max x → clamp i16_min i16_max x ≡ x
unfolding clamp
clamp-Within x w = ground arith

-- Bounds on samples: around 0, and within an `i16`.
pub record IsRange (lo hi : ℤ) : Type 0 where
  pub low : i16_min ≤ℤ lo
  pub below : lo ≤ℤ pos 0
  pub above : pos 0 ≤ℤ hi
  pub high : hi ≤ℤ i16_max

Within-i16 : (lo hi x : ℤ) → IsRange lo hi → Within lo hi x → Within i16_min i16_max x
Within-i16 lo hi x r w = omega (arith, r.low, r.high)

scale_sample-Within :
    (lo hi x : ℤ) (p : ℕ)
    → IsRange lo hi
    → p ≤ 100
    → Within lo hi x
    → Within lo hi (scale_sample x (pos p))
unfolding scale_sample
scale_sample-Within lo hi x p r h w =
    let gained = Towards-Within lo hi x _ r.below r.above w (quot_100-Towards x p h) in
    rw (clamp-Within _ (Within-i16 lo hi _ r gained)) gained

quot_2-Within :
    (lo hi x : ℤ)
    → Within (lo +ℤ lo) (hi +ℤ hi) x
    → lo ≤ℤ pos 0
    → pos 0 ≤ℤ hi
    → Within lo hi (quot x 2)
unfolding quot
quot_2-Within lo hi (pos n) w l h = omega int_laws
quot_2-Within lo hi (negsuc n) w l h = omega int_laws

-- Mixed and scaled samples keep within the bounds of the stereo samples.
pub mix-AllWithin :
    (lo hi : ℤ) (p : ℕ) (samples : List ℤ)
    → IsRange lo hi
    → p ≤ 100
    → AllWithin lo hi samples
    → AllWithin lo hi (mix (pos p) samples)
unfolding mix
mix-AllWithin lo hi p [] r h w = tt
mix-AllWithin lo hi p (left ∷ []) r h w = tt
mix-AllWithin lo hi p (left ∷ right ∷ samples) r h w =
    let mixed =
      quot_2-Within lo hi (left +ℤ right) (omega (int_laws, w.0, w.1.0)) r.below r.above in
    (
      scale_sample-Within lo hi (quot (left +ℤ right) 2) p r h mixed,
      mix-AllWithin lo hi p samples r h w.1.1,
    )

step_of_parts :
    (lo hi a b d x : ℤ)
    → Within lo hi a
    → Within lo hi b
    → pos_part d + neg_part b + pos_part a ≡ neg_part d + pos_part b + neg_part a
    → Towards d x
    → Within lo hi (a +ℤ x)
step_of_parts lo hi a b (pos n) x wa wb e t = omega int_laws
step_of_parts lo hi a b (negsuc n) x wa wb e t = omega int_laws

-- A value `a + x` with `x` between 0 and `b - a` lies where `a` and `b` lie.
step-Within :
    (lo hi a b x : ℤ) → Within lo hi a → Within lo hi b → Towards (b -ℤ a) x → Within lo hi (a +ℤ x)
step-Within lo hi a b x wa wb t = step_of_parts lo hi a b (b -ℤ a) x wa wb (-ℤ_parts b a) t

pub get_or-Within :
    (lo hi : ℤ) (xs : List ℤ) (i : ℕ)
    → AllWithin lo hi xs
    → i < length xs
    → Within lo hi (get_or xs i (pos 0))
get_or-Within lo hi [] i w h = absurd (omega arith)
get_or-Within lo hi (x ∷ xs) zero w h = w.0
get_or-Within lo hi (x ∷ xs) (suc i) w h = get_or-Within lo hi xs i w.1 (omega arith)

-- At any position, an interpolated sample lies within all bounds that hold the block's samples: the
-- two samples that it reads are in the block, and it lies between them.
pub interpolate-Within :
    (lo hi : ℤ) (mono : List ℤ) (position : ℕ)
    → 0 < length mono
    → AllWithin lo hi mono
    → Within lo hi (interpolate mono position)
unfolding interpolate
interpolate-Within lo hi mono position h w =
    elim (Bool-cases (leb (length mono - 1) (position / 2 ^ 32))) [
      | inl past ↦ rw past (get_or-Within lo hi mono (length mono - 1) w (omega arith))
      | inr inside ↦
          let first = get_or-Within lo hi mono (position / 2 ^ 32) w (ground arith) in
          let second = get_or-Within lo hi mono (position / 2 ^ 32 + 1) w (ground arith) in
          let near =
            shift_16-Towards
              (get_or mono (position / 2 ^ 32 + 1) (pos 0)
                -ℤ get_or mono (position / 2 ^ 32) (pos 0))
              (position / 2 ^ 16 % 65536) (omega arith) in
          rw inside
            (step-Within lo hi (get_or mono (position / 2 ^ 32) (pos 0)) _ _ first second near)
    ]
