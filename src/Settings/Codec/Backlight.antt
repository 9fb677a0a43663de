-- ===== src/Settings/Codec/Backlight.antt =====
-- The scale of the backlight: `brightness_raw_value` and `observed_brightness_percent` of
-- native/src/dashboard/settings.rs.
use native.Mathlib.Nat.{div-lt_iff_lt-mul, le-div_iff_mul-le}
use retrodeck.Prelude.{
  ℕ, zero, suc, ◌+◌, ◌-◌, ◌*◌, ◌/◌, ◌%◌, ◌^◌, ◌≤◌, ◌<◌, ◌≡◌, true, ◌==◌, if◌then◌else◌, arith,
}
use retrodeck.Prelude.Result.{ok}
use retrodeck.Settings.Codec.{
  clamp, brightness_valid, brightness_raw_value, observed_brightness_percent,
}

-- The raw value is within 1 and the maximum.
raw_value-within :
    (percent maximum : ℕ)
    → 0 < maximum
    → (1 ≤ brightness_raw_value percent maximum) × (brightness_raw_value percent maximum ≤ maximum)
unfolding brightness_raw_value
raw_value-within percent maximum h = ground arith

times_ten : (k m : ℕ) → 1 ≤ k → k ≤ 10 → (m ≤ k * m) × (k * m ≤ 10 * m)
times_ten k m lo hi = grind arith

-- The quotient that rounds to the nearest.
raw_value-bounds :
    (k maximum : ℕ)
    → 1 ≤ k
    → k ≤ 10
    → 10 ≤ maximum
    → maximum < 2 ^ 32
    → (k * maximum ≤ 10 * brightness_raw_value (10 * k) maximum + 5)
      × (10 * brightness_raw_value (10 * k) maximum ≤ k * maximum + 5)
unfolding brightness_raw_value
raw_value-bounds k maximum lo hi big small =
    let a = times_ten k maximum lo hi in
    let same : 10 * k * maximum ≡ 10 * (k * maximum) = grind arith in
    rw same (scaled (k * maximum) a.0 a.1)
  where
    scaled :
        (m : ℕ)
        → maximum ≤ m
        → m ≤ 10 * maximum
        → (m
            ≤ 10 * (if maximum == 0 then 0 else clamp 1 maximum ((10 * m + 50) / 100 % 2 ^ 32)) + 5)
          × (10 * (if maximum == 0 then 0 else clamp 1 maximum ((10 * m + 50) / 100 % 2 ^ 32))
              ≤ m + 5)
    scaled m low high = ground arith

observed-within :
    (current maximum k : ℕ)
    → current ≤ maximum
    → 1 ≤ k
    → k ≤ 10
    → (10 * k - 5) * maximum ≤ current * 100 + maximum / 2
    → current * 100 + maximum / 2 < (10 * k + 5) * maximum
    → observed_brightness_percent current maximum ≡ ok (10 * k)
unfolding observed_brightness_percent
observed-within current maximum k fits lo hi low high =
    let some_maximum : 0 < maximum = grind arith in
    let floor = (le-div_iff_mul-le some_maximum).1 low in
    let ceiling = (div-lt_iff_lt-mul some_maximum).1 high in ground arith

valid-tens : (p : ℕ) → brightness_valid p ≡ true → (k : ℕ) × (1 ≤ k) × (k ≤ 10) × (p ≡ 10 * k)
unfolding brightness_valid
valid-tens p h = (p / 10, ground arith, ground arith, ground arith)

less_five : (k m : ℕ) → 1 ≤ k → (10 * k - 5) * m + 5 * m ≡ 10 * (k * m)
less_five zero m h = absurd (omega arith)
less_five (suc k) m h =
    let same : 10 * suc k - 5 ≡ 10 * k + 5 = omega arith in
    let product : (10 * k + 5) * m + 5 * m ≡ 10 * (suc k * m) = grind arith in rw same product

-- On a backlight of at least 12 steps, a brightness that is written to the device is the one
-- observed from it.
pub observed-raw_value :
    (percent maximum : ℕ)
    → brightness_valid percent ≡ true
    → 12 ≤ maximum
    → maximum < 2 ^ 32
    → observed_brightness_percent (brightness_raw_value percent maximum) maximum ≡ ok percent
observed-raw_value percent maximum h big small =
    let (k, lo, hi, same) = valid-tens percent h in
    let a = raw_value-bounds k maximum lo hi (omega arith) small in
    let b = raw_value-within (10 * k) maximum (omega arith) in
    let five = less_five k maximum lo in
    let low : (10 * k - 5) * maximum ≤ brightness_raw_value (10 * k) maximum * 100 + maximum / 2 =
      grind arith in
    let high : brightness_raw_value (10 * k) maximum * 100 + maximum / 2 < (10 * k + 5) * maximum =
      grind arith in
    rw same (observed-within (brightness_raw_value (10 * k) maximum) maximum k b.1 lo hi low high)
