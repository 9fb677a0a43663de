-- ===== src/TenSeconds/Timer.antt =====
-- The timer of native/src/ten_seconds.rs: `State::apply`, `State::elapsed` and `format_time`.
use retrodeck.Prelude.{
  ℕ, ◌+◌, ◌-◌, ◌/◌, ◌%◌, ◌≤◌, ◌<◌, min, ◌≡◌, refl, ◌≢◌, ◌↔◌, ◌⊎◌, inl, inr, true, List, [], ◌∷◌,
  some, ◌==◌, ltb, if◌then◌else◌, arith, Bool-cases,
}
use retrodeck.Prelude.Decimal.{decimal_one, decimal_two}
use retrodeck.TenSeconds.{
  State, Event, Effect, running, stopped, tick, touch, controller_a, exact, miss, centisecond_ns,
  redraw_ns, limit, u64_max, initial, apply, format_time, pad_two,
}

-- The events that start and stop the timer.
abbrev pub IsPress : Event → Type 0
IsPress e = (e ≡ touch) ⊎ (e ≡ controller_a)

-- Centiseconds from one time to another, as the display counts them.
abbrev pub score : ℕ → ℕ → ℕ
score t0 t1 = min ((t1 - t0) / centisecond_ns) limit

pub ticks : State → List ℕ → State
ticks s [] = s
ticks s (now ∷ times) = ticks (apply s tick now).0 times

pub record Runs (t0 : ℕ) (s : State) : Type 0 where
  pub mode : s.mode ≡ running
  pub since : s.started_at ≡ t0

apply-press_Runs :
    (s : State) (e : Event) (t0 : ℕ) → s.mode ≢ running → IsPress e → Runs t0 (apply s e t0).0
unfolding apply
apply-press_Runs s e t0 idle p = ground arith

apply-tick_Runs : (s : State) (t0 now : ℕ) → Runs t0 s → Runs t0 (apply s tick now).0
unfolding apply
apply-tick_Runs s t0 now r = ground arith

ticks-Runs : (s : State) (t0 : ℕ) (times : List ℕ) → Runs t0 s → Runs t0 (ticks s times)
unfolding ticks
ticks-Runs s t0 [] r = r
ticks-Runs s t0 (now ∷ times) r =
    ticks-Runs (apply s tick now).0 t0 times (apply-tick_Runs s t0 now r)

abbrev pub Scores : ℕ → Event → State × Effect → Type 0
Scores cs e (s, effect) =
    (effect.result ≡ some (cs, e))
    × (effect.cue ≡ some (if cs == 1000 then exact else miss))
    × (s.mode ≡ stopped)
    × (s.displayed ≡ cs)

apply-Scores :
    (s : State) (e : Event) (t0 t1 : ℕ)
    → IsPress e
    → Runs t0 s
    → Scores (score t0 t1) e (apply s e t1)
unfolding apply
apply-Scores s e t0 t1 p r = ground arith

-- A round: a press while the timer is not running starts it, any number of ticks at any times
-- follow, and the next press, by either input, stops it. The result reported, shown and judged is
-- the number of whole centiseconds between the two presses, at most 9999, whatever the ticks were.
pub round-Scores :
    (s : State) (e1 e2 : Event) (t0 t1 : ℕ) (times : List ℕ)
    → s.mode ≢ running
    → IsPress e1
    → IsPress e2
    → Scores (score t0 t1) e2 (apply (ticks (apply s e1 t0).0 times) e2 t1)
round-Scores s e1 e2 t0 t1 times idle p1 p2 =
    apply-Scores (ticks (apply s e1 t0).0 times) e2 t0 t1 p2
      (ticks-Runs (apply s e1 t0).0 t0 times (apply-press_Runs s e1 t0 idle p1))

-- While the timer runs, a tick that redraws is followed by the next redraw at the first tick that
-- is 33 ms later or more, and at none before (short of the end of the 64-bit clock).
pub tick_spacing :
    (s : State) (now later : ℕ)
    → (apply s tick now).1.redraw ≡ true
    → now + redraw_ns ≤ u64_max
    → ((apply (apply s tick now).0 tick later).1.redraw ≡ true) ↔ (now + redraw_ns ≤ later)
unfolding apply
tick_spacing s now later drawn fits = (λ h. ground arith, λ h. ground arith)

-- What holds between events: the display is a possible time, and a redraw is due only in a run.
pub record Inv (s : State) : Type 0 where
  pub shown : s.displayed ≤ limit
  pub due : (s.mode ≡ running) ⊎ (s.redraw_at ≡ 0)

apply-Inv : (s : State) (e : Event) (now : ℕ) → Inv s → Inv (apply s e now).0
unfolding apply
apply-Inv s e now v = ground arith

pub run_events : State → List (Event × ℕ) → State
run_events s [] = s
run_events s ((e, now) ∷ events) = run_events (apply s e now).0 events

run_events-Inv : (s : State) (events : List (Event × ℕ)) → Inv s → Inv (run_events s events)
unfolding run_events
run_events-Inv s [] v = v
run_events-Inv s ((e, now) ∷ events) v =
    run_events-Inv (apply s e now).0 events (apply-Inv s e now v)

-- From the start, whatever events come at whatever times, also by a clock that runs backwards, the
-- display stays within 99.99 seconds, and no redraw is scheduled unless the timer runs.
pub run_events-initial-Inv : (events : List (Event × ℕ)) → Inv (run_events initial events)
run_events-initial-Inv events =
    run_events-Inv initial events (record { shown = omega arith; due = inr refl })

pad_two_lem : (n : ℕ) → n < 100 → pad_two n ≡ (48 + n / 10) ∷ (48 + n % 10) ∷ []
unfolding pad_two
pad_two_lem n h = elim (Bool-cases (ltb n 10)) [
  | inl small ↦
      rw (small, decimal_one n (ground arith))
        (let e : 48 ≡ 48 + n / 10 = ground arith in
          let f : 48 + n ≡ 48 + n % 10 = ground arith in λ i. e i ∷ f i ∷ [])
  | inr big ↦ rw big (decimal_two n (ground arith) h)
]

-- The clock face always has two digits, a point and two digits, those of the time capped at 99.99.
pub format_time_digits :
    (cs : ℕ)
    → let shown = min cs limit in
      format_time cs
      ≡ (48 + shown / 1000)
        ∷ (48 + shown / 100 % 10)
        ∷ 46
        ∷ (48 + shown / 10 % 10)
        ∷ (48 + shown % 10)
        ∷ []
unfolding format_time
format_time_digits cs =
    let m = min cs limit in
    rw (pad_two_lem (m / 100) (omega arith), pad_two_lem (m % 100) (omega arith))
      (let e : 48 + m / 100 / 10 ≡ 48 + m / 1000 = omega arith in
        let f : 48 + m % 100 / 10 ≡ 48 + m / 10 % 10 = omega arith in
        let g : 48 + m % 100 % 10 ≡ 48 + m % 10 = omega arith in
        λ i. e i ∷ (48 + m / 100 % 10) ∷ 46 ∷ f i ∷ g i ∷ [])
