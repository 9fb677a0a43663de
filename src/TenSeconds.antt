-- ===== src/TenSeconds.antt =====
-- The 10 Seconds game: native/src/ten_seconds.rs. Times are nanoseconds of the monotonic clock, a
-- `u64`; `u64` and `u16` values are numbers, with the saturation of the source written out.
pub mod Volume
pub mod Timer
pub mod Poll
mod Examples
use retrodeck.Prelude.{
  ℕ, ◌+◌, ◌-◌, ◌*◌, ◌/◌, ◌%◌, ◌^◌, min, Bool, true, false, not, length, take, ◌&&◌, ◌||◌, List, [],
  ◌∷◌, ◌++◌, map, Option, none, some, ltb, leb, ◌==◌, if◌then◌else◌,
}
use retrodeck.Prelude.Decimal.{decimal}
use retrodeck.Prelude.Int.{ℤ, pos, leb_ℤ}
use retrodeck.Input.{ControlReport, TouchReport, gamepad_report, has_button_a}

abbrev pub centisecond_ns : ℕ
centisecond_ns = 10_000_000

abbrev pub redraw_ns : ℕ
redraw_ns = 33_000_000

abbrev pub limit : ℕ
limit = 9999

abbrev pub u64_max : ℕ
u64_max = 2 ^ 64 - 1

pub data Mode : Type 0 where
  ready running stopped : Mode

pub data Event : Type 0 where
  tick touch controller_a back : Event

pub data Cue : Type 0 where
  start exact miss : Cue

pub record State : Type 0 where
  pub mode : Mode
  pub displayed : ℕ
  pub started_at : ℕ
  pub redraw_at : ℕ

pub record Effect : Type 0 where
  pub redraw : Bool
  pub cue : Option Cue
  pub result : Option (ℕ × Event)
  pub exit : Bool

abbrev pub initial : State
initial = record { mode = ready; displayed = 0; started_at = 0; redraw_at = 0 }

abbrev pub no_effect : Effect
no_effect = record { redraw = false; cue = none; result = none; exit = false }

-- `format!("{:02}", n)`
pad_two : ℕ → List ℕ
pad_two n = if ltb n 10 then 48 ∷ decimal n else decimal n

pub format_time : ℕ → List ℕ
format_time centiseconds =
    let shown = min centiseconds limit in pad_two (shown / 100) ++ (46 ∷ pad_two (shown % 100))

-- `saturating_sub` is the subtraction of ℕ.
pub elapsed : State → ℕ → ℕ
elapsed s now = min ((now - s.started_at) / centisecond_ns) limit

saturating_add : ℕ → ℕ → ℕ
saturating_add a b = min (a + b) u64_max

press : Event → Mode → State → ℕ → State × Effect
unfolding elapsed
press event running s now = (
  record s { displayed = elapsed s now; mode = stopped; redraw_at = 0 },
  record {
    redraw = true;
    cue = some (if elapsed s now == 1000 then exact else miss);
    result = some (elapsed s now, event);
    exit = false;
  },
)
press event _ s now = (
  record { mode = running; displayed = 0; started_at = now; redraw_at = now },
  record no_effect { redraw = true; cue = some start },
)

tick_running : State → ℕ → State × Effect
unfolding elapsed saturating_add
tick_running s now =
    if leb s.redraw_at now
    then (
      record s { displayed = elapsed s now; redraw_at = saturating_add now redraw_ns },
      record no_effect { redraw = true },
    )
    else (s, no_effect)

tick_in : Mode → State → ℕ → State × Effect
unfolding tick_running
tick_in running s now = tick_running s now
tick_in _ s now = (s, no_effect)

pub apply : State → Event → ℕ → State × Effect
unfolding press tick_in
apply s back now = (s, record no_effect { exit = true })
apply s tick now = tick_in s.mode s now
apply s touch now = press touch s.mode s now
apply s controller_a now = press controller_a s.mode s now

-- The `Back` box of the screen.
pub in_back : ℤ → ℤ → Bool
in_back x y = leb_ℤ (pos 16) x && leb_ℤ x (pos 167) && leb_ℤ (pos 16) y && leb_ℤ y (pos 79)

any_back : List TouchReport → Bool
any_back [] = false
any_back (t ∷ ts) = (t.pressed && in_back t.x t.y) || any_back ts

any_button_a : List ControlReport → Bool
any_button_a [] = false
any_button_a (r ∷ rs) = (r.kind == gamepad_report && has_button_a r.value) || any_button_a rs

touch_events : List TouchReport → List Event
touch_events [] = []
touch_events (t ∷ ts) = if t.pressed then touch ∷ touch_events ts else touch_events ts

pub input_events : List ControlReport → List TouchReport → List Event
unfolding any_back any_button_a touch_events in_back
input_events reports touches =
    if any_back touches
    then back ∷ []
    else if any_button_a reports
    then controller_a ∷ []
    else touch_events touches

-- The loop of `run` over one poll's events, each with the time at which it is handled: it returns
-- at the first effect that exits, and else gathers whether to redraw.
pub handle_events : State → List (Event × ℕ) → State × Bool × Bool
handle_events s [] = (s, false, false)
handle_events s ((event, now) ∷ events) =
    let (s', effect) = apply s event now in
    let (last, dirty, exit) = handle_events s' events in
    if effect.exit then (s', false, true) else (last, effect.redraw || dirty, exit)

-- The events with the times at which the loop handles them.
stamp : List Event → List ℕ → List (Event × ℕ)
stamp [] times = []
stamp (e ∷ es) [] = (e, 0) ∷ stamp es []
stamp (e ∷ es) (now ∷ times) = (e, now) ∷ stamp es times

-- What a turn of the loop of `run` meets: whether its poll works, the answer of the poll, the queues
-- of reports, and the times at which the events are handled.
pub record Polled : Type 0 where
  pub dispatched : Bool
  pub control_count : ℕ
  pub touch_count : ℕ
  pub touch_lost : Bool
  pub shutdown : Bool
  pub reports : List ControlReport
  pub touches : List TouchReport
  pub times : List ℕ

-- A turn goes on, with whether to redraw; it returns from `run`, at the Back box or with an error; or
-- it breaks off the loop.
pub data Turn : Type 0 where
  goes_on : State → Bool → Turn
  exits : State → Turn
  fails breaks : Turn

handled : State × Bool × Bool → Turn
handled (s, dirty, true) = Turn.exits s
handled (s, dirty, false) = Turn.goes_on s dirty

-- The poll works, and no queue ends early.
poll_works : Polled → Bool
poll_works p =
    p.dispatched && leb p.control_count (length p.reports) && leb p.touch_count (length p.touches)

-- The rest of a turn, from its poll on.
pub poll_step : State → Polled → Turn
unfolding input_events handle_events stamp handled poll_works
poll_step s p =
    if not (poll_works p) || p.touch_lost
    then Turn.fails
    else if p.shutdown
    then Turn.breaks
    else handled (
        handle_events s (
          stamp (input_events (take p.control_count p.reports) (take p.touch_count p.touches))
            p.times))
