-- ===== src/TenSeconds/Poll.antt =====
-- One poll's input in native/src/ten_seconds.rs: `input_events` and the event loop of `run`.
use retrodeck.Prelude.{
  ◌⊎◌, ℕ, ◌≡◌, refl, ◌≢◌, inl, inr, Bool, true, false, not, ◌&&◌, ◌||◌, take, List, [], ◌∷◌, arith,
  Bool-cases,
}
use retrodeck.Input.{ControlReport, TouchReport}
use retrodeck.TenSeconds.{
  State, Event, tick, touch, controller_a, back, apply, input_events, handle_events, any_back,
  any_button_a, touch_events, in_back, stamp, Polled, Turn, handled, poll_works, poll_step,
}

-- Some touch of the poll is a press inside the Back box.
pub data PressesBack : List TouchReport → Type 0 where
  this :
      (t : TouchReport) (ts : List TouchReport)
      → t.pressed ≡ true
      → in_back t.x t.y ≡ true
      → PressesBack (t ∷ ts)
  later : (t : TouchReport) {ts : List TouchReport} → PressesBack ts → PressesBack (t ∷ ts)

any_back-of-PressesBack : {ts : List TouchReport} → PressesBack ts → any_back ts ≡ true
unfolding any_back
any_back-of-PressesBack (this t ts p b) = ground arith
any_back-of-PressesBack (later t {ts = ts} h) = ground (arith, any_back-of-PressesBack h)

PressesBack_of_any_back : (ts : List TouchReport) → any_back ts ≡ true → PressesBack ts
unfolding any_back
PressesBack_of_any_back [] h = cc
PressesBack_of_any_back (t ∷ ts) h = elim (Bool-cases (t.pressed && in_back t.x t.y)) [
  | inl hit ↦ this t ts (ground arith) (ground arith)
  | inr miss ↦ later t (PressesBack_of_any_back ts (rw miss at h))
]

abbrev poll : State → List ControlReport → List TouchReport → List ℕ → State × Bool × Bool
poll s reports touches times = handle_events s (stamp (input_events reports touches) times)

-- No event of the list leaves the game.
abbrev Stays : List Event → Type 0
Stays [] = Unit {0}
Stays (e ∷ es) = (e ≢ back) × Stays es

apply_stay : (s : State) (e : Event) (now : ℕ) → e ≢ back → (apply s e now).1.exit ≡ false
unfolding apply
apply_stay s tick now h = ground arith
apply_stay s touch now h = ground arith
apply_stay s controller_a now h = ground arith
apply_stay s back now h = absurd (h refl)

handle_events_stay :
    (s : State) (es : List Event) (times : List ℕ)
    → Stays es
    → (handle_events s (stamp es times)).2 ≡ false
unfolding handle_events stamp
handle_events_stay s [] times h = refl
handle_events_stay s (e ∷ es) [] h =
    rw (apply_stay s e 0 h.0) (handle_events_stay (apply s e 0).0 es [] h.1)
handle_events_stay s (e ∷ es) (now ∷ times) h =
    rw (apply_stay s e now h.0) (handle_events_stay (apply s e now).0 es times h.1)

touch_events-Stays : (ts : List TouchReport) → Stays (touch_events ts)
unfolding touch_events
touch_events-Stays [] = tt
touch_events-Stays (t ∷ ts) = elim (Bool-cases t.pressed) [
  | inl p ↦ rw p ((λ e. cc), touch_events-Stays ts)
  | inr p ↦ rw p (touch_events-Stays ts)
]

ap_0 : {p q : State × Bool × Bool} → p ≡ q → p.0 ≡ q.0
ap_0 h = λ i. (h i).0

ap_2 : {p q : State × Bool × Bool} → p ≡ q → p.2 ≡ q.2
ap_2 h = λ i. (h i).2

poll_back :
    (s : State) (reports : List ControlReport) (touches : List TouchReport) (times : List ℕ)
    → any_back touches ≡ true
    → poll s reports touches times ≡ (s, false, true)
unfolding input_events handle_events apply stamp
poll_back s reports touches [] h = rw h
poll_back s reports touches (now ∷ times) h = rw h

poll_stay :
    (s : State) (reports : List ControlReport) (touches : List TouchReport) (times : List ℕ)
    → any_back touches ≡ false
    → (poll s reports touches times).2 ≡ false
unfolding input_events
poll_stay s reports touches times h = elim (Bool-cases (any_button_a reports)) [
  | inl a ↦ rw (h, a) (handle_events_stay s (controller_a ∷ []) times ((λ e. cc), tt))
  | inr a ↦
      rw (h, a) (handle_events_stay s (touch_events touches) times (touch_events-Stays touches))
]

-- The poll works, the touchscreen is still there, and nobody asks for the end.
abbrev pub brings_input : Polled → Bool
unfolding poll_works
brings_input p = poll_works p && not p.touch_lost && not p.shutdown

abbrev pub has_exited : Turn → Bool
has_exited (Turn.exits s) = true
has_exited t = false

handled-stay : (r : State × Bool × Bool) → r.2 ≡ false → has_exited (handled r) ≡ false
unfolding handled
handled-stay (s, dirty, true) h = h
handled-stay (s, dirty, false) h = h

-- A poll lets the player leave the game exactly when it works, the touchscreen is not lost, no end is
-- asked for, and one of the touches that it counts is a press inside the Back box, whatever else the
-- touches and the controllers report. It then leaves the timer as it was.
pub poll_step-PressesBack :
    (s : State) (p : Polled)
    → ((brings_input p ≡ true)
        × PressesBack (take p.touch_count p.touches)
        × (poll_step s p ≡ Turn.exits s))
      ⊎ (¬ ((brings_input p ≡ true) × PressesBack (take p.touch_count p.touches))
          × (has_exited (poll_step s p) ≡ false))
unfolding poll_step poll_works handled
poll_step-PressesBack s p =
    let reports = take p.control_count p.reports in
    let touches = take p.touch_count p.touches in
    elim (Bool-cases (not (poll_works p) || p.touch_lost)) [
      | inl down ↦ inr ((λ h. absurd (ground arith)), rw down refl)
      | inr up ↦ elim (Bool-cases p.shutdown) [
        | inl over ↦ inr ((λ h. absurd (ground arith)), rw (up, over) refl)
        | inr runs ↦ elim (Bool-cases (any_back touches)) [
          | inl b ↦ inl (
            ground arith,
            PressesBack_of_any_back touches b,
            rw (up, runs, poll_back s reports touches p.times b) refl,
          )
          | inr b ↦ inr (
            (λ h. cc (any_back-of-PressesBack h.1)),
            rw (up, runs)
                (handled-stay (poll s reports touches p.times)
                  (poll_stay s reports touches p.times b)),
          )
        ]
      ]
    ]
