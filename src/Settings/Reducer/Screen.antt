-- ===== src/Settings/Reducer/Screen.antt =====
-- What holds of the settings screen under any sequence of touches, commands and answers.
use retrodeck.Prelude.{
  ℕ, ◌+◌, ◌-◌, ◌≤◌, ◌<◌, ◌≡◌, refl, ◌≢◌, ◌⊎◌, inl, inr, min, max, subst, Bool, true, false, ◌&&◌,
  List, [], ◌∷◌, Option, none, some, leb, if◌then◌else◌, arith, Bool-cases,
}
use retrodeck.Prelude.Decimal.{bytes, text_eq}
use retrodeck.Prelude.Int.{ℤ}
use retrodeck.Settings.{Target, Direction, Action, Effect, Layout, State}
use retrodeck.Settings.Codec.{brightness_valid}
use retrodeck.Settings.Reducer.{
  known_keymap, opened, new, action_of, activate, complete, complete_action, complete_volume,
  complete_brightness, complete_keymap, target_at, selection_after, position_or_zero,
  move_selection, touch, release, press, agreed, activate_agreed, Command, controller,
}

pub record IsValid (s : State) : Type 0 where
  pub loud : s.volume ≤ 100
  pub audible : 0 < s.last_audible_volume
  pub bounded : s.last_audible_volume ≤ 100
  pub recent : (s.volume ≡ 0) ⊎ (s.volume ≡ s.last_audible_volume)
  pub step : brightness_valid s.brightness ≡ true
  pub keys : known_keymap s.keymap ≡ true

-- What the screen reacts to.
pub data Input : Type 0 where
  contact : ℤ → ℤ → Bool → Bool → Input
  command : Command → Input

pub ask : Layout → State → Input → State × Option Effect
ask l s (Input.contact x y pressed released) = touch s l x y pressed released
ask l s (Input.command c) = controller s c

pub answer : State × Option Effect → Bool → Bool → State
answer (s, none) is_ok tone_ok = s
answer (s, some e) is_ok tone_ok = complete s e is_ok tone_ok

-- Every input with how its effect turned out.
pub run : Layout → State → List (Input × Bool × Bool) → State
run l s [] = s
run l s ((i, is_ok, tone_ok) ∷ rest) = run l (answer (ask l s i) is_ok tone_ok) rest

-- The volume and brightness that an action carries are in range.
IsLegal : Action → Type 0
IsLegal (Action.volume v) = v ≤ 100
IsLegal (Action.brightness b) = brightness_valid b ≡ true
IsLegal (Action.keymap k) = known_keymap k ≡ true
IsLegal a = Unit

brightness_down_valid :
    (b : ℕ) → brightness_valid b ≡ true → brightness_valid (max (b - 10) 10) ≡ true
unfolding brightness_valid
brightness_down_valid b h = ground arith

brightness_up_valid :
    (b : ℕ) → brightness_valid b ≡ true → brightness_valid (min (b + 10) 100) ≡ true
unfolding brightness_valid
brightness_up_valid b h = ground arith

known-other :
    (k : List ℕ) → known_keymap (if text_eq k (bytes "cz") then bytes "us" else bytes "cz") ≡ true
unfolding known_keymap text_eq bytes
known-other k = elim (Bool-cases (text_eq k (bytes "cz"))) [ inl e ↦ rw e | inr e ↦ rw e ]

activate-IsLegal : (s : State) (t : Target) → IsValid s → IsLegal (activate s t).action
unfolding activate action_of IsLegal
activate-IsLegal s Target.close v = tt
activate-IsLegal s Target.volume_down v = let a = v.loud in omega arith
activate-IsLegal s Target.volume_up v = let a = v.loud in let b = v.bounded in ground arith
activate-IsLegal s Target.brightness_down v = brightness_down_valid s.brightness v.step
activate-IsLegal s Target.brightness_up v = brightness_up_valid s.brightness v.step
activate-IsLegal s Target.terminal v = tt
activate-IsLegal s Target.keymap v = known-other s.keymap
activate-IsLegal s Target.wifi v = tt

-- The fields that no property speaks of do not matter.
kept :
    (s t : State)
    → t.volume ≡ s.volume
    → t.last_audible_volume ≡ s.last_audible_volume
    → t.brightness ≡ s.brightness
    → t.keymap ≡ s.keymap
    → IsValid s
    → IsValid t
kept s t a b c d v = record {
  loud = rw a v.loud;
  audible = rw b v.audible;
  bounded = rw b v.bounded;
  recent = rw (a, b) v.recent;
  step = rw c v.step;
  keys = rw d v.keys;
}

volume-IsValid :
    (s : State) (v : ℕ) (is_ok tone_ok : Bool)
    → IsValid s
    → v ≤ 100
    → IsValid (complete_volume s v is_ok tone_ok)
unfolding complete_volume
volume-IsValid s v false tone_ok h k = kept s _ refl refl refl refl h
volume-IsValid s v true tone_ok h k = record {
  loud = k;
  audible = let a = h.audible in ground arith;
  bounded = let a = h.bounded in ground arith;
  recent = ground arith;
  step = h.step;
  keys = h.keys;
}

complete-IsValid :
    (s : State) (a : Action) (is_ok tone_ok : Bool)
    → IsValid s
    → IsLegal a
    → IsValid (complete_action s a is_ok tone_ok)
unfolding complete_action complete_brightness complete_keymap IsLegal
complete-IsValid s Action.close is_ok tone_ok h k = kept s _ refl refl refl refl h
complete-IsValid s (Action.volume v) is_ok tone_ok h k = volume-IsValid s v is_ok tone_ok h k
complete-IsValid s (Action.brightness v) false tone_ok h k = kept s _ refl refl refl refl h
complete-IsValid s (Action.brightness v) true tone_ok h k = record {
  loud = h.loud;
  audible = h.audible;
  bounded = h.bounded;
  recent = h.recent;
  step = k;
  keys = h.keys;
}
complete-IsValid s (Action.keymap v) false tone_ok h k = kept s _ refl refl refl refl h
complete-IsValid s (Action.keymap v) true tone_ok h k = record {
  loud = h.loud;
  audible = h.audible;
  bounded = h.bounded;
  recent = h.recent;
  step = h.step;
  keys = k;
}
complete-IsValid s Action.terminal is_ok tone_ok h k = h
complete-IsValid s Action.wifi is_ok tone_ok h k = h

-- What an input asks for is legal, and asking changes no setting.
IsAsked : State × Option Effect → Type 0
IsAsked (s, none) = IsValid s
IsAsked (s, some e) = IsValid s × IsLegal e.action

agreed-IsAsked : (s : State) (o : Option Target) → IsValid s → IsAsked (s, activate_agreed s o)
unfolding activate_agreed IsAsked
agreed-IsAsked s none h = h
agreed-IsAsked s (some t) h = (h, activate-IsLegal s t h)

release-IsAsked :
    (s : State) (t : Option Target) (released : Bool) → IsValid s → IsAsked (release s t released)
unfolding release IsAsked
release-IsAsked s t false h = h
release-IsAsked s t true h =
    agreed-IsAsked (record s { pressed = none }) (agreed s.pressed t)
      (kept s _ refl refl refl refl h)

press-IsValid :
    (s : State) (t : Option Target) (pressed : Bool) → IsValid s → IsValid (press s t pressed)
unfolding press
press-IsValid s t false h = h
press-IsValid s t true h = kept s _ refl refl refl refl h

ask-IsAsked : (l : Layout) (s : State) (i : Input) → IsValid s → IsAsked (ask l s i)
unfolding ask touch controller move_selection IsAsked
ask-IsAsked l s (Input.contact x y pressed released) h =
    release-IsAsked (press s (target_at l x y) pressed) (target_at l x y) released
      (press-IsValid s (target_at l x y) pressed h)
ask-IsAsked l s (Input.command Command.back) h = (h, activate-IsLegal s Target.close h)
ask-IsAsked l s (Input.command Command.previous) h = kept s _ refl refl refl refl h
ask-IsAsked l s (Input.command Command.next) h = kept s _ refl refl refl refl h
ask-IsAsked l s (Input.command Command.confirm) h = (h, activate-IsLegal s s.selected h)

answer-IsValid :
    (a : State × Option Effect) (is_ok tone_ok : Bool)
    → IsAsked a
    → IsValid (answer a is_ok tone_ok)
unfolding answer IsAsked complete
answer-IsValid (s, none) is_ok tone_ok h = h
answer-IsValid (s, some e) is_ok tone_ok h = complete-IsValid s e.action is_ok tone_ok h.0 h.1

-- From a valid state on, under any layout and any touches and commands, and whether or not each
-- answer succeeds, the state stays valid: the volume is at most 100, the last audible volume from 1
-- through 100 and equal to a volume that is not 0, the brightness a step of ten from 10 through
-- 100, and the keymap one of the two.
pub run-IsValid :
    (l : Layout) (s : State) (inputs : List (Input × Bool × Bool))
    → IsValid s
    → IsValid (run l s inputs)
unfolding run
run-IsValid l s [] h = h
run-IsValid l s ((i, is_ok, tone_ok) ∷ rest) h =
    run-IsValid l (answer (ask l s i) is_ok tone_ok) rest
      (answer-IsValid (ask l s i) is_ok tone_ok (ask-IsAsked l s i h))

opened-IsValid :
    (v b : ℕ) (k : List ℕ)
    → v ≤ 100
    → known_keymap k ≡ true
    → brightness_valid b ≡ true
    → IsValid (opened v b k)
unfolding opened
opened-IsValid v b k small known step = record {
  loud = small;
  audible = ground arith;
  bounded = ground arith;
  recent = ground arith;
  step = step;
  keys = known;
}

-- A screen that opens, which takes a volume up to 100 and a known keymap, is valid if its brightness
-- is a step of ten from 10 through 100.
pub new-IsValid :
    (v b : ℕ) (k : List ℕ) (s : State) → new v b k ≡ some s → brightness_valid b ≡ true → IsValid s
unfolding new
new-IsValid v b k s h step = elim (Bool-cases (leb v 100 && leb b 100 && known_keymap k)) [
  | inr bad ↦ absurd (cc (rw bad at h))
  | inl good ↦
      let same : some (opened v b k) ≡ some s = rw good at h in
      let parts : (v ≤ 100) × (known_keymap k ≡ true) = ground arith in
      let path : opened v b k ≡ s = cc in
      subst IsValid path (opened-IsValid v b k parts.0 parts.1 step)
]

pub pressing : State → Target → State
pressing s t = complete s (activate s t) true true

-- In a valid state with a volume that is not 0, a step down and a step up, both saved, return to
-- the volume, or to one step of five if it was below one.
pub volume_up-volume_down :
    (s : State)
    → IsValid s
    → 0 < s.volume
    → (pressing (pressing s Target.volume_down) Target.volume_up).volume ≡ max s.volume 5
unfolding pressing complete complete_action complete_volume activate action_of
volume_up-volume_down s v h = let a = v.loud in let b = v.recent in ground arith

abbrev pub opposite : Direction → Direction
opposite Direction.previous = Direction.next
opposite Direction.next = Direction.previous

-- Moving the selection and moving it back returns to the target, unless that was the close button.
pub selection_after-opposite :
    (t : Target) (d : Direction)
    → t ≢ Target.close
    → selection_after (selection_after t d) (opposite d) ≡ t
unfolding selection_after position_or_zero
selection_after-opposite Target.close d h = absurd (h refl)
selection_after-opposite Target.volume_down Direction.previous h = refl
selection_after-opposite Target.volume_up Direction.previous h = refl
selection_after-opposite Target.brightness_down Direction.previous h = refl
selection_after-opposite Target.brightness_up Direction.previous h = refl
selection_after-opposite Target.terminal Direction.previous h = refl
selection_after-opposite Target.keymap Direction.previous h = refl
selection_after-opposite Target.wifi Direction.previous h = refl
selection_after-opposite Target.volume_down Direction.next h = refl
selection_after-opposite Target.volume_up Direction.next h = refl
selection_after-opposite Target.brightness_down Direction.next h = refl
selection_after-opposite Target.brightness_up Direction.next h = refl
selection_after-opposite Target.terminal Direction.next h = refl
selection_after-opposite Target.keymap Direction.next h = refl
selection_after-opposite Target.wifi Direction.next h = refl
