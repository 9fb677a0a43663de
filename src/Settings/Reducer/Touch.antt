-- ===== src/Settings/Reducer/Touch.antt =====
-- What a touch of the settings screen (native/src/dashboard/settings.rs) hits.
use retrodeck.Prelude.{
  ℕ, zero, suc, get_elem?, ◌≡◌, refl, sym, ap, ◌∙◌, ◌↔◌, inl, inr, subst, true, false, List, [],
  ◌∷◌, Option, none, some, ltb, leb, if◌then◌else◌, get_or, arith, Bool-cases,
}
use retrodeck.Prelude.Int.{ℤ, ◌+ℤ◌, pos_part}
use retrodeck.Settings.{Target, Effect, Rect, contains, Layout, default_layout, rect, State}
use retrodeck.Settings.Reducer.{
  activate, target_at, find_target, order, touch, release, press, agreed, activate_agreed,
  same_target, target_number,
}

-- A finger put down at one point and lifted at another.
pub tap : State → Layout → ℤ → ℤ → ℤ → ℤ → State × Option Effect
tap s l x y u v = touch (touch s l x y true false).0 l u v false true

abbrev of_number : ℕ → Target
of_number n = get_or (Target.close ∷ order) n Target.close

of_number-target_number : (t : Target) → of_number (target_number t) ≡ t
of_number-target_number Target.close = refl
of_number-target_number Target.volume_down = refl
of_number-target_number Target.volume_up = refl
of_number-target_number Target.brightness_down = refl
of_number-target_number Target.brightness_up = refl
of_number-target_number Target.terminal = refl
of_number-target_number Target.keymap = refl
of_number-target_number Target.wifi = refl

same_target_iff : (a b : Target) → (same_target a b ≡ true) ↔ (a ≡ b)
same_target_iff a b = (
  λ h.
      let same : target_number a ≡ target_number b = ground arith in
      sym (of_number-target_number a) ∙ ap of_number same ∙ of_number-target_number b,
  λ h. let same : target_number a ≡ target_number b = ap (λ t. target_number t) h in ground arith,
)

agreed_iff :
    (o p : Option Target) (t : Target) → (agreed o p ≡ some t) ↔ ((o ≡ some t) × (p ≡ some t))
unfolding agreed
agreed_iff none p t = (λ h. absurd (cc h), λ h. absurd (cc h.0))
agreed_iff (some a) none t = (λ h. absurd (cc h), λ h. absurd (cc h.1))
agreed_iff (some a) (some b) t = elim (Bool-cases (same_target a b)) [
  | inl same ↦
      let path = (same_target_iff a b).0 same in
      (λ h. let g : some b ≡ some t = rw same at h in (ap some path ∙ g, g), λ h. rw same h.1)
  | inr other ↦ (
    λ h. absurd (cc (rw other at h)),
    λ h. let same : a ≡ b = cc in absurd (cc (other, (same_target_iff a b).1 same)),
  )
]

activate_agreed_iff :
    (s : State) (o : Option Target) (e : Effect)
    → (activate_agreed s o ≡ some e) ↔ ((t : Target) × (o ≡ some t) × (e ≡ activate s t))
unfolding activate_agreed
activate_agreed_iff s none e = (λ h. absurd (cc h), λ h. absurd (cc h.1))
activate_agreed_iff s (some t) e =
    (λ h. (t, refl, (cc h)), λ h. let same : t ≡ h.0 = cc h.1 in rw (same, h.2))

-- A finger put down and lifted leaves no target pressed and changes nothing else. It asks for
-- something exactly if both points are on one target of the layout, and then for what that target
-- does.
pub tap_iff :
    (s : State) (l : Layout) (x y u v : ℤ) (e : Effect)
    → ((tap s l x y u v).0 ≡ record s { pressed = none })
      × (((tap s l x y u v).1 ≡ some e) ↔ (
          (t : Target) × (target_at l x y ≡ some t)
          × (target_at l u v ≡ some t)
          × (e ≡ activate (record s { pressed = none }) t)))
unfolding tap touch press release
tap_iff s l x y u v e = (
  refl,
  (
    λ h.
        let (t, found, made) =
          (activate_agreed_iff (record s { pressed = none })
              (agreed (target_at l x y) (target_at l u v)) e).0
            h in
        let (down, up) = (agreed_iff (target_at l x y) (target_at l u v) t).0 found in
        (t, down, up, made),
    λ h.
        (activate_agreed_iff (record s { pressed = none })
            (agreed (target_at l x y) (target_at l u v)) e).1
          (h.0, (agreed_iff (target_at l x y) (target_at l u v) h.0).1 (h.1, h.2), h.3),
  ),
)

-- The rectangle of a target.
pub place : Layout → Target → Rect
place l Target.close = l.close
place l Target.volume_down = l.volume_down
place l Target.volume_up = l.volume_up
place l Target.brightness_down = l.brightness_down
place l Target.brightness_up = l.brightness_up
place l Target.terminal = l.terminal
place l Target.keymap = l.keymap
place l Target.wifi = l.wifi

spots : Layout → List Target → List (Target × Rect)
spots l [] = []
spots l (t ∷ ts) = (t, place l t) ∷ spots l ts

find_target_sound :
    (l : Layout) (ts : List Target) (x y : ℤ) (t : Target)
    → find_target (spots l ts) x y ≡ some t
    → contains (place l t) x y ≡ true
unfolding find_target spots
find_target_sound l [] x y t h = absurd (cc h)
find_target_sound l (u ∷ ts) x y t h = elim (Bool-cases (contains (place l u) x y)) [
  | inl here ↦
      let same : some u ≡ some t = rw here at h in
      let path : u ≡ t = cc in subst (λ a. contains (place l a) x y ≡ true) path here
  | inr other ↦ find_target_sound l ts x y t (rw other at h)
]

find_target_complete :
    (l : Layout) (ts : List Target) (x y : ℤ) (i : ℕ) (t : Target)
    → get_elem? ts i ≡ some t
    → contains (place l t) x y ≡ true
    → (u : Target) × (find_target (spots l ts) x y ≡ some u)
unfolding find_target spots
find_target_complete l [] x y i t h k = absurd (cc h)
find_target_complete l (u ∷ ts) x y zero t h k = (u, let path : u ≡ t = cc h in rw (path, k))
find_target_complete l (u ∷ ts) x y (suc i) t h k = elim (Bool-cases (contains (place l u) x y)) [
  | inl here ↦ (u, rw here)
  | inr other ↦ let (w, found) = find_target_complete l ts x y i t h k in (w, rw other found)
]

-- The order in which the code searches, and a target's place in it.
abbrev searched : List Target
searched =
    Target.close ∷ Target.volume_down ∷ Target.volume_up ∷ Target.brightness_down
    ∷ Target.brightness_up ∷ Target.terminal ∷ Target.keymap ∷ Target.wifi ∷ []

get_elem?-searched : (t : Target) → get_elem? searched (target_number t) ≡ some t
get_elem?-searched Target.close = refl
get_elem?-searched Target.volume_down = refl
get_elem?-searched Target.volume_up = refl
get_elem?-searched Target.brightness_down = refl
get_elem?-searched Target.brightness_up = refl
get_elem?-searched Target.terminal = refl
get_elem?-searched Target.keymap = refl
get_elem?-searched Target.wifi = refl

-- Each target lies in a zone of its own.
zone : ℕ → ℕ → ℕ
zone m n =
    if leb 208 n
    then (if ltb m 220
        then 1
        else if ltb m 400
        then 2
        else if ltb m 550
        then 3
        else if ltb m 700
        then 4
        else if ltb m 1000
        then 5
        else 6)
    else if ltb m 1200
    then 7
    else 0

contains-zone :
    (t : Target) (x y : ℤ)
    → contains (place default_layout t) x y ≡ true
    → zone (pos_part x) (pos_part y) ≡ target_number t
unfolding contains place default_layout rect ◌+ℤ◌ zone
contains-zone Target.close x y h = ground arith
contains-zone Target.volume_down x y h = ground arith
contains-zone Target.volume_up x y h = ground arith
contains-zone Target.brightness_down x y h = ground arith
contains-zone Target.brightness_up x y h = ground arith
contains-zone Target.terminal x y h = ground arith
contains-zone Target.keymap x y h = ground arith
contains-zone Target.wifi x y h = ground arith

contains_unique :
    (t u : Target) (x y : ℤ)
    → contains (place default_layout t) x y ≡ true
    → contains (place default_layout u) x y ≡ true
    → t ≡ u
contains_unique t u x y h k =
    sym (of_number-target_number t)
    ∙ ap (λ n. of_number n) (sym (contains-zone t x y h) ∙ contains-zone u x y k)
    ∙ of_number-target_number u

-- The targets of the screen's layout do not overlap: a point is on a target exactly if it is within
-- that target's rectangle, whatever the order of the search.
pub target_at-default_layout :
    (x y : ℤ) (t : Target)
    → (target_at default_layout x y ≡ some t) ↔ (contains (place default_layout t) x y ≡ true)
unfolding target_at spots place
target_at-default_layout x y t = (
  λ h. find_target_sound default_layout searched x y t h,
  λ h.
      let (u, found) =
        find_target_complete default_layout searched x y (target_number t) t (get_elem?-searched t)
          h in
      let same =
        contains_unique u t x y (find_target_sound default_layout searched x y u found) h in
      found ∙ ap some same,
)
