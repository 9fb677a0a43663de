-- ===== src/Wifi/Bounds.antt =====
-- What any sequence of inputs keeps of the texts of the Wi-Fi editor
-- (`apply` of native/src/dashboard/wifi.rs).
use retrodeck.Prelude.{
  ℕ, ◌≤◌, ◌≡◌, refl, sym, inl, inr, Bool, true, false, ◌&&◌, List, [], ◌∷◌, ◌++◌, Option, none,
  some, some-injective, subst, ltb, leb, if◌then◌else◌, length, length-append, arith, Bool-cases,
  Option-cases,
}
use retrodeck.Prelude.Int.{ℤ}
use retrodeck.Settings.{Rect, contains}
use retrodeck.Wifi.{
  Field, Mode, Target, State, text_of, with_text, limit_of, value, limit, printable, push_within,
  pop, to_ascii_uppercase, cleared, shifted, apply, rows, keys, keys_from, row_keys, key_width,
  row_left, rect, fixed, target_at_state, target_at_mode, find_target,
}

-- The texts fit their fields and are printable ASCII.
pub record Fits (s : State) : Type 0 where
  pub ssid_short : length s.ssid ≤ 32
  pub passphrase_short : length s.passphrase ≤ 63
  pub ssid_printable : printable s.ssid ≡ true
  pub passphrase_printable : printable s.passphrase ≡ true

-- One text that fits its field.
Fit : Field → List ℕ → Type 0
Fit f text = (length text ≤ limit_of f) × (printable text ≡ true)

fit : (f : Field) (s : State) → Fits s → Fit f (text_of f s)
unfolding Fit
fit Field.ssid s h = (h.ssid_short, h.ssid_printable)
fit Field.password s h = (h.passphrase_short, h.passphrase_printable)

with_text-Fits :
    (f : Field) (s : State) (text : List ℕ) → Fits s → Fit f text → Fits (with_text f s text)
unfolding Fit
with_text-Fits Field.ssid s text h k = record {
  ssid_short = k.0;
  passphrase_short = h.passphrase_short;
  ssid_printable = k.1;
  passphrase_printable = h.passphrase_printable;
}
with_text-Fits Field.password s text h k = record {
  ssid_short = h.ssid_short;
  passphrase_short = k.0;
  ssid_printable = h.ssid_printable;
  passphrase_printable = k.1;
}

-- States with the same texts fit alike.
same_texts-Fits : (s u : State) → u.ssid ≡ s.ssid → u.passphrase ≡ s.passphrase → Fits s → Fits u
same_texts-Fits s u e f h = record {
  ssid_short = rw e h.ssid_short;
  passphrase_short = rw f h.passphrase_short;
  ssid_printable = rw e h.ssid_printable;
  passphrase_printable = rw f h.passphrase_printable;
}

printable-append :
    (a b : List ℕ) → printable a ≡ true → printable b ≡ true → printable (a ++ b) ≡ true
unfolding printable
printable-append [] b h k = k
printable-append (c ∷ a) b h k = let rest = printable-append a b (ground arith) k in ground arith

length-pop : (text : List ℕ) → length (pop text) ≤ length text
unfolding pop
length-pop [] = omega arith
length-pop (c ∷ []) = omega arith
length-pop (c ∷ d ∷ text) = let a = length-pop (d ∷ text) in omega arith

pop-printable : (text : List ℕ) → printable text ≡ true → printable (pop text) ≡ true
unfolding pop printable
pop-printable [] h = refl
pop-printable (c ∷ []) h = refl
pop-printable (c ∷ d ∷ text) h = let a = pop-printable (d ∷ text) (ground arith) in ground arith

pop-Fit : (f : Field) (text : List ℕ) → Fit f text → Fit f (pop text)
unfolding Fit
pop-Fit f text h = (let a = length-pop text in let b = h.0 in omega arith, pop-printable text h.1)

-- A character that a key types.
Types : ℕ → Type 0
Types c = (32 ≤ c) × (c ≤ 126)

push_within-Fits : (s : State) (c : ℕ) → Types c → Fits s → Fits (push_within s c)
unfolding push_within Types printable Fit value limit
push_within-Fits s c t h = elim (Bool-cases (ltb (length (value s)) (limit s))) [
  | inr full ↦ rw full h
  | inl room ↦
      let (short, good) = fit s.field s h in
      rw room (
        with_text-Fits s.field s (value s ++ (c ∷ [])) h (
          (let a = length-append (value s) (c ∷ []) in ground arith),
          printable-append (value s) (c ∷ []) good (ground arith),
        ))
]

upper-Types : (c : ℕ) → Types c → Types (to_ascii_uppercase c)
unfolding Types to_ascii_uppercase
upper-Types c h = let (a, b) = h in ground arith

cleared-Fits : (s : State) → Fits s → Fits (cleared s)
unfolding cleared
cleared-Fits s h = same_texts-Fits s (cleared s) refl refl h

shifted-Fits : (s : State) (m : Mode) → Fits s → Fits (shifted s m)
unfolding shifted
shifted-Fits s Mode.alphabet h = same_texts-Fits s (shifted s Mode.alphabet) refl refl h
shifted-Fits s Mode.symbols h = h

typed-Types : (up : Bool) (c : ℕ) → Types c → Types (if up then to_ascii_uppercase c else c)
typed-Types true c h = upper-Types c h
typed-Types false c h = h

-- A target whose key, if it is one, types a printable character.
KeyTypes : Target → Type 0
KeyTypes (Target.key c) = Types c
KeyTypes t = Unit

apply-Fits : (s : State) (t : Target) → KeyTypes t → Fits s → Fits (apply s t)
unfolding apply KeyTypes Types cleared shifted
apply-Fits s Target.back k h = same_texts-Fits s (apply s Target.back) refl refl h
apply-Fits s Target.ssid k h = same_texts-Fits s (apply s Target.ssid) refl refl h
apply-Fits s Target.password k h = same_texts-Fits s (apply s Target.password) refl refl h
apply-Fits s Target.save k h = h
apply-Fits s Target.mode k h = same_texts-Fits s (apply s Target.mode) refl refl h
apply-Fits s Target.shift k h = shifted-Fits s s.mode h
apply-Fits s Target.space k h =
    cleared-Fits (push_within s b' ') (push_within-Fits s b' ' (omega arith, omega arith) h)
apply-Fits s Target.delete k h =
    cleared-Fits (with_text s.field s (pop (value s)))
      (with_text-Fits s.field s (pop (value s)) h (pop-Fit s.field (value s) (fit s.field s h)))
apply-Fits s (Target.key c) k h = cleared-Fits _ (
    push_within-Fits s (if s.uppercase then to_ascii_uppercase c else c)
      (typed-Types s.uppercase c k) h)

-- The characters of the keyboards are printable.
types : Target → Bool
types (Target.key c) = leb 32 c && leb c 126
types t = true

types-KeyTypes : (t : Target) → types t ≡ true → KeyTypes t
unfolding types KeyTypes Types
types-KeyTypes (Target.key c) h = (ground arith, ground arith)
types-KeyTypes Target.back h = tt
types-KeyTypes Target.ssid h = tt
types-KeyTypes Target.password h = tt
types-KeyTypes Target.save h = tt
types-KeyTypes Target.mode h = tt
types-KeyTypes Target.shift h = tt
types-KeyTypes Target.space h = tt
types-KeyTypes Target.delete h = tt

all_type : List (Target × Rect) → Bool
all_type [] = true
all_type ((t, r) ∷ rest) = types t && all_type rest

all_type-keys : (m : Mode) → all_type (fixed ++ keys m) ≡ true
unfolding all_type types fixed keys keys_from row_keys key_width row_left rect rows
all_type-keys Mode.alphabet = refl
all_type-keys Mode.symbols = refl

all_type_found :
    (rs : List (Target × Rect)) (x y : ℤ) (t : Target)
    → all_type rs ≡ true
    → find_target rs x y ≡ some t
    → KeyTypes t
unfolding all_type find_target
all_type_found [] x y t h k = absurd (cc k)
all_type_found ((u, r) ∷ rs) x y t h k = elim (Bool-cases (contains r x y)) [
  | inl here ↦
      let same : u ≡ t = some-injective _ _ (rw here at k) in
      subst KeyTypes same (types-KeyTypes u (ground arith))
  | inr other ↦ all_type_found rs x y t (ground arith) (rw other at k)
]

-- What the editor does with a touch at a point: the target's, or nothing.
after : State → Option Target → State
after s none = s
after s (some t) = apply s t

pub apply_at : State → ℤ → ℤ → State
unfolding after
apply_at s x y = after s (target_at_state s x y)

pub apply_all : State → List (ℤ × ℤ) → State
apply_all s [] = s
apply_all s ((x, y) ∷ points) = apply_all (apply_at s x y) points

apply_at-Fits : (s : State) (x y : ℤ) → Fits s → Fits (apply_at s x y)
unfolding apply_at after target_at_state target_at_mode
apply_at-Fits s x y h = elim (Option-cases (target_at_mode s.mode x y)) [
  | inl missed ↦ subst (λ o. Fits (after s o)) (sym missed) h
  | inr (t, found) ↦
      subst (λ o. Fits (after s o)) (sym found)
        (apply-Fits s t (all_type_found (fixed ++ keys s.mode) x y t (all_type-keys s.mode) found)
          h)
]

-- Whatever points of the screen are touched, one after the other, the texts of an editor whose texts
-- fit their fields go on fitting: at most 32 and 63 characters, all printable ASCII.
pub apply_all-Fits : (s : State) (points : List (ℤ × ℤ)) → Fits s → Fits (apply_all s points)
unfolding apply_all
apply_all-Fits s [] h = h
apply_all-Fits s ((x, y) ∷ points) h =
    apply_all-Fits (apply_at s x y) points (apply_at-Fits s x y h)
