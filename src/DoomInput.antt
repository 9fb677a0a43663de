-- ===== src/DoomInput.antt =====
-- The input of the DOOM port: native/src/doom_input.rs, with the pad's bits of
-- native/src/joypad.rs. The constants stand as their values, named beside them. A set of pad
-- buttons (`u32`) is a number, key codes and characters (`i32`, never negative here) are numbers,
-- and what a function appends to the events is its result.
pub mod Mapping
pub mod Edges
mod Examples
use retrodeck.Prelude.{
  ℕ, zero, suc, ◌+◌, ◌-◌, ◌*◌, ◌/◌, ◌%◌, max, Bool, true, false, ◌&&◌, ◌||◌, List, [], ◌∷◌, ◌++◌,
  map, Option, none, some, ltb, leb, ◌==◌, if◌then◌else◌, get_or, length,
}
use retrodeck.Prelude.Decimal.{bytes}

pub record Event : Type 0 where
  pub key : ℕ
  pub character : ℕ
  pub pressed : ℕ

pub press : ℕ → ℕ → Event
press key character = record { key = key; character = character; pressed = 1 }

pub release : ℕ → Event
release key = record { key = key; character = 0; pressed = 0 }

-- The button's bit and the DOOM key: up, down, left, right, the shoulders, A, B, X, Y, start, select.
abbrev pub controller_map : List (ℕ × ℕ)
controller_map =
    (16, 173)
    ∷ (32, 175)
    ∷ (64, 172)
    ∷ (128, 174)
    ∷ (256, 160)
    ∷ (512, 161)
    ∷ (1, 163)
    ∷ (2, 162)
    ∷ (1024, 164)
    ∷ (2048, 165)
    ∷ (8, 27)
    ∷ (4, 9)
    ∷ []

-- Escape, enter, tab, backspace, space, up, down, left, right, both control keys, both shift keys,
-- both alt keys.
abbrev named_keys : List (ℕ × ℕ)
named_keys =
    (1, 27)
    ∷ (28, 13)
    ∷ (15, 9)
    ∷ (14, 127)
    ∷ (57, 162)
    ∷ (103, 173)
    ∷ (108, 175)
    ∷ (105, 172)
    ∷ (106, 174)
    ∷ (29, 163)
    ∷ (97, 163)
    ∷ (42, 182)
    ∷ (54, 182)
    ∷ (56, 184)
    ∷ (100, 184)
    ∷ []

abbrev letter_rows : List (ℕ × List ℕ)
unfolding bytes
letter_rows = (16, bytes "qwertyuiop") ∷ (30, bytes "asdfghjkl") ∷ (44, bytes "zxcvbnm") ∷ []

abbrev digit_row : List ℕ
unfolding bytes
digit_row = bytes "1234567890-="

abbrev punctuation : List (ℕ × ℕ)
punctuation = (51, b',') ∷ (52, b'.') ∷ (53, b'/') ∷ []

-- `first`, `first + 1`, and so on, as many as told.
codes_from : ℕ → ℕ → List ℕ
codes_from first zero = []
codes_from first (suc n) = first ∷ codes_from (first + 1) n

row_codes : List (ℕ × List ℕ) → List ℕ
row_codes [] = []
row_codes ((first, letters) ∷ rows) = codes_from first (length letters) ++ row_codes rows

-- `sort_unstable` and `dedup`.
insert : ℕ → List ℕ → List ℕ
insert x [] = x ∷ []
insert x (y ∷ ys) = if leb x y then x ∷ y ∷ ys else y ∷ insert x ys

sort : List ℕ → List ℕ
sort [] = []
sort (x ∷ xs) = insert x (sort xs)

dedup_after : ℕ → List ℕ → List ℕ
dedup_after x [] = []
dedup_after x (y ∷ ys) = let rest = dedup_after y ys in if x == y then rest else y ∷ rest

dedup : List ℕ → List ℕ
dedup [] = []
dedup (x ∷ xs) = x ∷ dedup_after x xs

pub keyboard_codes : List ℕ
unfolding codes_from row_codes insert sort dedup_after dedup
keyboard_codes = dedup (
    sort (
      map (λ k. k.0) named_keys
      ++ row_codes letter_rows
      ++ codes_from 2 (length digit_row)
      ++ map (λ k. k.0) punctuation
      ++ codes_from 59 (68 - 59 + 1)
      ++ (87 ∷ 88 ∷ 119 ∷ [])))

find_key : List (ℕ × ℕ) → ℕ → Option ℕ
find_key [] code = none
find_key ((candidate, key) ∷ rest) code = if candidate == code then some key else find_key rest code

find_letter : List (ℕ × List ℕ) → ℕ → Option ℕ
find_letter [] code = none
find_letter ((first, letters) ∷ rows) code =
    if leb first code && ltb code (first + length letters)
    then some (get_or letters (code - first) 0)
    else find_letter rows code

-- The last ranges: F1 to F10, F11, F12 and pause.
function_key : ℕ → Option (ℕ × ℕ)
function_key code =
    if leb 59 code && leb code 68
    then some (187 + (code - 59), 0)
    else if code == 87
    then some (215, 0)
    else if code == 88
    then some (216, 0)
    else if code == 119
    then some (255, 0)
    else none

punctuation_key : ℕ → Option (ℕ × ℕ)
unfolding find_key function_key
punctuation_key code = elim (find_key punctuation code) [
  | some c ↦ some (c, c)
  | none ↦ function_key code
]

digit_key : ℕ → Option (ℕ × ℕ)
unfolding punctuation_key
digit_key code =
    if leb 2 code && leb code 13
    then some (get_or digit_row (code - 2) 0, get_or digit_row (code - 2) 0)
    else punctuation_key code

letter_key : ℕ → Option (ℕ × ℕ)
unfolding find_letter digit_key
letter_key code = elim (find_letter letter_rows code) [
  | some c ↦ some (c, c)
  | none ↦ digit_key code
]

pub keyboard_key : ℕ → Option (ℕ × ℕ)
unfolding find_key letter_key
keyboard_key code = elim (find_key named_keys code) [
  | some key ↦ some (key, 0)
  | none ↦ letter_key code
]

abbrev shifted_characters : List (ℕ × ℕ)
shifted_characters =
    (b'1', b'!')
    ∷ (b'2', b'@')
    ∷ (b'3', b'#')
    ∷ (b'4', b'$')
    ∷ (b'5', b'%')
    ∷ (b'6', b'^')
    ∷ (b'7', b'&')
    ∷ (b'8', b'*')
    ∷ (b'9', b'(')
    ∷ (b'0', b')')
    ∷ (b'-', b'_')
    ∷ (b'=', b'+')
    ∷ (b',', b'<')
    ∷ (b'.', b'>')
    ∷ (b'/', b'?')
    ∷ []

-- Characters above 255 are as before, which no arm of the match reaches either.
pub shift_character : ℕ → ℕ
unfolding find_key
shift_character c =
    if leb b'a' c && leb c b'z'
    then c - 32
    else elim (find_key shifted_characters c) [ some s ↦ s | none ↦ c ]

-- `state & bit != 0` for a bit that is a power of two.
pub is_set : ℕ → ℕ → Bool
is_set state bit = state / bit % 2 == 1

-- `a | b` of two numbers of so many bits.
or_bits : ℕ → ℕ → ℕ → ℕ
or_bits zero a b = 0
or_bits (suc n) a b = max (a % 2) (b % 2) + 2 * or_bits n (a / 2) (b / 2)

-- The event of a key that was and is held so.
edge : Bool → Bool → ℕ → ℕ → List Event
edge true false key character = release key ∷ []
edge false true key character = press key character ∷ []
edge was is_held key character = []

transitions : List (ℕ × ℕ) → ℕ → ℕ → List Event
unfolding edge
transitions [] previous current = []
transitions ((bit, key) ∷ rest) previous current =
    edge (is_set previous bit) (is_set current bit) key 0 ++ transitions rest previous current

pub controller_transitions : ℕ → ℕ → List Event
unfolding transitions
controller_transitions previous current = transitions controller_map previous current

pub record Mapper : Type 0 where
  pub controllers : ℕ × ℕ
  pub keys : List (ℕ × Bool)
  pub shifted : Bool

pub new : Mapper
new = record {
  controllers = (0, 0);
  keys = map (λ code. (code, false)) keyboard_codes;
  shifted = false;
}

typed : Bool → ℕ → ℕ
typed shifted character =
    if shifted && ltb 0 character then shift_character character else character

key_edge : Bool → Bool → Bool → Option (ℕ × ℕ) → List Event
unfolding edge typed
key_edge shifted was is_held none = []
key_edge shifted was is_held (some (key, character)) =
    edge was is_held key (typed shifted character)

-- The loop over the keys: what is held now, and the events.
poll_keys : (ℕ → Bool) → Bool → List (ℕ × Bool) → List (ℕ × Bool) × List Event
unfolding key_edge
poll_keys key_held shifted [] = ([], [])
poll_keys key_held shifted ((code, was) ∷ rest) =
    let (keys, events) = poll_keys key_held shifted rest in
    (
      (code, key_held code) ∷ keys,
      key_edge shifted was (key_held code) (keyboard_key code) ++ events,
    )

pub poll : Mapper → (ℕ → ℕ) → (ℕ → Bool) → Mapper × List Event
unfolding or_bits poll_keys
poll m controller key_held =
    let merged = or_bits 32 (controller 0) (controller 1) in
    let shifted = key_held 42 || key_held 54 in
    let (keys, events) = poll_keys key_held shifted m.keys in
    (
      record { controllers = (merged, m.controllers.1); keys = keys; shifted = shifted },
      controller_transitions m.controllers.0 merged ++ events,
    )
