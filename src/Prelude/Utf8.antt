-- ===== src/Prelude/Utf8.antt =====
-- `std::str::from_utf8` as a test: the automaton of the well-formed byte sequences of UTF-8.
use retrodeck.Prelude.{
  ℕ, ◌<◌, ◌≡◌, ap, ◌∙◌, refl, Option, some, none, ◌==◌, Bool, true, false, ◌&&◌, List, [], ◌∷◌, leb,
  ltb, if◌then◌else◌, arith,
}

-- How the sequence at hand goes on: with so many bytes of any continuation, or with one in a
-- narrower range before them.
data Rest : Type 0 where
  start one two three above_e0 above_ed above_f0 above_f4 : Rest

abbrev within : ℕ → ℕ → ℕ → Bool
within lo hi b = leb lo b && leb b hi

lead : ℕ → Option Rest
lead b =
    if ltb b 128
    then some Rest.start
    else if within 194 223 b
    then some Rest.one
    else if b == 224
    then some Rest.above_e0
    else if b == 237
    then some Rest.above_ed
    else if within 225 239 b
    then some Rest.two
    else if b == 240
    then some Rest.above_f0
    else if within 241 243 b
    then some Rest.three
    else if b == 244
    then some Rest.above_f4
    else none

abbrev when : Bool → Rest → Option Rest
when b r = if b then some r else none

next : Rest → ℕ → Option Rest
unfolding lead
next Rest.start b = lead b
next Rest.one b = when (within 128 191 b) Rest.start
next Rest.two b = when (within 128 191 b) Rest.one
next Rest.three b = when (within 128 191 b) Rest.two
next Rest.above_e0 b = when (within 160 191 b) Rest.one
next Rest.above_ed b = when (within 128 159 b) Rest.one
next Rest.above_f0 b = when (within 144 191 b) Rest.two
next Rest.above_f4 b = when (within 128 143 b) Rest.two

goes_on : Option Rest → List ℕ → Bool
unfolding next
goes_on none text = false
goes_on (some Rest.start) [] = true
goes_on (some r) [] = false
goes_on (some r) (b ∷ text) = goes_on (next r b) text

pub is_utf8 : List ℕ → Bool
unfolding goes_on
is_utf8 text = goes_on (some Rest.start) text

abbrev pub IsAscii : List ℕ → Type 0
IsAscii [] = Unit
IsAscii (b ∷ text) = (b < 128) × IsAscii text

lead_ascii : (b : ℕ) → b < 128 → lead b ≡ some Rest.start
unfolding lead
lead_ascii b h = ground arith

pub ascii-is_utf8 : (text : List ℕ) → IsAscii text → is_utf8 text ≡ true
unfolding is_utf8 goes_on next
ascii-is_utf8 [] h = refl
ascii-is_utf8 (b ∷ text) h = ap (λ r. goes_on r text) (lead_ascii b h.0) ∙ ascii-is_utf8 text h.1
