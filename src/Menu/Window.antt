-- ===== src/Menu/Window.antt =====
-- Which games the menu shows (`render` and `target_at` of native/src/dashboard/menu.rs).
use retrodeck.Prelude.{
  ℕ, suc, zero, ◌+◌, ◌-◌, ◌%◌, ◌≡◌, refl, sym, ap, ◌∙◌, subst, inl, inr, true, List, [], ◌∷◌,
  Option, none, some, some-injective, leb, length, take, drop, get_elem?, arith, Bool-cases,
}
use retrodeck.Prelude.Int.{ℤ}
use retrodeck.Policy.{System, Game}
use retrodeck.Menu.{
  Bounds, Target, MenuLayout, contains, find_under, under, game_target, system_or_game, target_at,
  same_system, indices_from, visible_count, first_visible, empty_layout, slice, games_shown,
  cut_out, with_games, layout,
}

-- A game of the list, counted from an index, of the system.
abbrev pub Listed : ℕ → List Game → System → ℕ → Type 0
Listed i games s j =
    (n : ℕ) × ((j ≡ i + n)
      × ((g : Game) × (get_elem? games n ≡ some g) × (same_system g.system s ≡ true)))

later :
    (i : ℕ) (g : Game) (games : List Game) (s : System) (j : ℕ)
    → Listed (i + 1) games s j
    → Listed i (g ∷ games) s j
later i g games s j (n, (e, k)) = (suc n, (omega arith, k))

pub indices_from-Listed :
    (i : ℕ) (games : List Game) (s : System) (k j : ℕ)
    → get_elem? (indices_from i games s) k ≡ some j
    → Listed i games s j
unfolding indices_from
indices_from-Listed i [] s k j h = absurd (cc h)
indices_from-Listed i (g ∷ games) s k j h = elim (Bool-cases (same_system g.system s)) [
  | inr other ↦ later i g games s j (indices_from-Listed (i + 1) games s k j (rw other at h))
  | inl same ↦ at_head k (rw same at h) same (λ m. indices_from-Listed (i + 1) games s m j)
]
  where
    at_head :
        (k : ℕ)
        → get_elem? (i ∷ indices_from (i + 1) games s) k ≡ some j
        → same_system g.system s ≡ true
        → ((m : ℕ) → get_elem? (indices_from (i + 1) games s) m ≡ some j → Listed (i + 1) games s j)
        → Listed i (g ∷ games) s j
    at_head zero h same rest = (0, (let e : i ≡ j = cc h in omega arith, (g, refl, same)))
    at_head (suc k) h same rest = later i g games s j (rest k h)

get_elem?-take {ℓ} :
    {A : Type ℓ} (n : ℕ) (vs : List A) (k : ℕ) (v : A)
    → get_elem? (take n vs) k ≡ some v
    → get_elem? vs k ≡ some v
get_elem?-take zero vs k v h = absurd (cc h)
get_elem?-take (suc n) [] k v h = absurd (cc h)
get_elem?-take (suc n) (w ∷ vs) zero v h = h
get_elem?-take (suc n) (w ∷ vs) (suc k) v h = get_elem?-take n vs k v h

get_elem?-drop {ℓ} :
    {A : Type ℓ} (n : ℕ) (vs : List A) (k : ℕ) → get_elem? (drop n vs) k ≡ get_elem? vs (n + k)
get_elem?-drop zero vs k = ap (λ i. get_elem? vs i) (omega arith)
get_elem?-drop (suc n) [] k = refl
get_elem?-drop (suc n) (w ∷ vs) k =
    get_elem?-drop n vs k
    ∙ ap (λ i. get_elem? (w ∷ vs) i) (let e : suc (n + k) ≡ suc n + k = omega arith in e)

find_under_from {ℓ} :
    {A : Type ℓ} (bs : List Bounds) (vs : List A) (x y : ℤ) (v : A)
    → find_under bs vs x y ≡ some v
    → (k : ℕ) × (get_elem? vs k ≡ some v)
unfolding find_under
find_under_from [] vs x y v h = absurd (cc h)
find_under_from (b ∷ bs) [] x y v h = absurd (cc h)
find_under_from (b ∷ bs) (w ∷ vs) x y v h = elim (Bool-cases (contains b x y)) [
  | inl here ↦ (0, rw here at h)
  | inr other ↦ let (k, found) = find_under_from bs vs x y v (rw other at h) in (suc k, found)
]

system_or_game-game :
    (s : Option System) (g : Option ℕ) (j : ℕ)
    → system_or_game s g ≡ some (Target.game j)
    → g ≡ some j
unfolding system_or_game game_target
system_or_game-game (some s) g j h = absurd (cc h)
system_or_game-game none none j h = absurd (cc h)
system_or_game-game none (some i) j h = cc h

-- A touch that hits a game hits one whose card is shown.
target_at-visible :
    (l : MenuLayout) (x y : ℤ) (j : ℕ)
    → target_at l x y ≡ some (Target.game j)
    → (k : ℕ) × (get_elem? l.visible_game_indices k ≡ some j)
unfolding target_at
target_at-visible l x y j h = elim (Bool-cases (contains l.credits x y)) [
  | inl a ↦ absurd (cc (rw a at h))
  | inr a ↦ elim (Bool-cases (contains l.settings x y)) [
    | inl b ↦ absurd (cc (rw (a, b) at h))
    | inr b ↦ elim (Bool-cases (under l.previous x y)) [
      | inl c ↦ absurd (cc (rw (a, b, c) at h))
      | inr c ↦ elim (Bool-cases (under l.next x y)) [
        | inl d ↦ absurd (cc (rw (a, b, c, d) at h))
        | inr d ↦
            find_under_from l.game_buttons l.visible_game_indices x y j
              (system_or_game-game _ _ j (rw (a, b, c, d) at h))
      ]
    ]
  ]
]

-- The window of a system with games, which is never out of range.
windowed : MenuLayout → List ℕ → ℕ → MenuLayout
unfolding games_shown
windowed l [] position = l
windowed l (i ∷ more) position =
    let count = length (i ∷ more) in
    let selected = position % count in
    games_shown l (i ∷ more) selected
      (take (visible_count count) (drop (first_visible count selected) (i ∷ more)))

slice-window :
    (xs : List ℕ) (selected : ℕ)
    → slice
        (first_visible (length xs) selected)
        (first_visible (length xs) selected + visible_count (length xs))
        xs
      ≡ some (take (visible_count (length xs)) (drop (first_visible (length xs) selected) xs))
unfolding slice first_visible visible_count
slice-window xs selected =
    let first = first_visible (length xs) selected in
    let count = visible_count (length xs) in
    let starts : leb first (first + count) ≡ true = ground arith in
    let ends : leb (first + count) (length xs) ≡ true = ground arith in
    let size : first + count - first ≡ count = omega arith in rw (starts, ends, size) refl

with_games-windowed :
    (l : MenuLayout) (all : List ℕ) (position : ℕ)
    → with_games l all position ≡ some (windowed l all position)
unfolding with_games windowed cut_out
with_games-windowed l [] position = refl
with_games-windowed l (i ∷ more) position =
    ap (cut_out l (i ∷ more) (position % length (i ∷ more)))
      (slice-window (i ∷ more) (position % length (i ∷ more)))

-- Drawing the menu never panics.
pub layout-some :
    (games : List Game) (s : System) (position : ℕ)
    → (l : MenuLayout) × (layout games s position ≡ some l)
unfolding layout
layout-some games s position = (
  windowed (empty_layout games) (indices_from 0 games s) position,
  with_games-windowed (empty_layout games) (indices_from 0 games s) position,
)

windowed-visible :
    (l : MenuLayout) (all : List ℕ) (position k j : ℕ)
    → l.visible_game_indices ≡ []
    → get_elem? (windowed l all position).visible_game_indices k ≡ some j
    → (m : ℕ) × (get_elem? all m ≡ some j)
unfolding windowed games_shown
windowed-visible l [] position k j e h = absurd (cc (rw e at h))
windowed-visible l (i ∷ more) position k j e h =
    let count = length (i ∷ more) in
    let first = first_visible count (position % count) in
    (
      first + k,
      sym (get_elem?-drop first (i ∷ more) k)
          ∙ get_elem?-take (visible_count count) (drop first (i ∷ more)) k j h,
    )

-- A touch of the menu that hits a game hits one of the catalog that belongs to the system in view.
pub target_at-layout :
    (games : List Game) (s : System) (position : ℕ) (l : MenuLayout) (x y : ℤ) (j : ℕ)
    → layout games s position ≡ some l
    → target_at l x y ≡ some (Target.game j)
    → (g : Game) × (get_elem? games j ≡ some g) × (same_system g.system s ≡ true)
unfolding layout empty_layout
target_at-layout games s position l x y j e h =
    let all = indices_from 0 games s in
    let same : l ≡ windowed (empty_layout games) all position =
      some-injective l (windowed (empty_layout games) all position)
        (sym e ∙ with_games-windowed (empty_layout games) all position) in
    let (k, shown) = target_at-visible l x y j h in
    let (m, listed) =
      windowed-visible (empty_layout games) all position k j refl
        (subst (λ w. get_elem? w.visible_game_indices k ≡ some j) same shown) in
    let (n, (e', (g, found, fits))) = indices_from-Listed 0 games s m j listed in
    let here : n ≡ j = omega arith in (g, subst (λ i. get_elem? games i ≡ some g) here found, fits)
