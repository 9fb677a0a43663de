-- ===== src/Dashboard/Navigation/Selection.antt =====
-- The game that is selected (`selected_game` and the moves of native/src/dashboard/app.rs).
use native.Mathlib.Nat.{mod-lt, mod-eq_of_lt, mod-eq-sub-mod, mod_self}
use retrodeck.Prelude.{
  ℕ, suc, zero, ◌+◌, ◌-◌, ◌%◌, ◌<◌, max, ◌≡◌, refl, sym, ap, ◌∙◌, subst, Bool, true, false, not,
  List, [], ◌∷◌, some, ltb, length, get_elem?, arith, Bool-cases, inl, inr,
}
use retrodeck.Policy.{Game}
use retrodeck.Menu.{same_system}
use retrodeck.Menu.Window.{indices_from-Listed}
use retrodeck.Dashboard.{App}
use retrodeck.Dashboard.Operations.{indices, selected_game}
use retrodeck.Dashboard.Navigation.{step_position}

get_elem?-lt {ℓ} :
    {A : Type ℓ} (vs : List A) (i : ℕ) → i < length vs → (v : A) × (get_elem? vs i ≡ some v)
get_elem?-lt [] i h = absurd (omega arith)
get_elem?-lt (v ∷ vs) zero h = (v, refl)
get_elem?-lt (v ∷ vs) (suc i) h = get_elem?-lt vs i (omega arith)

-- The selected game is one of the system in view, wherever the position stands, and there is one
-- whenever the system has games.
pub selected_game-system :
    (a : App)
    → ((j : ℕ)
        → selected_game a ≡ some j
        → (g : Game) × (get_elem? a.games j ≡ some g) × (same_system g.system a.system ≡ true))
      × (0 < length (indices a) → (j : ℕ) × (selected_game a ≡ some j))
unfolding selected_game indices
selected_game-system a = (
  λ j h.
      let (n, (e, (g, found, same))) = indices_from-Listed 0 a.games a.system _ j h in
      let here : n ≡ j = omega arith in
      (g, subst (λ m. get_elem? a.games m ≡ some g) here found, same),
  λ h. get_elem?-lt (indices a) (a.position % max (length (indices a)) 1) (omega arith),
)

back_suc : (c m : ℕ) → m + 1 < c → (m + 1 + c - 1) % c ≡ m
back_suc c m h =
    ap (λ n. n % c) (let e : m + 1 + c - 1 ≡ m + c = omega arith in e)
    ∙ mod-eq-sub-mod {n = m + c} {m = c} (omega arith)
    ∙ ap (λ n. n % c) (let e : m + c - c ≡ m = omega arith in e)
    ∙ mod-eq_of_lt {n = m} {m = c} (omega arith)

back_zero : (c : ℕ) → 0 < c → (0 + c - 1) % c ≡ c - 1
back_zero c h = mod-eq_of_lt {n = 0 + c - 1} {m = c} (omega arith) ∙ omega arith

on_last : (c : ℕ) → 0 < c → (c - 1 + 1) % c ≡ 0
on_last c h = ap (λ n. n % c) (let e : c - 1 + 1 ≡ c = omega arith in e) ∙ mod_self c

on_lt : (c p : ℕ) → p + 1 < c → (p + 1) % c ≡ p + 1
on_lt c p h = mod-eq_of_lt {n = p + 1} {m = c} h

on_then_back : (c p : ℕ) → p < c → ((p + 1) % c + c - 1) % c ≡ p
on_then_back c p h = elim (Bool-cases (ltb (p + 1) c)) [
  | inl more ↦ ap (λ n. (n + c - 1) % c) (on_lt c p (ground arith)) ∙ back_suc c p (ground arith)
  | inr last ↦
      let e : p ≡ c - 1 = ground arith in
      ap (λ n. ((n + 1) % c + c - 1) % c) e
      ∙ ap (λ n. (n + c - 1) % c) (on_last c (omega arith))
      ∙ back_zero c (omega arith)
      ∙ sym e
]

back_then_on : (c p : ℕ) → p < c → ((p + c - 1) % c + 1) % c ≡ p
back_then_on c zero h = ap (λ n. (n + 1) % c) (back_zero c h) ∙ on_last c h
back_then_on c (suc m) h =
    ap (λ n. ((n + c - 1) % c + 1) % c) (let e : suc m ≡ m + 1 = omega arith in e)
    ∙ ap (λ n. (n + 1) % c) (back_suc c m (omega arith))
    ∙ on_lt c m (omega arith)
    ∙ omega arith

-- A step back takes back a step on, and the other way round, with any number of games, and the
-- position stays among them.
pub step_position-opposite :
    (count position : ℕ) (backwards : Bool)
    → position < count
    → (step_position backwards count position < count)
      × (step_position (not backwards) count (step_position backwards count position) ≡ position)
unfolding step_position
step_position-opposite count position true h =
    (mod-lt (position + count - 1) (omega arith), back_then_on count position h)
step_position-opposite count position false h =
    (mod-lt (position + 1) (omega arith), on_then_back count position h)
