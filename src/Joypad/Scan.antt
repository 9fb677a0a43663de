-- ===== src/Joypad/Scan.antt =====
-- The devices that a scan of the joypads finds (`scan_gamepads` of native/src/joypad.rs).
use retrodeck.Prelude.{
  ℕ, ◌+◌, ◌≤◌, ◌≡◌, refl, sym, ◌∙◌, ap, Bool, true, false, ◌||◌, List, [], ◌∷◌, inl, inr,
  Bool-cases, arith,
}
use retrodeck.Prelude.Decimal.{text_eq, text_eq_iff}
use retrodeck.Joypad.{
  Gamepad, Candidate, holds, free_candidates, before, insert, sort, scan_gamepads,
}
use retrodeck.Joypad.Assignment.{amount, count, holders, assign-holders}

insert-count :
    (path : List ℕ) (c : Candidate) (found : List Candidate)
    → count path (insert c found) ≡ amount (text_eq c.path path) + count path found
unfolding insert count
insert-count path c [] = refl
insert-count path c (d ∷ rest) =
    let ih = insert-count path c rest in
    elim (Bool-cases (before c d)) [ inl h ↦ rw h refl | inr h ↦ rw (h, ih) (omega arith) ]

sort-count : (path : List ℕ) (found : List Candidate) → count path (sort found) ≡ count path found
unfolding sort count
sort-count path [] = refl
sort-count path (c ∷ rest) =
    insert-count path c (sort rest)
    ∙ ap (λ n. amount (text_eq c.path path) + n) (sort-count path rest)

held : Gamepad → Gamepad → List ℕ → Bool
unfolding holds
held a b path = holds a path || holds b path

-- A device is another one than `path` if a player holds the one and not the other.
other_path :
    (a b : Gamepad) (c path : List ℕ) (x y : Bool)
    → held a b c ≡ x
    → held a b path ≡ y
    → ¬ (x ≡ y)
    → text_eq c path ≡ false
other_path a b c path x y h k n = elim (Bool-cases (text_eq c path)) [
  | inl e ↦ absurd (n (sym h ∙ (ap (held a b) ((text_eq_iff c path).0 e) ∙ k)))
  | inr e ↦ e
]

free_candidates-held :
    (a b : Gamepad) (path : List ℕ) (found : List Candidate)
    → held a b path ≡ true
    → count path (free_candidates a b found) ≡ 0
unfolding free_candidates count held
free_candidates-held a b path [] h = refl
free_candidates-held a b path (c ∷ rest) h =
    let ih = free_candidates-held a b path rest h in
    elim (Bool-cases (held a b c.path)) [
      | inl k ↦ rw k ih
      | inr k ↦ rw (k, other_path a b c.path path false true k h (λ e. cc e)) (omega arith)
    ]

free_candidates-unheld :
    (a b : Gamepad) (path : List ℕ) (found : List Candidate)
    → held a b path ≡ false
    → count path (free_candidates a b found) ≡ count path found
unfolding free_candidates count held
free_candidates-unheld a b path [] h = refl
free_candidates-unheld a b path (c ∷ rest) h =
    let ih = free_candidates-unheld a b path rest h in
    elim (Bool-cases (held a b c.path)) [
      | inl k ↦ rw (k, other_path a b c.path path true false k h (λ e. cc e)) (omega arith)
      | inr k ↦ rw (k, ih) refl
    ]

held-amounts :
    (x y : Bool) (rest n : ℕ)
    → ((x || y) ≡ true → rest ≡ 0)
    → ((x || y) ≡ false → rest ≡ n)
    → n ≤ 1
    → amount x + amount y ≤ 1
    → amount x + amount y + rest ≤ 1
held-amounts true true rest n h k once before = absurd (omega arith)
held-amounts true false rest n h k once before = let none = h refl in omega arith
held-amounts false true rest n h k once before = let none = h refl in omega arith
held-amounts false false rest n h k once before = let all = k refl in omega arith

-- Two players never share a device: if a scan finds each device at most once and at most one player
-- holds a given device before the scan, then at most one player holds it after the scan.
pub scan_gamepads-exclusive :
    (a b : Gamepad) (found : List Candidate) (path : List ℕ)
    → count path found ≤ 1
    → amount (holds a path) + amount (holds b path) ≤ 1
    → amount (holds (scan_gamepads a b found).0 path)
        + amount (holds (scan_gamepads a b found).1 path)
      ≤ 1
unfolding scan_gamepads holders held
scan_gamepads-exclusive a b found path once before =
    let given =
      assign-holders
        (record { first = a; second = b; remaining = sort (free_candidates a b found) }) path in
    let sorted = sort-count path (free_candidates a b found) in
    let total =
      held-amounts (holds a path) (holds b path) (count path (free_candidates a b found))
        (count path found) (free_candidates-held a b path found)
        (free_candidates-unheld a b path found) once before in
    omega arith
