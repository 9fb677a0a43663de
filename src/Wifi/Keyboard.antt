-- ===== src/Wifi/Keyboard.antt =====
-- Where the targets of the Wi-Fi editor lie (`keys` and `target_at_mode` of
-- native/src/dashboard/wifi.rs).
use retrodeck.Prelude.{
  ℕ, zero, suc, ◌+◌, ◌≡◌, refl, sym, ap, ◌↔◌, inl, inr, Bool, true, ◌&&◌, ◌||◌, List, [], ◌∷◌, ◌++◌,
  some, some-injective, subst, leb, get_elem?, arith, Bool-cases,
}
use retrodeck.Prelude.Int.{ℤ, pos, ◌+ℤ◌, pos_part, leb_ℤ, ltb_ℤ}
use retrodeck.Settings.{Rect, contains}
use retrodeck.Wifi.{
  Mode, Target, fixed, keys, keys_from, row_keys, key_width, row_left, rect, rows, find_target,
  target_at_mode,
}

-- One rectangle ends before the other begins.
apart : Rect → Rect → Bool
apart r q =
    leb (pos_part r.x + r.w) (pos_part q.x)
    || leb (pos_part q.x + q.w) (pos_part r.x)
    || leb (pos_part r.y + r.h) (pos_part q.y)
    || leb (pos_part q.y + q.h) (pos_part r.y)

apart_from_all : Rect → List (Target × Rect) → Bool
apart_from_all r [] = true
apart_from_all r ((t, q) ∷ rest) = apart r q && apart_from_all r rest

all_apart : List (Target × Rect) → Bool
all_apart [] = true
all_apart ((t, r) ∷ rest) = apart_from_all r rest && all_apart rest

all_apart-regions : (m : Mode) → all_apart (fixed ++ keys m) ≡ true
unfolding all_apart apart_from_all apart fixed keys keys_from row_keys key_width row_left rect rows
all_apart-regions Mode.alphabet = refl
all_apart-regions Mode.symbols = refl

abbrev within : ℤ → ℕ → ℤ → Bool
within a w x = leb_ℤ a x && ltb_ℤ x (a +ℤ pos w)

not_within_both :
    (a b x : ℤ) (w v : ℕ)
    → leb (pos_part a + w) (pos_part b) ≡ true
    → within a w x ≡ true
    → within b v x ≡ true
    → ⊥
unfolding ◌+ℤ◌
not_within_both a b x w v h k l = ground arith

and_left : (a b c d : Bool) → (a && b && c && d) ≡ true → (a && b) ≡ true
and_left a b c d h = ground arith

and_right : (a b c d : Bool) → (a && b && c && d) ≡ true → (c && d) ≡ true
and_right a b c d h = ground arith

contains-within :
    (r : Rect) (x y : ℤ)
    → contains r x y ≡ true
    → (within r.x r.w x ≡ true) × (within r.y r.h y ≡ true)
unfolding contains
contains-within r x y h = (
  and_left (leb_ℤ r.x x) (ltb_ℤ x (r.x +ℤ pos r.w)) (leb_ℤ r.y y) (ltb_ℤ y (r.y +ℤ pos r.h)) h,
  and_right (leb_ℤ r.x x) (ltb_ℤ x (r.x +ℤ pos r.w)) (leb_ℤ r.y y) (ltb_ℤ y (r.y +ℤ pos r.h)) h,
)

not_both :
    (r q : Rect) (x y : ℤ) → apart r q ≡ true → contains r x y ≡ true → contains q x y ≡ true → ⊥
unfolding apart
not_both r q x y h k l =
    let (rx, ry) = contains-within r x y k in
    let (qx, qy) = contains-within q x y l in
    elim (Bool-cases (leb (pos_part r.x + r.w) (pos_part q.x))) [
      | inl side ↦ not_within_both r.x q.x x r.w q.w side rx qx
      | inr a ↦ elim (Bool-cases (leb (pos_part q.x + q.w) (pos_part r.x))) [
        | inl side ↦ not_within_both q.x r.x x q.w r.w side qx rx
        | inr b ↦ elim (Bool-cases (leb (pos_part r.y + r.h) (pos_part q.y))) [
          | inl side ↦ not_within_both r.y q.y y r.h q.h side ry qy
          | inr c ↦ not_within_both q.y r.y y q.h r.h (rw (a, b, c) at h) qy ry
        ]
      ]
    ]

apart_from_all_at :
    (r q : Rect) (t : Target) (rs : List (Target × Rect)) (i : ℕ)
    → apart_from_all r rs ≡ true
    → get_elem? rs i ≡ some (t, q)
    → apart r q ≡ true
unfolding apart_from_all
apart_from_all_at r q t [] i h k = absurd (cc k)
apart_from_all_at r q t ((u, p) ∷ rs) zero h k =
    let same : p ≡ q = ap (λ o. o.1) (some-injective _ _ k) in
    subst (λ a. apart r a ≡ true) same (ground arith)
apart_from_all_at r q t ((u, p) ∷ rs) (suc i) h k = apart_from_all_at r q t rs i (ground arith) k

-- With rectangles that do not overlap, a search finds the one that contains the point, wherever it
-- stands in the list.
find_target_at :
    (rs : List (Target × Rect)) (i : ℕ) (t : Target) (r : Rect) (x y : ℤ)
    → all_apart rs ≡ true
    → get_elem? rs i ≡ some (t, r)
    → contains r x y ≡ true
    → find_target rs x y ≡ some t
unfolding find_target all_apart
find_target_at [] i t r x y h k c = absurd (cc k)
find_target_at ((u, q) ∷ rs) zero t r x y h k c =
    let same = some-injective _ _ k in
    let here : contains q x y ≡ true =
      subst (λ a. contains a x y ≡ true) (sym (ap (λ o. o.1) same)) c in
    rw here (ap (λ o. some o.0) same)
find_target_at ((u, q) ∷ rs) (suc i) t r x y h k c = elim (Bool-cases (contains q x y)) [
  | inl here ↦ absurd (not_both q r x y (apart_from_all_at q r t rs i (ground arith) k) here c)
  | inr other ↦ rw other (find_target_at rs i t r x y (ground arith) k c)
]

-- What a search finds is in the list.
find_target_from :
    (rs : List (Target × Rect)) (t : Target) (x y : ℤ)
    → find_target rs x y ≡ some t
    → (i : ℕ) × ((r : Rect) × (get_elem? rs i ≡ some (t, r)) × (contains r x y ≡ true))
unfolding find_target
find_target_from [] t x y h = absurd (cc h)
find_target_from ((u, q) ∷ rs) t x y h = elim (Bool-cases (contains q x y)) [
  | inl here ↦
      let same : u ≡ t = some-injective _ _ (rw here at h) in
      (0, (q, ap (λ a. some (a, q)) same, here))
  | inr other ↦
      let (i, (r, found, inside)) = find_target_from rs t x y (rw other at h) in
      (suc i, (r, found, inside))
]

-- A point of the screen is on a target of the editor exactly if it lies in one of that target's
-- rectangles, the keys of either layout included: no rectangle hides a part of another.
pub target_at_mode_iff :
    (m : Mode) (x y : ℤ) (t : Target)
    → (target_at_mode m x y ≡ some t) ↔ (
        (i : ℕ) × ((r : Rect) × (get_elem? (fixed ++ keys m) i ≡ some (t, r))
          × (contains r x y ≡ true)))
unfolding target_at_mode
target_at_mode_iff m x y t = (
  λ h. find_target_from (fixed ++ keys m) t x y h,
  λ h. find_target_at (fixed ++ keys m) h.0 t h.1.0 x y (all_apart-regions m) h.1.1 h.1.2,
)
