-- ===== src/Policy/Manifest/Catalog.antt =====
-- What every catalog that `load_games` of native/src/dashboard/policy.rs accepts is like.
use retrodeck.Prelude.{
  ℕ, ◌+◌, ◌^◌, ◌≤◌, ◌<◌, ◌≡◌, refl, sym, ap, ◌∙◌, true, false, ◌||◌, List, [], ◌∷◌, ◌++◌, map,
  length, length-append, arith, subst,
}
use retrodeck.Prelude.Decimal.{text_eq}
use retrodeck.Policy.{Game}
use retrodeck.Policy.Manifest.{valid_id, is_member, starts_with, is_nil, State}

abbrev pub Unique : List (List ℕ) → Type 0
Unique [] = Unit
Unique (x ∷ xs) = (is_member x xs ≡ false) × Unique xs

-- A line's requirements, as the other parts of the launcher rely on them.
pub record IsGame (g : Game) : Type 0 where
  pub named : valid_id g.id ≡ true
  pub shown_title : is_nil g.title ≡ false
  pub short_title : length g.title ≤ 64
  pub absolute : starts_with b'/' g.rom ≡ true
  pub short_rom : length g.rom ≤ 4095
  pub colored : g.color < 2 ^ 24

abbrev pub AllGames : List Game → Type 0
AllGames [] = Unit
AllGames (g ∷ games) = IsGame g × AllGames games

pub record IsCatalog (games : List Game) : Type 0 where
  pub some_game : 1 ≤ length games
  pub few_games : length games ≤ 64
  pub all_games : AllGames games
  pub ids : Unique (map (λ g. g.id) games)
  pub roms : Unique (map (λ g. g.rom) games)

text_eq_comm : (x y : List ℕ) → text_eq x y ≡ text_eq y x
unfolding text_eq
text_eq_comm [] [] = refl
text_eq_comm [] (b ∷ y) = refl
text_eq_comm (a ∷ x) [] = refl
text_eq_comm (a ∷ x) (b ∷ y) = let h = text_eq_comm x y in ground arith

is_member_snoc :
    (x y : List ℕ) (ys : List (List ℕ))
    → is_member x (ys ++ (y ∷ [])) ≡ (text_eq x y || is_member x ys)
unfolding is_member
is_member_snoc x y [] = refl
is_member_snoc x y (z ∷ ys) = let h = is_member_snoc x y ys in ground arith

snoc-Unique :
    (y : List ℕ) (ys : List (List ℕ)) → Unique ys → is_member y ys ≡ false → Unique (ys ++ (y ∷ []))
unfolding is_member
snoc-Unique y [] u h = (refl, tt)
snoc-Unique y (z ∷ ys) u h =
    let a = is_member_snoc z y ys in
    let b = text_eq_comm y z in let c = u.0 in (ground arith, snoc-Unique y ys u.1 (ground arith))

map_snoc :
    (f : Game → List ℕ) (games : List Game) (g : Game)
    → map f (games ++ (g ∷ [])) ≡ map f games ++ (f g ∷ [])
map_snoc f [] g = refl
map_snoc f (h ∷ games) g = ap (λ t. f h ∷ t) (map_snoc f games g)

snoc-AllGames :
    (games : List Game) (g : Game) → AllGames games → IsGame g → AllGames (games ++ (g ∷ []))
snoc-AllGames [] g a h = (h, tt)
snoc-AllGames (x ∷ games) g a h = (a.0, snoc-AllGames games g a.1 h)

-- What holds after each line.
pub record Inv (s : State) : Type 0 where
  pub few : length s.out ≤ 64
  pub good : AllGames s.out
  pub unique_ids : Unique (map (λ g. g.id) s.out)
  pub unique_roms : Unique (map (λ g. g.rom) s.out)
  pub id_set : (x : List ℕ) → is_member x s.ids ≡ is_member x (map (λ g. g.id) s.out)
  pub rom_set : (x : List ℕ) → is_member x s.roms ≡ is_member x (map (λ g. g.rom) s.out)

-- The set of a field of the games grows with the list.
set_snoc :
    (f : Game → List ℕ) (games : List Game) (g : Game) (seen : List (List ℕ)) (x : List ℕ)
    → is_member x seen ≡ is_member x (map f games)
    → is_member x (f g ∷ seen) ≡ is_member x (map f (games ++ (g ∷ [])))
unfolding is_member
set_snoc f games g seen x h =
    let a = is_member_snoc x (f g) (map f games) in
    ap (λ b. text_eq x (f g) || b) h ∙ sym a ∙ ap (is_member x) (sym (map_snoc f games g))

Unique-snoc :
    (f : Game → List ℕ) (games : List Game) (g : Game) (seen : List (List ℕ))
    → ((x : List ℕ) → is_member x seen ≡ is_member x (map f games))
    → Unique (map f games)
    → is_member (f g) seen ≡ false
    → Unique (map f (games ++ (g ∷ [])))
Unique-snoc f games g seen same u h =
    subst Unique (sym (map_snoc f games g))
      (snoc-Unique (f g) (map f games) u (sym (same (f g)) ∙ h))

pub pushed-Inv :
    (s : State) (g : Game)
    → Inv s
    → IsGame g
    → is_member g.id s.ids ≡ false
    → is_member g.rom s.roms ≡ false
    → length s.out + 1 ≤ 64
    → Inv (record {
      out = s.out ++ (g ∷ []);
      ids = g.id ∷ s.ids;
      roms = g.rom ∷ s.roms;
      data_seen = true;
    })
pushed-Inv s g inv game new_id new_rom room = record {
  few = let a = length-append s.out (g ∷ []) in omega arith;
  good = snoc-AllGames s.out g inv.good game;
  unique_ids = Unique-snoc (λ h. h.id) s.out g s.ids inv.id_set inv.unique_ids new_id;
  unique_roms = Unique-snoc (λ h. h.rom) s.out g s.roms inv.rom_set inv.unique_roms new_rom;
  id_set = λ x. set_snoc (λ h. h.id) s.out g s.ids x (inv.id_set x);
  rom_set = λ x. set_snoc (λ h. h.rom) s.out g s.roms x (inv.rom_set x);
}
