-- ===== src/Policy/Manifest/Loading.antt =====
-- `load_games` of native/src/dashboard/policy.rs line by line: what it keeps is always a catalog.
use retrodeck.Prelude.{
  ℕ, suc, ◌+◌, ◌*◌, ◌^◌, ◌≤◌, ◌<◌, ◌≡◌, refl, ap, inl, inr, Bool, true, false, not, ◌&&◌, ◌||◌,
  List, [], ◌∷◌, map, Option, none, some, ltb, leb, ◌==◌, if◌then◌else◌, length, length-take, arith,
  Bool-cases, Option-cases, subst,
}
use retrodeck.Prelude.Result.{Result, ok, err}
use retrodeck.Prelude.Utf8.{is_utf8}
use retrodeck.Policy.{System, Game}
use retrodeck.Policy.Manifest.{
  Error, max_manifest_bytes, hex_digit, hex_value, color, valid_id, shown, display, parse_system,
  is_member, starts_with, is_nil, State, is_header, bad_title, bad_rom, push_game, game_line,
  fields_line, read_line, read_lines, start, finished, load_games, lines, split, strip_return,
}
use retrodeck.Policy.Manifest.Catalog.{Unique, IsGame, AllGames, IsCatalog, Inv, pushed-Inv}

hex_digit_lt : (b d : ℕ) → hex_digit b ≡ some d → d < 16
unfolding hex_digit
hex_digit_lt b d h = ground arith

next_digit : (v d m : ℕ) → d < 16 → (v * 16 + d + 1) * m ≤ (v + 1) * (16 * m)
next_digit v d m h = let a : d * m ≤ 15 * m = grind arith in grind arith

hex_value_lt :
    (v : ℕ) (text : List ℕ) (w : ℕ) → hex_value v text ≡ some w → w < (v + 1) * 16 ^ length text
unfolding hex_value
hex_value_lt v [] w h = let e : v ≡ w = cc h in omega arith
hex_value_lt v (b ∷ text) w h = elim (Option-cases (hex_digit b)) [
  | inl bad ↦ absurd (cc (rw (bad, hex_value) at h))
  | inr (d, good) ↦
      let a = hex_value_lt (v * 16 + d) text w (rw (good, hex_value) at h) in
      let p : 16 ^ suc (length text) ≡ 16 * 16 ^ length text = grind arith in
      let q = ap (λ n. (v + 1) * n) p in
      let c = next_digit v d (16 ^ length text) (hex_digit_lt b d good) in omega arith
]

color_lt : (text : List ℕ) (w : ℕ) → color text ≡ some w → w < 2 ^ 24
unfolding color
color_lt [] w h = absurd (cc h)
color_lt (b ∷ digits) w h = elim (Bool-cases ((length digits == 6) && (b == b'#'))) [
  | inr bad ↦ absurd (cc (rw bad at h))
  | inl good ↦
      let six : length digits ≡ 6 = ground arith in
      let bound = hex_value_lt 0 digits w (rw good at h) in
      let power : 16 ^ length digits ≡ 2 ^ 24 = ap (λ n. 16 ^ n) six in omega arith
]

display-le : (text : List ℕ) → length (display text) ≤ 64
unfolding display
display-le text = let a = length-take 64 (shown text) in omega arith

made-IsGame :
    (id title rom : List ℕ) (system : System) (w : ℕ)
    → valid_id id ≡ true
    → bad_title title ≡ false
    → bad_rom rom ≡ false
    → w < 2 ^ 24
    → IsGame (record {
      id = id;
      title = display title;
      system = system;
      rom = rom;
      cover = none;
      color = w;
      terminal_mode = none;
    })
unfolding bad_title bad_rom
made-IsGame id title rom system w a b d e = record {
  named = a;
  shown_title = ground arith;
  short_title = display-le title;
  absolute = ground arith;
  short_rom = ground arith;
  colored = e;
}

-- What holds of the result of a line.
Holds : Result Error State → Type 0
Holds (err e) = Unit
Holds (ok s) = Inv s

push_game-Holds :
    (s : State) (n : ℕ) (id title rom : List ℕ) (system : Option System) (c : Option ℕ)
    → Inv s
    → valid_id id ≡ true
    → bad_title title ≡ false
    → bad_rom rom ≡ false
    → ((w : ℕ) → c ≡ some w → w < 2 ^ 24)
    → Holds (push_game s n id title rom system c)
unfolding push_game Holds
push_game-Holds s n id title rom none c inv a b d e = tt
push_game-Holds s n id title rom (some system) c inv a b d e =
    elim (Bool-cases (is_member id s.ids)) [
      | inl old ↦ rw old tt
      | inr new_id ↦ elim (Bool-cases (is_member rom s.roms)) [
        | inl old ↦ rw (new_id, old) tt
        | inr new_rom ↦ elim (Option-cases c) [
          | inl bad ↦ rw (new_id, new_rom, bad) tt
          | inr (w, colored) ↦ elim (Bool-cases (ltb 64 (length s.out + 1))) [
            | inl full ↦ rw (new_id, new_rom, colored, full) tt
            | inr room ↦
                rw (new_id, new_rom, colored, room)
                  (pushed-Inv s _ inv (made-IsGame id title rom system w a b d (e w colored)) new_id
                    new_rom (ground arith))
          ]
        ]
      ]
    ]

game_line-Holds :
    (s : State) (n : ℕ) (id title system rom last : List ℕ)
    → Inv s
    → Holds (game_line s n id title system rom last)
unfolding game_line Holds
game_line-Holds s n id title system rom last inv = elim (Bool-cases (valid_id id)) [
  | inr bad ↦ rw bad tt
  | inl named ↦ elim (Bool-cases (bad_title title)) [
    | inl bad ↦ rw (named, bad) tt
    | inr titled ↦ elim (Bool-cases (bad_rom rom)) [
      | inl bad ↦ rw (named, titled, bad) tt
      | inr stored ↦
          rw (named, titled, stored)
            (push_game-Holds s n id title rom (parse_system system) (color last) inv named titled
              stored (color_lt last))
    ]
  ]
]

-- Only the list of games and the sets matter.
seen-Inv : (s : State) (b : Bool) → Inv s → Inv (record s { data_seen = b })
seen-Inv s b inv = record {
  few = inv.few;
  good = inv.good;
  unique_ids = inv.unique_ids;
  unique_roms = inv.unique_roms;
  id_set = inv.id_set;
  rom_set = inv.rom_set;
}

fields_line-Holds :
    (s : State) (n : ℕ) (fields : List (List ℕ)) → Inv s → Holds (fields_line s n fields)
unfolding fields_line Holds
fields_line-Holds s n [] inv = tt
fields_line-Holds s n (a ∷ []) inv = tt
fields_line-Holds s n (a ∷ b ∷ []) inv = tt
fields_line-Holds s n (a ∷ b ∷ c ∷ []) inv = tt
fields_line-Holds s n (a ∷ b ∷ c ∷ d ∷ []) inv = tt
fields_line-Holds s n (a ∷ b ∷ c ∷ d ∷ e ∷ f ∷ more) inv = tt
fields_line-Holds s n (a ∷ b ∷ c ∷ d ∷ e ∷ []) inv =
    if_Holds (not s.data_seen && is_header a b c d e) (ok (record s { data_seen = true }))
      (game_line s n a b c d e) (seen-Inv s true inv) (game_line-Holds s n a b c d e inv)
  where
    if_Holds :
        (t : Bool) (x y : Result Error State) → Holds x → Holds y → Holds (if t then x else y)
    if_Holds true x y h k = h
    if_Holds false x y h k = k

read_line-Holds : (s : State) (n : ℕ) (r : List ℕ) → Inv s → Holds (read_line s n r)
unfolding read_line Holds
read_line-Holds s n r inv = elim (Bool-cases (ltb 4096 (length r))) [
  | inl long ↦ rw long tt
  | inr fits ↦ elim (Bool-cases (is_nil (strip_return r) || starts_with b'#' (strip_return r))) [
    | inl skip ↦ rw (fits, skip) inv
    | inr filled ↦ rw (fits, filled) (fields_line-Holds s n (split 9 (strip_return r)) inv)
  ]
]

read_lines-Holds :
    (result : Result Error State) (n : ℕ) (rest : List (List ℕ))
    → Holds result
    → Holds (read_lines result n rest)
unfolding read_lines Holds
read_lines-Holds (err e) n rest h = tt
read_lines-Holds (ok s) n [] h = h
read_lines-Holds (ok s) n (r ∷ rest) h =
    read_lines-Holds (read_line s n r) (n + 1) rest (read_line-Holds s n r h)

finished-IsCatalog :
    (result : Result Error State) (games : List Game)
    → Holds result
    → finished result ≡ ok games
    → IsCatalog games
unfolding finished Holds
finished-IsCatalog (err e) games h k = absurd (cc k)
finished-IsCatalog (ok s) games h k = named s.out refl h.few h.good h.unique_ids h.unique_roms k
  where
    named :
        (out : List Game)
        → s.out ≡ out
        → length out ≤ 64
        → AllGames out
        → Unique (map (λ g. g.id) out)
        → Unique (map (λ g. g.rom) out)
        → (elim out as (λ x. Result Error (List Game)) [
          | [] ↦ err Error.no_games
          | g ∷ rest ↦ ok (g ∷ rest)
        ])
          ≡ ok games
        → IsCatalog games
    named [] e a b c d k = absurd (cc k)
    named (g ∷ rest) e a b c d k =
        let path : g ∷ rest ≡ games = cc k in
        subst IsCatalog path
          (record { some_game = omega arith; few_games = a; all_games = b; ids = c; roms = d })

start-Inv : Inv start
unfolding start
start-Inv = record {
  few = omega arith;
  good = tt;
  unique_ids = tt;
  unique_roms = tt;
  id_set = λ x. refl;
  rom_set = λ x. refl;
}

-- Whatever the manifest holds, a catalog that is loaded has from 1 to 64 games with distinct ids
-- and distinct ROMs, each with a valid id, a title of 1 to 64 bytes, an absolute ROM path of at
-- most 4095 bytes, and a color of 24 bits.
pub load_games-IsCatalog :
    (text : List ℕ) (games : List Game) → load_games text ≡ ok games → IsCatalog games
unfolding load_games Holds
load_games-IsCatalog text games h =
    elim (Bool-cases (leb 1 (length text) && leb (length text) max_manifest_bytes)) [
      | inr bad ↦ absurd (cc (rw bad at h))
      | inl sized ↦ elim (Bool-cases (is_utf8 text)) [
        | inr bad ↦ absurd (cc (rw (sized, bad) at h))
        | inl valid ↦
            finished-IsCatalog (read_lines (ok start) 1 (lines text)) games
              (read_lines-Holds (ok start) 1 (lines text) start-Inv) (rw (sized, valid) at h)
      ]
    ]
