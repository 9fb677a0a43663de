-- ===== src/Menu.antt =====
-- The layout of the launcher's menu: native/src/dashboard/menu.rs without its drawing. Coordinates
-- (`i32`) are integers and sizes (`u32`) are numbers.
pub mod Window
mod Examples
use retrodeck.Prelude.{
  ℕ, ◌+◌, ◌-◌, ◌*◌, ◌/◌, ◌%◌, min, Bool, true, false, not, ◌&&◌, ◌||◌, List, [], ◌∷◌, Option, none,
  some, ltb, leb, ◌==◌, if◌then◌else◌, length, take, drop, get_elem?,
}
use retrodeck.Prelude.Int.{ℤ, pos, negsuc, sub_ℕ, ◌+ℤ◌, ltb_ℤ, leb_ℤ}
use retrodeck.Policy.{System, Game}

pub record Bounds : Type 0 where
  pub x : ℤ
  pub y : ℤ
  pub width : ℕ
  pub height : ℕ

unfoldable pub contains : Bounds → ℤ → ℤ → Bool
contains b x y =
    leb_ℤ b.x x && leb_ℤ b.y y && ltb_ℤ x (b.x +ℤ pos b.width) && ltb_ℤ y (b.y +ℤ pos b.height)

pub data Target : Type 0 where
  credits settings previous next : Target
  system : System → Target
  game : ℕ → Target

pub record MenuLayout : Type 0 where
  pub credits : Bounds
  pub settings : Bounds
  pub previous : Option Bounds
  pub next : Option Bounds
  pub systems : List System
  pub system_buttons : List Bounds
  pub game_indices : List ℕ
  pub visible_game_indices : List ℕ
  pub game_buttons : List Bounds
  pub indicators : List Bounds
  pub shown_game_index : Option ℕ

-- `zip` and `find_map`: what belongs to the first rectangle that contains the point.
find_under {ℓ} : {A : Type ℓ} → List Bounds → List A → ℤ → ℤ → Option A
find_under [] vs x y = none
find_under (b ∷ bs) [] x y = none
find_under (b ∷ bs) (v ∷ vs) x y = if contains b x y then some v else find_under bs vs x y

under : Option Bounds → ℤ → ℤ → Bool
under none x y = false
under (some b) x y = contains b x y

game_target : Option ℕ → Option Target
game_target none = none
game_target (some i) = some (Target.game i)

-- `or_else`
system_or_game : Option System → Option ℕ → Option Target
unfolding game_target
system_or_game (some s) g = some (Target.system s)
system_or_game none g = game_target g

pub target_at : MenuLayout → ℤ → ℤ → Option Target
unfolding find_under under system_or_game
target_at l x y =
    if contains l.credits x y
    then some Target.credits
    else if contains l.settings x y
    then some Target.settings
    else if under l.previous x y
    then some Target.previous
    else if under l.next x y
    then some Target.next
    else system_or_game (find_under l.system_buttons l.systems x y)
        (find_under l.game_buttons l.visible_game_indices x y)

-- The derived equality of systems goes by their numbers.
abbrev pub system_number : System → ℕ
system_number System.nes = 0
system_number System.gb = 1
system_number System.gbc = 2
system_number System.gba = 3
system_number System.zx = 4
system_number System.deck = 5

abbrev pub same_system : System → System → Bool
same_system a b = system_number a == system_number b

-- `games.iter().any(|g| g.system == s)`
unfoldable pub any_of : System → List Game → Bool
any_of s [] = false
any_of s (g ∷ games) = same_system g.system s || any_of s games

filter_populated : List Game → List System → List System
unfolding any_of
filter_populated games [] = []
filter_populated games (s ∷ rest) =
    let kept = filter_populated games rest in if any_of s games then s ∷ kept else kept

unfoldable pub populated_systems : List Game → List System
unfolding filter_populated
populated_systems games =
    filter_populated games
      (System.nes ∷ System.gb ∷ System.gbc ∷ System.gba ∷ System.zx ∷ System.deck ∷ [])

-- `enumerate` from a first index, and `filter_map`.
unfoldable pub indices_from : ℕ → List Game → System → List ℕ
indices_from i [] s = []
indices_from i (g ∷ games) s =
    let rest = indices_from (i + 1) games s in if same_system g.system s then i ∷ rest else rest

bounds : ℕ → ℕ → ℕ → ℕ → Bounds
bounds x y w h = record { x = pos x; y = pos y; width = w; height = h }

-- The buttons of `count` systems, the first of these at `index`.
system_buttons : ℕ → ℕ → List System → List Bounds
unfolding bounds
system_buttons width index [] = []
system_buttons width index (s ∷ rest) =
    bounds (56 + index * (width + 8)) 76 width 52 ∷ system_buttons width (index + 1) rest

abbrev system_width : ℕ → ℕ
system_width count = (1168 - 8 * (count - 1)) / count

-- The window of at most three games around the selected one.
pub visible_count : ℕ → ℕ
visible_count count = min count 3

pub first_visible : ℕ → ℕ → ℕ
unfolding visible_count
first_visible count selected = min (selected - 1) (count - visible_count count)

abbrev row_width : ℕ → ℕ
row_width visible = visible * 216 + (visible - 1) * 36

cards : ℕ → List ℕ → List Bounds
unfolding bounds
cards x [] = []
cards x (i ∷ rest) = bounds x 154 216 264 ∷ cards (x + 252) rest

-- `/ 2` on `i32` rounds towards 0.
half : ℤ → ℤ
half (pos n) = pos (n / 2)
half (negsuc n) = sub_ℕ 0 ((n + 1) / 2)

indicators : ℤ → ℕ → List ℕ → List Bounds
indicators x count [] = []
indicators x count (i ∷ rest) =
    record { x = x; y = pos 438; width = 16; height = 8 } ∷ indicators (x +ℤ pos 24) count rest

-- The layout without games of the active system.
empty_layout : List Game → MenuLayout
unfolding bounds system_buttons populated_systems
empty_layout games =
    let systems = populated_systems games in
    record {
      credits = bounds 12 412 56 56;
      settings = bounds 1212 412 56 56;
      previous = none;
      next = none;
      systems = systems;
      system_buttons = system_buttons (system_width (length systems)) 0 systems;
      game_indices = [];
      visible_game_indices = [];
      game_buttons = [];
      indicators = [];
      shown_game_index = none;
    }

-- `xs[first..last]`; nothing where the slice is out of range, at which the code panics.
slice : ℕ → ℕ → List ℕ → Option (List ℕ)
slice first last xs =
    if leb first last && leb last (length xs)
    then some (take (last - first) (drop first xs))
    else none

-- The layout of a system with games, once its visible games are cut out.
games_shown : MenuLayout → List ℕ → ℕ → List ℕ → MenuLayout
unfolding visible_count cards indicators half bounds
games_shown l all selected visible =
    let count = length all in
    record l {
      previous = if ltb 1 count then some (bounds 156 232 80 100) else none;
      next = if ltb 1 count then some (bounds 1044 232 80 100) else none;
      game_indices = all;
      visible_game_indices = visible;
      game_buttons = cards ((1280 - row_width (visible_count count)) / 2) visible;
      indicators = indicators (half (sub_ℕ 1280 (count * 16 + (count - 1) * 8))) count all;
      shown_game_index = get_elem? all selected;
    }

cut_out : MenuLayout → List ℕ → ℕ → Option (List ℕ) → Option MenuLayout
unfolding games_shown
cut_out l all selected none = none
cut_out l all selected (some visible) = some (games_shown l all selected visible)

with_games : MenuLayout → List ℕ → ℕ → Option MenuLayout
unfolding first_visible visible_count slice cut_out
with_games l [] position = some l
with_games l (i ∷ more) position =
    let all = i ∷ more in
    let count = length all in
    let selected = position % count in
    let first = first_visible count selected in
    cut_out l all selected (slice first (first + visible_count count) all)

pub layout : List Game → System → ℕ → Option MenuLayout
unfolding empty_layout with_games indices_from
layout games active position =
    with_games (empty_layout games) (indices_from 0 games active) position
