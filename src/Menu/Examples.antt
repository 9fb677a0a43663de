-- ===== src/Menu/Examples.antt =====
-- Menus of native/src/dashboard/menu.rs.
use retrodeck.Prelude.{◌≡◌, refl, true, get_elem?, List, [], ◌∷◌, none, some}
use retrodeck.Prelude.Int.{pos, ◌+ℤ◌}
use retrodeck.Policy.{System, Game}
use retrodeck.Menu.{
  contains, target_at, same_system, indices_from, layout, empty_layout, with_games, games_shown,
  cut_out, slice, first_visible, visible_count, MenuLayout,
}
use retrodeck.Menu.Window.{target_at-layout}

abbrev entry : System → Game
entry s = record {
  id = [];
  title = [];
  system = s;
  rom = [];
  cover = none;
  color = 0;
  terminal_mode = none;
}

abbrev catalog : List Game
catalog =
    entry System.nes
    ∷ entry System.deck
    ∷ entry System.nes
    ∷ entry System.nes
    ∷ entry System.nes
    ∷ []

abbrev shown : MenuLayout
unfolding layout empty_layout with_games indices_from games_shown
shown = games_shown (empty_layout catalog) (0 ∷ 2 ∷ 3 ∷ 4 ∷ []) 2 (2 ∷ 3 ∷ 4 ∷ [])

target_at-layout_example :
    (g : Game) × (get_elem? catalog 3 ≡ some g) × (same_system g.system System.nes ≡ true)
unfolding target_at layout empty_layout with_games indices_from contains ◌+ℤ◌ games_shown cut_out
    slice first_visible visible_count
target_at-layout_example =
    target_at-layout catalog System.nes 2 shown (pos 640) (pos 300) 3 refl refl
