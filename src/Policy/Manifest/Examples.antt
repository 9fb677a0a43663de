-- ===== src/Policy/Manifest/Examples.antt =====
-- A manifest of one game, as `load_games` of native/src/dashboard/policy.rs reads it.
use retrodeck.Prelude.{ℕ, ◌≡◌, refl, true, List, [], ◌∷◌, none, arith}
use retrodeck.Prelude.Decimal.{bytes, text_eq}
use retrodeck.Prelude.Result.{ok}
use retrodeck.Prelude.Utf8.{is_utf8, ascii-is_utf8}
use retrodeck.Policy.{System, Game}
use retrodeck.Policy.Manifest.{
  load_games, read_lines, start, finished, lines, ended_lines, split, split_from, strip_return,
  read_line, fields_line, is_header, game_line, valid_id, is_id_byte, id_tail, bad_title, bad_rom,
  push_game, display, shown, starts_with, ends_with, is_nil, is_member, color, hex_value, hex_digit,
  parse_system,
}
use retrodeck.Policy.Manifest.Catalog.{IsCatalog}
use retrodeck.Policy.Manifest.Loading.{load_games-IsCatalog}

-- The fields `a`, `A`, `nes`, `/r` and `#00000f`, between tabs.
abbrev manifest : List ℕ
manifest =
    97 ∷ 9 ∷ 65 ∷ 9 ∷ 110 ∷ 101 ∷ 115 ∷ 9 ∷ 47 ∷ 114 ∷ 9 ∷ 35 ∷ 48 ∷ 48 ∷ 48 ∷ 48 ∷ 48 ∷ 102 ∷ 13
    ∷ 10 ∷ []

abbrev only_game : Game
only_game = record {
  id = 97 ∷ [];
  title = 65 ∷ [];
  system = System.nes;
  rom = 47 ∷ 114 ∷ [];
  cover = none;
  color = 15;
  terminal_mode = none;
}

manifest_utf8 : is_utf8 manifest ≡ true
manifest_utf8 = ascii-is_utf8 manifest (ground arith)

loads : load_games manifest ≡ ok (only_game ∷ [])
unfolding load_games read_lines start finished lines ended_lines split split_from strip_return
    read_line fields_line is_header game_line valid_id is_id_byte id_tail bad_title bad_rom
    push_game display shown starts_with ends_with is_nil is_member color hex_value hex_digit
    parse_system text_eq bytes
loads = rw manifest_utf8 refl

load_games-IsCatalog_example : IsCatalog (only_game ∷ [])
load_games-IsCatalog_example = load_games-IsCatalog manifest (only_game ∷ []) loads
