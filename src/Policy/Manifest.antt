-- ===== src/Policy/Manifest.antt =====
-- The catalog of games: `load_games` of native/src/dashboard/policy.rs and `System::parse` of
-- native/src/catalog_metadata.rs, on the bytes of the manifest. `lines`, `split` and the sets of
-- the standard library are written out; a set is the list of what was inserted.
pub mod Catalog
pub mod Loading
mod Examples
use retrodeck.Prelude.{
  ℕ, zero, suc, ◌+◌, ◌-◌, ◌*◌, Bool, true, false, not, ◌&&◌, ◌||◌, List, [], ◌∷◌, ◌++◌, Option,
  none, some, ltb, leb, ◌==◌, if◌then◌else◌, length, take,
}
use retrodeck.Prelude.Decimal.{bytes, text_eq, is_ascii_digit}
use retrodeck.Prelude.Result.{Result, ok, err}
use retrodeck.Prelude.Utf8.{is_utf8}
use retrodeck.Policy.{System, Game}

abbrev pub max_manifest_bytes : ℕ
max_manifest_bytes = 65536

-- One constructor for each message, most with the number of the line.
pub data Error : Type 0 where
  bad_size not_utf8 too_many_games no_games : Error
  line_too_long not_five_fields invalid_id invalid_title invalid_rom invalid_system : ℕ → Error
  duplicate_id duplicate_rom invalid_color : ℕ → Error

pub parse_system : List ℕ → Option System
parse_system s =
    if text_eq s (bytes "nes")
    then some System.nes
    else if text_eq s (bytes "gb")
    then some System.gb
    else if text_eq s (bytes "gbc")
    then some System.gbc
    else if text_eq s (bytes "gba")
    then some System.gba
    else if text_eq s (bytes "zx")
    then some System.zx
    else if text_eq s (bytes "deck")
    then some System.deck
    else none

-- The value of a hexadecimal digit, if it is one.
hex_digit : ℕ → Option ℕ
hex_digit b =
    if is_ascii_digit b
    then some (b - 48)
    else if leb 97 b && leb b 102
    then some (b - 87)
    else if leb 65 b && leb b 70
    then some (b - 55)
    else none

hex_value : ℕ → List ℕ → Option ℕ
unfolding hex_digit
hex_value v [] = some v
hex_value v (b ∷ text) = elim (hex_digit b) [ none ↦ none | some d ↦ hex_value (v * 16 + d) text ]

-- `#RRGGBB`
pub color : List ℕ → Option ℕ
unfolding hex_value
color [] = none
color (b ∷ digits) = if (length digits == 6) && (b == b'#') then hex_value 0 digits else none

is_id_byte : ℕ → Bool
is_id_byte b = (leb 97 b && leb b 122) || is_ascii_digit b

-- The bytes after the first: a dash may stand anywhere but at the end.
id_tail : List ℕ → Bool
id_tail [] = true
id_tail (b ∷ []) = is_id_byte b
id_tail (b ∷ c ∷ text) = (is_id_byte b || b == b'-') && id_tail (c ∷ text)

pub valid_id : List ℕ → Bool
unfolding is_id_byte id_tail
valid_id [] = false
valid_id (b ∷ text) = leb (length (b ∷ text)) 48 && is_id_byte b && id_tail text

-- Control characters go, and each character that is not ASCII, which its first byte stands for
-- here, becomes a question mark.
shown : List ℕ → List ℕ
shown [] = []
shown (b ∷ text) =
    let rest = shown text in
    if ltb b 32 || b == 127
    then rest
    else if ltb b 128
    then b ∷ rest
    else if ltb b 192
    then rest
    else b'?' ∷ rest

pub display : List ℕ → List ℕ
unfolding shown
display text = take 64 (shown text)

-- `split(separator)`: the field at hand, and those after it.
split_from : ℕ → List ℕ → List ℕ × List (List ℕ)
split_from separator [] = ([], [])
split_from separator (b ∷ text) =
    let (field, fields) = split_from separator text in
    if b == separator then ([], field ∷ fields) else (b ∷ field, fields)

pub split : ℕ → List ℕ → List (List ℕ)
unfolding split_from
split separator text = let (field, fields) = split_from separator text in field ∷ fields

-- `strip_suffix('\r').unwrap_or(..)`
strip_return : List ℕ → List ℕ
strip_return [] = []
strip_return (b ∷ []) = if b == 13 then [] else b ∷ []
strip_return (b ∷ c ∷ text) = b ∷ strip_return (c ∷ text)

-- `lines()`: what a newline ends loses a carriage return; a last line without a newline does not,
-- and is none if it is empty.
ended_lines : List (List ℕ) → List (List ℕ)
unfolding strip_return
ended_lines [] = []
ended_lines ([] ∷ []) = []
ended_lines ((b ∷ line) ∷ []) = (b ∷ line) ∷ []
ended_lines (line ∷ next ∷ rest) = strip_return line ∷ ended_lines (next ∷ rest)

pub lines : List ℕ → List (List ℕ)
unfolding ended_lines
lines text = ended_lines (split 10 text)

pub is_member : List ℕ → List (List ℕ) → Bool
is_member x [] = false
is_member x (y ∷ ys) = text_eq x y || is_member x ys

pub starts_with : ℕ → List ℕ → Bool
starts_with c [] = false
starts_with c (b ∷ text) = b == c

ends_with : ℕ → List ℕ → Bool
ends_with c [] = false
ends_with c (b ∷ []) = b == c
ends_with c (b ∷ d ∷ text) = ends_with c (d ∷ text)

pub is_nil : List ℕ → Bool
is_nil [] = true
is_nil (b ∷ text) = false

-- What the loop keeps: the games, the sets of ids and ROMs, and whether a line of data was seen.
pub record State : Type 0 where
  pub out : List Game
  pub ids : List (List ℕ)
  pub roms : List (List ℕ)
  pub data_seen : Bool

is_header : List ℕ → List ℕ → List ℕ → List ℕ → List ℕ → Bool
is_header id title system rom last =
    text_eq id (bytes "id")
    && text_eq title (bytes "title")
    && text_eq system (bytes "system")
    && text_eq rom (bytes "rom")
    && (text_eq last (bytes "color") || text_eq last (bytes "#RRGGBB"))

bad_title : List ℕ → Bool
bad_title title = is_nil (display title) || starts_with 32 title || ends_with 32 title

bad_rom : List ℕ → Bool
bad_rom rom = is_nil rom || ltb 4095 (length rom) || not (starts_with b'/' rom) || ends_with 32 rom

-- From `System::parse` on.
push_game : State → ℕ → List ℕ → List ℕ → List ℕ → Option System → Option ℕ → Result Error State
push_game s n id title rom none c = err (Error.invalid_system n)
push_game s n id title rom (some system) c =
    if is_member id s.ids
    then err (Error.duplicate_id n)
    else if is_member rom s.roms
    then err (Error.duplicate_rom n)
    else elim c [
      | none ↦ err (Error.invalid_color n)
      | some value ↦
          if ltb 64 (length s.out + 1)
          then err Error.too_many_games
          else ok (record {
            out =
                s.out
                ++ (record {
                  id = id;
                  title = display title;
                  system = system;
                  rom = rom;
                  cover = none;
                  color = value;
                  terminal_mode = none;
                }
                    ∷ []);
            ids = id ∷ s.ids;
            roms = rom ∷ s.roms;
            data_seen = true;
          })
    ]

game_line : State → ℕ → List ℕ → List ℕ → List ℕ → List ℕ → List ℕ → Result Error State
unfolding bad_title bad_rom push_game is_nil starts_with ends_with
game_line s n id title system rom last =
    if not (valid_id id)
    then err (Error.invalid_id n)
    else if bad_title title
    then err (Error.invalid_title n)
    else if bad_rom rom
    then err (Error.invalid_rom n)
    else push_game s n id title rom (parse_system system) (color last)

fields_line : State → ℕ → List (List ℕ) → Result Error State
unfolding is_header game_line
fields_line s n (id ∷ title ∷ system ∷ rom ∷ last ∷ []) =
    if not s.data_seen && is_header id title system rom last
    then ok (record s { data_seen = true })
    else game_line s n id title system rom last
fields_line s n fields = err (Error.not_five_fields n)

read_line : State → ℕ → List ℕ → Result Error State
unfolding fields_line
read_line s n r =
    let l = strip_return r in
    if ltb 4096 (length r)
    then err (Error.line_too_long n)
    else if is_nil l || starts_with b'#' l
    then ok s
    else fields_line s n (split 9 l)

read_lines : Result Error State → ℕ → List (List ℕ) → Result Error State
unfolding read_line
read_lines (err e) n rest = err e
read_lines (ok s) n [] = ok s
read_lines (ok s) n (r ∷ rest) = read_lines (read_line s n r) (n + 1) rest

start : State
start = record { out = []; ids = []; roms = []; data_seen = false }

finished : Result Error State → Result Error (List Game)
finished (err e) = err e
finished (ok s) = elim s.out [ [] ↦ err Error.no_games | g ∷ games ↦ ok (g ∷ games) ]

-- On the bytes of a file that was read.
pub load_games : List ℕ → Result Error (List Game)
unfolding read_lines start finished
load_games text =
    if leb 1 (length text) && leb (length text) max_manifest_bytes
    then (if is_utf8 text
        then finished (read_lines (ok start) 1 (lines text))
        else err Error.not_utf8)
    else err Error.bad_size
