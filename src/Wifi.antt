-- ===== src/Wifi.antt =====
-- The Wi-Fi editor: native/src/dashboard/wifi.rs without its drawing. Strings are the lists of
-- their characters (code points); `as u32` and `i32` values of the keyboard are small numbers.
pub mod Bounds
pub mod Keyboard
pub mod Profile
mod Examples
use retrodeck.Prelude.{
  ℕ, ◌+◌, ◌-◌, ◌*◌, ◌/◌, Bool, true, false, not, ◌&&◌, ◌||◌, List, [], ◌∷◌, ◌++◌, Option, none,
  some, ltb, leb, ◌==◌, if◌then◌else◌, length, drop,
}
use retrodeck.Prelude.Decimal.{bytes}
use retrodeck.Prelude.Int.{ℤ, pos}
use retrodeck.Settings.{Rect, contains}

abbrev pub ssid_min : ℕ
ssid_min = 1

abbrev pub ssid_max : ℕ
ssid_max = 32

abbrev pub password_min : ℕ
password_min = 8

abbrev pub password_max : ℕ
password_max = 63

pub data Field : Type 0 where
  ssid password : Field

pub data Mode : Type 0 where
  alphabet symbols : Mode

pub data Target : Type 0 where
  back ssid password save mode shift space delete : Target
  key : ℕ → Target

pub record State : Type 0 where
  pub is_open : Bool
  pub ssid : List ℕ
  pub passphrase : List ℕ
  pub field : Field
  pub mode : Mode
  pub uppercase : Bool
  pub pressed : Option Target
  pub status : List ℕ

pub new : List ℕ → List ℕ → Field → State
new name secret field = record {
  is_open = true;
  ssid = name;
  passphrase = secret;
  field = field;
  mode = Mode.alphabet;
  uppercase = false;
  pressed = none;
  status = [];
}

-- The text of a field, and its replacement: `value` and `value_mut`.
abbrev pub text_of : Field → State → List ℕ
text_of Field.ssid s = s.ssid
text_of Field.password s = s.passphrase

abbrev pub with_text : Field → State → List ℕ → State
with_text Field.ssid s text = record s { ssid = text }
with_text Field.password s text = record s { passphrase = text }

abbrev pub limit_of : Field → ℕ
limit_of Field.ssid = ssid_max
limit_of Field.password = password_max

pub value : State → List ℕ
value s = text_of s.field s

pub limit : State → ℕ
limit s = limit_of s.field

-- The end of a text in at most `maximum` characters, with an ellipsis where they leave room.
pub tail : List ℕ → ℕ → List ℕ
unfolding bytes
tail v maximum =
    if leb (length v) maximum
    then v
    else if leb maximum 3
    then drop (length v - maximum) v
    else bytes "..." ++ drop (length v - (maximum - 3)) v

-- `str::len`, the bytes of the UTF-8 encoding.
abbrev utf8_width : ℕ → ℕ
utf8_width c = if ltb c 128 then 1 else if ltb c 2048 then 2 else if ltb c 65536 then 3 else 4

utf8_length : List ℕ → ℕ
utf8_length [] = 0
utf8_length (c ∷ text) = utf8_width c + utf8_length text

-- `bytes().all(|b| (0x20..=0x7e).contains(&b))`: every byte of a character beyond ASCII is above.
pub printable : List ℕ → Bool
printable [] = true
printable (c ∷ text) = leb 32 c && leb c 126 && printable text

abbrev length_within : ℕ → ℕ → List ℕ → Bool
length_within lo hi text = leb lo (utf8_length text) && leb (utf8_length text) hi

-- `none` where the source returns `Ok`, and the message where it does not.
pub valid : State → Option (List ℕ)
unfolding utf8_length printable bytes
valid s =
    if not (length_within ssid_min ssid_max s.ssid) || not (printable s.ssid)
    then some (bytes "SSID MUST BE 1 TO 32 CHARACTERS")
    else if not (length_within password_min password_max s.passphrase)
        || not (printable s.passphrase)
    then some (bytes "PASSWORD MUST BE 8 TO 63 CHARACTERS")
    else none

-- `push` under the limit of the field.
push_within : State → ℕ → State
unfolding value limit
push_within s c =
    if ltb (length (value s)) (limit s) then with_text s.field s (value s ++ (c ∷ [])) else s

-- `String::pop`
pop : List ℕ → List ℕ
pop [] = []
pop (c ∷ []) = []
pop (c ∷ d ∷ text) = c ∷ pop (d ∷ text)

to_ascii_uppercase : ℕ → ℕ
to_ascii_uppercase c = if leb b'a' c && leb c b'z' then c - 32 else c

other_mode : Mode → Mode
other_mode Mode.alphabet = Mode.symbols
other_mode Mode.symbols = Mode.alphabet

shifted : State → Mode → State
shifted s Mode.alphabet = record s { uppercase = not s.uppercase; status = [] }
shifted s Mode.symbols = s

cleared : State → State
cleared s = record s { status = [] }

pub apply : State → Target → State
unfolding push_within pop to_ascii_uppercase other_mode shifted cleared value
apply s Target.back = record s { is_open = false }
apply s Target.ssid = record s { field = Field.ssid; status = [] }
apply s Target.password = record s { field = Field.password; status = [] }
apply s Target.save = s
apply s Target.mode = record s { mode = other_mode s.mode; status = [] }
apply s Target.shift = shifted s s.mode
apply s Target.space = cleared (push_within s b' ')
apply s Target.delete = cleared (with_text s.field s (pop (value s)))
apply s (Target.key c) = cleared (push_within s (if s.uppercase then to_ascii_uppercase c else c))

pub rows : Mode → List (List ℕ)
unfolding bytes
rows Mode.alphabet = bytes "qwertyuiop" ∷ bytes "asdfghjkl" ∷ bytes "zxcvbnm" ∷ bytes "@._-" ∷ []
rows Mode.symbols =
    bytes "1234567890" ∷ bytes "!@#$%^&*()" ∷ bytes "-_=+[]{}\\|" ∷ bytes "`~;:'\",./?<>" ∷ []

rect : ℕ → ℕ → ℕ → ℕ → Rect
rect x y w h = record { x = pos x; y = pos y; w = w; h = h }

-- The width of a key in a row of `n` keys, and the left edge of the row.
key_width : ℕ → ℕ
key_width n = (1280 - 32 - 6 * (n - 1)) / n

row_left : ℕ → ℕ
unfolding key_width
row_left n = (1280 - (n * key_width n + 6 * (n - 1))) / 2

row_keys : ℕ → ℕ → ℕ → List ℕ → List (Target × Rect)
unfolding rect key_width row_left
row_keys n row column [] = []
row_keys n row column (c ∷ line) =
    (Target.key c, rect (row_left n + column * (key_width n + 6)) (86 + row * 68) (key_width n) 62)
    ∷ row_keys n row (column + 1) line

keys_from : ℕ → List (List ℕ) → List (Target × Rect)
unfolding row_keys
keys_from row [] = []
keys_from row (line ∷ lines) = row_keys (length line) row 0 line ++ keys_from (row + 1) lines

-- The keys, each with the target that a point on it gives.
pub keys : Mode → List (Target × Rect)
unfolding keys_from rows
keys m = keys_from 0 (rows m)

-- The tests of the fixed rectangles, in the source's order.
pub fixed : List (Target × Rect)
unfolding rect
fixed =
    (Target.back, rect 16 10 120 62)
    ∷ (Target.ssid, rect 330 10 310 62)
    ∷ (Target.password, rect 650 10 330 62)
    ∷ (Target.save, rect 990 10 274 62)
    ∷ (Target.mode, rect 16 364 152 66)
    ∷ (Target.shift, rect 176 364 168 66)
    ∷ (Target.space, rect 352 364 700 66)
    ∷ (Target.delete, rect 1060 364 204 66)
    ∷ []

find_target : List (Target × Rect) → ℤ → ℤ → Option Target
find_target [] x y = none
find_target ((t, r) ∷ rest) x y = if contains r x y then some t else find_target rest x y

pub target_at_mode : Mode → ℤ → ℤ → Option Target
unfolding find_target fixed keys
target_at_mode m x y = find_target (fixed ++ keys m) x y

pub helper_input : List ℕ → List ℕ → List ℕ
helper_input name secret = name ++ (b'\n' ∷ secret ++ (b'\n' ∷ []))

pub open_editor : State → State
open_editor s = record s { is_open = true; status = []; pressed = none }

pub target_at_state : State → ℤ → ℤ → Option Target
target_at_state s x y = target_at_mode s.mode x y

status_or : Option (List ℕ) → List ℕ → List ℕ
status_or none d = d
status_or (some status) d = status

pub complete_save : State → Bool → Option (List ℕ) → State
unfolding status_or bytes
complete_save s true failure_status = record s {
  passphrase = [];
  status = bytes "WIFI SAVED - USED AFTER CURRENT WIFI DISCONNECTS";
}
complete_save s false failure_status = record s {
  status = status_or failure_status (bytes "WIFI PROFILE WAS NOT SAVED");
}
