-- ===== src/Joypad.antt =====
-- The joypads of the emulators: native/src/joypad.rs, with its two players, without the console
-- keyboard and the thread. What a device holds when it is read is a parameter, and so are the devices
-- that a scan of the directory finds; their events are those of native/src/controls.rs.
pub mod Assignment
pub mod Console
pub mod Ports
pub mod Scan
mod Examples
use Prim.Native.Nat.{bit_and, bit_or, bit_xor}
use retrodeck.Prelude.{
  ℕ, suc, zero, ◌+◌, ◌-◌, ◌/◌, ◌^◌, Bool, true, false, not, ◌&&◌, ◌||◌, List, [], ◌∷◌, Option, none,
  some, ltb, leb, ◌==◌, if◌then◌else◌,
}
use retrodeck.Prelude.Decimal.{text_eq}
use retrodeck.Prelude.Int.{ℤ, pos, pos_part, ◌+ℤ◌, ◌-ℤ◌, leb_ℤ}
use retrodeck.Controls.{AxisInfo, GamepadSnapshot, InputEvent, syn_report, syn_dropped}

-- `connected` says that `fd` is some device.
pub record Gamepad : Type 0 where
  pub connected : Bool
  pub path : List ℕ
  pub physical_path : List ℕ
  pub x_info : AxisInfo
  pub y_info : AxisInfo
  pub x_value : ℤ
  pub y_value : ℤ
  pub raw_buttons : ℕ
  pub state : ℕ
  pub distinct : ℕ
  pub dropping_events : Bool

abbrev no_axis : AxisInfo
no_axis = record { value = pos 0; minimum = pos 0; maximum = pos 0 }

pub empty : Gamepad
empty = record {
  connected = false;
  path = [];
  physical_path = [];
  x_info = no_axis;
  y_info = no_axis;
  x_value = pos 0;
  y_value = pos 0;
  raw_buttons = 0;
  state = 0;
  distinct = 0;
  dropping_events = false;
}

gamepad_key_to_pad : ℕ → ℕ
gamepad_key_to_pad code =
    if code == 288 || code == 289
    then 2
    else if code == 290 || code == 291
    then 1
    else if code == 292
    then 256
    else if code == 293
    then 512
    else if code == 294
    then 4
    else if code == 295
    then 8
    else 0

gamepad_key_to_pad_distinct : ℕ → ℕ
unfolding gamepad_key_to_pad
gamepad_key_to_pad_distinct code =
    if code == 288
    then 2
    else if code == 289
    then 2048
    else if code == 290
    then 1
    else if code == 291
    then 1024
    else gamepad_key_to_pad code

third : ℤ → ℤ → ℤ
third minimum maximum = pos (pos_part (maximum -ℤ minimum) / 3)

axis_to_pad : ℤ → ℤ → ℤ → ℕ → ℕ → ℕ
unfolding third
axis_to_pad value minimum maximum negative positive =
    if leb_ℤ maximum minimum
    then 0
    else if leb_ℤ value (minimum +ℤ third minimum maximum)
    then negative
    else if leb_ℤ (maximum -ℤ third minimum maximum) value
    then positive
    else 0

-- The buttons from `bit` on, so many of them.
buttons_from : ℕ → ℕ → ℕ → (ℕ → ℕ) → ℕ → ℕ
buttons_from zero bit raw key_to_pad state = state
buttons_from (suc n) bit raw key_to_pad state =
    buttons_from n (bit + 1) raw key_to_pad
      (if not (bit_and raw (2 ^ bit) == 0) then bit_or state (key_to_pad (288 + bit)) else state)

gamepad_state_mapped : Gamepad → (ℕ → ℕ) → ℕ
unfolding buttons_from axis_to_pad
gamepad_state_mapped g key_to_pad =
    bit_or
      (bit_or (buttons_from 8 0 g.raw_buttons key_to_pad 0)
        (axis_to_pad g.x_value g.x_info.minimum g.x_info.maximum 64 128))
      (axis_to_pad g.y_value g.y_info.minimum g.y_info.maximum 16 32)

gamepad_state : Gamepad → ℕ
unfolding gamepad_state_mapped gamepad_key_to_pad
gamepad_state g = gamepad_state_mapped g gamepad_key_to_pad

gamepad_distinct_state : Gamepad → ℕ
unfolding gamepad_state_mapped gamepad_key_to_pad_distinct
gamepad_distinct_state g = gamepad_state_mapped g gamepad_key_to_pad_distinct

-- The states of the buttons and axes, worked out anew.
with_states : Gamepad → Gamepad
unfolding gamepad_state gamepad_distinct_state
with_states g = record g { state = gamepad_state g; distinct = gamepad_distinct_state g }

read_anew : Gamepad → GamepadSnapshot → Gamepad
unfolding with_states
read_anew g s = with_states (record g {
  x_info = s.x;
  y_info = s.y;
  x_value = s.x.value;
  y_value = s.y.value;
  raw_buttons = bit_and s.raw_buttons 255;
  dropping_events = false;
})

pub resynchronize : Gamepad → Option GamepadSnapshot → Gamepad × Bool
unfolding read_anew
resynchronize g none = (g, false)
resynchronize g (some s) = if g.connected then (read_anew g s, true) else (g, false)

pub close_gamepad : Gamepad → Bool → Gamepad
close_gamepad g remember_physical_path = record g {
  connected = false;
  path = [];
  physical_path = if remember_physical_path then g.physical_path else [];
  raw_buttons = 0;
  state = 0;
  distinct = 0;
  dropping_events = false;
}

pub record Candidate : Type 0 where
  pub path : List ℕ
  pub physical_path : List ℕ
  pub x_info : AxisInfo
  pub y_info : AxisInfo
  pub snapshot : Option GamepadSnapshot

pub attach_candidate : Gamepad → Candidate → Gamepad
unfolding resynchronize
attach_candidate g c =
    (resynchronize
      (record g {
        connected = true;
        path = c.path;
        physical_path = c.physical_path;
        x_info = c.x_info;
        y_info = c.y_info;
        x_value = c.x_info.value;
        y_value = c.y_info.value;
        raw_buttons = 0;
        state = 0;
        distinct = 0;
        dropping_events = false;
      })
      c.snapshot).0

-- `remaining.iter_mut().find(…)` and `take`; a slot that is taken is left out of the list.
pub take_first : (Candidate → Bool) → List Candidate → Option (Candidate × List Candidate)
take_first wanted [] = none
take_first wanted (c ∷ rest) =
    let later = take_first wanted rest in
    if wanted c
    then some (c, rest)
    else elim later [ none ↦ none | some found ↦ some (found.0, c ∷ found.1) ]

pub record Players : Type 0 where
  pub first : Gamepad
  pub second : Gamepad
  pub remaining : List Candidate

attach_first : Players → Option (Candidate × List Candidate) → Players
unfolding attach_candidate
attach_first p none = p
attach_first p (some (c, rest)) = record p { first = attach_candidate p.first c; remaining = rest }

attach_second : Players → Option (Candidate × List Candidate) → Players
unfolding attach_candidate
attach_second p none = p
attach_second p (some (c, rest)) = record p {
  second = attach_candidate p.second c;
  remaining = rest;
}

-- For one player after the other: who wants a device, and which one.
for_players : (Gamepad → Bool) → (Gamepad → Candidate → Bool) → Players → Players
unfolding attach_first attach_second take_first
for_players wants suits p =
    let q = if wants p.first then attach_first p (take_first (suits p.first) p.remaining) else p in
    if wants q.second then attach_second q (take_first (suits q.second) q.remaining) else q

is_empty : List ℕ → Bool
is_empty [] = true
is_empty (c ∷ text) = false

pub is_disconnected : Gamepad → Bool
is_disconnected g = not g.connected

pub is_remembered : Gamepad → Bool
unfolding is_disconnected is_empty
is_remembered g = is_disconnected g && not (is_empty g.physical_path)

pub is_new : Gamepad → Bool
unfolding is_disconnected is_empty
is_new g = is_disconnected g && is_empty g.physical_path

same_port : Gamepad → Candidate → Bool
same_port g c = text_eq c.physical_path g.physical_path

any_candidate : Gamepad → Candidate → Bool
any_candidate g c = true

-- Pass 1: remembered ports reconnect to their player.
reconnect_remembered : Players → Players
unfolding for_players is_remembered same_port
reconnect_remembered = for_players is_remembered same_port

-- Pass 2: players that never had a device take the next one.
take_next : Players → Players
unfolding for_players is_new any_candidate
take_next = for_players is_new any_candidate

-- Pass 3: what is left goes to any player without a device.
move_ports : Players → Players
unfolding for_players is_disconnected any_candidate
move_ports = for_players is_disconnected any_candidate

-- The three passes of a scan, over the candidates in their order.
pub assign : Players → Players
unfolding reconnect_remembered take_next move_ports
assign p = move_ports (take_next (reconnect_remembered p))

-- `gamepad.fd.is_some() && gamepad.path == path`
pub holds : Gamepad → List ℕ → Bool
holds g path = g.connected && text_eq g.path path

free_candidates : Gamepad → Gamepad → List Candidate → List Candidate
unfolding holds
free_candidates a b [] = []
free_candidates a b (c ∷ found) =
    let rest = free_candidates a b found in
    if holds a c.path || holds b c.path then rest else c ∷ rest

-- The order of texts, by their bytes; `sort_by` is stable, as is an insertion behind equals.
text_le : List ℕ → List ℕ → Bool
text_le [] ys = true
text_le (x ∷ xs) [] = false
text_le (x ∷ xs) (y ∷ ys) = ltb x y || (x == y && text_le xs ys)

before : Candidate → Candidate → Bool
unfolding text_le
before a b =
    if text_eq a.physical_path b.physical_path
    then text_le a.path b.path
    else text_le a.physical_path b.physical_path

insert : Candidate → List Candidate → List Candidate
unfolding before
insert c [] = c ∷ []
insert c (d ∷ rest) = let later = insert c rest in if before c d then c ∷ d ∷ rest else d ∷ later

sort : List Candidate → List Candidate
unfolding insert
sort [] = []
sort (c ∷ rest) = insert c (sort rest)

-- The scan, of the devices that were found; what is left of them is closed.
pub scan_gamepads : Gamepad → Gamepad → List Candidate → Gamepad × Gamepad
unfolding free_candidates sort assign
scan_gamepads a b found =
    let p =
      assign (record { first = a; second = b; remaining = sort (free_candidates a b found) }) in
    (p.first, p.second)

and_not : ℕ → ℕ → ℕ
and_not a b = bit_xor a (bit_and a b)

-- The event, and whether it ends what was dropped.
pub apply_gamepad_event : Gamepad → InputEvent → Gamepad × Bool
unfolding and_not
apply_gamepad_event g (InputEvent.synchronization code) =
    if g.dropping_events
    then (g, code == syn_report)
    else (if code == syn_dropped then record g { dropping_events = true } else g, false)
apply_gamepad_event g (InputEvent.key code value) =
    if not g.dropping_events && leb 288 code && leb code 295
    then (
      record g {
        raw_buttons =
            if value == 0
            then and_not g.raw_buttons (2 ^ (code - 288))
            else bit_or g.raw_buttons (2 ^ (code - 288));
      },
      false,
    )
    else (g, false)
apply_gamepad_event g (InputEvent.absolute_axis code value) =
    if g.dropping_events
    then (g, false)
    else if code == 0
    then (record g { x_value = value }, false)
    else if code == 1
    then (record g { y_value = value }, false)
    else (g, false)
apply_gamepad_event g InputEvent.other = (g, false)
