-- ===== src/Joypad/Examples.antt =====
-- Two joypads that are found while the first player waits for the port it had
-- (native/src/joypad.rs).
use retrodeck.Prelude.{
  refl, List, [], ◌∷◌, none, some, ◌≡◌, ◌+◌, ◌≤◌, ◌<◌, false, sym, subst, get_elem?, replicate,
  length-replicate, arith,
}
use retrodeck.Prelude.Decimal.{text_eq}
use retrodeck.Joypad.{
  Gamepad, Candidate, Players, empty, no_axis, assign, scan_gamepads, holds, is_remembered,
  is_disconnected, is_empty, same_port,
}
use retrodeck.Joypad.Assignment.{amount, count, NoneWaits, assign-NoneWaits}
use retrodeck.Joypad.Ports.{any_at, IsAt, assign-IsAt}
use retrodeck.Joypad.Console.{press_keys, last_said, said_or, press_keys-last_said}
use retrodeck.Joypad.Scan.{scan_gamepads-exclusive}

abbrev pad_one : Candidate
pad_one = record {
  path = 1 ∷ [];
  physical_path = 10 ∷ [];
  x_info = no_axis;
  y_info = no_axis;
  snapshot = none;
}

abbrev pad_two : Candidate
pad_two = record {
  path = 2 ∷ [];
  physical_path = 20 ∷ [];
  x_info = no_axis;
  y_info = no_axis;
  snapshot = some (record { x = no_axis; y = no_axis; raw_buttons = 5 });
}

-- The first player had the device at the second port.
abbrev waiting : Gamepad
waiting = record empty { physical_path = 20 ∷ [] }

abbrev found : List Candidate
found = pad_one ∷ pad_two ∷ []

abbrev two_players : Players
two_players = record { first = waiting; second = empty; remaining = found }

assign-NoneWaits_example : NoneWaits (assign two_players)
assign-NoneWaits_example = assign-NoneWaits two_players

assign-IsAt_example : IsAt (20 ∷ []) (assign two_players).first
unfolding is_remembered is_disconnected is_empty any_at same_port text_eq empty
assign-IsAt_example = assign-IsAt two_players refl refl

scan_gamepads-exclusive_example :
    amount (holds (scan_gamepads waiting empty found).0 (2 ∷ []))
      + amount (holds (scan_gamepads waiting empty found).1 (2 ∷ []))
    ≤ 1
unfolding count holds text_eq empty
scan_gamepads-exclusive_example =
    scan_gamepads-exclusive waiting empty found (2 ∷ []) (omega arith) (omega arith)

-- Of two bytes about the key 57 the last one counts.
press_keys-last_said_example :
    get_elem? (press_keys (replicate 128 false) (57 ∷ 30 ∷ 185 ∷ [])) 57
    ≡ said_or (last_said 57 (57 ∷ 30 ∷ 185 ∷ [])) (get_elem? (replicate 128 false) 57)
press_keys-last_said_example =
    press_keys-last_said 57 (replicate 128 false) (57 ∷ 30 ∷ 185 ∷ [])
      (subst (λ n. 57 < n) (sym (length-replicate 128 false)) (omega arith))
