-- ===== src/Input.antt =====
-- The reports that the input modules hand to their clients: `ControlReport` of
-- native/src/controls.rs and `TouchReport` of native/src/input.rs.
use Prim.Native.Nat.{bit_and}
use retrodeck.Prelude.{ℕ, Bool, not, ◌==◌}
use retrodeck.Prelude.Int.{ℤ}

abbrev pub keyboard_report : ℕ
keyboard_report = 0

abbrev pub gamepad_report : ℕ
gamepad_report = 1

pub record ControlReport : Type 0 where
  pub kind : ℕ
  pub value : ℕ
  pub flags : ℕ

pub record TouchReport : Type 0 where
  pub x : ℤ
  pub y : ℤ
  pub down : Bool
  pub pressed : Bool
  pub released : Bool

-- `value & 0x004 != 0`
abbrev pub has_button_a : ℕ → Bool
has_button_a value = not (bit_and value 4 == 0)
