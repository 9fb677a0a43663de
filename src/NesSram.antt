-- ===== src/NesSram.antt =====
-- The legacy InfoNES save decoder: native/src/nes_sram.rs.
-- `decode_from` is the `while` loop: its list is the input behind `input_index`, its number the
-- room left behind `output_index`, and its result what the loop writes there. `decode` returns the
-- flag and the caller's buffer, which the source overwrites only at the end.
pub mod Format
pub mod Contract
mod Examples
use mathlib.Core.Option
use retrodeck.Prelude.{
  ℕ, zero, suc, ◌+◌, ◌-◌, ◌*◌, Bool, true, false, List, [], ◌∷◌, ◌++◌, Option, none, some, ltb,
  ◌==◌, if◌then◌else◌, length, replicate,
}

unfoldable pub maximum_encoded_size : ℕ → ℕ
maximum_encoded_size input_size = input_size * 3 + 1

pub decode_from : ℕ → List ℕ → ℕ → Option (List ℕ)
decode_from tag input zero = some []
decode_from tag [] (suc room) = none
decode_from tag (value ∷ []) (suc room) =
    let literal = decode_from tag [] room in
    if value == tag then none else Option.map (◌∷◌ value) literal
decode_from tag (value ∷ repeated ∷ []) (suc room) =
    let literal = decode_from tag (repeated ∷ []) room in
    if value == tag then none else Option.map (◌∷◌ value) literal
decode_from tag (value ∷ repeated ∷ count ∷ rest) (suc room) =
    let literal = decode_from tag (repeated ∷ count ∷ rest) room in
    let run = decode_from tag rest (suc room - (count + 1)) in
    if value == tag
    then if ltb (suc room) (count + 1)
      then none
      else Option.map (◌++◌ (replicate (count + 1) repeated)) run
    else Option.map (◌∷◌ value) literal

-- The flag, and the buffer after the call.
settle : List ℕ → Option (List ℕ) → Bool × List ℕ
settle output none = (false, output)
settle output (some decoded) = (true, decoded)

pub decode : List ℕ → List ℕ → Bool × List ℕ
unfolding settle
decode [] output = (false, output)
decode (tag ∷ input) [] = (false, [])
decode (tag ∷ input) (o ∷ output) =
    settle (o ∷ output) (decode_from tag input (length (o ∷ output)))
