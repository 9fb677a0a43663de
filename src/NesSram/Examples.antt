-- ===== src/NesSram/Examples.antt =====
-- Runs of the save decoder: the inputs of the tests in native/src/nes_sram.rs.
use retrodeck.Prelude.{ℕ, ◌≡◌, ◌↔◌, refl, true, false, List, [], ◌∷◌, replicate}
use retrodeck.NesSram.{decode_from, decode}
use retrodeck.NesSram.Contract.{Saves, decode-Saves}

abbrev blank : List ℕ
blank = replicate 8 0

literal_and_run :
    decode (7 ∷ 1 ∷ 2 ∷ 7 ∷ 7 ∷ 1 ∷ 7 ∷ 42 ∷ 3 ∷ []) blank
    ≡ (true, 1 ∷ 2 ∷ 7 ∷ 7 ∷ 42 ∷ 42 ∷ 42 ∷ 42 ∷ [])
unfolding decode decode_from
literal_and_run = refl

oversized : decode (7 ∷ 7 ∷ 1 ∷ 200 ∷ []) blank ≡ (false, blank)
unfolding decode decode_from
oversized = refl

decode-Saves_example :
    (decode (7 ∷ 1 ∷ 7 ∷ 1 ∷ 9 ∷ []) (0 ∷ 0 ∷ 0 ∷ []) ≡ (true, 1 ∷ 9 ∷ 9 ∷ []))
    ↔ Saves (7 ∷ 1 ∷ 7 ∷ 1 ∷ 9 ∷ []) (0 ∷ 0 ∷ 0 ∷ []) (1 ∷ 9 ∷ 9 ∷ [])
decode-Saves_example = decode-Saves (7 ∷ 1 ∷ 7 ∷ 1 ∷ 9 ∷ []) (0 ∷ 0 ∷ 0 ∷ []) (1 ∷ 9 ∷ 9 ∷ [])
