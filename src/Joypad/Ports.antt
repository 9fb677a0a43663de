-- ===== src/Joypad/Ports.antt =====
-- The ports that players keep (pass 1 of `scan_gamepads` in native/src/joypad.rs).
use retrodeck.Prelude.{
  ℕ, ◌≡◌, refl, sym, ◌∙◌, ap, subst, Bool, true, false, ◌||◌, List, [], ◌∷◌, Option, none, some,
  inl, inr, if_true, if_false, Bool-cases, Option-cases, arith,
}
use retrodeck.Prelude.Decimal.{text_eq_iff}
use retrodeck.Joypad.{
  Gamepad, Candidate, Players, attach_candidate, resynchronize, read_anew, with_states, take_first,
  attach_first, attach_second, for_players, is_disconnected, is_remembered, is_new, same_port,
  any_candidate, assign, move_ports, take_next, reconnect_remembered,
}
use retrodeck.Joypad.Assignment.{
  Disconnected, is_disconnected-Disconnected, is_new-Disconnected, turn_first, turn_second,
}

-- Whether some candidate is at the port of a player.
unfoldable pub any_at : Gamepad → List Candidate → Bool
unfolding same_port
any_at g [] = false
any_at g (c ∷ rest) = same_port g c || any_at g rest

Finds : (Candidate → Bool) → Option (Candidate × List Candidate) → Type 0
Finds wanted none = false ≡ true
Finds wanted (some (c, rest)) = wanted c ≡ true

Finds-behind :
    (wanted : Candidate → Bool) (c : Candidate) (later : Option (Candidate × List Candidate))
    → Finds wanted later
    → Finds wanted (elim later [ none ↦ none | some found ↦ some (found.0, c ∷ found.1) ])
unfolding Finds
Finds-behind wanted c none h = h
Finds-behind wanted c (some (d, rest)) h = h

take_first-Finds :
    (g : Gamepad) (found : List Candidate)
    → any_at g found ≡ true
    → Finds (same_port g) (take_first (same_port g) found)
unfolding any_at Finds take_first
take_first-Finds g [] h = h
take_first-Finds g (c ∷ rest) h = elim (Bool-cases (same_port g c)) [
  | inl k ↦ subst (Finds (same_port g)) (sym (if_true _ _ _ k)) k
  | inr k ↦ subst (Finds (same_port g)) (sym (if_false _ _ _ k)) (
      Finds-behind (same_port g) c (take_first (same_port g) rest)
        (take_first-Finds g rest (ground arith)))
]

-- A player with a device stays as it is when the other players take theirs.
attach_second-first :
    (p : Players) (o : Option (Candidate × List Candidate)) → (attach_second p o).first ≡ p.first
unfolding attach_second
attach_second-first p none = refl
attach_second-first p (some (c, rest)) = refl

turn_second-first :
    (wants : Gamepad → Bool) (suits : Gamepad → Candidate → Bool) (p : Players)
    → (turn_second wants suits p).first ≡ p.first
unfolding turn_second
turn_second-first wants suits p = elim (Bool-cases (wants p.second)) [
  | inl h ↦
      ap (λ (q : Players). q.first) (if_true _ _ _ h)
      ∙ attach_second-first p (take_first (suits p.second) p.remaining)
  | inr h ↦ ap (λ (q : Players). q.first) (if_false _ _ _ h)
]

wants_none :
    (wants : Gamepad → Bool) (g : Gamepad)
    → Disconnected wants
    → g.connected ≡ true
    → wants g ≡ false
wants_none wants g d h = elim (Bool-cases (wants g)) [ inl w ↦ absurd (cc (d g w, h)) | inr w ↦ w ]

keeps_first :
    (wants : Gamepad → Bool) (suits : Gamepad → Candidate → Bool) (p : Players)
    → Disconnected wants
    → p.first.connected ≡ true
    → (for_players wants suits p).first ≡ p.first
unfolding for_players turn_first turn_second
keeps_first wants suits p d h =
    turn_second-first wants suits (turn_first wants suits p)
    ∙ ap (λ (q : Players). q.first) (if_false _ _ _ (wants_none wants p.first d h))

-- A player at the port `port`, with a device.
abbrev pub IsAt : List ℕ → Gamepad → Type 0
IsAt port g = (g.connected ≡ true) × (g.physical_path ≡ port)

attach_candidate-IsAt : (g : Gamepad) (c : Candidate) → IsAt c.physical_path (attach_candidate g c)
unfolding attach_candidate resynchronize read_anew with_states
attach_candidate-IsAt g c = elim (Option-cases c.snapshot) [
  | inl h ↦ rw h (refl, refl)
  | inr (s, h) ↦ rw h (refl, refl)
]

attach_first-IsAt :
    (p : Players) (o : Option (Candidate × List Candidate))
    → Finds (same_port p.first) o
    → IsAt p.first.physical_path (attach_first p o).first
unfolding attach_first Finds same_port
attach_first-IsAt p none h = absurd (cc h)
attach_first-IsAt p (some (c, rest)) h =
    subst (λ port. IsAt port (attach_candidate p.first c)) ((text_eq_iff _ _).0 h)
      (attach_candidate-IsAt p.first c)

reconnect_remembered-IsAt :
    (p : Players)
    → is_remembered p.first ≡ true
    → any_at p.first p.remaining ≡ true
    → IsAt p.first.physical_path (reconnect_remembered p).first
unfolding reconnect_remembered for_players turn_first turn_second
reconnect_remembered-IsAt p r a =
    subst (IsAt p.first.physical_path)
      (sym (
        turn_second-first is_remembered same_port (turn_first is_remembered same_port p)
        ∙ ap (λ (q : Players). q.first) (if_true _ _ _ r)))
      (attach_first-IsAt p (take_first (same_port p.first) p.remaining)
        (take_first-Finds p.first p.remaining a))

-- A first player who lost its device gets back the port it had: if a candidate is at that port, then
-- after the three passes the player has a device, and at that port, whatever else is connected.
pub assign-IsAt :
    (p : Players)
    → is_remembered p.first ≡ true
    → any_at p.first p.remaining ≡ true
    → IsAt p.first.physical_path (assign p).first
unfolding assign move_ports take_next
assign-IsAt p r a =
    let at = reconnect_remembered-IsAt p r a in
    let q = reconnect_remembered p in
    let next = keeps_first is_new any_candidate q is_new-Disconnected at.0 in
    let last =
      keeps_first is_disconnected any_candidate (take_next q) is_disconnected-Disconnected
        (ap (λ (g : Gamepad). g.connected) next ∙ at.0) in
    subst (IsAt p.first.physical_path) (sym (last ∙ next)) at
