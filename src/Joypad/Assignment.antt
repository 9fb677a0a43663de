-- ===== src/Joypad/Assignment.antt =====
-- Which player has which device: the passes of `scan_gamepads` in native/src/joypad.rs.
use retrodeck.Prelude.{
  ℕ, ◌+◌, ◌≡◌, refl, sym, ◌∙◌, Bool, true, false, not, ap, subst, if_true, if_false, List, [], ◌∷◌,
  Option, none, some, ◌⊎◌, inl, inr, if◌then◌else◌, Bool-cases, Option-cases, arith,
}
use retrodeck.Prelude.Decimal.{text_eq}
use retrodeck.Joypad.{
  Gamepad, Candidate, Players, attach_candidate, resynchronize, read_anew, with_states, take_first,
  attach_first, attach_second, for_players, is_disconnected, is_remembered, is_new, same_port,
  any_candidate, assign, move_ports, take_next, reconnect_remembered, holds,
}

abbrev pub amount : Bool → ℕ
amount true = 1
amount false = 0

unfoldable pub count : List ℕ → List Candidate → ℕ
count path [] = 0
count path (c ∷ rest) = amount (text_eq c.path path) + count path rest

-- How often a device is held by a player or is still to be given to one.
unfoldable pub holders : Players → List ℕ → ℕ
unfolding holds count
holders p path = amount (holds p.first path) + amount (holds p.second path) + count path p.remaining

after : List ℕ → List Candidate → Option (Candidate × List Candidate) → ℕ
unfolding count
after path xs none = count path xs
after path xs (some (c, rest)) = amount (text_eq c.path path) + count path rest

after-found :
    (path : List ℕ) (c : Candidate) (xs : List Candidate)
    (later : Option (Candidate × List Candidate))
    → after path xs later ≡ count path xs
    → after path (c ∷ xs) (elim later [ none ↦ none | some found ↦ some (found.0, c ∷ found.1) ])
      ≡ count path (c ∷ xs)
unfolding after count
after-found path c xs none h = refl
after-found path c xs (some (d, rest)) h = omega arith

after-take_first :
    (path : List ℕ) (wanted : Candidate → Bool) (xs : List Candidate)
    → after path xs (take_first wanted xs) ≡ count path xs
unfolding after count take_first
after-take_first path wanted [] = refl
after-take_first path wanted (c ∷ xs) = elim (Bool-cases (wanted c)) [
  | inl h ↦ rw h refl
  | inr h ↦ rw h (after-found path c xs (take_first wanted xs) (after-take_first path wanted xs))
]

holds-attach_candidate :
    (g : Gamepad) (c : Candidate) (path : List ℕ)
    → holds (attach_candidate g c) path ≡ text_eq c.path path
unfolding holds attach_candidate resynchronize read_anew with_states
holds-attach_candidate g c path = elim (Option-cases c.snapshot) [
  | inl h ↦ rw h refl
  | inr (s, h) ↦ rw h refl
]

attach_first-holders :
    (p : Players) (path : List ℕ) (o : Option (Candidate × List Candidate))
    → p.first.connected ≡ false
    → after path p.remaining o ≡ count path p.remaining
    → holders (attach_first p o) path ≡ holders p path
unfolding holders attach_first after holds
attach_first-holders p path none h k = refl
attach_first-holders p path (some (c, rest)) h k =
    rw (holds-attach_candidate p.first c path, h) (omega arith)

attach_second-holders :
    (p : Players) (path : List ℕ) (o : Option (Candidate × List Candidate))
    → p.second.connected ≡ false
    → after path p.remaining o ≡ count path p.remaining
    → holders (attach_second p o) path ≡ holders p path
unfolding holders attach_second after holds
attach_second-holders p path none h k = refl
attach_second-holders p path (some (c, rest)) h k =
    rw (holds-attach_candidate p.second c path, h) (omega arith)

-- Who wants a device has none.
abbrev pub Disconnected : (Gamepad → Bool) → Type 0
Disconnected wants = (g : Gamepad) → wants g ≡ true → g.connected ≡ false

unfoldable pub turn_first : (Gamepad → Bool) → (Gamepad → Candidate → Bool) → Players → Players
unfolding attach_first take_first
turn_first wants suits p =
    if wants p.first then attach_first p (take_first (suits p.first) p.remaining) else p

unfoldable pub turn_second : (Gamepad → Bool) → (Gamepad → Candidate → Bool) → Players → Players
unfolding attach_second take_first
turn_second wants suits p =
    if wants p.second then attach_second p (take_first (suits p.second) p.remaining) else p

turn_first-holders :
    (wants : Gamepad → Bool) (suits : Gamepad → Candidate → Bool) (p : Players) (path : List ℕ)
    → Disconnected wants
    → holders (turn_first wants suits p) path ≡ holders p path
unfolding turn_first
turn_first-holders wants suits p path d = elim (Bool-cases (wants p.first)) [
  | inl h ↦ rw h (
      attach_first-holders p path (take_first (suits p.first) p.remaining) (d p.first h)
        (after-take_first path (suits p.first) p.remaining))
  | inr h ↦ rw h refl
]

turn_second-holders :
    (wants : Gamepad → Bool) (suits : Gamepad → Candidate → Bool) (p : Players) (path : List ℕ)
    → Disconnected wants
    → holders (turn_second wants suits p) path ≡ holders p path
unfolding turn_second
turn_second-holders wants suits p path d = elim (Bool-cases (wants p.second)) [
  | inl h ↦ rw h (
      attach_second-holders p path (take_first (suits p.second) p.remaining) (d p.second h)
        (after-take_first path (suits p.second) p.remaining))
  | inr h ↦ rw h refl
]

for_players-holders :
    (wants : Gamepad → Bool) (suits : Gamepad → Candidate → Bool) (p : Players) (path : List ℕ)
    → Disconnected wants
    → holders (for_players wants suits p) path ≡ holders p path
unfolding for_players turn_first turn_second
for_players-holders wants suits p path d =
    turn_second-holders wants suits (turn_first wants suits p) path d
    ∙ turn_first-holders wants suits p path d

pub is_disconnected-Disconnected : Disconnected is_disconnected
unfolding is_disconnected
is_disconnected-Disconnected g h = ground arith

pub is_remembered-Disconnected : Disconnected is_remembered
unfolding is_remembered is_disconnected
is_remembered-Disconnected g h = ground arith

pub is_new-Disconnected : Disconnected is_new
unfolding is_new is_disconnected
is_new-Disconnected g h = ground arith

move_ports-holders : (p : Players) (path : List ℕ) → holders (move_ports p) path ≡ holders p path
unfolding move_ports
move_ports-holders p path =
    for_players-holders is_disconnected any_candidate p path is_disconnected-Disconnected

take_next-holders : (p : Players) (path : List ℕ) → holders (take_next p) path ≡ holders p path
unfolding take_next
take_next-holders p path = for_players-holders is_new any_candidate p path is_new-Disconnected

reconnect_remembered-holders :
    (p : Players) (path : List ℕ) → holders (reconnect_remembered p) path ≡ holders p path
unfolding reconnect_remembered
reconnect_remembered-holders p path =
    for_players-holders is_remembered same_port p path is_remembered-Disconnected

-- Giving devices to players loses none and gives none twice: of every path, the players and the
-- candidates that are left hold together as many devices after the three passes as before.
pub assign-holders : (p : Players) (path : List ℕ) → holders (assign p) path ≡ holders p path
unfolding assign
assign-holders p path =
    move_ports-holders (take_next (reconnect_remembered p)) path
    ∙ (take_next-holders (reconnect_remembered p) path ∙ reconnect_remembered-holders p path)

pub attach_candidate-connected :
    (g : Gamepad) (c : Candidate) → (attach_candidate g c).connected ≡ true
unfolding attach_candidate resynchronize read_anew with_states
attach_candidate-connected g c = elim (Option-cases c.snapshot) [
  | inl h ↦ rw h refl
  | inr (s, h) ↦ rw h refl
]

abbrev FirstServed : Players → Type 0
FirstServed p = (p.remaining ≡ []) ⊎ (p.first.connected ≡ true)

-- Both players have a device, or none is left that they could have.
abbrev pub NoneWaits : Players → Type 0
NoneWaits p = (p.remaining ≡ []) ⊎ ((p.first.connected ≡ true) × (p.second.connected ≡ true))

give_first :
    (first second : Gamepad) (remaining : List Candidate)
    → FirstServed (
        attach_first
          (record { first = first; second = second; remaining = remaining })
          (take_first (any_candidate first) remaining))
unfolding attach_first take_first any_candidate
give_first first second [] = inl refl
give_first first second (c ∷ rest) = inr (attach_candidate-connected first c)

give_second :
    (first second : Gamepad) (remaining : List Candidate)
    → (remaining ≡ []) ⊎ (first.connected ≡ true)
    → NoneWaits (
        attach_second
          (record { first = first; second = second; remaining = remaining })
          (take_first (any_candidate second) remaining))
unfolding attach_second take_first any_candidate
give_second first second [] given = inl refl
give_second first second (c ∷ rest) (inl empty) = absurd (cc empty)
give_second first second (c ∷ rest) (inr given) = inr (given, attach_candidate-connected second c)

turn_first-FirstServed : (p : Players) → FirstServed (turn_first is_disconnected any_candidate p)
unfolding turn_first is_disconnected
turn_first-FirstServed p = elim (Bool-cases p.first.connected) [
  | inl h ↦ subst FirstServed (sym (if_false _ _ _ (ap not h))) (inr h)
  | inr h ↦
      subst FirstServed (sym (if_true _ _ _ (ap not h))) (give_first p.first p.second p.remaining)
]

turn_second-NoneWaits :
    (p : Players) → FirstServed p → NoneWaits (turn_second is_disconnected any_candidate p)
unfolding turn_second is_disconnected
turn_second-NoneWaits p given = elim (Bool-cases p.second.connected) [
  | inl h ↦
      subst NoneWaits (sym (if_false _ _ _ (ap not h)))
        (elim given [ inl empty ↦ inl empty | inr first ↦ inr (first, h) ])
  | inr h ↦
      subst NoneWaits (sym (if_true _ _ _ (ap not h)))
        (give_second p.first p.second p.remaining given)
]

-- After the three passes no device is left over while a player has none.
pub assign-NoneWaits : (p : Players) → NoneWaits (assign p)
unfolding assign move_ports for_players turn_first turn_second
assign-NoneWaits p =
    let q = take_next (reconnect_remembered p) in
    turn_second-NoneWaits (turn_first is_disconnected any_candidate q) (turn_first-FirstServed q)
