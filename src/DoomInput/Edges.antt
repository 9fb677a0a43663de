-- ===== src/DoomInput/Edges.antt =====
-- The events that the DOOM port is sent, over any number of polls (`Mapper::poll` of
-- native/src/doom_input.rs).
use retrodeck.Prelude.{
  ℕ, ◌+◌, ◌≡◌, refl, Bool, true, false, ◌||◌, ◌&&◌, List, [], ◌∷◌, ◌++◌, map, Option, none, some,
  ◌==◌, if◌then◌else◌, arith,
}
use retrodeck.DoomInput.{
  Event, press, release, is_set, or_bits, edge, transitions, controller_map, controller_transitions,
  Mapper, new, keyboard_codes, keyboard_key, typed, key_edge, poll_keys, poll,
}

-- 1 for the key that is asked for.
abbrev one_if : Bool → ℕ
one_if b = if b then 1 else 0

-- How many of the events press a key, and how many release it.
pub presses : ℕ → List Event → ℕ
presses k [] = 0
presses k (e ∷ es) = one_if (e.key == k && e.pressed == 1) + presses k es

pub releases : ℕ → List Event → ℕ
releases k [] = 0
releases k (e ∷ es) = one_if (e.key == k && e.pressed == 0) + releases k es

presses-append : (k : ℕ) (es fs : List Event) → presses k (es ++ fs) ≡ presses k es + presses k fs
unfolding presses
presses-append k [] fs = omega arith
presses-append k (e ∷ es) fs = omega (arith, presses-append k es fs)

releases-append :
    (k : ℕ) (es fs : List Event) → releases k (es ++ fs) ≡ releases k es + releases k fs
unfolding releases
releases-append k [] fs = omega arith
releases-append k (e ∷ es) fs = omega (arith, releases-append k es fs)

-- How many buttons and keys are held that stand for a DOOM key.
buttons_held : ℕ → List (ℕ × ℕ) → ℕ → ℕ
buttons_held k [] state = 0
buttons_held k ((bit, key) ∷ rest) state =
    one_if (is_set state bit && key == k) + buttons_held k rest state

stands_for : ℕ → Option (ℕ × ℕ) → Bool
stands_for k none = false
stands_for k (some (key, character)) = key == k

keys_held : ℕ → List (ℕ × Bool) → ℕ
unfolding stands_for
keys_held k [] = 0
keys_held k ((code, is_held) ∷ rest) =
    one_if (is_held && stands_for k (keyboard_key code)) + keys_held k rest

pub held : ℕ → Mapper → ℕ
unfolding buttons_held keys_held
held k m = buttons_held k controller_map m.controllers.0 + keys_held k m.keys

edge_account :
    (k key character : ℕ) (was is_held : Bool)
    → presses k (edge was is_held key character) + one_if (was && key == k)
      ≡ releases k (edge was is_held key character) + one_if (is_held && key == k)
unfolding presses releases edge press release
edge_account k key character true true = ground arith
edge_account k key character true false = ground arith
edge_account k key character false true = ground arith
edge_account k key character false false = ground arith

transitions_account :
    (k previous current : ℕ) (pads : List (ℕ × ℕ))
    → presses k (transitions pads previous current) + buttons_held k pads previous
      ≡ releases k (transitions pads previous current) + buttons_held k pads current
unfolding transitions buttons_held presses releases
transitions_account k previous current [] = refl
transitions_account k previous current ((bit, key) ∷ rest) =
    let event = edge (is_set previous bit) (is_set current bit) key 0 in
    let more = transitions rest previous current in
    let a = edge_account k key 0 (is_set previous bit) (is_set current bit) in
    let b = transitions_account k previous current rest in
    let c = presses-append k event more in let d = releases-append k event more in omega arith

key_edge_account :
    (k : ℕ) (shifted was is_held : Bool) (o : Option (ℕ × ℕ))
    → presses k (key_edge shifted was is_held o) + one_if (was && stands_for k o)
      ≡ releases k (key_edge shifted was is_held o) + one_if (is_held && stands_for k o)
unfolding key_edge stands_for presses releases
key_edge_account k shifted was is_held none = ground arith
key_edge_account k shifted was is_held (some (key, character)) =
    edge_account k key (typed shifted character) was is_held

poll_keys_account :
    (k : ℕ) (key_held : ℕ → Bool) (shifted : Bool) (keys : List (ℕ × Bool))
    → presses k (poll_keys key_held shifted keys).1 + keys_held k keys
      ≡ releases k (poll_keys key_held shifted keys).1
        + keys_held k (poll_keys key_held shifted keys).0
unfolding poll_keys keys_held presses releases
poll_keys_account k key_held shifted [] = refl
poll_keys_account k key_held shifted ((code, was) ∷ rest) =
    let event = key_edge shifted was (key_held code) (keyboard_key code) in
    let more = (poll_keys key_held shifted rest).1 in
    let a = key_edge_account k shifted was (key_held code) (keyboard_key code) in
    let b = poll_keys_account k key_held shifted rest in
    let c = presses-append k event more in let d = releases-append k event more in omega arith

poll_account :
    (k : ℕ) (m : Mapper) (controller : ℕ → ℕ) (key_held : ℕ → Bool)
    → presses k (poll m controller key_held).1 + held k m
      ≡ releases k (poll m controller key_held).1 + held k (poll m controller key_held).0
unfolding poll held controller_transitions
poll_account k m controller key_held =
    let merged = or_bits 32 (controller 0) (controller 1) in
    let shifted = key_held 42 || key_held 54 in
    let a = transitions_account k m.controllers.0 merged controller_map in
    let b = poll_keys_account k key_held shifted m.keys in
    let es = transitions controller_map m.controllers.0 merged in
    let fs = (poll_keys key_held shifted m.keys).1 in
    let c = presses-append k es fs in let d = releases-append k es fs in omega arith

-- Any number of polls, each with what the pads and the keyboard show.
pub polls : Mapper → List ((ℕ → ℕ) × (ℕ → Bool)) → Mapper × List Event
polls m [] = (m, [])
polls m ((controller, key_held) ∷ rest) =
    let (m', events) = poll m controller key_held in
    let (last, more) = polls m' rest in (last, events ++ more)

polls_account :
    (k : ℕ) (m : Mapper) (inputs : List ((ℕ → ℕ) × (ℕ → Bool)))
    → presses k (polls m inputs).1 + held k m
      ≡ releases k (polls m inputs).1 + held k (polls m inputs).0
unfolding polls presses releases
polls_account k m [] = refl
polls_account k m ((controller, key_held) ∷ rest) =
    let (m', events) = poll m controller key_held in
    let a = poll_account k m controller key_held in
    let b = polls_account k m' rest in
    let c = presses-append k events (polls m' rest).1 in
    let d = releases-append k events (polls m' rest).1 in omega arith

none_held : (k : ℕ) (codes : List ℕ) → keys_held k (map (λ code. (code, false)) codes) ≡ 0
unfolding keys_held
none_held k [] = refl
none_held k (c ∷ codes) = omega (arith, none_held k codes)

no_button : (k : ℕ) → buttons_held k controller_map 0 ≡ 0
unfolding buttons_held is_set
no_button k = refl

-- From the start and over any polls, a DOOM key has been pressed exactly as often as it has been
-- released, and once more for each button and key now held that stands for it.
pub polls-new :
    (k : ℕ) (inputs : List ((ℕ → ℕ) × (ℕ → Bool)))
    → presses k (polls new inputs).1 ≡ releases k (polls new inputs).1 + held k (polls new inputs).0
unfolding new held
polls-new k inputs =
    let a = polls_account k new inputs in
    let b = none_held k keyboard_codes in let c = no_button k in omega arith

set_same : (b : Bool) (key character : ℕ) → edge b b key character ≡ []
unfolding edge
set_same true key character = refl
set_same false key character = refl

transitions_same : (pads : List (ℕ × ℕ)) (state : ℕ) → transitions pads state state ≡ []
unfolding transitions
transitions_same [] state = refl
transitions_same ((bit, key) ∷ rest) state =
    rw (set_same (is_set state bit) key 0) (transitions_same rest state)

key_edge_same : (shifted b : Bool) (o : Option (ℕ × ℕ)) → key_edge shifted b b o ≡ []
unfolding key_edge
key_edge_same shifted b none = refl
key_edge_same shifted b (some (key, character)) = set_same b key (typed shifted character)

poll_keys_again :
    (key_held : ℕ → Bool) (shifted : Bool) (keys : List (ℕ × Bool))
    → poll_keys key_held shifted (poll_keys key_held shifted keys).0
      ≡ ((poll_keys key_held shifted keys).0, [])
unfolding poll_keys
poll_keys_again key_held shifted [] = refl
poll_keys_again key_held shifted ((code, was) ∷ rest) =
    rw
      (
        poll_keys_again key_held shifted rest,
        key_edge_same shifted (key_held code) (keyboard_key code),
      )
      refl

-- A second poll that shows the same changes nothing and sends no event.
pub poll-poll :
    (m : Mapper) (controller : ℕ → ℕ) (key_held : ℕ → Bool)
    → poll (poll m controller key_held).0 controller key_held ≡ ((poll m controller key_held).0, [])
unfolding poll controller_transitions
poll-poll m controller key_held =
    let shifted = key_held 42 || key_held 54 in
    rw
      (
        poll_keys_again key_held shifted m.keys,
        transitions_same controller_map (or_bits 32 (controller 0) (controller 1)),
      )
      refl
