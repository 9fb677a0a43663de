-- ===== src/Joypad/Console.antt =====
-- The console keyboard of the emulators (native/src/joypad.rs): the buttons of its keys, the bytes
-- that it sends and the key codes of the Spectrum.
use retrodeck.Prelude.{
  ℕ, ◌+◌, ◌-◌, ◌%◌, ◌<◌, ◌≡◌, refl, sym, ◌∙◌, ap, subst, Bool, ◌&&◌, ◌||◌, List, [], ◌∷◌, Option,
  none, some, ltb, leb, ◌==◌, if◌then◌else◌, Bool-cases, length, get_elem?, set, get_or, length-set,
  get_elem?-set_self, get_elem?-set_ne, Option-cases, arith, inl, inr,
}
use Prim.Native.Nat.{bit_or}

keycode_to_pad : Bool → ℕ → ℕ
keycode_to_pad zx keycode =
    if zx
    then 0
    else if keycode == 103 || keycode == 17
    then 16
    else if keycode == 108 || keycode == 31
    then 32
    else if keycode == 105 || keycode == 30
    then 64
    else if keycode == 106 || keycode == 32
    then 128
    else if keycode == 57 || keycode == 44 || keycode == 36
    then 1
    else if keycode == 42 || keycode == 54 || keycode == 45 || keycode == 37
    then 2
    else if keycode == 28
    then 8
    else if keycode == 29 || keycode == 97
    then 4
    else 0

-- `byte & 0x7f` and `byte & 0x80 == 0`, of a byte.
pub press_keys : List Bool → List ℕ → List Bool
press_keys keys [] = keys
press_keys keys (byte ∷ bytes) = press_keys (set keys (byte % 128) (ltb byte 128)) bytes

mask_from : Bool → ℕ → ℕ → List Bool → ℕ
unfolding keycode_to_pad
mask_from zx mask code [] = mask
mask_from zx mask code (held ∷ keys) =
    mask_from zx (if held then bit_or mask (keycode_to_pad zx code) else mask) (code + 1) keys

-- The keys that are held, and the buttons of them.
pub apply_keyboard_bytes : Bool → List Bool → List ℕ → List Bool × ℕ
unfolding press_keys mask_from
apply_keyboard_bytes zx keys bytes =
    let pressed = press_keys keys bytes in (pressed, mask_from zx 0 0 pressed)

abbrev zx_digit_keycodes : List ℕ
zx_digit_keycodes = 11 ∷ 2 ∷ 3 ∷ 4 ∷ 5 ∷ 6 ∷ 7 ∷ 8 ∷ 9 ∷ 10 ∷ []

abbrev zx_letter_keycodes : List ℕ
zx_letter_keycodes =
    30 ∷ 48 ∷ 46 ∷ 32 ∷ 18 ∷ 33 ∷ 34 ∷ 35 ∷ 23 ∷ 36 ∷ 37 ∷ 38 ∷ 50 ∷ 49 ∷ 24 ∷ 25 ∷ 16 ∷ 19 ∷ 31
    ∷ 20 ∷ 22 ∷ 47 ∷ 17 ∷ 45 ∷ 21 ∷ 44 ∷ []

pub zx_linux_keycode : ℕ → ℕ
zx_linux_keycode retro_key =
    if leb 48 retro_key && leb retro_key 57
    then get_or zx_digit_keycodes (retro_key - 48) 0
    else if leb 97 retro_key && leb retro_key 122
    then get_or zx_letter_keycodes (retro_key - 97) 0
    else if retro_key == 13
    then 28
    else if retro_key == 32
    then 57
    else if retro_key == 8
    then 14
    else if retro_key == 304
    then 42
    else if retro_key == 303
    then 54
    else if retro_key == 306
    then 29
    else if retro_key == 305
    then 97
    else if retro_key == 308
    then 56
    else if retro_key == 307
    then 100
    else if retro_key == 310
    then 125
    else if retro_key == 311
    then 126
    else if retro_key == 273
    then 103
    else if retro_key == 274
    then 108
    else if retro_key == 276
    then 105
    else if retro_key == 275
    then 106
    else 0

-- What the last byte about a key says of it.
pub last_said : ℕ → List ℕ → Option Bool
last_said code [] = none
last_said code (byte ∷ bytes) =
    let later = last_said code bytes in
    elim later [
      | some held ↦ some held
      | none ↦ if byte % 128 == code then some (ltb byte 128) else none
    ]

last_said-later :
    (code byte : ℕ) (bytes : List ℕ) (o : Option Bool)
    → last_said code bytes ≡ o
    → last_said code (byte ∷ bytes) ≡ elim o [
      | some held ↦ some held
      | none ↦ if byte % 128 == code then some (ltb byte 128) else none
    ]
unfolding last_said
last_said-later code byte bytes o h = rw h refl

-- The state of a key after some bytes: what the last byte about it says, else what it was.
pub said_or : Option Bool → Option Bool → Option Bool
said_or none before = before
said_or (some held) before = some held

set-held :
    (code byte : ℕ) (keys : List Bool)
    → code < length keys
    → get_elem? (set keys (byte % 128) (ltb byte 128)) code
      ≡ said_or (if byte % 128 == code then some (ltb byte 128) else none) (get_elem? keys code)
unfolding said_or
set-held code byte keys l = elim (Bool-cases (byte % 128 == code)) [
  | inl h ↦
      let e : byte % 128 ≡ code = ground arith in
      rw (h, e) (get_elem?-set_self keys code (ltb byte 128) l)
  | inr h ↦ rw h (get_elem?-set_ne keys (ltb byte 128) (λ e. absurd (ground arith)))
]

-- The key that a byte is about has the state that the last byte about it says, and every other key
-- the state it had.
pub press_keys-last_said :
    (code : ℕ) (keys : List Bool) (bytes : List ℕ)
    → code < length keys
    → get_elem? (press_keys keys bytes) code ≡ said_or (last_said code bytes) (get_elem? keys code)
unfolding last_said press_keys said_or
press_keys-last_said code keys [] l = refl
press_keys-last_said code keys (byte ∷ bytes) l =
    let next = set keys (byte % 128) (ltb byte 128) in
    let ih =
      press_keys-last_said code next bytes
        (subst (λ n. code < n) (sym (length-set keys (byte % 128) (ltb byte 128))) l) in
    elim (Option-cases (last_said code bytes)) [
      | inl h ↦
          ih
          ∙ (ap (λ o. said_or o (get_elem? next code)) h
              ∙ (set-held code byte keys l
                  ∙ ap (λ o. said_or o (get_elem? keys code))
                      (sym (last_said-later code byte bytes none h))))
      | inr (held, h) ↦
          ih
          ∙ (ap (λ o. said_or o (get_elem? next code)) h
              ∙ ap (λ o. said_or o (get_elem? keys code))
                  (sym (last_said-later code byte bytes (some held) h)))
    ]
