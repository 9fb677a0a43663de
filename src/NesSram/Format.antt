-- ===== src/NesSram/Format.antt =====
-- What an encoded save stands for, and that the decoder of native/src/nes_sram.rs computes it.
use mathlib.Core.Option
use retrodeck.Prelude.{
  ℕ, zero, suc, ◌+◌, ◌-◌, ◌≡◌, refl, subst, ◌∙◌, ◌≢◌, inl, inr, true, false, List, [], ◌∷◌, ◌++◌,
  Option, some, ltb, ◌==◌, length, length-append, length-replicate, replicate, arith, Bool-cases,
  ==_iff,
}
use retrodeck.NesSram.{decode_from}

-- The format, with no decoder in sight: `Encodes tag input data`. A byte other than the tag stands
-- for itself, and the tag, a byte and a count stand for a run. What follows the data is ignored.
pub data Encodes (tag : ℕ) : List ℕ → List ℕ → Type 0 where
  done : (rest : List ℕ) → Encodes tag rest []
  literal :
      {value : ℕ} {input bytes : List ℕ}
      → value ≢ tag
      → Encodes tag input bytes
      → Encodes tag (value ∷ input) (value ∷ bytes)
  run :
      {value repeated count : ℕ} {input bytes all : List ℕ}
      → value ≡ tag
      → all ≡ replicate (count + 1) repeated ++ bytes
      → Encodes tag input bytes
      → Encodes tag (value ∷ repeated ∷ count ∷ input) all

-- A decoded literal and a decoded run, taken apart.
literal_sound :
    (tag value : ℕ) (input : List ℕ) (room : ℕ) (o : Option (List ℕ)) {bytes : List ℕ}
    → ((ds : List ℕ) → o ≡ some ds → Encodes tag input ds × (length ds ≡ room))
    → (value == tag) ≡ false
    → Option.map (◌∷◌ value) o ≡ some bytes
    → Encodes tag (value ∷ input) bytes × (length bytes ≡ suc room)
literal_sound tag value input room o {bytes} rest miss h =
    let (ds, e, same) = (Option.map-eq-some_iff (◌∷◌ value) o).0 h in
    let (code, size) = rest ds e in
    subst (λ b. Encodes tag (value ∷ input) b × (length b ≡ suc room)) same
      (literal (ground arith) code, omega arith)

run_sound :
    (tag value repeated count : ℕ) (input : List ℕ) (room : ℕ) (o : Option (List ℕ))
    {bytes : List ℕ}
    → ((ds : List ℕ) → o ≡ some ds → Encodes tag input ds × (length ds ≡ room - (count + 1)))
    → (value == tag) ≡ true
    → ltb room (count + 1) ≡ false
    → Option.map (◌++◌ (replicate (count + 1) repeated)) o ≡ some bytes
    → Encodes tag (value ∷ repeated ∷ count ∷ input) bytes × (length bytes ≡ room)
run_sound tag value repeated count input room o {bytes} rest hit fits h =
    let (ds, e, same) = (Option.map-eq-some_iff (◌++◌ (replicate (count + 1) repeated)) o).0 h in
    let (code, size) = rest ds e in
    subst (λ b. Encodes tag (value ∷ repeated ∷ count ∷ input) b × (length b ≡ room)) same
      (
        run ((==_iff value tag).0 hit) refl code,
        ground (
          arith,
          length-append (replicate (count + 1) repeated) ds,
          length-replicate (count + 1) repeated,
        ),
      )

-- What the loop writes is what the input stands for, and fills the room.
pub decode_from_sound :
    (tag : ℕ) (input : List ℕ) (room : ℕ) (bytes : List ℕ)
    → decode_from tag input room ≡ some bytes
    → Encodes tag input bytes × (length bytes ≡ room)
unfolding decode_from
decode_from_sound tag input zero bytes h =
    subst (λ b. Encodes tag input b × (length b ≡ 0)) (cc) (done input, refl)
decode_from_sound tag [] (suc room) bytes h = cc
decode_from_sound tag (value ∷ []) (suc room) bytes h = elim (Bool-cases (value == tag)) [
  | inl hit ↦ cc (rw hit at h)
  | inr miss ↦ literal_sound tag value [] room _ (decode_from_sound tag [] room) miss (rw miss at h)
]
decode_from_sound tag (value ∷ repeated ∷ []) (suc room) bytes h =
    elim (Bool-cases (value == tag)) [
      | inl hit ↦ cc (rw hit at h)
      | inr miss ↦
          literal_sound tag value (repeated ∷ []) room _
            (decode_from_sound tag (repeated ∷ []) room) miss (rw miss at h)
    ]
decode_from_sound tag (value ∷ repeated ∷ count ∷ rest) (suc room) bytes h =
    elim (Bool-cases (value == tag)) [
      | inl hit ↦ elim (Bool-cases (ltb (suc room) (count + 1))) [
        | inl short ↦ cc (rw (hit, short) at h)
        | inr fits ↦
            run_sound tag value repeated count rest (suc room) _
              (decode_from_sound tag rest (suc room - (count + 1))) hit fits (rw (hit, fits) at h)
      ]
      | inr miss ↦
          literal_sound tag value (repeated ∷ count ∷ rest) room _
            (decode_from_sound tag (repeated ∷ count ∷ rest) room) miss (rw miss at h)
    ]

decode_from_literal :
    (tag value : ℕ) (input : List ℕ) (room : ℕ)
    → (value == tag) ≡ false
    → decode_from tag (value ∷ input) (suc room)
      ≡ Option.map (◌∷◌ value) (decode_from tag input room)
unfolding decode_from
decode_from_literal tag value [] room miss = rw miss
decode_from_literal tag value (repeated ∷ []) room miss = rw miss
decode_from_literal tag value (repeated ∷ count ∷ rest) room miss = rw miss

decode_from_run :
    (tag value repeated count : ℕ) (input : List ℕ) (room : ℕ)
    → (value == tag) ≡ true
    → decode_from tag (value ∷ repeated ∷ count ∷ input) (suc (count + room))
      ≡ Option.map (◌++◌ (replicate (count + 1) repeated)) (decode_from tag input room)
unfolding decode_from
decode_from_run tag value repeated count input room hit =
    let fits : ltb (suc (count + room)) (count + 1) ≡ false = ground arith in
    let left : suc (count + room) - (count + 1) ≡ room = omega arith in rw (hit, fits, left)

run_room : (count room : ℕ) → count + 1 + room ≡ suc (count + room)
run_room count room = omega arith

-- The loop reads back every encoding, whatever follows it.
pub decode_from_complete :
    {tag : ℕ} {input bytes : List ℕ}
    → Encodes tag input bytes
    → decode_from tag input (length bytes) ≡ some bytes
unfolding decode_from
decode_from_complete (done rest) = refl
decode_from_complete {tag} (literal {value = v} {input = input} {bytes = ds} miss code) =
    decode_from_literal tag v input (length ds) (ground arith) ∙ rw (decode_from_complete code)
decode_from_complete {tag}
      (run {value = v} {repeated = r} {count = c} {input = input} {bytes = ds} hit same code) =
    rw
      (
        same,
        length-append (replicate (c + 1) r) ds,
        length-replicate (c + 1) r,
        run_room c (length ds),
      )
      (decode_from_run tag v r c input (length ds) ((==_iff v tag).1 hit)
        ∙ rw (decode_from_complete code))
