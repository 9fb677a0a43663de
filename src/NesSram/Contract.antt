-- ===== src/NesSram/Contract.antt =====
-- What a caller of `decode` in native/src/nes_sram.rs may rely on.
use retrodeck.Prelude.{
  ◌⊎◌, inl, inr, ℕ, ◌*◌, ◌≤◌, ◌≡◌, refl, ◌↔◌, Bool, true, List, [], ◌∷◌, some, ◌==◌, if◌then◌else◌,
  length, arith, Option-cases, Bool-cases, inl, inr, subst, none, Option,
}
use retrodeck.NesSram.{decode_from, decode, settle, maximum_encoded_size}
use retrodeck.NesSram.Format.{Encodes, done, literal, run, decode_from_sound, decode_from_complete}

-- An encoded save is a tag and an encoding of as many bytes as the buffer holds, at least one.
abbrev pub Saves : List ℕ → List ℕ → List ℕ → Type 0
Saves [] output bytes = ⊥
Saves (tag ∷ input) [] bytes = ⊥
Saves (tag ∷ input) (o ∷ output) bytes =
    Encodes tag input bytes × (length bytes ≡ length (o ∷ output))

ap_flag : {b c : Bool} {x y : List ℕ} → ◌≡◌ {A = Bool × List ℕ} (b, x) (c, y) → b ≡ c
ap_flag h = λ i. (h i).0

settled :
    (output : List ℕ) {bytes : List ℕ} (o : Option (List ℕ))
    → settle output o ≡ (true, bytes)
    → o ≡ some bytes
unfolding settle
settled output none h = cc (ap_flag h)
settled output (some ds) h = λ i. some (h i).1

-- `decode` succeeds with a given buffer exactly when the input is a save of those bytes: it accepts
-- every save of the buffer's size, and accepts nothing else.
pub decode-Saves :
    (input output bytes : List ℕ) → (decode input output ≡ (true, bytes)) ↔ Saves input output bytes
unfolding decode
decode-Saves [] output bytes = (λ h. cc (ap_flag h), λ h. absurd h)
decode-Saves (tag ∷ input) [] bytes = (λ h. cc (ap_flag h), λ h. absurd h)
decode-Saves (tag ∷ input) (o ∷ output) bytes = (
  λ h. decode_from_sound tag input (length (o ∷ output)) bytes (settled (o ∷ output) _ h),
  λ h. rw (subst (λ n. decode_from tag input n ≡ some bytes) h.1 (decode_from_complete h.0)),
)

-- A call succeeds or leaves the buffer as it was, and no call changes the buffer's size.
pub decode_atomic :
    (input output : List ℕ)
    → (((decode input output).0 ≡ true) ⊎ ((decode input output).1 ≡ output))
      × (length (decode input output).1 ≡ length output)
unfolding decode
decode_atomic [] output = (inr refl, refl)
decode_atomic (tag ∷ input) [] = (inr refl, refl)
decode_atomic (tag ∷ input) (o ∷ output) =
    elim (Option-cases (decode_from tag input (length (o ∷ output)))) [
      | inl failed ↦ rw failed (inr refl, refl)
      | inr (ds, e) ↦ rw e (inl refl, (decode_from_sound tag input (length (o ∷ output)) ds e).1)
    ]

-- The longest encoding that the old frontend writes: a byte that is the tag becomes a run of one.
pub escape : ℕ → List ℕ → List ℕ
escape tag [] = []
escape tag (b ∷ bytes) =
    let rest = escape tag bytes in if b == tag then tag ∷ b ∷ 0 ∷ rest else b ∷ rest

escape-Encodes : (tag : ℕ) (bytes : List ℕ) → Encodes tag (escape tag bytes) bytes
unfolding escape
escape-Encodes tag [] = done []
escape-Encodes tag (b ∷ bytes) = elim (Bool-cases (b == tag)) [
  | inl hit ↦ rw hit (run refl refl (escape-Encodes tag bytes))
  | inr miss ↦ rw miss (literal (ground arith) (escape-Encodes tag bytes))
]

length-escape-le : (tag : ℕ) (bytes : List ℕ) → length (escape tag bytes) ≤ length bytes * 3
unfolding escape
length-escape-le tag [] = omega arith
length-escape-le tag (b ∷ bytes) = ground (arith, length-escape-le tag bytes)

-- Under any tag, every non-empty save can be written within `maximum_encoded_size` of its size, and
-- decoding that into a buffer of the save's size gives the save back.
pub decode-escape :
    (tag b o : ℕ) (bytes output : List ℕ)
    → length bytes ≡ length output
    → (decode (tag ∷ escape tag (b ∷ bytes)) (o ∷ output) ≡ (true, b ∷ bytes))
      × (length (tag ∷ escape tag (b ∷ bytes)) ≤ maximum_encoded_size (length (b ∷ bytes)))
unfolding maximum_encoded_size
decode-escape tag b o bytes output h = (
  (decode-Saves (tag ∷ escape tag (b ∷ bytes)) (o ∷ output) (b ∷ bytes)).1
      (escape-Encodes tag (b ∷ bytes), omega arith),
  omega (arith, length-escape-le tag (b ∷ bytes)),
)
