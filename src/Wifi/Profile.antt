-- ===== src/Wifi/Profile.antt =====
-- The profile that the Wi-Fi editor saves (`valid` and `helper_input` of
-- native/src/dashboard/wifi.rs), editing it, and the part of a text that is shown (`tail`).
use retrodeck.Prelude.{
  ℕ, ◌-◌, ◌≤◌, ◌<◌, ◌≡◌, refl, sym, ap, ◌∙◌, ◌↔◌, inl, inr, Bool, true, false, ◌&&◌, List, [], ◌∷◌,
  ◌++◌, Option, none, some, subst, ltb, ◌==◌, if◌then◌else◌, if_true, length, min, length-drop,
  arith, Bool-cases,
}
use retrodeck.Prelude.Decimal.{bytes}
use retrodeck.Wifi.{
  Field, Target, State, text_of, with_text, value, limit, printable, utf8_length, valid,
  length_within, helper_input, tail, push_within, pop, cleared, apply, to_ascii_uppercase,
}

-- With a first character, which ends the line or not, and what the rest reads as.
line_from : Bool → ℕ → List ℕ → Option (List ℕ × List ℕ) → Option (List ℕ × List ℕ)
line_from true c text rest = some ([], text)
line_from false c text none = none
line_from false c text (some (line, rest)) = some (c ∷ line, rest)

-- A reader of lines: the text up to a line feed, and the rest.
pub read_line : List ℕ → Option (List ℕ × List ℕ)
unfolding line_from
read_line [] = none
read_line (c ∷ text) = line_from (c == b'\n') c text (read_line text)

utf8_length-printable : (text : List ℕ) → printable text ≡ true → utf8_length text ≡ length text
unfolding utf8_length printable
utf8_length-printable [] h = refl
utf8_length-printable (c ∷ text) h =
    let rest = utf8_length-printable text (ground arith) in ground arith

-- What the editor accepts.
pub record Accepted (s : State) : Type 0 where
  pub ssid_range : (1 ≤ length s.ssid) × (length s.ssid ≤ 32)
  pub passphrase_range : (8 ≤ length s.passphrase) × (length s.passphrase ≤ 63)
  pub ssid_printable : printable s.ssid ≡ true
  pub passphrase_printable : printable s.passphrase ≡ true

-- The editor accepts exactly the networks whose name has 1 to 32 and whose password has 8 to 63
-- characters, all printable ASCII, although the code counts bytes.
pub valid_iff : (s : State) → (valid s ≡ none) ↔ Accepted s
unfolding valid
valid_iff s = (
  λ h. elim (Bool-cases (printable s.ssid)) [
    | inr bad ↦ absurd (ground arith)
    | inl a ↦ elim (Bool-cases (printable s.passphrase)) [
      | inr bad ↦ absurd (ground arith)
      | inl b ↦
          let e = utf8_length-printable s.ssid a in
          let f = utf8_length-printable s.passphrase b in
          record {
            ssid_range = (ground arith, ground arith);
            passphrase_range = (ground arith, ground arith);
            ssid_printable = a;
            passphrase_printable = b;
          }
    ]
  ],
  λ h.
      let e = utf8_length-printable s.ssid h.ssid_printable in
      let f = utf8_length-printable s.passphrase h.passphrase_printable in
      let (a, b) = h.ssid_range in
      let (c, d) = h.passphrase_range in
      let p = h.ssid_printable in let q = h.passphrase_printable in ground arith,
)

read_line-append :
    (text rest : List ℕ)
    → printable text ≡ true
    → read_line (text ++ (b'\n' ∷ rest)) ≡ some (text, rest)
unfolding read_line line_from printable
read_line-append [] rest h = refl
read_line-append (c ∷ text) rest h =
    let ih = read_line-append text rest (ground arith) in
    let other : (c == b'\n') ≡ false = ground arith in rw (other, ih) refl

-- What the helper script tests of the two lines: `wc -c` and `grep '[^ -~]'`.
helper_accepts : List ℕ → List ℕ → Bool
helper_accepts name secret =
    length_within 1 32 name && length_within 8 63 secret && printable name && printable secret

checked : List ℕ → List ℕ → Option (List ℕ × List ℕ)
unfolding helper_accepts
checked name secret = if helper_accepts name secret then some (name, secret) else none

-- `IFS= read -r _ && fail`: a third line is refused.
third_line : List ℕ → List ℕ → Option (List ℕ × List ℕ) → Option (List ℕ × List ℕ)
unfolding checked
third_line name secret none = checked name secret
third_line name secret (some p) = none

second_line : List ℕ → Option (List ℕ × List ℕ) → Option (List ℕ × List ℕ)
unfolding third_line
second_line name none = none
second_line name (some (secret, rest)) = third_line name secret (read_line rest)

first_line : Option (List ℕ × List ℕ) → Option (List ℕ × List ℕ)
unfolding second_line
first_line none = none
first_line (some (name, rest)) = second_line name (read_line rest)

-- The network that the helper script reads from its input and accepts; the rest of the script saves
-- it.
pub profile_add : List ℕ → Option (List ℕ × List ℕ)
unfolding first_line
profile_add input = first_line (read_line input)

checked_passes :
    (name secret : List ℕ) (p : List ℕ × List ℕ)
    → checked name secret ≡ some p
    → helper_accepts name secret ≡ true
unfolding checked
checked_passes name secret p h = elim (Bool-cases (helper_accepts name secret)) [
  | inl fine ↦ fine
  | inr bad ↦ absurd (cc (rw bad at h))
]

helper_lines :
    (name secret : List ℕ)
    → printable name ≡ true
    → printable secret ≡ true
    → profile_add (helper_input name secret) ≡ checked name secret
unfolding profile_add helper_input first_line second_line third_line utf8_length read_line
helper_lines name secret h k =
    ap first_line (read_line-append name (secret ++ (b'\n' ∷ [])) h)
    ∙ ap (λ o. second_line name o) (read_line-append secret [] k)

-- The helper script takes the network that the editor hands to it, as it was entered, exactly if the
-- editor takes it for valid; its texts are printable.
pub profile_add-helper_input :
    (s : State)
    → printable s.ssid ≡ true
    → printable s.passphrase ≡ true
    → (profile_add (helper_input s.ssid s.passphrase) ≡ some (s.ssid, s.passphrase))
      ↔ (valid s ≡ none)
unfolding checked helper_accepts
profile_add-helper_input s h k =
    let lines = helper_lines s.ssid s.passphrase h k in
    let e = utf8_length-printable s.ssid h in
    let f = utf8_length-printable s.passphrase k in
    (
      λ p.
          let fine = checked_passes s.ssid s.passphrase _ (sym lines ∙ p) in
          (valid_iff s).1 (record {
            ssid_range = (ground arith, ground arith);
            passphrase_range = (ground arith, ground arith);
            ssid_printable = h;
            passphrase_printable = k;
          }),
      λ p.
          let good = (valid_iff s).0 p in
          let (a, b) = good.ssid_range in
          let (c, d) = good.passphrase_range in
          let fine : helper_accepts s.ssid s.passphrase ≡ true = ground arith in
          lines ∙ rw fine refl,
    )

pop-append : (text : List ℕ) (c : ℕ) → pop (text ++ (c ∷ [])) ≡ text
unfolding pop
pop-append [] c = refl
pop-append (d ∷ []) c = refl
pop-append (d ∷ e ∷ text) c = ap (λ t. d ∷ t) (pop-append (e ∷ text) c)

delete-with_text :
    (f : Field) (s : State) (c : ℕ)
    → s.field ≡ f
    → apply (cleared (with_text f s (text_of f s ++ (c ∷ [])))) Target.delete
      ≡ record s { status = [] }
unfolding apply cleared value
delete-with_text Field.ssid s c h = simp (h, pop-append s.ssid c)
delete-with_text Field.password s c h = simp (h, pop-append s.passphrase c)

-- The delete key takes back what a key typed, as long as the field had room for it.
pub delete-key :
    (s : State) (c : ℕ)
    → length (value s) < limit s
    → apply (apply s (Target.key c)) Target.delete ≡ record s { status = [] }
unfolding push_within value apply cleared
delete-key s c h =
    let room : ltb (length (text_of s.field s)) (limit s) ≡ true = ground arith in
    let typed = if s.uppercase then to_ascii_uppercase c else c in
    subst (λ t. apply (cleared t) Target.delete ≡ record s { status = [] })
      (sym (
        if_true (ltb (length (text_of s.field s)) (limit s))
          (with_text s.field s (text_of s.field s ++ (typed ∷ []))) s room))
      (delete-with_text s.field s typed refl)

-- What is shown of a text is as long as the text, or as the space where that is less.
pub length-tail : (v : List ℕ) (maximum : ℕ) → length (tail v maximum) ≡ min (length v) maximum
unfolding tail bytes
length-tail v maximum =
    let a = length-drop (length v - maximum) v in
    let b = length-drop (length v - (maximum - 3)) v in ground arith
