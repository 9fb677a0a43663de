-- ===== src/StateFile/Safety.antt =====
-- Crash safety of `write_bounded` in native/src/state_file.rs.
use retrodeck.Prelude.{
  ◌⊎◌, ℕ, zero, suc, ◌+◌, ◌≡◌, refl, sym, ap, ◌∙◌, ◌≢◌, inl, inr, Bool, true, false, List, [], ◌∷◌,
  ◌++◌, Option, none, some, ltb, if◌then◌else◌, length, length-append, arith, Bool-cases,
  Option-cases,
}
use retrodeck.Prelude.Decimal.{bytes, decimal, text_eq, text_eq_iff, text_eq_refl}
use retrodeck.Prelude.Result.{Result, ok, err}
use retrodeck.StateFile.{
  Fs, Node, file, Faults, Error, Outcome, update, temporary_path, find_temporary, stored,
  first_failure, replace, finish, begin, not_absolute, limit_exceeded, exceeds, is_some,
  is_absolute, refused, write_bounded, maximum_bounded_bytes, temporary_attempts,
}

pub update_self : (fs : Fs) (p : List ℕ) (entry : Option Node) → update fs p entry p ≡ entry
unfolding update
update_self fs p entry = rw (text_eq_refl p)

text_eq_ne : (p q : List ℕ) → p ≢ q → text_eq p q ≡ false
text_eq_ne p q h = elim (Bool-cases (text_eq p q)) [
  | inl same ↦ absurd (h ((text_eq_iff p q).0 same))
  | inr differ ↦ differ
]

pub update_ne : (fs : Fs) (p q : List ℕ) (entry : Option Node) → p ≢ q → update fs p entry q ≡ fs q
unfolding update
update_ne fs p q entry h = rw (text_eq_ne p q h)

temporary_path-ne : (path : List ℕ) (pid attempt : ℕ) → temporary_path path pid attempt ≢ path
unfolding temporary_path bytes
temporary_path-ne path pid attempt e = omega (
  arith,
  ap length e,
  length-append path (bytes ".tmp." ++ (decimal pid ++ (b'.' ∷ decimal attempt))),
)

-- The temporary file is new, and is not the state file.
pub find_temporary_fresh :
    (faults : Faults) (fs : Fs) (path : List ℕ) (pid left attempt : ℕ) {t : List ℕ}
    → find_temporary faults fs path pid left attempt ≡ ok t
    → (fs t ≡ none) × (t ≢ path)
unfolding find_temporary is_some
find_temporary_fresh faults fs path pid zero attempt h = cc
find_temporary_fresh faults fs path pid (suc left) attempt {t} h =
    elim (Option-cases (fs (temporary_path path pid attempt))) [
      | inl free ↦ elim (Bool-cases (faults.create_fails (temporary_path path pid attempt))) [
        | inl fails ↦ cc (rw (free, fails) at h)
        | inr created ↦
            let e : temporary_path path pid attempt ≡ t = cc (rw (free, created) at h) in
            (rw (← e) free, λ same. temporary_path-ne path pid attempt (e ∙ same))
      ]
      | inr (node, taken) ↦
          find_temporary_fresh faults fs path pid left (attempt + 1) (rw taken at h)
    ]

-- A property of every file system that a crash can expose.
abbrev pub Always : (Fs → Type 0) → List Fs → Type 0
Always P [] = Unit {0}
Always P (fs ∷ states) = P fs × Always P states

-- The outcome of a write as its callers rely on it: until it ends, `path` reads as before. If it
-- succeeds, `path` holds the new bytes, and if it fails, `path` reads as before. Every other file
-- that was there is left alone throughout, and no new one stays behind, except a temporary file
-- that could not be removed.
pub record IsAtomic (faults : Faults) (fs : Fs) (path content : List ℕ) (o : Outcome) : Type 0 where
  pub before : Always (λ s. s path ≡ fs path) o.passed
  pub ended :
      ((o.result ≡ ok tt) × (o.final path ≡ some (file content)))
      ⊎ ((e : Error) × (o.result ≡ err e) × (o.final path ≡ fs path))
  pub others :
      (other : List ℕ)
      → other ≢ path
      → (entry : Node) → fs other ≡ some entry
      → Always (λ s. s other ≡ fs other) (o.final ∷ o.passed)
  pub clean :
      faults.remove_fails ≡ false → (other : List ℕ) → other ≢ path → o.final other ≡ fs other

pub ended_ok :
    {faults : Faults} {fs : Fs} {path content : List ℕ} {o : Outcome}
    → IsAtomic faults fs path content o
    → o.result ≡ ok tt
    → o.final path ≡ some (file content)
ended_ok atomic h = elim atomic.ended [
  | inl (good, there) ↦ there
  | inr (e, bad, same) ↦ absurd (cc (sym bad ∙ h))
]

refused-IsAtomic :
    (faults : Faults) (fs : Fs) (path content : List ℕ) (e : Error)
    → IsAtomic faults fs path content (refused fs e)
unfolding refused
refused-IsAtomic faults fs path content e = record {
  before = tt;
  ended = inr (e, refl, refl);
  others = λ other h entry i. (refl, tt);
  clean = λ h other i. refl;
}

module _ (faults : Faults) (fs : Fs) (path t content : List ℕ) (fresh : fs t ≡ none)
    (apart : t ≢ path) where
  created : Fs
  created = update fs t (some (file []))

  filled : Fs
  unfolding created
  filled = update created t (some (file (stored faults content)))

  created_other : (other : List ℕ) → t ≢ other → created other ≡ fs other
  unfolding created
  created_other other h = update_ne fs t other (some (file [])) h

  filled_other : (other : List ℕ) → t ≢ other → filled other ≡ fs other
  unfolding filled
  filled_other other h =
      update_ne created t other (some (file (stored faults content))) h ∙ created_other other h

  removed_other : (other : List ℕ) → t ≢ other → update filled t none other ≡ fs other
  removed_other other h = update_ne filled t other none h ∙ filled_other other h

  removed_any : (other : List ℕ) → update filled t none other ≡ fs other
  removed_any other = elim (Bool-cases (text_eq t other)) [
    | inl same ↦
        let e = (text_eq_iff t other).0 same in
        ap (update filled t none) (sym e) ∙ update_self filled t none ∙ sym fresh ∙ ap fs e
    | inr differ ↦ removed_other other (λ e. cc (rw (← e, text_eq_refl t) at differ))
  ]

  final_failed_path : (b : Bool) → (if b then filled else update filled t none) path ≡ fs path
  final_failed_path true = filled_other path apart
  final_failed_path false = removed_other path apart

  final_failed_other :
      (b : Bool) (other : List ℕ)
      → t ≢ other
      → (if b then filled else update filled t none) other ≡ fs other
  final_failed_other true other h = filled_other other h
  final_failed_other false other h = removed_other other h

  failed_clean :
      (b : Bool)
      → b ≡ false
      → (other : List ℕ) → (if b then filled else update filled t none) other ≡ fs other
  failed_clean true h other = cc
  failed_clean false h other = removed_any other

  final_done_other :
      (other : List ℕ)
      → other ≢ path
      → update (update filled path (some (file content))) t none other ≡ fs other
  final_done_other other h = elim (Bool-cases (text_eq t other)) [
    | inl same ↦
        let e = (text_eq_iff t other).0 same in
        ap (update (update filled path (some (file content))) t none) (sym e)
        ∙ update_self (update filled path (some (file content))) t none
        ∙ sym fresh
        ∙ ap fs e
    | inr differ ↦
        let away : t ≢ other = λ e. cc (rw (← e, text_eq_refl t) at differ) in
        update_ne (update filled path (some (file content))) t other none away
        ∙ update_ne filled path other (some (file content)) (λ e. h (sym e))
        ∙ filled_other other away
  ]

  away_of : (other : List ℕ) (entry : Node) → fs other ≡ some entry → t ≢ other
  away_of other entry i e = cc (sym fresh ∙ ap fs e ∙ i)

  finish-IsAtomic :
      (failure : Option Error)
      → IsAtomic faults fs path content (finish faults path t content created filled failure)
  unfolding finish
  finish-IsAtomic none = record {
    before = (created_other path apart, (filled_other path apart, tt));
    ended = inl (
      refl,
      update_ne (update filled path (some (file content))) t path none apart
          ∙ update_self filled path (some (file content)),
    );
    others = λ other h entry i.
        let away = away_of other entry i in
        (final_done_other other h, (created_other other away, (filled_other other away, tt)));
    clean = λ r other h. final_done_other other h;
  }
  finish-IsAtomic (some e) = record {
    before = (created_other path apart, (filled_other path apart, tt));
    ended = inr (e, refl, final_failed_path faults.remove_fails);
    others = λ other h entry i.
        let away = away_of other entry i in
        (
          final_failed_other faults.remove_fails other away,
          (created_other other away, (filled_other other away, tt)),
        );
    clean = λ r other h. failed_clean faults.remove_fails r other;
  }

  replace-IsAtomic : IsAtomic faults fs path content (replace faults fs path t content)
  unfolding replace created filled
  replace-IsAtomic = finish-IsAtomic (first_failure faults)

begin-IsAtomic :
    (faults : Faults) (fs : Fs) (path content : List ℕ) (found : Result Error (List ℕ))
    → ((t : List ℕ) → found ≡ ok t → (fs t ≡ none) × (t ≢ path))
    → IsAtomic faults fs path content (begin faults fs path content found)
unfolding begin
begin-IsAtomic faults fs path content (err e) h = refused-IsAtomic faults fs path content e
begin-IsAtomic faults fs path content (ok t) h =
    let (fresh, apart) = h t refl in replace-IsAtomic faults fs path t content fresh apart

-- Whatever system calls fail, a write of a state file is atomic: between any two of its calls the
-- path reads as before, and at the end it holds the new bytes if the write succeeds and reads as
-- before if not. Other files are left alone, and no new one stays if temporary files can be removed.
pub write_bounded-IsAtomic :
    (faults : Faults) (fs : Fs) (pid : ℕ) (path content : List ℕ) (maximum : ℕ)
    → IsAtomic faults fs path content (write_bounded faults fs pid path content maximum)
unfolding write_bounded
write_bounded-IsAtomic faults fs pid path content maximum = elim (Bool-cases (is_absolute path)) [
  | inr relative ↦ rw relative (refused-IsAtomic faults fs path content not_absolute)
  | inl absolute ↦ elim (Bool-cases (ltb maximum_bounded_bytes maximum)) [
    | inl bad ↦ rw (absolute, bad) (refused-IsAtomic faults fs path content limit_exceeded)
    | inr bounded ↦ elim (Bool-cases (ltb maximum (length content))) [
      | inl long ↦ rw (absolute, bounded, long) (refused-IsAtomic faults fs path content exceeds)
      | inr fits ↦
          rw (absolute, bounded, fits)
            (begin-IsAtomic faults fs path content
              (find_temporary faults fs path pid temporary_attempts 0)
              (λ t h. find_temporary_fresh faults fs path pid temporary_attempts 0 h))
    ]
  ]
]
