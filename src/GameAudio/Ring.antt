-- ===== src/GameAudio/Ring.antt =====
-- The ring arithmetic under the queue of native/src/game_audio.rs: what a read sees after a write.
use native.Mathlib.Nat.{mod-lt, mod-eq_of_lt, mod-eq-sub-mod, mod-add-mod}
use retrodeck.Prelude.{
  ℕ, zero, suc, ◌+◌, ◌-◌, ◌%◌, ◌≤◌, ◌<◌, ◌≡◌, refl, sym, ap, ◌∙◌, ◌≢◌, List, [], ◌∷◌, ◌++◌, length,
  length-set, get_or, set, arith, dec_lt,
}
use retrodeck.Prelude.Int.{ℤ, pos}
use retrodeck.GameAudio.{read_ring, write_ring}

pub get_or-set_self : (xs : List ℤ) (i : ℕ) (v d : ℤ) → i < length xs → get_or (set xs i v) i d ≡ v
get_or-set_self [] i v d h = absurd (omega arith)
get_or-set_self (x ∷ xs) zero v d h = refl
get_or-set_self (x ∷ xs) (suc i) v d h = get_or-set_self xs i v d (omega arith)

pub get_or-set_ne :
    (xs : List ℤ) (i j : ℕ) (v d : ℤ) → i ≢ j → get_or (set xs i v) j d ≡ get_or xs j d
get_or-set_ne [] i j v d h = refl
get_or-set_ne (x ∷ xs) zero zero v d h = absurd (h refl)
get_or-set_ne (x ∷ xs) zero (suc j) v d h = refl
get_or-set_ne (x ∷ xs) (suc i) zero v d h = refl
get_or-set_ne (x ∷ xs) (suc i) (suc j) v d h = get_or-set_ne xs i j v d (λ e. h (ap suc e))

-- Two positions less than one turn apart are different slots.
mod_apart : (r d c : ℕ) → r < c → 0 < d → d < c → (r + d) % c ≢ r
mod_apart r d c h p q e = elim (dec_lt (r + d) c) [
  | yes small ↦ omega (arith, mod-eq_of_lt small)
  | no big ↦ omega (
    arith,
    mod-eq-sub-mod {n = r + d} {m = c} (omega arith),
    mod-eq_of_lt {n = r + d - c} {m = c} (omega arith),
  )
]

slots_differ : (a b c : ℕ) → a < b → b < a + c → a % c ≢ b % c
slots_differ a b c h k e =
    mod_apart (a % c) (b - a) c (mod-lt a (omega arith)) (omega arith) (omega arith)
      (mod-add-mod a c (b - a) ∙ ap (λ n. n % c) (omega arith) ∙ sym e)

pub length-write_ring :
    (queue : List ℤ) (position : ℕ) (samples : List ℤ)
    → length (write_ring queue position samples) ≡ length queue
unfolding write_ring
length-write_ring queue position [] = refl
length-write_ring queue position (x ∷ xs) =
    length-write_ring (set queue (position % length queue) x) (position + 1) xs
    ∙ length-set queue (position % length queue) x

pub length-read_ring :
    (queue : List ℤ) (position count : ℕ) → length (read_ring queue position count) ≡ count
unfolding read_ring
length-read_ring queue position zero = refl
length-read_ring queue position (suc count) = ap suc (length-read_ring queue (position + 1) count)

pub read_ring-add :
    (queue : List ℤ) (position m n : ℕ)
    → read_ring queue position (m + n)
      ≡ read_ring queue position m ++ read_ring queue (position + m) n
unfolding read_ring
read_ring-add queue position zero n =
    let e : position ≡ position + 0 = omega arith in
    let f : 0 + n ≡ n = omega arith in λ i. read_ring queue (e i) (f i)
read_ring-add queue position (suc m) n =
    let e : suc m + n ≡ suc (m + n) = omega arith in
    let f : position + 1 + m ≡ position + suc m = omega arith in
    let first = get_or queue (position % length queue) (pos 0) in
    ap (read_ring queue position) e
    ∙ ap (◌∷◌ first) (read_ring-add queue (position + 1) m n)
    ∙ ap (λ k. (first ∷ read_ring queue (position + 1) m) ++ read_ring queue k n) f

mod_step : (p q c : ℕ) → p % c ≡ q % c → (p + 1) % c ≡ (q + 1) % c
mod_step p q c e = sym (mod-add-mod p c 1) ∙ ap (λ n. (n + 1) % c) e ∙ mod-add-mod q c 1

-- Only the position within the ring counts.
pub read_ring-mod :
    (queue : List ℤ) (p q n : ℕ)
    → p % length queue ≡ q % length queue
    → read_ring queue p n ≡ read_ring queue q n
unfolding read_ring
read_ring-mod queue p q zero e = refl
read_ring-mod queue p q (suc n) e =
    let next = read_ring-mod queue (p + 1) (q + 1) n (mod_step p q (length queue) e) in
    λ i. get_or queue (e i) (pos 0) ∷ next i

pub write_ring-mod :
    (queue : List ℤ) (p q : ℕ) (samples : List ℤ)
    → p % length queue ≡ q % length queue
    → write_ring queue p samples ≡ write_ring queue q samples
unfolding write_ring
write_ring-mod queue p q [] e = refl
write_ring-mod queue p q (x ∷ xs) e =
    let next = mod_step p q (length queue) e in
    ap (λ k. write_ring (set queue k x) (p + 1) xs) e
    ∙ write_ring-mod (set queue (q % length queue) x) (p + 1) (q + 1) xs
        (rw (length-set queue (q % length queue) x) next)

-- A store outside the positions that are read is not seen.
read_ring-set :
    (queue : List ℤ) (position r n : ℕ) (x : ℤ)
    → r + n ≤ position
    → position < r + length queue
    → read_ring (set queue (position % length queue) x) r n ≡ read_ring queue r n
unfolding read_ring
read_ring-set queue position r zero x before turn = refl
read_ring-set queue position r (suc n) x before turn =
    let slot = position % length queue in
    let same = length-set queue slot x in
    let head =
      ap (λ c. get_or (set queue slot x) (r % c) (pos 0)) same
      ∙ get_or-set_ne queue slot (r % length queue) x (pos 0)
          (λ e. slots_differ r position (length queue) (omega arith) turn (sym e)) in
    let rest = read_ring-set queue position (r + 1) n x (omega arith) (omega arith) in
    λ i. head i ∷ rest i

pub read_ring-write_ring_before :
    (queue : List ℤ) (position r n : ℕ) (samples : List ℤ)
    → r + n ≤ position
    → position + length samples ≤ r + length queue
    → read_ring (write_ring queue position samples) r n ≡ read_ring queue r n
unfolding write_ring
read_ring-write_ring_before queue position r n [] before turn = refl
read_ring-write_ring_before queue position r n (x ∷ xs) before turn =
    let slot = position % length queue in
    let same = length-set queue slot x in
    read_ring-write_ring_before (set queue slot x) (position + 1) r n xs (omega arith) (omega arith)
    ∙ read_ring-set queue position r n x before (omega arith)

read_one :
    (queue : List ℤ) (position : ℕ) (x : ℤ)
    → 0 < length queue
    → read_ring (set queue (position % length queue) x) position 1 ≡ x ∷ []
unfolding read_ring
read_one queue position x h =
    let slot = position % length queue in
    ap (λ c. get_or (set queue slot x) (position % c) (pos 0) ∷ []) (length-set queue slot x)
    ∙ ap (λ v. v ∷ []) (get_or-set_self queue slot x (pos 0) (mod-lt position h))

-- What was written is read back.
pub read_ring-write_ring :
    (queue : List ℤ) (position : ℕ) (samples : List ℤ)
    → length samples ≤ length queue
    → read_ring (write_ring queue position samples) position (length samples) ≡ samples
unfolding write_ring
read_ring-write_ring queue position [] h = unfold read_ring in refl
read_ring-write_ring queue position (x ∷ xs) h =
    let slot = position % length queue in
    let queue' = set queue slot x in
    let same = length-set queue slot x in
    let written = write_ring queue' (position + 1) xs in
    let first =
      read_ring-write_ring_before queue' (position + 1) position 1 xs (omega arith) (omega arith) in
    let kept = read_one queue position x (omega arith) in
    let rest = read_ring-write_ring queue' (position + 1) xs (omega arith) in
    let split : suc (length xs) ≡ 1 + length xs = omega arith in
    ap (read_ring written position) split
    ∙ read_ring-add written position 1 (length xs)
    ∙ (λ i. (first ∙ kept) i ++ rest i)
