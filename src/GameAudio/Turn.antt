-- ===== src/GameAudio/Turn.antt =====
-- The writer thread's turn at the queue of native/src/game_audio.rs.
use native.Mathlib.Nat.{mod-lt, mod-mod}
use retrodeck.Prelude.{
  ℕ, zero, suc, ◌+◌, ◌-◌, ◌%◌, ◌≤◌, min, ◌≡◌, refl, sym, ap, ◌∙◌, subst, inl, inr, true, false,
  ◌||◌, List, [], ◌∷◌, Option, none, some, ◌==◌, length, drop, take, arith, Bool-cases,
}
use retrodeck.Prelude.Int.{ℤ}
use retrodeck.GameAudio.{Shared, read_ring, take_chunk, write_chunk_frames}
use retrodeck.GameAudio.Ring.{length-read_ring, read_ring-mod}
use retrodeck.GameAudio.Queue.{contents, IsOpen, drop-read_ring}

take-read_ring :
    (queue : List ℤ) (position n k : ℕ)
    → k ≤ n
    → read_ring queue position k ≡ take k (read_ring queue position n)
unfolding read_ring
take-read_ring queue position n zero h = refl
take-read_ring queue position zero (suc k) h = absurd (omega arith)
take-read_ring queue position (suc n) (suc k) h =
    rw (take-read_ring queue (position + 1) n k (omega arith))

take_none : (k : ℕ) → take {A = ℤ} k [] ≡ []
take_none zero = refl
take_none (suc k) = refl

drop_none : (k : ℕ) → drop {A = ℤ} k [] ≡ []
drop_none zero = refl
drop_none (suc k) = refl

take-min : (k : ℕ) (xs : List ℤ) → take (min (length xs) k) xs ≡ take k xs
take-min zero [] = refl
take-min (suc k) [] = take_none (min 0 (suc k))
take-min zero (x ∷ xs) =
    let e : min (suc (length xs)) 0 ≡ 0 = omega arith in ap (λ n. take n (x ∷ xs)) e
take-min (suc k) (x ∷ xs) =
    let e : min (suc (length xs)) (suc k) ≡ suc (min (length xs) k) = omega arith in
    ap (λ n. take n (x ∷ xs)) e ∙ ap (◌∷◌ x) (take-min k xs)

drop-min : (k : ℕ) (xs : List ℤ) → drop (min (length xs) k) xs ≡ drop k xs
drop-min zero [] = refl
drop-min (suc k) [] = drop_none (min 0 (suc k))
drop-min zero (x ∷ xs) =
    let e : min (suc (length xs)) 0 ≡ 0 = omega arith in ap (λ n. drop n (x ∷ xs)) e
drop-min (suc k) (x ∷ xs) =
    let e : min (suc (length xs)) (suc k) ≡ suc (min (length xs) k) = omega arith in
    ap (λ n. drop n (x ∷ xs)) e ∙ drop-min k xs

-- The state of the queue after a turn of the writer, and what the writer then writes to the device.
turned : Shared → Option (List ℤ × Shared) → Shared × List ℤ
turned s none = (s, [])
turned s (some (chunk, s')) = (s', chunk)

pub turn : Shared → Shared × List ℤ
unfolding turned
turn s = turned s (take_chunk s)

after_chunk : Shared → ℕ → Shared
after_chunk s count = record s { head = (s.head + count) % length s.queue; size = s.size - count }

module _ (s : Shared) (v : IsOpen s) (k : ℕ) where
  chunk_taken : read_ring s.queue s.head (min s.size k) ≡ take k (contents s)
  unfolding contents
  chunk_taken =
      take-read_ring s.queue s.head s.size (min s.size k) (omega arith)
      ∙ ap (λ n. take (min n k) (contents s)) (sym (length-read_ring s.queue s.head s.size))
      ∙ take-min k (contents s)

  chunk_left : contents (after_chunk s (min s.size k)) ≡ drop k (contents s)
  unfolding contents after_chunk
  chunk_left =
      read_ring-mod s.queue ((s.head + min s.size k) % length s.queue) (s.head + min s.size k)
        (s.size - min s.size k) (mod-mod (s.head + min s.size k) (length s.queue))
      ∙ sym (drop-read_ring s.queue s.head s.size (min s.size k) (omega arith))
      ∙ ap (λ n. drop (min n k) (contents s)) (sym (length-read_ring s.queue s.head s.size))
      ∙ drop-min k (contents s)

  after_chunk-IsOpen : IsOpen (after_chunk s (min s.size k))
  unfolding after_chunk
  after_chunk-IsOpen = record {
    within = omega (arith, v.within);
    in_ring = mod-lt (s.head + min s.size k) (omega (arith, v.in_ring));
    counter = v.counter;
    alive = v.alive;
  }

contents_none : (s : Shared) → s.size ≡ 0 → contents s ≡ []
unfolding contents read_ring
contents_none s e = ap (read_ring s.queue s.head) e

turn_empty : (s : Shared) → s.size ≡ 0 → turn s ≡ (s, [])
unfolding turn take_chunk
turn_empty s e = let idle : (s.stopping || s.size == 0) ≡ true = ground arith in rw idle

turn_full :
    (s : Shared)
    → IsOpen s
    → (s.size == 0) ≡ false
    → turn s ≡ (
      after_chunk s (min s.size write_chunk_frames),
      read_ring s.queue s.head (min s.size write_chunk_frames),
    )
unfolding turn take_chunk after_chunk
turn_full s v e = rw (v.alive.0, e)

abbrev Takes : ℕ → Shared → Shared × List ℤ → Type 0
Takes k s (s', chunk) =
    (chunk ≡ take k (contents s))
    × (contents s' ≡ drop k (contents s))
    × IsOpen s'
    × (length s'.queue ≡ length s.queue)

-- A turn of the writer takes the oldest samples, 2048 at most, in order, leaves the others, and
-- keeps the queue open and its ring as long as it was. With nothing queued it takes nothing.
pub turn_takes :
    (s : Shared)
    → IsOpen s
    → ((turn s).1 ≡ take write_chunk_frames (contents s))
      × (contents (turn s).0 ≡ drop write_chunk_frames (contents s))
      × IsOpen (turn s).0
      × (length (turn s).0.queue ≡ length s.queue)
turn_takes s v = elim (Bool-cases (s.size == 0)) [
  | inl none_queued ↦
      let nothing = contents_none s (ground arith) in
      subst (Takes write_chunk_frames s) (sym (turn_empty s (ground arith))) (
        sym (ap (take write_chunk_frames) nothing ∙ take_none write_chunk_frames),
        nothing ∙ sym (ap (drop write_chunk_frames) nothing ∙ drop_none write_chunk_frames),
        v,
        refl,
      )
  | inr queued ↦ subst (Takes write_chunk_frames s) (sym (turn_full s v queued)) (
    chunk_taken s v write_chunk_frames,
    chunk_left s v write_chunk_frames,
    after_chunk-IsOpen s v write_chunk_frames,
    unfold after_chunk in refl,
  )
]
