-- ===== src/GameAudio/Queue.antt =====
-- The sample queue of native/src/game_audio.rs refines a bounded queue that forgets its oldest
-- samples: `enqueue`, the writer's turn, `discard_pending` and the writer's failure.
use native.Mathlib.Nat.{mod-lt, mod-mod}
use retrodeck.Prelude.{
  ℕ, zero, suc, ◌+◌, ◌-◌, ◌%◌, ◌≤◌, ◌<◌, ◌≡◌, refl, sym, ap, ◌∙◌, inl, inr, false, List, [], ◌∷◌,
  ◌++◌, ltb, length, drop, arith, Bool-cases,
}
use retrodeck.Prelude.Int.{ℤ}
use retrodeck.GameAudio.{Shared, read_ring, write_ring, make_room, store, u64_mod}
use retrodeck.GameAudio.Ring.{
  read_ring-add, read_ring-mod, write_ring-mod, read_ring-write_ring, read_ring-write_ring_before,
}

-- The queued samples, oldest first.
unfoldable pub contents : Shared → List ℤ
contents s = read_ring s.queue s.head s.size

-- A writer thread runs and the queue has its storage.
pub record IsOpen (s : Shared) : Type 0 where
  pub within : s.size ≤ length s.queue
  pub in_ring : s.head < length s.queue
  pub counter : s.dropped < u64_mod
  pub alive : (s.stopping ≡ false) × (s.worker_failed ≡ false)

-- The last samples of a list, as many as the capacity allows.
abbrev pub keep_last : ℕ → List ℤ → List ℤ
keep_last capacity samples = drop (length samples - capacity) samples

drop_append_zero : (k : ℕ) (xs ys : List ℤ) → k ≡ 0 → xs ++ ys ≡ xs ++ drop k ys
drop_append_zero k xs ys h = rw h

pub drop_append :
    (n : ℕ) (xs ys : List ℤ) → drop n (xs ++ ys) ≡ drop n xs ++ drop (n - length xs) ys
drop_append zero xs ys = drop_append_zero (0 - length xs) xs ys (omega arith)
drop_append (suc n) [] ys = let e : suc n ≡ suc n - 0 = omega arith in ap (λ k. drop k ys) e
drop_append (suc n) (x ∷ xs) ys =
    let e : n - length xs ≡ suc n - suc (length xs) = omega arith in
    drop_append n xs ys ∙ ap (λ k. drop n xs ++ drop k ys) e

pub drop-read_ring :
    (queue : List ℤ) (position n k : ℕ)
    → k ≤ n
    → drop k (read_ring queue position n) ≡ read_ring queue (position + k) (n - k)
unfolding read_ring
drop-read_ring queue position n zero h =
    let e : position ≡ position + 0 = omega arith in
    let f : n ≡ n - 0 = omega arith in λ i. read_ring queue (e i) (f i)
drop-read_ring queue position zero (suc k) h = absurd (omega arith)
drop-read_ring queue position (suc n) (suc k) h =
    let e : position + 1 + k ≡ position + suc k = omega arith in
    let f : n - k ≡ suc n - suc k = omega arith in
    drop-read_ring queue (position + 1) n k (omega arith) ∙ (λ i. read_ring queue (e i) (f i))

pub drop_all : (n : ℕ) (xs : List ℤ) → length xs ≤ n → drop n xs ≡ []
drop_all zero [] h = refl
drop_all zero (x ∷ xs) h = absurd (omega arith)
drop_all (suc n) [] h = refl
drop_all (suc n) (x ∷ xs) h = drop_all n xs (omega arith)

-- Storing behind the queued samples, where there is room.
pub contents-store :
    (s : Shared) (source : List ℤ)
    → s.size + length source ≤ length s.queue
    → contents (store s source) ≡ contents s ++ source
unfolding contents store
contents-store s source fits =
    let start = s.head + s.size in
    let same =
      write_ring-mod s.queue (start % length s.queue) start source
        (mod-mod start (length s.queue)) in
    let written = write_ring s.queue start source in
    ap (λ q. read_ring q s.head (s.size + length source)) same
    ∙ read_ring-add written s.head s.size (length source)
    ∙ (λ i.
        read_ring-write_ring_before s.queue start s.head s.size source (omega arith) (omega arith) i
        ++ read_ring-write_ring s.queue start source (omega arith) i)

pub contents-make_room :
    (s : Shared) (count : ℕ)
    → s.size ≤ length s.queue
    → count ≤ length s.queue
    → contents (make_room s count) ≡ drop (count - (length s.queue - s.size)) (contents s)
unfolding contents make_room
contents-make_room s count h k = elim (Bool-cases (ltb (length s.queue - s.size) count)) [
  | inl short ↦
      let shortfall = count - (length s.queue - s.size) in
      rw short (
        read_ring-mod s.queue ((s.head + shortfall) % length s.queue) (s.head + shortfall)
          (s.size - shortfall) (mod-mod (s.head + shortfall) (length s.queue))
        ∙ sym (drop-read_ring s.queue s.head s.size shortfall (omega arith)))
  | inr fits ↦
      let none_lost : 0 ≡ count - (length s.queue - s.size) = ground arith in
      rw fits (ap (λ k. drop k (read_ring s.queue s.head s.size)) none_lost)
]

-- What `make_room` leaves of the other fields.
pub make_room_fields :
    (s : Shared) (count : ℕ)
    → s.size ≤ length s.queue
    → s.head < length s.queue
    → s.dropped < u64_mod
    → count ≤ length s.queue
    → ((make_room s count).queue ≡ s.queue)
      × ((make_room s count).dropped ≡ (s.dropped + (count - (length s.queue - s.size))) % u64_mod)
      × ((make_room s count).size ≡ s.size - (count - (length s.queue - s.size)))
      × ((make_room s count).head < length s.queue)
      × ((make_room s count).stopping ≡ s.stopping)
      × ((make_room s count).worker_failed ≡ s.worker_failed)
unfolding make_room
make_room_fields s count h r d k = elim (Bool-cases (ltb (length s.queue - s.size) count)) [
  | inl short ↦ rw short (
    refl,
    refl,
    refl,
    mod-lt (s.head + (count - (length s.queue - s.size))) (omega arith),
    refl,
    refl,
  )
  | inr fits ↦ rw fits (refl, ground arith, ground arith, r, refl, refl)
]
