-- ===== src/GameAudio/Enqueue.antt =====
-- `enqueue` and the writer's turn of native/src/game_audio.rs against a bounded queue that forgets
-- its oldest samples.
use retrodeck.Prelude.{
  ℕ, ◌+◌, ◌-◌, ◌%◌, ◌≤◌, ◌<◌, min, ◌≡◌, refl, sym, ap, subst, ◌∙◌, inl, inr, false, ◌||◌, List, [],
  ◌∷◌, ◌++◌, ltb, length, length-append, length-drop, drop, arith, Bool-cases,
}
use native.Mathlib.Decide.{dec_le}
use native.Mathlib.Nat.{mod-lt, mod-add-mod, add_assoc}
use retrodeck.Prelude.Int.{ℤ}
use retrodeck.GameAudio.{Shared, is_empty, trim_source, make_room, store, enqueue, u64_mod}
use retrodeck.GameAudio.Ring.{length-write_ring, length-read_ring}
use retrodeck.GameAudio.Queue.{
  contents, IsOpen, keep_last, drop_append, drop_all, contents-store, contents-make_room,
  make_room_fields,
}

trim_source_lem :
    (s : Shared) (samples : List ℤ)
    → s.dropped < u64_mod
    → trim_source s samples ≡ (
      record s { dropped = (s.dropped + (length samples - length s.queue)) % u64_mod },
      drop (length samples - length s.queue) samples,
    )
unfolding trim_source
trim_source_lem s samples d = elim (Bool-cases (ltb (length s.queue) (length samples))) [
  | inl long ↦ rw long
  | inr fits ↦
      let e : s.dropped ≡ (s.dropped + (length samples - length s.queue)) % u64_mod =
        ground arith in
      let f : 0 ≡ length samples - length s.queue = ground arith in
      rw fits (λ i. (record s { dropped = e i }, drop (f i) samples))
]

not_empty : (xs : List ℤ) → 0 < length xs → is_empty xs ≡ false
not_empty [] h = absurd (omega arith)
not_empty (x ∷ xs) h = refl

-- The state that `enqueue` reaches, in terms of the samples that are lost at each `if`.
enqueued : Shared → List ℤ → Shared
enqueued s samples =
    let source = drop (length samples - length s.queue) samples in
    let trimmed = record s {
      dropped = (s.dropped + (length samples - length s.queue)) % u64_mod;
    } in
    store (make_room trimmed (length source)) source

open_guard : (s : Shared) → IsOpen s → (is_empty s.queue || s.stopping || s.worker_failed) ≡ false
open_guard s v = ground (arith, not_empty s.queue)

enqueue-enqueued :
    (s : Shared) (samples : List ℤ) → IsOpen s → enqueue s samples ≡ enqueued s samples
unfolding enqueue enqueued
enqueue-enqueued s samples v = rw (trim_source_lem s samples v.counter, open_guard s v)

-- The samples lost by a call: those that do not fit behind what is queued.
abbrev pub lost : Shared → List ℤ → ℕ
lost s samples = s.size + length samples - length s.queue

module _ (s : Shared) (samples : List ℤ) (v : IsOpen s) where
  excess : ℕ
  excess = length samples - length s.queue

  source : List ℤ
  unfolding excess
  source = drop excess samples

  trimmed : Shared
  unfolding excess
  trimmed = record s { dropped = (s.dropped + excess) % u64_mod }

  length-source : length source ≡ min (length samples) (length s.queue)
  unfolding source
  length-source = omega (arith, length-drop (length samples - length s.queue) samples)

  roomy : Shared
  unfolding trimmed
  roomy = make_room trimmed (length source)

  roomy_fields :
      (roomy.queue ≡ s.queue)
      × (roomy.dropped
          ≡ ((s.dropped + excess) % u64_mod + (length source - (length s.queue - s.size)))
            % u64_mod)
      × (roomy.size ≡ s.size - (length source - (length s.queue - s.size)))
      × (roomy.head < length s.queue)
      × (roomy.stopping ≡ s.stopping)
      × (roomy.worker_failed ≡ s.worker_failed)
  unfolding roomy
  roomy_fields =
      make_room_fields trimmed (length source) v.within v.in_ring
        (mod-lt (s.dropped + excess) (omega arith)) (omega (arith, length-source))

  roomy-contents : contents roomy ≡ drop (length source - (length s.queue - s.size)) (contents s)
  unfolding roomy contents
  roomy-contents =
      contents-make_room trimmed (length source) v.within (omega (arith, length-source))

  length-contents : length (contents s) ≡ s.size
  unfolding contents
  length-contents = length-read_ring s.queue s.head s.size

  -- The two ways to count what is left of the queued samples agree.
  drop_old :
      drop (length source - (length s.queue - s.size)) (contents s)
      ≡ drop (length (contents s ++ samples) - length s.queue) (contents s)
  drop_old = elim (dec_le (length samples) (length s.queue)) [
    | yes short ↦
        let e : length source - (length s.queue - s.size)
            ≡ length (contents s ++ samples) - length s.queue =
          omega
            (arith, length-source, length-contents, length-append (contents s) samples, v.within) in
        ap (λ k. drop k (contents s)) e
    | no long ↦
        drop_all _ (contents s) (omega (arith, length-source, length-contents, v.within))
        ∙ sym (
            drop_all _ (contents s)
              (omega (arith, length-contents, length-append (contents s) samples, v.within)))
  ]

  drop_new :
      source ≡ drop (length (contents s ++ samples) - length s.queue - length (contents s)) samples
  unfolding source
  drop_new =
      let e : length samples - length s.queue
          ≡ length (contents s ++ samples) - length s.queue - length (contents s) =
        omega (arith, length-contents, length-append (contents s) samples, v.within) in
      ap (λ k. drop k samples) e

  enqueue-store : enqueue s samples ≡ store roomy source
  unfolding roomy trimmed source enqueued
  enqueue-store = enqueue-enqueued s samples v

  fits : roomy.size + length source ≤ length roomy.queue
  fits = omega (arith, roomy_fields.2, ap length roomy_fields.0, length-source, v.within)

  -- On an open queue `enqueue` appends the samples and keeps the last of them, as many as the ring
  -- holds: it is the bounded queue that forgets its oldest entries, also for more samples than the
  -- ring holds.
  pub contents-enqueue :
      contents (enqueue s samples) ≡ keep_last (length s.queue) (contents s ++ samples)
  contents-enqueue =
      ap contents enqueue-store
      ∙ contents-store roomy source fits
      ∙ ap (λ old. old ++ source) (roomy-contents ∙ drop_old)
      ∙ ap (◌++◌ (drop (length (contents s ++ samples) - length s.queue) (contents s))) drop_new
      ∙ sym (drop_append (length (contents s ++ samples) - length s.queue) (contents s) samples)

  store_fields :
      (length (store roomy source).queue ≡ length s.queue)
      × ((store roomy source).size ≡ roomy.size + length source)
      × ((store roomy source).head ≡ roomy.head)
      × ((store roomy source).dropped ≡ roomy.dropped)
      × ((store roomy source).stopping ≡ roomy.stopping)
      × ((store roomy source).worker_failed ≡ roomy.worker_failed)
  unfolding store
  store_fields = (
    length-write_ring roomy.queue ((roomy.head + roomy.size) % length roomy.queue) source
        ∙ ap length roomy_fields.0,
    refl,
    refl,
    refl,
    refl,
    refl,
  )

  lost_parts : excess + (length source - (length s.queue - s.size)) ≡ lost s samples
  unfolding excess
  lost_parts = elim (dec_le (length samples) (length s.queue)) [
    | yes short ↦ omega (arith, length-source, v.within)
    | no long ↦ omega (arith, length-source, v.within)
  ]

  dropped-roomy : roomy.dropped ≡ (s.dropped + lost s samples) % u64_mod
  dropped-roomy =
      roomy_fields.1
      ∙ mod-add-mod (s.dropped + excess) u64_mod (length source - (length s.queue - s.size))
      ∙ ap (λ n. n % u64_mod)
          (add_assoc s.dropped excess (length source - (length s.queue - s.size))
            ∙ ap (◌+◌ s.dropped) lost_parts)

  -- `enqueue` keeps an open queue open and its ring as long as it was, queues every sample that it
  -- does not lose, and adds those that it loses to the counter of dropped frames.
  pub enqueue_account :
      IsOpen (enqueue s samples)
      × (length (enqueue s samples).queue ≡ length s.queue)
      × ((enqueue s samples).size + lost s samples ≡ s.size + length samples)
      × ((enqueue s samples).dropped ≡ (s.dropped + lost s samples) % u64_mod)
  enqueue_account =
      subst
        (λ t.
          IsOpen t
          × (length t.queue ≡ length s.queue)
          × (t.size + lost s samples ≡ s.size + length samples)
          × (t.dropped ≡ (s.dropped + lost s samples) % u64_mod))
        (sym enqueue-store)
        (
          record {
            within = omega (arith, store_fields.0, store_fields.1, fits, ap length roomy_fields.0);
            in_ring = omega (arith, store_fields.0, store_fields.2, roomy_fields.3);
            counter = omega (
              arith,
              store_fields.3,
              dropped-roomy,
              mod-lt (s.dropped + lost s samples) {m = u64_mod} (omega arith),
            );
            alive = (
              store_fields.4 ∙ roomy_fields.4 ∙ v.alive.0,
              store_fields.5 ∙ roomy_fields.5 ∙ v.alive.1,
            );
          },
          store_fields.0,
          omega (arith, store_fields.1, roomy_fields.2, lost_parts, length-source, v.within),
          store_fields.3 ∙ dropped-roomy,
        )
