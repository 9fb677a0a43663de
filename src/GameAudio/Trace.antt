-- ===== src/GameAudio/Trace.antt =====
-- Whole runs of the queue of native/src/game_audio.rs.
use retrodeck.Prelude.{
  ℕ, ◌≡◌, refl, subst, List, [], ◌∷◌, ◌++◌, length, length-replicate, drop, take, arith,
}
use retrodeck.Prelude.Int.{ℤ, pos}
use retrodeck.GameAudio.{
  Shared, opened, read_ring, enqueue, discard_pending, write_chunk_frames, queue_frames,
}
use retrodeck.GameAudio.Queue.{contents, IsOpen, keep_last}
use retrodeck.GameAudio.Turn.{turn, turn_takes}
use retrodeck.GameAudio.Enqueue.{contents-enqueue, enqueue_account}

pub data Op : Type 0 where
  enqueues : List ℤ → Op
  writes : Op
  discards : Op

-- One critical section, and what it sends to the device.
pub step : Shared → Op → Shared × List ℤ
step s (enqueues samples) = (enqueue s samples, [])
step s writes = turn s
step s discards = (discard_pending s, [])

pub run : Shared → List Op → Shared × List ℤ
run s [] = (s, [])
run s (op ∷ ops) = let (s', out) = step s op in let (last, more) = run s' ops in (last, out ++ more)

-- The same operations on the bare list of queued samples.
pub spec_step : ℕ → List ℤ → Op → List ℤ × List ℤ
spec_step capacity queued (enqueues samples) = (keep_last capacity (queued ++ samples), [])
spec_step capacity queued writes = (drop write_chunk_frames queued, take write_chunk_frames queued)
spec_step capacity queued discards = ([], [])

pub spec_run : ℕ → List ℤ → List Op → List ℤ × List ℤ
spec_run capacity queued [] = (queued, [])
spec_run capacity queued (op ∷ ops) =
    let (queued', out) = spec_step capacity queued op in
    let (last, more) = spec_run capacity queued' ops in (last, out ++ more)

abbrev Refines : ℕ → Shared × List ℤ → List ℤ × List ℤ → Type 0
Refines capacity (s, out) (queued, out') =
    (contents s ≡ queued) × (out ≡ out') × IsOpen s × (length s.queue ≡ capacity)

discard-Refines :
    (s : Shared) → IsOpen s → Refines (length s.queue) (discard_pending s, []) ([], [])
unfolding discard_pending contents read_ring
discard-Refines s v = (
  refl,
  refl,
  record {
    within = omega arith;
    in_ring = omega (arith, v.in_ring);
    counter = v.counter;
    alive = v.alive;
  },
  refl,
)

step-Refines :
    (s : Shared) (op : Op)
    → IsOpen s
    → Refines (length s.queue) (step s op) (spec_step (length s.queue) (contents s) op)
unfolding step spec_step
step-Refines s (enqueues samples) v =
    let account = enqueue_account s samples v in
    (contents-enqueue s samples v, refl, account.0, account.1)
step-Refines s writes v = let taken = turn_takes s v in (taken.1, taken.0, taken.2, taken.3)
step-Refines s discards v = discard-Refines s v

run-Refines :
    (s : Shared) (ops : List Op) (capacity : ℕ) (queued : List ℤ)
    → IsOpen s
    → length s.queue ≡ capacity
    → contents s ≡ queued
    → Refines capacity (run s ops) (spec_run capacity queued ops)
unfolding run spec_run
run-Refines s [] capacity queued v c q = (q, refl, v, c)
run-Refines s (op ∷ ops) capacity queued v c q =
    let one =
      subst (λ qs. Refines capacity (step s op) (spec_step capacity qs op)) q
        (subst (λ n. Refines n (step s op) (spec_step n (contents s) op)) c
          (step-Refines s op v)) in
    let rest =
      run-Refines (step s op).0 ops capacity (spec_step capacity queued op).0 one.2 one.3 one.0 in
    (rest.0, (λ i. one.1 i ++ rest.1 i), rest.2, rest.3)

-- In any order of the emulator's `enqueue` calls, the writer's turns and `discard_pending`, an open
-- queue hands the device the samples that the bounded queue over a plain list would, in that order,
-- and the same samples stay queued.
pub run_refines :
    (s : Shared) (ops : List Op)
    → IsOpen s
    → (contents (run s ops).0 ≡ (spec_run (length s.queue) (contents s) ops).0)
      × ((run s ops).1 ≡ (spec_run (length s.queue) (contents s) ops).1)
run_refines s ops v =
    let r = run-Refines s ops (length s.queue) (contents s) v refl refl in (r.0, r.1)

-- `open` starts from such a queue.
pub opened-IsOpen : IsOpen opened
unfolding opened
opened-IsOpen = record {
  within = omega (arith, length-replicate queue_frames (pos 0));
  in_ring = omega (arith, length-replicate queue_frames (pos 0));
  counter = omega arith;
  alive = (refl, refl);
}
