-- ===== src/GameAudio/Examples.antt =====
-- Runs of the emulator's sound output (native/src/game_audio.rs).
use retrodeck.Prelude.{
  ◌+◌, ◌*◌, ◌<◌, ◌≡◌, refl, ◌++◌, false, List, [], ◌∷◌, length, drop, take, arith,
}
use retrodeck.Prelude.Int.{ℤ, pos, negsuc, ◌*ℤ◌, ◌-ℤ◌}
use retrodeck.GameAudio.{
  Shared, Player, enqueue, write_chunk_frames, output_rate, scale_sample, quot, clamp, write_stereo,
  trim_source, make_room, store, write_ring, read_ring,
}
use retrodeck.GameAudio.Queue.{contents, IsOpen, keep_last}
use retrodeck.GameAudio.Enqueue.{contents-enqueue}
use retrodeck.GameAudio.Turn.{turn, turn_takes}
use retrodeck.GameAudio.Trace.{Op, enqueues, writes, run, spec_run, run_refines}
use retrodeck.GameAudio.Resample.{
  source_frames, write_blocks, write_blocks-account, OutWithin, write_stereo-OutWithin,
}

-- The rates of `keeps_the_cpp_output_rate_policy`.
measured_rate : output_rate 48000 48000 ≡ 47328
unfolding output_rate
measured_rate = refl

-- Truncation towards zero, as in `scales_samples_with_truncation_and_clamping`.
truncated : scale_sample (negsuc 100) (pos 42) ≡ negsuc 41
unfolding scale_sample quot clamp ◌*ℤ◌ ◌-ℤ◌
truncated = refl

-- A ring of three slots that wraps: the head is at its last slot.
abbrev small : Shared
small = record {
  queue = pos 2 ∷ pos 0 ∷ pos 1 ∷ [];
  head = 2;
  size = 2;
  dropped = 5;
  stopping = false;
  worker_failed = false;
}

small-IsOpen : IsOpen small
small-IsOpen = record {
  within = omega arith;
  in_ring = omega arith;
  counter = omega arith;
  alive = (refl, refl);
}

small_overrun : contents (enqueue small (pos 3 ∷ pos 4 ∷ [])) ≡ pos 2 ∷ pos 3 ∷ pos 4 ∷ []
unfolding contents enqueue trim_source make_room store write_ring read_ring
small_overrun = refl

contents-enqueue_example :
    contents (enqueue small (pos 3 ∷ pos 4 ∷ []))
    ≡ keep_last 3 (contents small ++ (pos 3 ∷ pos 4 ∷ []))
contents-enqueue_example = contents-enqueue small (pos 3 ∷ pos 4 ∷ []) small-IsOpen

turn_takes_example :
    ((turn small).1 ≡ take write_chunk_frames (contents small))
    × (contents (turn small).0 ≡ drop write_chunk_frames (contents small))
    × IsOpen (turn small).0
    × (length (turn small).0.queue ≡ 3)
turn_takes_example = turn_takes small small-IsOpen

abbrev some_ops : List Op
some_ops = enqueues (pos 3 ∷ pos 4 ∷ []) ∷ writes ∷ enqueues (pos 5 ∷ []) ∷ []

run_refines_example :
    (contents (run small some_ops).0 ≡ (spec_run 3 (contents small) some_ops).0)
    × ((run small some_ops).1 ≡ (spec_run 3 (contents small) some_ops).1)
run_refines_example = run_refines small some_ops small-IsOpen

abbrev snes : Player
snes = record {
  source_rate = 32040;
  output_rate = 32000;
  volume_percent = pos 42;
  rate_remainder = 7;
}

-- Two stereo frames, then one.
abbrev played : List (List ℤ)
played = (pos 100 ∷ negsuc 99 ∷ pos 5 ∷ pos 6 ∷ []) ∷ (pos 1 ∷ pos 2 ∷ []) ∷ []

write_blocks-account_example :
    ((write_blocks snes played).0 * 32040 + (write_blocks snes played).1.rate_remainder
      ≡ source_frames played * 32000 + 7)
    × ((write_blocks snes played).1.rate_remainder < 32040)
write_blocks-account_example = write_blocks-account snes played (omega arith) (omega arith)

write_stereo-OutWithin_example :
    OutWithin (negsuc 99) (pos 100) (write_stereo snes (pos 100 ∷ negsuc 99 ∷ pos 5 ∷ pos 6 ∷ [])).1
write_stereo-OutWithin_example =
    write_stereo-OutWithin (negsuc 99) (pos 100) snes 42 (pos 100 ∷ negsuc 99 ∷ pos 5 ∷ pos 6 ∷ [])
      (record { low = omega arith; below = omega arith; above = omega arith; high = omega arith })
      refl (omega arith) (omega arith)
