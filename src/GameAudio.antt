-- ===== src/GameAudio.antt =====
-- The emulator's sound output: native/src/game_audio.rs. `Shared` is the queue between the emulator
-- and the writer thread, one lock's critical section to a definition. A sample is an `i16`, an
-- integer here; `usize` values are numbers, and the counter of dropped frames wraps as a `u64`.
-- The device (`open`'s ioctls, `write_all`) is not modelled.
pub mod Ring
pub mod Queue
pub mod Enqueue
pub mod Turn
pub mod Trace
pub mod Resample
pub mod Gain
pub mod Volume
mod Examples
use retrodeck.Prelude.{
  ℕ, zero, suc, ◌+◌, ◌-◌, ◌*◌, ◌/◌, ◌%◌, ◌^◌, min, Bool, true, false, ◌&&◌, ◌||◌, List, [], ◌∷◌,
  ◌++◌, Option, none, some, ltb, leb, ◌==◌, if◌then◌else◌, length, get_or, set, drop, replicate,
}
use retrodeck.Prelude.Int.{ℤ, pos, negsuc, ◌+ℤ◌, ◌-ℤ◌, ◌*ℤ◌, ltb_ℤ}

abbrev pub queue_frames : ℕ
queue_frames = 16384

abbrev pub cushion_frames : ℕ
cushion_frames = 1024

abbrev pub write_chunk_frames : ℕ
write_chunk_frames = 2048

abbrev pub u64_mod : ℕ
u64_mod = 2 ^ 64

pub record Shared : Type 0 where
  pub queue : List ℤ
  pub head : ℕ
  pub size : ℕ
  pub dropped : ℕ
  pub stopping : Bool
  pub worker_failed : Bool

abbrev pub is_empty : List ℤ → Bool
is_empty [] = true
is_empty (x ∷ xs) = false

-- The state that `open` gives to a new writer thread.
unfoldable pub opened : Shared
opened = record {
  queue = replicate queue_frames (pos 0);
  head = 0;
  size = cushion_frames;
  dropped = 0;
  stopping = false;
  worker_failed = false;
}

-- `queue[(position + index) % capacity]` for the indices below a count.
pub read_ring : List ℤ → ℕ → ℕ → List ℤ
read_ring queue position zero = []
read_ring queue position (suc count) =
    get_or queue (position % length queue) (pos 0) ∷ read_ring queue (position + 1) count

-- The loop that stores the samples from a position on.
pub write_ring : List ℤ → ℕ → List ℤ → List ℤ
write_ring queue position [] = queue
write_ring queue position (sample ∷ samples) =
    write_ring (set queue (position % length queue) sample) (position + 1) samples

-- The first `if` of `enqueue`: more samples than the queue holds lose their front.
pub trim_source : Shared → List ℤ → Shared × List ℤ
trim_source s samples =
    let excess = length samples - length s.queue in
    if ltb (length s.queue) (length samples)
    then (record s { dropped = (s.dropped + excess) % u64_mod }, drop excess samples)
    else (s, samples)

-- The second `if`: the oldest queued samples make room.
pub make_room : Shared → ℕ → Shared
make_room s count =
    let capacity = length s.queue in
    let free = capacity - s.size in
    let shortfall = count - free in
    if ltb free count
    then record s {
      head = (s.head + shortfall) % capacity;
      size = s.size - shortfall;
      dropped = (s.dropped + shortfall) % u64_mod;
    }
    else s

pub store : Shared → List ℤ → Shared
store s source = record s {
  queue = write_ring s.queue ((s.head + s.size) % length s.queue) source;
  size = s.size + length source;
}

pub enqueue : Shared → List ℤ → Shared
enqueue s samples =
    let (trimmed, source) = trim_source s samples in
    if is_empty s.queue || s.stopping || s.worker_failed
    then s
    else store (make_room trimmed (length source)) source

-- One turn of the writer thread at the lock: it waits (`none`) while there is nothing to write, and
-- else takes a chunk. That it ends when `stopping` is set is `none` as well.
pub take_chunk : Shared → Option (List ℤ × Shared)
take_chunk s =
    let count = min s.size write_chunk_frames in
    if s.stopping || s.size == 0
    then none
    else some (
      read_ring s.queue s.head count,
      record s { head = (s.head + count) % length s.queue; size = s.size - count },
    )

-- The writer after a failed write.
pub fail_writer : Shared → Shared
fail_writer s = record s { worker_failed = true; size = 0 }

pub discard_pending : Shared → Shared
discard_pending s = record s { head = 0; size = 0 }

-- `close` once the writer thread has ended.
pub closed : Shared → Shared
closed s = record s { stopping = true; queue = []; head = 0; size = 0 }

pub output_rate : ℕ → ℕ → ℕ
output_rate source_rate negotiated_rate =
    if (source_rate == 48000) && (negotiated_rate == 48000) then 47328 else negotiated_rate

-- `/` on `i32` by a positive divisor: towards zero.
unfoldable pub quot : ℤ → ℕ → ℤ
quot (pos n) k = pos (n / k)
quot (negsuc n) k = pos 0 -ℤ pos (suc n / k)

-- `>> 16` on `i64`: towards minus infinity.
unfoldable pub shift_16 : ℤ → ℤ
shift_16 (pos n) = pos (n / 65536)
shift_16 (negsuc n) = negsuc (n / 65536)

unfoldable pub clamp : ℤ → ℤ → ℤ → ℤ
clamp lo hi x = if ltb_ℤ x lo then lo else if ltb_ℤ hi x then hi else x

pub scale_sample : ℤ → ℤ → ℤ
scale_sample sample percent = clamp (negsuc 32767) (pos 32767) (quot (sample *ℤ percent) 100)

-- The mixing loop of `write_stereo`; a last sample without its pair is left out.
pub mix : ℤ → List ℤ → List ℤ
mix percent [] = []
mix percent (left ∷ []) = []
mix percent (left ∷ right ∷ samples) =
    scale_sample (quot (left +ℤ right) 2) percent ∷ mix percent samples

-- One output sample at a 32.32 fixed-point position.
pub interpolate : List ℤ → ℕ → ℤ
unfolding shift_16
interpolate mono position =
    let first = position / 2 ^ 32 in
    let fraction = position / 2 ^ 16 % 65536 in
    let start = get_or mono first (pos 0) in
    let delta = get_or mono (first + 1) (pos 0) -ℤ start in
    if leb (length mono - 1) first
    then get_or mono (length mono - 1) (pos 0)
    else start +ℤ shift_16 (delta *ℤ pos fraction)

resample_loop : List ℤ → ℕ → ℕ → ℕ → List ℤ
resample_loop mono step position zero = []
resample_loop mono step position (suc count) =
    interpolate mono position ∷ resample_loop mono step (position + step) count

pub resample : List ℤ → ℕ → List ℤ
unfolding resample_loop
resample mono output_frames =
    if (length mono == 1) || (output_frames == 1)
    then replicate output_frames (get_or mono 0 (pos 0))
    else resample_loop mono ((length mono - 1) * 2 ^ 32 / (output_frames - 1)) 0 output_frames

pub record Player : Type 0 where
  pub source_rate : ℕ
  pub output_rate : ℕ
  pub volume_percent : ℤ
  pub rate_remainder : ℕ

-- The frames that a block of so many source frames becomes, and the player's next remainder.
pub output_frames : Player → ℕ → ℕ × Player
output_frames p frames =
    let scaled = frames * p.output_rate + p.rate_remainder in
    (scaled / p.source_rate, record p { rate_remainder = scaled % p.source_rate })

-- `write_stereo` with a player: what it hands to `enqueue`, if anything.
pub write_stereo : Player → List ℤ → Player × Option (List ℤ)
write_stereo p samples =
    let mono = mix p.volume_percent samples in
    let (count, p') = output_frames p (length mono) in
    if length mono == 0
    then (p, none)
    else if p.source_rate == p.output_rate
    then (p, some mono)
    else if count == 0
    then (p', none)
    else (p', some (resample mono count))
