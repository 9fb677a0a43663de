-- ===== src/GameAudio/Resample.antt =====
-- The block-local resampler of native/src/game_audio.rs: the frame count over many blocks, and what
-- `write_stereo` hands to the queue.
use native.Mathlib.Nat.{div-add-mod', mod-lt}
use retrodeck.Prelude.{
  ℕ, zero, suc, ◌+◌, ◌-◌, ◌*◌, ◌/◌, ◌^◌, ◌≤◌, ◌<◌, ◌≡◌, refl, ap, Bool, ◌||◌, List, [], ◌∷◌, Option,
  if_true, if_false, subst, sym, none, some, ◌==◌, if◌then◌else◌, length, length-replicate,
  replicate, get_or, arith, Bool-cases, inl, inr,
}
use retrodeck.Prelude.Int.{ℤ, pos}
use retrodeck.GameAudio.{Player, output_frames, mix, resample, resample_loop, write_stereo}
use retrodeck.GameAudio.Gain.{
  Within, AllWithin, IsRange, mix-AllWithin, interpolate-Within, get_or-Within,
}

-- The source frames of many blocks of stereo samples.
pub source_frames : List (List ℤ) → ℕ
source_frames [] = 0
source_frames (samples ∷ blocks) = length samples / 2 + source_frames blocks

abbrev pub queued : Option (List ℤ) → ℕ
queued none = 0
queued (some samples) = length samples

-- `write_stereo` on one block after the other: how many frames are queued, and the last player.
pub write_blocks : Player → List (List ℤ) → ℕ × Player
unfolding write_stereo
write_blocks p [] = (0, p)
write_blocks p (samples ∷ blocks) =
    let (p', out) = write_stereo p samples in
    let (rest, last) = write_blocks p' blocks in (queued out + rest, last)

length-mix : (percent : ℤ) (samples : List ℤ) → length (mix percent samples) ≡ length samples / 2
unfolding mix
length-mix percent [] = omega arith
length-mix percent (left ∷ []) = omega arith
length-mix percent (left ∷ right ∷ samples) = let rest = length-mix percent samples in omega arith

length-resample_loop :
    (mono : List ℤ) (step position count : ℕ)
    → length (resample_loop mono step position count) ≡ count
unfolding resample_loop
length-resample_loop mono step position zero = refl
length-resample_loop mono step position (suc count) =
    ap suc (length-resample_loop mono step (position + step) count)

length-resample : (mono : List ℤ) (count : ℕ) → length (resample mono count) ≡ count
unfolding resample
length-resample mono count = elim (Bool-cases (length mono == 1 || count == 1)) [
  | inl flat ↦ rw flat (length-replicate count (get_or mono 0 (pos 0)))
  | inr sloped ↦
      rw sloped (length-resample_loop mono ((length mono - 1) * 2 ^ 32 / (count - 1)) 0 count)
]

block_account :
    (p : Player) (frames : ℕ)
    → (output_frames p frames).0 * p.source_rate + (output_frames p frames).1.rate_remainder
      ≡ frames * p.output_rate + p.rate_remainder
unfolding output_frames
block_account p frames = div-add-mod' (frames * p.output_rate + p.rate_remainder) p.source_rate

-- A block's result: the rates stay, and its frames are accounted for.
record Accounts (p : Player) (frames : ℕ) (r : Player × Option (List ℤ)) : Type 0 where
  same_source : r.0.source_rate ≡ p.source_rate
  same_output : r.0.output_rate ≡ p.output_rate
  bounded : r.0.rate_remainder < p.source_rate
  account :
      queued r.1 * p.source_rate + r.0.rate_remainder ≡ frames * p.output_rate + p.rate_remainder

-- The branches of `write_stereo`, after mixing.
handed-Accounts :
    (p : Player) (mono : List ℤ)
    → 0 < p.source_rate
    → p.rate_remainder < p.source_rate
    → Accounts p (length mono) (
        let r : Player × Option (List ℤ) =
          if length mono == 0
          then (p, none)
          else if p.source_rate == p.output_rate
          then (p, some mono)
          else if (output_frames p (length mono)).0 == 0
          then ((output_frames p (length mono)).1, none)
          else (
            (output_frames p (length mono)).1,
            some (resample mono (output_frames p (length mono)).0),
          ) in
        r)
unfolding output_frames
handed-Accounts p mono h r =
    let account = block_account p (length mono) in
    let bounded = mod-lt (length mono * p.output_rate + p.rate_remainder) h in
    elim (Bool-cases (length mono == 0)) [
      | inl none_left ↦
          let z : length mono ≡ 0 = ground arith in
          subst (Accounts p (length mono)) (sym (if_true _ _ _ none_left)) (record {
            same_source = refl;
            same_output = refl;
            bounded = r;
            account = rw z (omega arith);
          })
      | inr full ↦
          subst (Accounts p (length mono)) (sym (if_false _ _ _ full))
            (elim (Bool-cases (p.source_rate == p.output_rate)) [
              | inl same ↦
                  let e : p.source_rate ≡ p.output_rate = ground arith in
                  subst (Accounts p (length mono)) (sym (if_true _ _ _ same)) (record {
                    same_source = refl;
                    same_output = refl;
                    bounded = r;
                    account = rw e (omega arith);
                  })
              | inr differ ↦
                  subst (Accounts p (length mono)) (sym (if_false _ _ _ differ))
                    (elim (Bool-cases ((output_frames p (length mono)).0 == 0)) [
                      | inl nothing ↦
                          let z : (output_frames p (length mono)).0 ≡ 0 = ground arith in
                          subst (Accounts p (length mono)) (sym (if_true _ _ _ nothing)) (record {
                            same_source = refl;
                            same_output = refl;
                            bounded = bounded;
                            account = rw z at account;
                          })
                      | inr some_frames ↦
                          subst (Accounts p (length mono)) (sym (if_false _ _ _ some_frames))
                            (record {
                              same_source = refl;
                              same_output = refl;
                              bounded = bounded;
                              account =
                                  rw (length-resample mono (output_frames p (length mono)).0)
                                    account;
                            })
                    ])
            ])
    ]

write_stereo-Accounts :
    (p : Player) (samples : List ℤ)
    → 0 < p.source_rate
    → p.rate_remainder < p.source_rate
    → Accounts p (length samples / 2) (write_stereo p samples)
unfolding write_stereo
write_stereo-Accounts p samples h r =
    subst (λ n. Accounts p n (write_stereo p samples)) (length-mix p.volume_percent samples)
      (handed-Accounts p (mix p.volume_percent samples) h r)

-- The resampler does not drift: after any blocks, the frames that `write_stereo` has queued are the
-- source frames, half as many as the samples, times the ratio of the rates. What is missing from a
-- whole frame is in the remainder, which stays below the source rate.
pub write_blocks-account :
    (p : Player) (blocks : List (List ℤ))
    → 0 < p.source_rate
    → p.rate_remainder < p.source_rate
    → ((write_blocks p blocks).0 * p.source_rate + (write_blocks p blocks).1.rate_remainder
        ≡ source_frames blocks * p.output_rate + p.rate_remainder)
      × ((write_blocks p blocks).1.rate_remainder < p.source_rate)
unfolding write_blocks source_frames
write_blocks-account p [] h r = (omega arith, r)
write_blocks-account p (samples ∷ blocks) h r =
    let (p', out) = write_stereo p samples in
    let block = write_stereo-Accounts p samples h r in
    let rest =
      write_blocks-account p' blocks (rw block.same_source h)
        (rw block.same_source block.bounded) in
    let left = rw (block.same_source, block.same_output) at rest.0 in
    (omega (arith, left, block.account), rw block.same_source at rest.1)

resample_loop-Within :
    (lo hi : ℤ) (mono : List ℤ) (step position count : ℕ)
    → 0 < length mono
    → AllWithin lo hi mono
    → AllWithin lo hi (resample_loop mono step position count)
unfolding resample_loop
resample_loop-Within lo hi mono step position zero h w = tt
resample_loop-Within lo hi mono step position (suc count) h w = (
  interpolate-Within lo hi mono position h w,
  resample_loop-Within lo hi mono step (position + step) count h w,
)

replicate-AllWithin : (lo hi x : ℤ) (n : ℕ) → Within lo hi x → AllWithin lo hi (replicate n x)
replicate-AllWithin lo hi x zero w = tt
replicate-AllWithin lo hi x (suc n) w = (w, replicate-AllWithin lo hi x n w)

pub resample-Within :
    (lo hi : ℤ) (mono : List ℤ) (count : ℕ)
    → 0 < length mono
    → AllWithin lo hi mono
    → AllWithin lo hi (resample mono count)
unfolding resample
resample-Within lo hi mono count h w = elim (Bool-cases (length mono == 1 || count == 1)) [
  | inl flat ↦
      rw flat
        (replicate-AllWithin lo hi (get_or mono 0 (pos 0)) count (get_or-Within lo hi mono 0 w h))
  | inr sloped ↦
      rw sloped
        (resample_loop-Within lo hi mono ((length mono - 1) * 2 ^ 32 / (count - 1)) 0 count h w)
]

-- What `write_stereo` returns for the queue, if anything, keeps a bound.
abbrev pub OutWithin : ℤ → ℤ → Option (List ℤ) → Type 0
OutWithin lo hi none = Unit {0}
OutWithin lo hi (some samples) = AllWithin lo hi samples

handed-OutWithin :
    (lo hi : ℤ) (p p' : Player) (mono : List ℤ) (same : Bool) (count : ℕ)
    → AllWithin lo hi mono
    → OutWithin lo hi
        (let r : Player × Option (List ℤ) =
            if length mono == 0
            then (p, none)
            else if same
            then (p, some mono)
            else if count == 0
            then (p', none)
            else (p', some (resample mono count)) in
          r).1
handed-OutWithin lo hi p p' mono same count w = elim (Bool-cases (length mono == 0)) [
  | inl empty ↦ rw empty tt
  | inr full ↦ elim (Bool-cases same) [
    | inl equal ↦ rw (full, equal) w
    | inr differ ↦ elim (Bool-cases (count == 0)) [
      | inl nothing ↦ rw (full, differ, nothing) tt
      | inr some_frames ↦
          rw (full, differ, some_frames) (resample-Within lo hi mono count (ground arith) w)
    ]
  ]
]

-- No volume from 0 to 100 and no rate amplifies: every sample that `write_stereo` queues lies within
-- any bounds around 0, inside the `i16` range, that hold the samples of the block. So none is
-- clamped or truncated.
pub write_stereo-OutWithin :
    (lo hi : ℤ) (p : Player) (volume : ℕ) (samples : List ℤ)
    → IsRange lo hi
    → p.volume_percent ≡ pos volume
    → volume ≤ 100
    → AllWithin lo hi samples
    → OutWithin lo hi (write_stereo p samples).1
unfolding write_stereo
write_stereo-OutWithin lo hi p volume samples r e h w =
    let block = output_frames p (length (mix p.volume_percent samples)) in
    handed-OutWithin lo hi p block.1 (mix p.volume_percent samples) (p.source_rate == p.output_rate)
      block.0 (rw e (mix-AllWithin lo hi volume samples r h w))
