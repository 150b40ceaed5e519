-- ===== src/Memory/Pmm/Stack.antt =====
-- How many frames `pmm_init` finds, and what allocating and freeing do to the count.
use native.Mathlib.Decide.{dec_le}
use aevros.Base.{
  ℕ, zero, suc, ◌+◌, ◌-◌, ◌/◌, ◌^◌, ◌≤◌, ◌<◌, ◌≡◌, ◌⊎◌, refl, ap, [], ◌∷◌, arith, inl, inr,
  List-cases, All, length, add32, min, subst,
}
use aevros.Memory.Pmm.{Pmm, max_frames, fill, init, alloc, free, align, free_frames, used_frames}
use aevros.Memory.Pmm.Frames.{IsPmm, IsFrame, Distinct, zeroed, fill-push, fill-stop}

-- Frames that the range still has, rounded up.
abbrev left : ℕ → ℕ → ℕ
left a limit = (limit - a + 4095) / 4096

length-fill :
    (fuel a limit : ℕ) (s : Pmm)
    → limit + 4096 ≤ 2 ^ 32
    → length s.frame_stack ≤ max_frames
    → max_frames < length s.frame_stack + fuel
    → s.total_frames ≡ length s.frame_stack
    → (length (fill fuel a limit s).frame_stack
        ≡ min max_frames (length s.frame_stack + left a limit))
      × ((fill fuel a limit s).total_frames ≡ length (fill fuel a limit s).frame_stack)
length-fill zero a limit s top le enough e = absurd (omega arith)
length-fill (suc n) a limit s top le enough e = elim (dec_le limit a) [
  | yes done ↦ rw (fill-stop (suc n) a limit s (inl done)) (ground arith, e)
  | no more ↦ elim (dec_le max_frames (length s.frame_stack)) [
    | yes full ↦ rw (fill-stop (suc n) a limit s (inr full)) (ground arith, e)
    | no room ↦
        let wraps_not : add32 a 4096 ≡ a + 4096 = omega arith in
        let t : Pmm = record {
          frame_stack = a ∷ s.frame_stack;
          total_frames = add32 s.total_frames 1;
        } in
        let (count, same) =
          length-fill n (a + 4096) limit t top (omega arith) (omega arith) (omega arith) in
        rw (fill-push n a limit s (omega arith) (omega arith), wraps_not)
          (ground (arith, count), same)
  ]
]

-- From the zeroed state, `pmm_init` finds a frame for each 4096 bytes of the size, the last of them
-- for a rest that is smaller, up to 32768, where the range ends 8 KB or more below 4 GB. All are
-- free.
pub free_frames-init :
    (st size : ℕ)
    → st + size + 8192 ≤ 2 ^ 32
    → (free_frames (init st size zeroed) ≡ min 32768 ((size + 4095) / 4096))
      × (used_frames (init st size zeroed) ≡ 0)
unfolding init
free_frames-init st size top =
    let limit = add32 (align st) size in
    let (count, same) =
      length-fill (suc max_frames) (align st) limit zeroed (omega arith) (omega arith) (omega arith)
        refl in
    let range : left (align st) limit ≡ (size + 4095) / 4096 = omega arith in
    (ground (arith, count, same, range), ground (arith, count, same, range))

-- Freeing the frame that was allocated last restores the state; while it is allocated the free
-- frames are one fewer, where the free frames are no more than all.
pub free-alloc :
    (s : Pmm)
    → IsPmm s
    → length s.frame_stack ≤ s.total_frames
    → s.total_frames < 2 ^ 32
    → (s.frame_stack ≡ []) × (alloc s ≡ (0, s))
      ⊎ (0 < (alloc s).0)
        × (free_frames (alloc s).1 + 1 ≡ free_frames s)
        × (free (alloc s).0 (alloc s).1 ≡ s)
unfolding alloc free
free-alloc s v le small = elim (List-cases s.frame_stack) [
  | inl e ↦ inl (e, ground (arith, e))
  | inr (a, l, e) ↦
      let frame : IsFrame a = (subst (All IsFrame) e v.frames).0 in
      let fresh = (subst Distinct e v.distinct).0 in
      let len = ap length e in
      rw (e) (
        inr (
          frame.positive,
          omega (arith, len),
          ground (arith, e, fresh, frame.positive, frame.aligned, len, v.bounded),
        ))
]
