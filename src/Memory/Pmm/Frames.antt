-- ===== src/Memory/Pmm/Frames.antt =====
-- The stack of free frames holds no frame twice, whatever is freed.
use native.Mathlib.Decide.{dec_le}
use aevros.Base.{
  ℕ, zero, suc, ◌+◌, ◌%◌, ◌^◌, ◌≤◌, ◌<◌, ◌≡◌, ◌⊎◌, refl, ap, false, not, ◌||◌, List, [], ◌∷◌, arith,
  ◌==◌, inl, inr, Bool-cases, List-cases, All, length, add32, subst,
}
use aevros.Memory.Pmm.{Pmm, frame_size, max_frames, fill, init, alloc, free, align, is_free_frame}

-- An address of a frame, not `NULL`.
pub record IsFrame (a : ℕ) : Type 0 where
  pub positive : 0 < a
  pub aligned : a % 4096 ≡ 0

abbrev pub Distinct : List ℕ → Type 0
Distinct [] = Unit
Distinct (a ∷ l) = (is_free_frame a l ≡ false) × Distinct l

pub record IsPmm (s : Pmm) : Type 0 where
  pub frames : All IsFrame s.frame_stack
  pub distinct : Distinct s.frame_stack
  pub bounded : length s.frame_stack ≤ max_frames

pub data Call : Type 0 where
  allocates : Call
  frees : ℕ → Call

unfoldable pub step : Pmm → Call → Pmm
step s allocates = (alloc s).1
step s (frees a) = free a s

unfoldable pub run : Pmm → List Call → Pmm
run s [] = s
run s (c ∷ cs) = run (step s c) cs

abbrev pub Below : ℕ → List ℕ → Type 0
Below a l = All (λ x. x < a) l

Below-not_free : (a : ℕ) (l : List ℕ) → Below a l → is_free_frame a l ≡ false
unfolding is_free_frame
Below-not_free a [] h = refl
Below-not_free a (x ∷ l) (lt, rest) = ground (arith, lt, Below-not_free a l rest)

Below-more : (a b : ℕ) (l : List ℕ) → a ≤ b → Below a l → Below b l
Below-more a b [] le h = tt
Below-more a b (x ∷ l) le (lt, rest) = (omega arith, Below-more a b l le rest)

pub fill-push :
    (fuel a limit : ℕ) (s : Pmm)
    → a < limit
    → length s.frame_stack < max_frames
    → fill (suc fuel) a limit s
      ≡ fill fuel
          (add32 a 4096)
          limit
          (record { frame_stack = a ∷ s.frame_stack; total_frames = add32 s.total_frames 1 })
unfolding fill
fill-push fuel a limit s lt room = ground (arith, lt, room)

pub fill-stop :
    (fuel a limit : ℕ) (s : Pmm)
    → (limit ≤ a) ⊎ (max_frames ≤ length s.frame_stack)
    → fill fuel a limit s ≡ s
unfolding fill
fill-stop zero a limit s h = refl
fill-stop (suc fuel) a limit s h = ground (arith, h)

fill-IsPmm :
    (fuel a limit : ℕ) (s : Pmm)
    → IsPmm s
    → IsFrame a
    → limit + 4096 ≤ 2 ^ 32
    → Below a s.frame_stack
    → IsPmm (fill fuel a limit s)
unfolding fill
fill-IsPmm zero a limit s v frame top lower = v
fill-IsPmm (suc n) a limit s v frame top lower = elim (dec_le limit a) [
  | yes le ↦ rw (fill-stop (suc n) a limit s (inl le)) v
  | no more ↦ elim (dec_le max_frames (length s.frame_stack)) [
    | yes full ↦ rw (fill-stop (suc n) a limit s (inr full)) v
    | no room ↦
        let wraps_not : add32 a 4096 ≡ a + 4096 = omega arith in
        let t : Pmm = record {
          frame_stack = a ∷ s.frame_stack;
          total_frames = add32 s.total_frames 1;
        } in
        rw (fill-push n a limit s (omega arith) (omega arith), wraps_not)
          (fill-IsPmm n (a + 4096) limit t
            (record {
              frames = (frame, v.frames);
              distinct = (Below-not_free a s.frame_stack lower, v.distinct);
              bounded = omega arith;
            })
            (record { positive = omega arith; aligned = omega (arith, frame.aligned) }) top
            (omega arith, Below-more a (a + 4096) s.frame_stack (omega arith) lower))
  ]
]

-- A free frame of the state, where it is not empty.
alloc-pop :
    (s : Pmm) (a : ℕ) (l : List ℕ)
    → s.frame_stack ≡ a ∷ l
    → alloc s ≡ (a, record s { frame_stack = l })
unfolding alloc
alloc-pop s a l e = rw e refl

alloc-empty : (s : Pmm) → s.frame_stack ≡ [] → alloc s ≡ (0, s)
unfolding alloc
alloc-empty s e = rw e refl

alloc-IsPmm : (s : Pmm) → IsPmm s → IsPmm (alloc s).1
alloc-IsPmm s v = elim (List-cases s.frame_stack) [
  | inl e ↦ rw (alloc-empty s e) v
  | inr (a, l, e) ↦ rw (alloc-pop s a l e) (record {
    frames = (subst (All IsFrame) e v.frames).1;
    distinct = (subst Distinct e v.distinct).1;
    bounded = omega (arith, v.bounded, ap length e);
  })
]

abbrev pub Taken : ℕ → Pmm → Type 0
Taken a s =
    (IsFrame a) × (is_free_frame a s.frame_stack ≡ false) × (length s.frame_stack < max_frames)

-- What `pmm_free` tests.
free-cases :
    (a : ℕ) (s : Pmm)
    → (free a s ≡ s) ⊎ (Taken a s × (free a s ≡ record s { frame_stack = a ∷ s.frame_stack }))
unfolding free
free-cases a s = elim (Bool-cases (a == 0 || not (a % frame_size == 0))) [
  | inl bad ↦ inl (ground (arith, bad))
  | inr good ↦ elim (Bool-cases (is_free_frame a s.frame_stack)) [
    | inl double ↦ inl (ground (arith, double, good))
    | inr fresh ↦ elim (dec_le max_frames (length s.frame_stack)) [
      | yes full ↦ inl (ground (arith, fresh, good, full))
      | no room ↦ inr (
        (
          record { positive = ground (arith, good); aligned = ground (arith, good) },
          fresh,
          omega arith,
        ),
        ground (arith, good, fresh, room),
      )
    ]
  ]
]

free-IsPmm : (a : ℕ) (s : Pmm) → IsPmm s → IsPmm (free a s)
free-IsPmm a s v = elim (free-cases a s) [
  | inl same ↦ rw same v
  | inr ((frame, fresh, room), pushed) ↦
      rw pushed (record {
        frames = (frame, v.frames);
        distinct = (fresh, v.distinct);
        bounded = omega arith;
      })
]

step-IsPmm : (s : Pmm) (c : Call) → IsPmm s → IsPmm (step s c)
unfolding step
step-IsPmm s allocates v = alloc-IsPmm s v
step-IsPmm s (frees a) v = free-IsPmm a s v

run-keeps : (s : Pmm) (cs : List Call) → IsPmm s → IsPmm (run s cs)
unfolding run
run-keeps s [] v = v
run-keeps s (c ∷ cs) v = run-keeps (step s c) cs (step-IsPmm s c v)

abbrev pub zeroed : Pmm
zeroed = record { frame_stack = []; total_frames = 0 }

pub init-IsPmm : (st size : ℕ) → 0 < st → st + size + 8192 ≤ 2 ^ 32 → IsPmm (init st size zeroed)
unfolding init
init-IsPmm st size pos top =
    fill-IsPmm (suc max_frames) (align st) (add32 (align st) size) zeroed
      (record { frames = tt; distinct = tt; bounded = omega arith })
      (record { positive = omega arith; aligned = omega arith }) (omega arith) tt

-- From `pmm_init` on a range that starts above 0 and ends 8 KB or more Below 4 GB, no sequence of
-- allocations and of frees of any addresses gives a stack that holds a frame twice, a frame that
-- is not aligned, the frame at 0, or more than 32768 frames.
pub run-IsPmm :
    (st size : ℕ) (calls : List Call)
    → 0 < st
    → st + size + 8192 ≤ 2 ^ 32
    → IsPmm (run (init st size zeroed) calls)
run-IsPmm st size calls pos top = run-keeps (init st size zeroed) calls (init-IsPmm st size pos top)
