-- ===== src/Memory/Pmm.antt =====
-- kernel/Memory/pmm.c: the allocator of page frames. The stack of free frames is a list, its top
-- first: `stack_top` is one less than its length, and the words of `frame_stack` above the top
-- are never read before they are written. `UINT32_MAX` bounds every address.
pub mod Frames
pub mod Stack
mod Examples
use aevros.Base.{
  ℕ, zero, suc, ◌+◌, ◌-◌, ◌*◌, ◌/◌, ◌%◌, ◌^◌, Bool, true, false, not, ◌&&◌, ◌||◌, List, [], ◌∷◌,
  ltb, leb, ◌==◌, if◌then◌else◌, add32, sub32, length, max,
}

abbrev pub frame_size : ℕ
frame_size = 4096

abbrev pub max_frames : ℕ
max_frames = 32768

pub record Pmm : Type 0 where
  pub frame_stack : List ℕ
  pub total_frames : ℕ

-- `(st_address + FRAME_SIZE - 1) & ~(FRAME_SIZE - 1)`.
abbrev pub align : ℕ → ℕ
align a = add32 a (frame_size - 1) - add32 a (frame_size - 1) % frame_size

-- The `for` of `pmm_init`, with `fuel` rounds left.
pub fill : ℕ → ℕ → ℕ → Pmm → Pmm
fill zero address limit s = s
fill (suc fuel) address limit s =
    let next =
      fill fuel (add32 address frame_size) limit
        (record { frame_stack = address ∷ s.frame_stack; total_frames = add32 s.total_frames 1 }) in
    if not (ltb address limit) then s else if leb max_frames (length s.frame_stack) then s else next

-- The `memset`, for the words up to the top.
abbrev pub cleared : List ℕ → List ℕ
cleared [] = []
cleared (x ∷ l) = 0 ∷ cleared l

-- Each round pushes a frame, so `max_frames` rounds fill the stack.
pub init : ℕ → ℕ → Pmm → Pmm
init st_address size s =
    fill (suc max_frames) (align st_address) (add32 (align st_address) size)
      (record s { frame_stack = cleared s.frame_stack })

pub alloc : Pmm → ℕ × Pmm
alloc s = elim s.frame_stack [
  | [] ↦ (0, s)
  | address ∷ below ↦ (address, record s { frame_stack = below })
]

-- The search of `pmm_free`; the order of the search does not show.
unfoldable pub is_free_frame : ℕ → List ℕ → Bool
is_free_frame address [] = false
is_free_frame address (x ∷ l) = x == address || is_free_frame address l

pub free : ℕ → Pmm → Pmm
free address s =
    if address == 0 || not (address % frame_size == 0)
    then s
    else if is_free_frame address s.frame_stack
    then s
    else if leb max_frames (length s.frame_stack)
    then s
    else record s { frame_stack = address ∷ s.frame_stack }

pub highest : List ℕ → ℕ
highest [] = 0
highest (x ∷ l) = let h = highest l in if ltb h x then x else h

abbrev pub get_top : Pmm → ℕ
get_top s = add32 (highest s.frame_stack) frame_size

abbrev pub used_frames : Pmm → ℕ
used_frames s = sub32 s.total_frames (length s.frame_stack)

abbrev pub free_frames : Pmm → ℕ
free_frames s = sub32 s.total_frames (used_frames s)
