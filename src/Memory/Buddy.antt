-- ===== src/Memory/Buddy.antt =====
-- kernel/Memory/buddy.c: the buddy allocator. The static variables are the record `Buddy`. A free
-- list, which the code threads through the first word of each free block, is the list of its block
-- addresses: the words belong to the allocator while the blocks are free. `NULL` is 0, and the
-- pointer that `buddy_alloc` returns is an option. An order is never negative here.
pub mod Cover
pub mod Blocks
pub mod Split
pub mod Alloc
pub mod Free
pub mod Init
mod Examples
use aevros.Base.{
  ℕ, zero, suc, ◌+◌, ◌-◌, ◌*◌, ◌/◌, ◌%◌, ◌^◌, Bool, true, false, not, ◌&&◌, ◌||◌, Option, none,
  some, List, [], ◌∷◌, ltb, leb, ◌==◌, if◌then◌else◌, add32, sub32, length, get_or, replicate,
  update_at, bit_xor,
}

abbrev pub max_order : ℕ
max_order = 16

-- The size of a block, `(1 << order) * 4096`.
abbrev pub block_bytes : ℕ → ℕ
block_bytes order = 2 ^ order * 4096

pub record Buddy : Type 0 where
  pub start : ℕ
  pub end : ℕ
  pub total_mem : ℕ
  pub free_lists : List (List ℕ)

abbrev pub in_range : ℕ → Buddy → Bool
in_range p s = leb s.start p && ltb p s.end

abbrev pub valid_order : ℕ → Bool
valid_order order = leb order max_order

abbrev pub list_at : ℕ → Buddy → List ℕ
list_at order s = get_or s.free_lists order []

abbrev pub set_list : ℕ → (List ℕ → List ℕ) → Buddy → Buddy
set_list order f s = record s { free_lists = update_at order f s.free_lists }

pub add_to_list : ℕ → ℕ → Buddy → Buddy
add_to_list p order s =
    if p == 0 || not (valid_order order)
    then s
    else if not (in_range p s)
    then s
    else set_list order (λ l. p ∷ l) s

-- Unlinks the first node that is the target.
pub unlink : ℕ → List ℕ → List ℕ
unlink target [] = []
unlink target (b ∷ l) = if b == target then l else b ∷ unlink target l

pub remove_from_list : ℕ → ℕ → Buddy → Buddy
remove_from_list p order s =
    if p == 0 || not (valid_order order) then s else set_list order (unlink p) s

-- The `while (i > order)` of `buddy_alloc`, with `i` at `order + d`.
pub split : ℕ → ℕ → ℕ → Buddy → Buddy
split zero block order s = s
split (suc d) block order s =
    split d block order (add_to_list (add32 block (block_bytes (order + d))) (order + d) s)

-- The `for` of `buddy_alloc` at `i`, with `k` rounds left.
pub scan : ℕ → ℕ → ℕ → Buddy → Option ℕ × Buddy
scan zero i order s = (none, s)
scan (suc k) i order s = elim (list_at i s) [
  | [] ↦ scan k (i + 1) order s
  | block ∷ _ ↦ (some block, split (i - order) block order (remove_from_list block i s))
]

pub alloc : ℕ → Buddy → Option ℕ × Buddy
alloc order s = if not (valid_order order) then (none, s) else elim (list_at order s) [
  | [] ↦ scan (max_order - order) (order + 1) order s
  | block ∷ next ↦ (some block, set_list order (λ _. next) s)
]

-- `found` of the inner loop of `buddy_free`.
pub is_listed : ℕ → List ℕ → Bool
is_listed b [] = false
is_listed b (x ∷ l) = x == b || is_listed b l

-- `address & ~size` for a size that is a power of two.
abbrev pub clear_bit : ℕ → ℕ → ℕ
clear_bit address size = if (address / size) % 2 == 0 then address else address - size

-- The `while` of `buddy_free`, with `d` orders below the last one, and the `add_to_list` after it.
pub merge : ℕ → ℕ → ℕ → Buddy → Buddy
merge zero address order s = add_to_list address order s
merge (suc d) address order s =
    let size = block_bytes order in
    let buddy_address = bit_xor address size in
    let merged =
      merge d (clear_bit address size) (order + 1) (set_list order (unlink buddy_address) s) in
    if ltb buddy_address s.start || leb s.end buddy_address
    then add_to_list address order s
    else if is_listed buddy_address (list_at order s)
    then merged
    else add_to_list address order s

-- `address & (size - 1)` is the remainder by the power of two.
pub free : ℕ → ℕ → Buddy → Buddy
free p order s =
    if p == 0 || not (valid_order order)
    then s
    else if not (in_range p s)
    then s
    else if not (p % block_bytes order == 0)
    then s
    else merge (max_order - order) p order s

abbrev pub round_up : ℕ → ℕ → ℕ
round_up addr size = add32 addr (size - 1) - add32 addr (size - 1) % size

-- The `while` of `buddy_init`: the address and order at its end.
pub first_block : ℕ → ℕ → ℕ → ℕ × ℕ
first_block zero start end = (start, 0)
first_block (suc order) start end =
    let size = block_bytes (suc order) in
    let smaller = first_block order start end in
    if leb (add32 (round_up start size) size) end then (round_up start size, suc order) else smaller

pub init : ℕ → ℕ → Buddy
init start end =
    let s : Buddy = record {
      start = start;
      end = end;
      total_mem = sub32 end start;
      free_lists = replicate (suc max_order) [];
    } in
    let (addr, order) = first_block max_order start end in
    if order == 0
    then (if ltb end (add32 (round_up start 4096) 4096)
        then s
        else add_to_list (round_up start 4096) 0 s)
    else add_to_list addr order s
