-- ===== src/Memory/Buddy/Examples.antt =====
-- Runs of the buddy allocator on a range of 12 pages.
use aevros.Base.{ℕ, ◌+◌, ◌≤◌, ◌≡◌, refl, [], ◌∷◌, arith}
use aevros.Memory.Buddy.{
  Buddy, list_at, alloc, free, init, add_to_list, first_block, scan, split, remove_from_list,
  unlink,
}
use aevros.Memory.Buddy.Cover.{covers, covers_block}
use aevros.Memory.Buddy.Blocks.{IsBuddy}
use aevros.Memory.Buddy.Init.{init-IsBuddy}
use aevros.Memory.Buddy.Alloc.{Outcome, alloc-Outcome, alloc-IsBuddy}
use aevros.Memory.Buddy.Free.{covers-free}

-- From 0x101000 to 0x10D000: the first aligned block has 4 pages.
abbrev pages : Buddy
pages = init 1052672 1101824

pages-IsBuddy : IsBuddy pages
pages-IsBuddy = (init-IsBuddy 1052672 1101824 (omega arith) (omega arith) (omega arith)).0

pages_start : (list_at 2 pages ≡ 1064960 ∷ []) × (list_at 0 pages ≡ [])
unfolding init add_to_list first_block
pages_start = (refl, refl)

init-IsBuddy_example : IsBuddy pages × ((p : ℕ) → covers p pages ≤ 1)
init-IsBuddy_example = init-IsBuddy 1052672 1101824 (omega arith) (omega arith) (omega arith)

alloc-Outcome_example : Outcome 0 pages (alloc 0 pages)
alloc-Outcome_example = alloc-Outcome 0 pages pages-IsBuddy

abbrev allocated : Buddy
allocated = (alloc 0 pages).1

allocated_lists : (list_at 0 allocated ≡ 1069056 ∷ []) × (list_at 1 allocated ≡ 1073152 ∷ [])
unfolding init add_to_list first_block alloc scan split remove_from_list unlink
allocated_lists = (refl, refl)

covers-free_example :
    (covers 1064960 (free 1064960 0 allocated)
      ≡ covers 1064960 allocated + covers_block 1064960 0 1064960)
    × IsBuddy (free 1064960 0 allocated)
unfolding init add_to_list first_block alloc scan split remove_from_list unlink
covers-free_example =
    covers-free 1064960 0 1064960 allocated (alloc-IsBuddy 0 pages pages-IsBuddy) (omega arith)
      (record { positive = omega arith; low = omega arith; high = omega arith }) refl
