-- ===== src/Files/Ramfs/Examples.antt =====
-- A file of two bytes in a block of four, and a heap that gives zeroed memory.
use aevros.Base.{
  ℕ, ◌^◌, ◌≤◌, ◌<◌, ◌≡◌, ◌⊎◌, refl, Option, some, none, List, [], ◌∷◌, arith, replicate,
  length-replicate,
}
use aevros.Files.Ramfs.{Ram, Node, grow, rounds, write}
use aevros.Files.Ramfs.Grow.{grow-total}
use aevros.Files.Ramfs.Bytes.{IsFile, Gives, Puts, contents, write-Puts}

abbrev block : Ram
block = record { bytes = 7 ∷ 8 ∷ 0 ∷ 0 ∷ []; capacity = 4 }

abbrev short : Node
short = record { size = 2; ram = some block }

abbrev heap : ℕ → Option (List ℕ)
heap c = some (replicate c 0)

heap-Gives : (c : ℕ) → Gives heap c
heap-Gives c = (replicate c 0, refl, length-replicate c 0)

short-IsFile : IsFile block short
short-IsFile = record {
  held = refl;
  exact = refl;
  within = omega arith;
  shift = 2;
  low = omega arith;
  power = refl;
}

grow-total_example :
    ((9 ≤ 2 ^ 31) × ((j : ℕ) × (grow rounds (2 ^ 2) 9 ≡ some (2 ^ j)) × (9 ≤ 2 ^ j)))
    ⊎ ((2 ^ 31 < 9) × ((f : ℕ) → grow f (2 ^ 2) 9 ≡ none))
grow-total_example = grow-total 2 9 (omega arith)

write-Puts_example :
    Puts 1 (5 ∷ 6 ∷ 7 ∷ 8 ∷ []) (contents block short) (write heap 1 (5 ∷ 6 ∷ 7 ∷ 8 ∷ []) short)
write-Puts_example =
    write-Puts heap 1 (5 ∷ 6 ∷ 7 ∷ 8 ∷ []) block short short-IsFile (omega arith) (omega arith)
      heap-Gives
