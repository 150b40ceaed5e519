-- ===== src/Memory/Buddy/Init.antt =====
-- What `buddy_init` starts with.
use native.Mathlib.Nat.{mod-lt, pow-le-pow_right}
use aevros.Base.{
  ℕ, zero, suc, ◌+◌, ◌-◌, ◌^◌, ◌≤◌, ◌<◌, ◌≡◌, refl, sym, ◌⊎◌, Bool, true, false, List, [], arith,
  leb, inl, inr, Bool-cases, All, get_or, replicate, add32, sub32, subst,
}
use aevros.Memory.Buddy.{Buddy, block_bytes, max_order, add_to_list, round_up, first_block, init}
use aevros.Memory.Buddy.Cover.{covers, covers_list, covers_from}
use aevros.Memory.Buddy.Blocks.{
  Fits, IsBuddy, add_to_list-IsBuddy, covers-add_to_list, block_bytes_pos,
}

abbrev bare : ℕ → ℕ → Buddy
bare start end = record {
  start = start;
  end = end;
  total_mem = sub32 end start;
  free_lists = replicate (suc max_order) [];
}

get_or-replicate : (n i : ℕ) → get_or {A = List ℕ} (replicate n []) i [] ≡ []
get_or-replicate zero i = refl
get_or-replicate (suc n) zero = refl
get_or-replicate (suc n) (suc i) = get_or-replicate n i

bare-IsBuddy : (start end : ℕ) → end < 2 ^ 32 → IsBuddy (bare start end)
bare-IsBuddy start end h = record {
  lists = refl;
  small = h;
  blocks = λ k. subst (All (Fits start end k)) (sym (get_or-replicate (suc max_order) k)) tt;
}

bare-covers : (start end p : ℕ) → covers p (bare start end) ≡ 0
unfolding covers_from covers_list
bare-covers start end p = refl

largest : (k : ℕ) → k ≤ max_order → block_bytes k ≤ 2 ^ 28
largest k h = omega (arith, pow-le-pow_right {n = 2} (omega arith) h)

-- The start, rounded up to a multiple of the size.
round_up_lem : (start size : ℕ) → 0 < size → start + size ≤ 2 ^ 32 → start ≤ round_up start size
round_up_lem start size pos h = omega (arith, mod-lt (start + size - 1) pos)

-- A block and its order that `buddy_init` may put in; at order 0 it looks again.
abbrev Start : ℕ → ℕ → ℕ × ℕ → Type 0
Start start end r = (r.1 ≡ 0) ⊎ (0 < r.1) × (r.1 ≤ max_order) × Fits start end r.1 r.0

abbrev fits_at : ℕ → ℕ → ℕ → Bool
fits_at order start end = leb (add32 (round_up start (block_bytes order)) (block_bytes order)) end

first_block-here :
    (n start end : ℕ)
    → fits_at (suc n) start end ≡ true
    → first_block (suc n) start end ≡ (round_up start (block_bytes (suc n)), suc n)
unfolding first_block
first_block-here n start end e = rw e refl

first_block-smaller :
    (n start end : ℕ)
    → fits_at (suc n) start end ≡ false
    → first_block (suc n) start end ≡ first_block n start end
unfolding first_block
first_block-smaller n start end e = rw e refl

leb→le : (a b : ℕ) → leb a b ≡ true → a ≤ b
leb→le a b h = ground (arith, h)

round_up_high :
    (start size : ℕ) → 0 < size → start + size ≤ 2 ^ 32 → round_up start size < start + size
round_up_high start size pos h = omega (arith, mod-lt (start + size - 1) pos)

here-Fits :
    (k start end : ℕ)
    → 0 < start
    → end + 2 ^ 29 ≤ 2 ^ 32
    → start ≤ end
    → k ≤ max_order
    → fits_at k start end ≡ true
    → Fits start end k (round_up start (block_bytes k))
here-Fits k start end pos top le small e =
    let size = block_bytes k in
    let low = round_up_lem start size (block_bytes_pos k) (omega (arith, largest k small)) in
    let high = round_up_high start size (block_bytes_pos k) (omega (arith, largest k small)) in
    let fit = leb→le (add32 (round_up start size) size) end e in
    record { positive = omega arith; low = low; high = omega (arith, largest k small) }

first_block-Start :
    (n start end : ℕ)
    → 0 < start
    → end + 2 ^ 29 ≤ 2 ^ 32
    → start ≤ end
    → n ≤ max_order
    → Start start end (first_block n start end)
unfolding first_block
first_block-Start zero start end pos top le h = inl refl
first_block-Start (suc n) start end pos top le h = elim (Bool-cases (fits_at (suc n) start end)) [
  | inl e ↦
      rw (first_block-here n start end e)
        (inr (omega arith, h, here-Fits (suc n) start end pos top le h e))
  | inr e ↦
      rw (first_block-smaller n start end e)
        (first_block-Start n start end pos top le (omega arith))
]

init-larger :
    (start end : ℕ)
    → 0 < (first_block max_order start end).1
    → init start end
      ≡ add_to_list
          (first_block max_order start end).0
          (first_block max_order start end).1
          (bare start end)
unfolding init
init-larger start end h = ground (arith, h)

init-page :
    (start end : ℕ)
    → (first_block max_order start end).1 ≡ 0
    → fits_at 0 start end ≡ true
    → init start end ≡ add_to_list (round_up start 4096) 0 (bare start end)
unfolding init
init-page start end e h = ground (arith, e, h)

init-none :
    (start end : ℕ)
    → (first_block max_order start end).1 ≡ 0
    → fits_at 0 start end ≡ false
    → init start end ≡ bare start end
unfolding init
init-none start end e h = ground (arith, e, h)

one_block :
    (start end b order : ℕ)
    → end < 2 ^ 32
    → Fits start end order b
    → order ≤ max_order
    → IsBuddy (add_to_list b order (bare start end))
      × ((p : ℕ) → covers p (add_to_list b order (bare start end)) ≤ 1)
one_block start end b order small fit le = (
  add_to_list-IsBuddy b order (bare start end) (bare-IsBuddy start end small) fit le,
  λ p.
      let e = covers-add_to_list p b order (bare start end) (bare-IsBuddy start end small) fit le in
      let none = bare-covers start end p in ground (arith, e, none),
)

-- After `buddy_init` every free block lies in the range, and none overlaps another, where the
-- range does not start at 0 and ends 512 MB or more below 4 GB.
pub init-IsBuddy :
    (start end : ℕ)
    → 0 < start
    → start ≤ end
    → end + 2 ^ 29 ≤ 2 ^ 32
    → IsBuddy (init start end) × ((p : ℕ) → covers p (init start end) ≤ 1)
init-IsBuddy start end pos le top =
    elim (first_block-Start max_order start end pos top le (omega arith)) [
      | inr (more, small, fit) ↦ rw (init-larger start end more) (
          one_block start end (first_block max_order start end).0
            (first_block max_order start end).1 (omega arith) fit small)
      | inl e ↦ elim (Bool-cases (fits_at 0 start end)) [
        | inl h ↦ rw (init-page start end e h) (
            one_block start end (round_up start 4096) 0 (omega arith)
              (here-Fits 0 start end pos top le (omega arith) h) (omega arith))
        | inr h ↦
            rw (init-none start end e h)
              (bare-IsBuddy start end (omega arith), λ p. omega (arith, bare-covers start end p))
      ]
    ]
