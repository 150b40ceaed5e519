-- ===== src/Memory/Slab/Objects.antt =====
-- The object that `slab_alloc` hands out.
use native.Mathlib.Nat.{mul-div_cancel, mul-le-mul_right}
use aevros.Base.{
  ℕ, zero, suc, ◌+◌, ◌*◌, ◌/◌, ◌^◌, ◌≤◌, ◌<◌, ◌≡◌, refl, sym, ◌∙◌, ap, ◌⊎◌, inl, inr, Bool, true,
  false, not, none, some, List, [], ◌∷◌, ltb, if◌then◌else◌, add32, sub32, arith, length, get_or,
  update_at, find_index, count_if, Option-cases,
}
use aevros.Memory.Slab.{Slab, free_bit, set_bit, take_bit, alloc, index_of, free, cache_used}

find_free :
    (bits : List Bool) (i : ℕ)
    → find_index not bits ≡ some i
    → (i < length bits) × (get_or bits i true ≡ false)
unfolding find_index
find_free [] i h = absurd (ground (arith, h))
find_free (true ∷ bits) zero h = absurd (ground (arith, h))
find_free (false ∷ bits) zero h = (omega arith, refl)
find_free (false ∷ bits) (suc i) h = absurd (ground (arith, h))
find_free (true ∷ bits) (suc i) h =
    let (inside, clear) = find_free bits i (ground (arith, h)) in (omega (arith, inside), clear)

find_full : (bits : List Bool) → find_index not bits ≡ none → count_if (λ b. b) bits ≡ length bits
unfolding find_index count_if
find_full [] h = refl
find_full (true ∷ bits) h = ap suc (find_full bits (ground (arith, h)))
find_full (false ∷ bits) h = absurd (ground (arith, h))

count_set :
    (i : ℕ) (bits : List Bool)
    → get_or bits i true ≡ false
    → count_if (λ b. b) (update_at i (λ _. true) bits) ≡ suc (count_if (λ b. b) bits)
unfolding count_if
count_set zero [] h = absurd (ground (arith, h))
count_set (suc i) [] h = absurd (ground (arith, h))
count_set zero (true ∷ bits) h = absurd (ground (arith, h))
count_set zero (false ∷ bits) h = refl
count_set (suc i) (true ∷ bits) h = ap suc (count_set i bits h)
count_set (suc i) (false ∷ bits) h = count_set i bits h

clear_set :
    (i : ℕ) (bits : List Bool)
    → get_or bits i true ≡ false
    → update_at i (λ _. false) (update_at i (λ _. true) bits) ≡ bits
clear_set zero [] h = refl
clear_set (suc i) [] h = refl
clear_set zero (b ∷ bits) h = ap (λ x. x ∷ bits) (sym h)
clear_set (suc i) (b ∷ bits) h = ap (◌∷◌ b) (clear_set i bits h)

-- The cache has a block, which lies in the address space.
pub record IsCache (s : Slab) : Type 0 where
  pub block : 0 < s.first_slot
  pub bits : length s.bitmap ≡ 32
  pub positive : 0 < s.size
  pub room : s.first_slot + 32 * s.size ≤ 2 ^ 32

index_of_slot :
    (first size i : ℕ)
    → 0 < size
    → first + 32 * size ≤ 2 ^ 32
    → i < 32
    → (add32 first (i * size) ≡ first + i * size)
      × (sub32 (add32 first (i * size)) first / size ≡ i)
index_of_slot first size i pos room low =
    let below : i * size ≤ 31 * size = mul-le-mul_right {m = i} {n = 31} size (omega arith) in
    let whole : add32 first (i * size) ≡ first + i * size = omega (arith, below, pos, room) in
    let back : sub32 (add32 first (i * size)) first ≡ i * size = omega (arith, below, pos, room) in
    (whole, ap (λ n. n / size) back ∙ mul-div_cancel i pos)

-- The object `i`, which is free in `s`.
pub record IsObject (s : Slab) (i : ℕ) : Type 0 where
  pub inside : i < 32
  pub was_free : get_or s.bitmap i true ≡ false
  pub address : (alloc s).0 ≡ s.first_slot + i * s.size
  pub not_null : 0 < (alloc s).0
  pub counted : cache_used (alloc s).1 ≡ suc (cache_used s)
  pub marked : (alloc s).1 ≡ set_bit i true s
  pub freed : free (s.first_slot + i * s.size) (alloc s).1 ≡ s

alloc-some :
    (s : Slab) (i : ℕ)
    → free_bit s ≡ some i
    → alloc s ≡ (add32 s.first_slot (i * s.size), set_bit i true s)
unfolding alloc take_bit
alloc-some s i h = ap (λ o. take_bit o s) h

free_slot : (s : Slab) (ptr i : ℕ) → index_of ptr s ≡ i → i < 32 → free ptr s ≡ set_bit i false s
unfolding free
free_slot s ptr i e low =
    let hit : ltb i 32 ≡ true = ground (arith, low) in
    ap (λ k. if ltb k 32 then set_bit k false s else s) e
    ∙ ap (λ b. if b then set_bit i false s else s) hit

free_bit-IsObject : (s : Slab) (i : ℕ) → IsCache s → free_bit s ≡ some i → IsObject s i
unfolding cache_used
free_bit-IsObject s i c h =
    let (low, clear) = find_free s.bitmap i h in
    let low' : i < 32 = omega (arith, low, c.bits) in
    let (whole, back) = index_of_slot s.first_slot s.size i c.positive c.room low' in
    let got = alloc-some s i h in
    let at : (alloc s).0 ≡ s.first_slot + i * s.size = ap (λ (p : ℕ × Slab). p.0) got ∙ whole in
    let after : (alloc s).1 ≡ set_bit i true s = ap (λ (p : ℕ × Slab). p.1) got in
    record {
      inside = low';
      was_free = clear;
      address = at;
      not_null = omega (arith, at, c.block);
      counted = ap (λ (t : Slab). count_if (λ b. b) t.bitmap) after ∙ count_set i s.bitmap clear;
      marked = after;
      freed =
          ap (free (s.first_slot + i * s.size)) after
          ∙ free_slot (set_bit i true s) (s.first_slot + i * s.size) i
              (ap (λ p. sub32 p s.first_slot / s.size) (sym whole) ∙ back) low'
          ∙ ap (λ bits. record s { bitmap = bits }) (clear_set i s.bitmap clear);
    }

-- `slab_alloc` of a cache that has a block in the address space either finds all 32 objects in use, answers
-- NULL and changes nothing, or hands out the address of one that was free, which is not NULL: one more
-- object is in use, no other changes, and `slab_free` of the address restores the cache.
pub alloc-IsObject :
    (s : Slab) → IsCache s → ((alloc s ≡ (0, s)) × (cache_used s ≡ 32)) ⊎ ((i : ℕ) × IsObject s i)
unfolding cache_used alloc take_bit
alloc-IsObject s c = elim (Option-cases (free_bit s)) [
  | inl full ↦ inl (ap (λ o. take_bit o s) full, find_full s.bitmap full ∙ c.bits)
  | inr (i, h) ↦ inr (i, free_bit-IsObject s i c h)
]
