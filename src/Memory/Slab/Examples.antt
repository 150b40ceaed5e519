-- ===== src/Memory/Slab/Examples.antt =====
-- A cache of 64-byte objects, of which the first is in use.
use aevros.Base.{ℕ, ◌⊎◌, ◌≡◌, refl, true, false, ◌∷◌, replicate, arith}
use aevros.Memory.Slab.{Slab, alloc, cache_used}
use aevros.Memory.Slab.Objects.{IsCache, IsObject, alloc-IsObject}

abbrev cache : Slab
cache = record { bitmap = true ∷ replicate 31 false; first_slot = 8192; size = 64 }

cache-IsCache : IsCache cache
cache-IsCache = record {
  block = omega arith;
  bits = refl;
  positive = omega arith;
  room = omega arith;
}

alloc-IsObject_example :
    ((alloc cache ≡ (0, cache)) × (cache_used cache ≡ 32)) ⊎ ((i : ℕ) × IsObject cache i)
alloc-IsObject_example = alloc-IsObject cache cache-IsCache
