-- ===== src/Memory/Slab.antt =====
-- kernel/Memory/slab.c: caches of 32 objects of one size, each in a block of Buddy. The `bitmap` is the
-- list of its 32 bits, the lowest first. `NULL` is 0, in `first_slot` and as the answer of `slab_alloc`.
pub mod Objects
mod Examples
use aevros.Memory.Buddy
use aevros.Base.{
  ℕ, ◌+◌, ◌-◌, ◌*◌, ◌/◌, ◌%◌, ◌^◌, Bool, true, false, not, Option, none, some, List, [], ◌∷◌, ltb,
  if◌then◌else◌, add32, sub32, get_or, update_at, find_index, count_if, replicate,
}

abbrev pub slots_per_cache : ℕ
slots_per_cache = 32

abbrev pub num_caches : ℕ
num_caches = 3

-- `slab_t`
pub record Slab : Type 0 where
  pub bitmap : List Bool
  pub first_slot : ℕ
  pub size : ℕ

abbrev pub or_null : Option ℕ → ℕ
or_null none = 0
or_null (some p) = p

pub init : ℕ → Buddy.Buddy → Slab × Buddy.Buddy
init size b =
    let (block, b') = Buddy.alloc 0 b in
    (
      record { bitmap = replicate slots_per_cache false; first_slot = or_null block; size = size },
      b',
    )

-- The three caches.
pub record Caches : Type 0 where
  pub cache_32b : Slab
  pub cache_64b : Slab
  pub cache_128b : Slab

pub init_all : Buddy.Buddy → Caches × Buddy.Buddy
init_all b =
    let (c64, b1) = init 64 b in
    let (c128, b2) = init 128 b1 in
    let (c32, b3) = init 32 b2 in
    (record { cache_32b = c32; cache_64b = c64; cache_128b = c128 }, b3)

-- `__builtin_ctz(~bitmap)`, where a bit is free.
abbrev pub free_bit : Slab → Option ℕ
free_bit s = find_index not s.bitmap

abbrev pub set_bit : ℕ → Bool → Slab → Slab
set_bit i b s = record s { bitmap = update_at i (λ _. b) s.bitmap }

pub take_bit : Option ℕ → Slab → ℕ × Slab
take_bit none s = (0, s)
take_bit (some i) s = (add32 s.first_slot (i * s.size), set_bit i true s)

pub alloc : Slab → ℕ × Slab
alloc s = take_bit (free_bit s) s

abbrev pub index_of : ℕ → Slab → ℕ
index_of ptr s = sub32 ptr s.first_slot / s.size

pub free : ℕ → Slab → Slab
free ptr s = if ltb (index_of ptr s) slots_per_cache then set_bit (index_of ptr s) false s else s

pub cache_used : Slab → ℕ
cache_used s = count_if (λ b. b) s.bitmap

pub cache_free : Slab → ℕ
cache_free s = slots_per_cache - cache_used s

pub used_count : Caches → ℕ
used_count c = cache_used c.cache_32b + cache_used c.cache_64b + cache_used c.cache_128b

pub objects_used : Caches → ℕ
objects_used c = used_count c

pub objects_free : Caches → ℕ
objects_free c = num_caches * slots_per_cache - used_count c

abbrev pub bytes_of : (Slab → ℕ) → Caches → ℕ
bytes_of f c =
    (f c.cache_32b * c.cache_32b.size
      + f c.cache_64b * c.cache_64b.size
      + f c.cache_128b * c.cache_128b.size)
    % 2 ^ 32

pub used_bytes : Caches → ℕ
used_bytes c = bytes_of cache_used c

pub free_bytes : Caches → ℕ
free_bytes c = bytes_of cache_free c
