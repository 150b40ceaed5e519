-- ===== src/Memory/Buddy/Cover.antt =====
-- Which bytes the free blocks cover, and how often: the accounting of the buddy allocator.
use native.Mathlib.Nat.{pow-suc}
use native.Mathlib.Numerals.{towards_suc}
use aevros.Base.{
  ℕ, zero, suc, ◌+◌, ◌*◌, ◌^◌, ◌<◌, ◌≡◌, ap, ◌∙◌, true, ◌&&◌, List, [], ◌∷◌, arith, ltb, leb,
  if◌then◌else◌, get_or, length, update_at, flip, bit_xor, bit_xor-pow,
}
use aevros.Memory.Buddy.{Buddy, block_bytes, unlink, is_listed, list_at, set_list}

pub block_bytes-suc : (k : ℕ) → block_bytes (suc k) ≡ block_bytes k + block_bytes k
block_bytes-suc k = omega (arith, pow-suc 2 k)

block_bytes-next : (k : ℕ) → block_bytes (k + 1) ≡ block_bytes k + block_bytes k
block_bytes-next k = let e : k + 1 ≡ suc k = omega arith in ap block_bytes e ∙ block_bytes-suc k

pow_six : (k : ℕ) → 2 ^ (k + 6) ≡ 2 ^ k * 64
pow_six k = simp towards_suc (omega (arith, pow-suc 2 k))

block_bytes-pow : (k : ℕ) → block_bytes k ≡ 2 ^ (k + 6 + 6)
block_bytes-pow k = omega (arith, pow_six k, pow_six (k + 6))

pub bit_xor-block_bytes : (a k : ℕ) → bit_xor a (block_bytes k) ≡ flip a (block_bytes k)
bit_xor-block_bytes a k = rw (block_bytes-pow k) (bit_xor-pow (k + 6 + 6) a)

-- 1 if the block of this order at `b` holds the byte at `p`.
abbrev pub covers_block : ℕ → ℕ → ℕ → ℕ
covers_block p order b = if leb b p && ltb p (b + block_bytes order) then 1 else 0

unfoldable pub covers_list : ℕ → ℕ → List ℕ → ℕ
covers_list p order [] = 0
covers_list p order (b ∷ l) = covers_block p order b + covers_list p order l

-- The lists of the orders from `order` on.
unfoldable pub covers_from : ℕ → ℕ → List (List ℕ) → ℕ
covers_from p order [] = 0
covers_from p order (l ∷ ls) = covers_list p order l + covers_from p (suc order) ls

-- How many free blocks hold the byte at `p`.
abbrev pub covers : ℕ → Buddy → ℕ
covers p s = covers_from p 0 s.free_lists

covers-update :
    (p k i : ℕ) (f : List ℕ → List ℕ) (ls : List (List ℕ))
    → i < length ls
    → covers_from p k (update_at i f ls) + covers_list p (k + i) (get_or ls i [])
      ≡ covers_from p k ls + covers_list p (k + i) (f (get_or ls i []))
unfolding covers_from
covers-update p k i f [] h = absurd (omega arith)
covers-update p k zero f (l ∷ ls) h = let e : k + 0 ≡ k = omega arith in rw e (omega arith)
covers-update p k (suc i) f (l ∷ ls) h =
    let e : k + suc i ≡ suc k + i = omega arith in
    let ih = covers-update p (suc k) i f ls (omega arith) in rw e (omega arith)

-- A change of one list shows in what that list covers.
pub covers-set_list :
    (p order : ℕ) (f : List ℕ → List ℕ) (s : Buddy)
    → order < length s.free_lists
    → covers p (set_list order f s) + covers_list p order (list_at order s)
      ≡ covers p s + covers_list p order (f (list_at order s))
covers-set_list p order f s h =
    let e : 0 + order ≡ order = omega arith in rw e at (covers-update p 0 order f s.free_lists h)

-- Unlinking a listed block takes away what it covers.
pub covers-unlink :
    (p order b : ℕ) (l : List ℕ)
    → is_listed b l ≡ true
    → covers_list p order l ≡ covers_block p order b + covers_list p order (unlink b l)
unfolding covers_list unlink is_listed
covers-unlink p order b [] h = absurd (ground arith)
covers-unlink p order b (x ∷ l) h = ground (arith, covers-unlink p order b l)

-- A block is its two halves.
pub covers-halves :
    (p k b : ℕ)
    → covers_block p (suc k) b ≡ covers_block p k b + covers_block p k (b + block_bytes k)
covers-halves p k b = ground (arith, block_bytes-suc k)
