-- ===== src/Memory/Buddy/Blocks.antt =====
-- Every free block lies in the range of the allocator: kept by the two list operations.
use native.Mathlib.Decide.{ℕ_discrete}
use native.Mathlib.Nat.{pow-suc}
use aevros.Base.{
  ℕ, zero, suc, ◌+◌, ◌^◌, ◌≤◌, ◌<◌, ◌≡◌, sym, ◌∙◌, subst, true, List, [], ◌∷◌, arith, ◌==◌, inl,
  inr, length, length-update_at, get_or-update_self, get_or-update_ne, All, Bool-cases,
}
use aevros.Memory.Buddy.{
  Buddy, block_bytes, unlink, is_listed, list_at, max_order, set_list, add_to_list,
}
use aevros.Memory.Buddy.Cover.{covers, covers_block, covers_list, covers-set_list}

-- The block at `b` lies in the range, and not at `NULL`.
pub record Fits (start end order b : ℕ) : Type 0 where
  pub positive : 0 < b
  pub low : start ≤ b
  pub high : b + block_bytes order ≤ end

-- There is a list for each order, and every block in it fits; the end is a `uint32_t`.
pub record IsBuddy (s : Buddy) : Type 0 where
  pub lists : length s.free_lists ≡ suc max_order
  pub small : s.end < 2 ^ 32
  pub blocks : (order : ℕ) → All (Fits s.start s.end order) (list_at order s)

pub pow_pos : (k : ℕ) → 0 < 2 ^ k
pow_pos zero = omega arith
pow_pos (suc k) = omega (arith, pow-suc 2 k, pow_pos k)

pub block_bytes_pos : (k : ℕ) → 0 < block_bytes k
block_bytes_pos k = omega (arith, pow_pos k)

pub All-unlink : (P : ℕ → Type 0) (b : ℕ) (l : List ℕ) → All P l → All P (unlink b l)
unfolding unlink
All-unlink P b [] a = tt
All-unlink P b (x ∷ l) (h, rest) = elim (Bool-cases (x == b)) [
  | inl e ↦ rw e rest
  | inr e ↦ rw e (h, All-unlink P b l rest)
]

pub All-listed : (P : ℕ → Type 0) (b : ℕ) (l : List ℕ) → All P l → is_listed b l ≡ true → P b
unfolding is_listed
All-listed P b [] a h = absurd (ground arith)
All-listed P b (x ∷ l) (h, rest) e = elim (ℕ_discrete x b) [
  | yes same ↦ subst P same h
  | no apart ↦ All-listed P b l rest (ground (arith, e))
]

-- A new list for one order, of blocks that fit.
pub set_list-IsBuddy :
    (order : ℕ) (f : List ℕ → List ℕ) (s : Buddy)
    → IsBuddy s
    → order ≤ max_order
    → All (Fits s.start s.end order) (f (list_at order s))
    → IsBuddy (set_list order f s)
set_list-IsBuddy order f s v le a = record {
  lists = length-update_at order f s.free_lists ∙ v.lists;
  small = v.small;
  blocks = λ k. elim (ℕ_discrete order k) [
    | yes same ↦
        subst (λ j. All (Fits s.start s.end j) (list_at j (set_list order f s))) same
          (subst (All (Fits s.start s.end order))
            (sym (get_or-update_self order f s.free_lists [] (omega (arith, v.lists)))) a)
    | no apart ↦
        subst (All (Fits s.start s.end k)) (sym (get_or-update_ne order k f s.free_lists [] apart))
          (v.blocks k)
  ];
}

-- A block that fits is added, at the front of its list.
pub add_to_list_lem :
    (b order : ℕ) (s : Buddy)
    → Fits s.start s.end order b
    → order ≤ max_order
    → add_to_list b order s ≡ set_list order (λ l. b ∷ l) s
unfolding add_to_list
add_to_list_lem b order s h le = ground (arith, h.positive, h.low, h.high, block_bytes_pos order)

pub add_to_list-IsBuddy :
    (b order : ℕ) (s : Buddy)
    → IsBuddy s
    → Fits s.start s.end order b
    → order ≤ max_order
    → IsBuddy (add_to_list b order s)
add_to_list-IsBuddy b order s v h le =
    rw (add_to_list_lem b order s h le)
      (set_list-IsBuddy order (λ l. b ∷ l) s v le (h, v.blocks order))

pub covers-add_to_list :
    (p b order : ℕ) (s : Buddy)
    → IsBuddy s
    → Fits s.start s.end order b
    → order ≤ max_order
    → covers p (add_to_list b order s) ≡ covers p s + covers_block p order b
unfolding covers_list
covers-add_to_list p b order s v h le =
    rw (add_to_list_lem b order s h le)
      (omega (arith, covers-set_list p order (λ l. b ∷ l) s (omega (arith, v.lists))))
