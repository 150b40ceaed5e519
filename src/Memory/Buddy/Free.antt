-- ===== src/Memory/Buddy/Free.antt =====
-- What `buddy_free` gives back.
use aevros.Base.{
  ℕ, zero, suc, ◌+◌, ◌-◌, ◌/◌, ◌%◌, ◌≤◌, ◌≡◌, refl, sym, ap, ◌∙◌, true, false, ◌||◌, arith, ltb,
  leb, ◌==◌, inl, inr, Bool-cases, bit_xor, flip, flip_set, subst,
}
use aevros.Memory.Buddy.{
  Buddy, block_bytes, unlink, is_listed, list_at, max_order, set_list, add_to_list, clear_bit,
  merge, free,
}
use aevros.Memory.Buddy.Cover.{
  covers, covers_block, covers-set_list, covers-unlink, covers-halves, block_bytes-suc,
  bit_xor-block_bytes,
}
use aevros.Memory.Buddy.Blocks.{
  Fits, IsBuddy, set_list-IsBuddy, add_to_list-IsBuddy, covers-add_to_list, All-unlink, All-listed,
  block_bytes_pos,
}

abbrev buddy_of : ℕ → ℕ → ℕ
buddy_of a order = bit_xor a (block_bytes order)

merge-stops :
    (d a order : ℕ) (s : Buddy)
    → is_listed (buddy_of a order) (list_at order s) ≡ false
    → merge (suc d) a order s ≡ add_to_list a order s
unfolding merge
merge-stops d a order s h = ground (arith, h)

merge-outside :
    (d a order : ℕ) (s : Buddy)
    → (ltb (buddy_of a order) s.start || leb s.end (buddy_of a order)) ≡ true
    → merge (suc d) a order s ≡ add_to_list a order s
unfolding merge
merge-outside d a order s h = ground (arith, h)

merge-joins :
    (d a order : ℕ) (s : Buddy)
    → (ltb (buddy_of a order) s.start || leb s.end (buddy_of a order)) ≡ false
    → is_listed (buddy_of a order) (list_at order s) ≡ true
    → merge (suc d) a order s
      ≡ merge d
          (clear_bit a (block_bytes order))
          (order + 1)
          (set_list order (unlink (buddy_of a order)) s)
unfolding merge
merge-joins d a order s h k = ground (arith, h, k)

-- A block and its buddy are the halves of the block that they join to.
joined :
    (start end k a b : ℕ)
    → b ≡ flip a (block_bytes k)
    → Fits start end k a
    → Fits start end k b
    → Fits start end (suc k) (clear_bit a (block_bytes k))
      × ((q : ℕ)
          → covers_block q (suc k) (clear_bit a (block_bytes k))
            ≡ covers_block q k a + covers_block q k b)
joined start end k a b e fa fb = elim (Bool-cases ((a / block_bytes k) % 2 == 0)) [
  | inl even ↦
      let here : b ≡ a + block_bytes k = rw even at e in
      rw even (
        record {
          positive = fa.positive;
          low = fa.low;
          high = omega (arith, fb.high, block_bytes-suc k);
        },
        λ q. covers-halves q k a ∙ ap (λ x. covers_block q k a + covers_block q k x) (sym here),
      )
  | inr odd ↦
      let here : b ≡ a - block_bytes k = rw odd at e in
      let big : block_bytes k ≤ a = flip_set a (block_bytes k) (ground (arith, odd)) in
      let above : b + block_bytes k ≡ a = omega arith in
      rw odd (
        record {
          positive = omega (arith, fb.positive);
          low = omega (arith, fb.low);
          high = omega (arith, fa.high, block_bytes-suc k);
        },
        λ q. omega (
          arith,
          covers-halves q k b,
          ap (covers_block q k) above,
          ap (covers_block q k) here,
          ap (covers_block q (suc k)) here,
        ),
      )
]

abbrev Merged : ℕ → ℕ → Buddy → Buddy → Type 0
Merged a order s t = IsBuddy t × ((q : ℕ) → covers q t ≡ covers q s + covers_block q order a)

added :
    (a order : ℕ) (s : Buddy)
    → IsBuddy s
    → order ≤ max_order
    → Fits s.start s.end order a
    → Merged a order s (add_to_list a order s)
added a order s v le fit =
    (add_to_list-IsBuddy a order s v fit le, λ q. covers-add_to_list q a order s v fit le)

merge-last : (a order : ℕ) (s : Buddy) → merge zero a order s ≡ add_to_list a order s
unfolding merge
merge-last a order s = refl

-- The block ends up in the free lists, joined with what it can be joined with.
merge_lem :
    (d a order : ℕ) (s : Buddy)
    → IsBuddy s
    → order + d ≡ max_order
    → Fits s.start s.end order a
    → Merged a order s (merge d a order s)
merge_lem zero a order s v at fit = rw (merge-last a order s) (added a order s v (omega arith) fit)
merge_lem (suc d) a order s v at fit =
    elim (Bool-cases (ltb (buddy_of a order) s.start || leb s.end (buddy_of a order))) [
      | inl outside ↦ rw (merge-outside d a order s outside) (added a order s v (omega arith) fit)
      | inr inside ↦ elim (Bool-cases (is_listed (buddy_of a order) (list_at order s))) [
        | inr alone ↦ rw (merge-stops d a order s alone) (added a order s v (omega arith) fit)
        | inl listed ↦
            let b = buddy_of a order in
            let next : suc order ≡ order + 1 = omega arith in
            let fb : Fits s.start s.end order b =
              All-listed (Fits s.start s.end order) b (list_at order s) (v.blocks order) listed in
            let (fits, parts) =
              joined s.start s.end order a b (bit_xor-block_bytes a order) fit fb in
            let s' = set_list order (unlink b) s in
            let v' : IsBuddy s' =
              set_list-IsBuddy order (unlink b) s v (omega arith)
                (All-unlink (Fits s.start s.end order) b (list_at order s) (v.blocks order)) in
            let (valid, cover) =
              merge_lem d (clear_bit a (block_bytes order)) (order + 1) s' v' (omega arith)
                (subst (λ k. Fits s.start s.end k (clear_bit a (block_bytes order))) next fits) in
            rw (merge-joins d a order s inside listed) (
              valid,
              λ q. omega (
                arith,
                cover q,
                parts q,
                ap (λ k. covers_block q k (clear_bit a (block_bytes order))) next,
                covers-set_list q order (unlink b) s (omega (arith, v.lists)),
                covers-unlink q order b (list_at order s) listed,
              ),
            )
      ]
    ]

free-merges :
    (p order : ℕ) (s : Buddy)
    → order ≤ max_order
    → Fits s.start s.end order p
    → p % block_bytes order ≡ 0
    → free p order s ≡ merge (max_order - order) p order s
unfolding free
free-merges p order s le fit aligned =
    ground (arith, fit.positive, fit.low, fit.high, block_bytes_pos order, aligned)

-- `buddy_free` of a block that lies in the range, at a multiple of its size, gives back just that
-- block: afterwards the free blocks cover each byte as often as before, and each byte of the block
-- once more, however many buddies were joined; and they all lie in the range.
pub covers-free :
    (p order q : ℕ) (s : Buddy)
    → IsBuddy s
    → order ≤ max_order
    → Fits s.start s.end order p
    → p % block_bytes order ≡ 0
    → (covers q (free p order s) ≡ covers q s + covers_block q order p) × IsBuddy (free p order s)
covers-free p order q s v le fit aligned =
    let (valid, cover) = merge_lem (max_order - order) p order s v (omega arith) fit in
    rw (free-merges p order s le fit aligned) (cover q, valid)
