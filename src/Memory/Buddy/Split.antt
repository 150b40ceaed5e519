-- ===== src/Memory/Buddy/Split.antt =====
-- What splitting a block keeps and gives.
use aevros.Base.{ℕ, zero, suc, ◌+◌, ◌≤◌, ◌≡◌, refl, ap, ◌∙◌, arith, add32}
use aevros.Memory.Buddy.{
  Buddy, block_bytes, unlink, max_order, set_list, add_to_list, remove_from_list, split,
}
use aevros.Memory.Buddy.Cover.{covers, covers_block, covers-halves, block_bytes-suc}
use aevros.Memory.Buddy.Blocks.{
  Fits, IsBuddy, add_to_list-IsBuddy, covers-add_to_list, block_bytes_pos,
}

-- Taking `b` out of `s` as a block of this order leaves `t`.
pub record Takes (order b : ℕ) (s t : Buddy) : Type 0 where
  pub fits : Fits s.start s.end order b
  pub valid : IsBuddy t
  pub cover : (p : ℕ) → covers p t + covers_block p order b ≡ covers p s
  pub same_start : t.start ≡ s.start
  pub same_end : t.end ≡ s.end

pub range-add_to_list :
    (b order : ℕ) (s : Buddy)
    → ((add_to_list b order s).start ≡ s.start) × ((add_to_list b order s).end ≡ s.end)
unfolding add_to_list
range-add_to_list b order s = (ground arith, ground arith)

pub lower-half : (start end k b : ℕ) → Fits start end (suc k) b → Fits start end k b
lower-half start end k b h = record {
  positive = h.positive;
  low = h.low;
  high = omega (arith, h.high, block_bytes-suc k);
}

pub upper-half :
    (start end k b : ℕ) → Fits start end (suc k) b → Fits start end k (b + block_bytes k)
upper-half start end k b h = record {
  positive = omega (arith, h.positive);
  low = omega (arith, h.low);
  high = omega (arith, h.high, block_bytes-suc k);
}

pub split-none : (block order : ℕ) (s : Buddy) → split zero block order s ≡ s
unfolding split
split-none block order s = refl

pub split-once :
    (d block order : ℕ) (s : Buddy)
    → add32 block (block_bytes (order + d)) ≡ block + block_bytes (order + d)
    → split (suc d) block order s
      ≡ split d block order (add_to_list (block + block_bytes (order + d)) (order + d) s)
unfolding split
split-once d block order s h = ap (λ x. split d block order (add_to_list x (order + d) s)) h

-- The halves that `buddy_alloc` splits off go to the free lists; the first one is left.
pub split-Takes :
    (d block order : ℕ) (s : Buddy)
    → IsBuddy s
    → order + d ≤ max_order
    → Fits s.start s.end (order + d) block
    → IsBuddy (split d block order s)
      × ((p : ℕ)
          → covers p (split d block order s) + covers_block p order block
            ≡ covers p s + covers_block p (order + d) block)
      × Fits s.start s.end order block
      × ((split d block order s).start ≡ s.start)
      × ((split d block order s).end ≡ s.end)
split-Takes zero block order s v le h =
    let e : order + 0 ≡ order = omega arith in
    rw (split-none block order s, e) (v, λ p. refl, rw e at h, refl, refl)
split-Takes (suc d) block order s v le h =
    let e : order + suc d ≡ suc (order + d) = omega arith in
    let k = order + d in
    let whole : Fits s.start s.end (suc k) block = rw e at h in
    let half = upper-half s.start s.end k block whole in
    let here : add32 block (block_bytes k) ≡ block + block_bytes k =
      omega (arith, half.high, v.small, block_bytes_pos k) in
    let s' = add_to_list (block + block_bytes k) k s in
    let v' : IsBuddy s' = add_to_list-IsBuddy (block + block_bytes k) k s v half (omega arith) in
    let (low, high) = range-add_to_list (block + block_bytes k) k s in
    let (valid, cover, fits, same, same') =
      split-Takes d block order s' v' (omega arith)
        (rw (low, high) (lower-half s.start s.end k block whole)) in
    rw (split-once d block order s here) (
      valid,
      λ p. omega (
        arith,
        cover p,
        covers-add_to_list p (block + block_bytes k) k s v half (omega arith),
        covers-halves p k block,
        ap (λ j. covers_block p j block) e,
      ),
      rw (low, high) at fits,
      same ∙ low,
      same' ∙ high,
    )

pub remove-head :
    (b i : ℕ) (s : Buddy)
    → Fits s.start s.end i b
    → i ≤ max_order
    → remove_from_list b i s ≡ set_list i (unlink b) s
unfolding remove_from_list
remove-head b i s h le = ground (arith, h.positive)
