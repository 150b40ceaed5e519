-- ===== src/Memory/Buddy/Alloc.antt =====
-- What `buddy_alloc` hands out.
use native.Mathlib.Decide.{dec_le}
use aevros.Base.{
  ℕ, zero, suc, ◌+◌, ◌-◌, ◌≤◌, ◌<◌, ◌≡◌, refl, sym, ap, ◌⊎◌, Option, none, some, List, [], ◌∷◌,
  arith, drop, drop_all, drop-get_or, List-cases, subst, inl, inr, All,
}
use aevros.Memory.Buddy.{
  Buddy, unlink, is_listed, list_at, max_order, set_list, remove_from_list, split, scan, alloc,
}
use aevros.Memory.Buddy.Cover.{covers_block, covers_list, covers-set_list, covers-unlink}
use aevros.Memory.Buddy.Blocks.{Fits, IsBuddy, set_list-IsBuddy, All-unlink}
use aevros.Memory.Buddy.Split.{Takes, split-Takes, remove-head}

-- A call either finds every list from its order up empty, and changes nothing, or takes a block.
abbrev pub Outcome : ℕ → Buddy → Option ℕ × Buddy → Type 0
Outcome order s r =
    (r ≡ (none, s)) × All (λ l. l ≡ []) (drop order s.free_lists)
    ⊎ ((b : ℕ) × (r.0 ≡ some b) × Takes order b s r.1)

-- The first block of the list `i`, unlinked and split.
taken :
    (i d order b : ℕ) (rest : List ℕ) (s : Buddy)
    → IsBuddy s
    → order + d ≡ i
    → i ≤ max_order
    → list_at i s ≡ b ∷ rest
    → Takes order b s (split d b order (remove_from_list b i s))
unfolding is_listed
taken i d order b rest s v at le e =
    let fit : Fits s.start s.end i b = (subst (All (Fits s.start s.end i)) e (v.blocks i)).0 in
    let s' = set_list i (unlink b) s in
    let v' : IsBuddy s' =
      set_list-IsBuddy i (unlink b) s v le
        (All-unlink (Fits s.start s.end i) b (list_at i s) (v.blocks i)) in
    let (valid, cover, fits, low, high) =
      split-Takes d b order s' v' (omega arith)
        (subst (λ k. Fits s.start s.end k b) (sym at) fit) in
    rw (remove-head b i s fit le) (record {
      fits = fits;
      valid = valid;
      cover = λ p. omega (
        arith,
        cover p,
        ap (λ k. covers_block p k b) at,
        covers-set_list p i (unlink b) s (omega (arith, v.lists)),
        covers-unlink p i b (list_at i s) (rw e (ground arith)),
      );
      same_start = low;
      same_end = high;
    })

scan-empty :
    (k i order : ℕ) (s : Buddy) → list_at i s ≡ [] → scan (suc k) i order s ≡ scan k (i + 1) order s
unfolding scan
scan-empty k i order s e = ground (arith, e)

scan-hit :
    (k i order b : ℕ) (rest : List ℕ) (s : Buddy)
    → list_at i s ≡ b ∷ rest
    → scan (suc k) i order s ≡ (some b, split (i - order) b order (remove_from_list b i s))
unfolding scan
scan-hit k i order b rest s e = ground (arith, e)

scan-done : (i order : ℕ) (s : Buddy) → scan zero i order s ≡ (none, s)
unfolding scan
scan-done i order s = refl

scan-Outcome :
    (k i order : ℕ) (s : Buddy)
    → IsBuddy s
    → order < i
    → i + k ≡ suc max_order
    → (scan k i order s ≡ (none, s)) × All (λ l. l ≡ []) (drop i s.free_lists)
      ⊎ ((b : ℕ) × ((scan k i order s).0 ≡ some b) × Takes order b s (scan k i order s).1)
scan-Outcome zero i order s v lt le =
    inl (scan-done i order s, rw (drop_all i s.free_lists (omega (arith, v.lists))) tt)
scan-Outcome (suc k) i order s v lt le = elim (List-cases (list_at i s)) [
  | inl e ↦
      rw (scan-empty k i order s e, drop-get_or i s.free_lists [] (omega (arith, v.lists)))
        (elim (scan-Outcome k (i + 1) order s v (omega arith) (omega arith)) [
          | inl (same, empty) ↦ inl (same, (e, empty))
          | inr hit ↦ inr hit
        ])
  | inr (b, rest, e) ↦
      rw (scan-hit k i order b rest s e)
        (inr (b, refl, taken i (i - order) order b rest s v (omega arith) (omega arith) e))
]

alloc-head :
    (order b : ℕ) (next : List ℕ) (s : Buddy)
    → order ≤ max_order
    → list_at order s ≡ b ∷ next
    → alloc order s ≡ (some b, set_list order (λ _. next) s)
unfolding alloc
alloc-head order b next s le e = ground (arith, e)

alloc-larger :
    (order : ℕ) (s : Buddy)
    → order ≤ max_order
    → list_at order s ≡ []
    → alloc order s ≡ scan (max_order - order) (order + 1) order s
unfolding alloc
alloc-larger order s le e = ground (arith, e)

alloc-invalid : (order : ℕ) (s : Buddy) → max_order < order → alloc order s ≡ (none, s)
unfolding alloc
alloc-invalid order s h = ground arith

head-Takes :
    (order b : ℕ) (next : List ℕ) (s : Buddy)
    → IsBuddy s
    → order ≤ max_order
    → list_at order s ≡ b ∷ next
    → Takes order b s (set_list order (λ _. next) s)
unfolding covers_list
head-Takes order b next s v le e =
    let all : All (Fits s.start s.end order) (b ∷ next) =
      subst (All (Fits s.start s.end order)) e (v.blocks order) in
    record {
      fits = all.0;
      valid = set_list-IsBuddy order (λ _. next) s v le all.1;
      cover = λ p. omega (
        arith,
        covers-set_list p order (λ _. next) s (omega (arith, v.lists)),
        ap (covers_list p order) e,
      );
      same_start = refl;
      same_end = refl;
    }

-- `buddy_alloc` of an order either finds no free block of that order or a larger one, and changes
-- nothing, or hands out a block that lies in the range. The free blocks that are left and that
-- block together then cover each byte as often as the free blocks did before the call: no byte is
-- lost, and none is handed out twice.
pub alloc-Outcome : (order : ℕ) (s : Buddy) → IsBuddy s → Outcome order s (alloc order s)
alloc-Outcome order s v = elim (dec_le order max_order) [
  | no big ↦ inl (
    alloc-invalid order s (omega arith),
    rw (drop_all order s.free_lists (omega (arith, v.lists))) tt,
  )
  | yes le ↦ elim (List-cases (list_at order s)) [
    | inr (b, next, e) ↦
        rw (alloc-head order b next s le e) (inr (b, refl, head-Takes order b next s v le e))
    | inl e ↦
        rw (alloc-larger order s le e, drop-get_or order s.free_lists [] (omega (arith, v.lists)))
          (elim (scan-Outcome (max_order - order) (order + 1) order s v (omega arith)
            (omega arith)) [ inl (same, empty) ↦ inl (same, (e, empty)) | inr hit ↦ inr hit ])
  ]
]

pub alloc-IsBuddy : (order : ℕ) (s : Buddy) → IsBuddy s → IsBuddy (alloc order s).1
alloc-IsBuddy order s v = elim (alloc-Outcome order s v) [
  | inl (e, _) ↦ rw e v
  | inr (b, _, takes) ↦ takes.valid
]
