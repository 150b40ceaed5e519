-- ===== src/Networking/Why/Top.antt =====
-- The reason that `why_top_reason` gives.
use native.Mathlib.Decide.{dec_lt, ℕ_discrete}
use aevros.Base.{
  ℕ, zero, suc, ◌+◌, ◌<◌, ◌≤◌, ◌≡◌, refl, ◌⊎◌, inl, inr, arith, ◌==◌, if◌then◌else◌, subst,
}
use aevros.Networking.Why.{State, cell, count, top_from, top_reason}

-- The count of the best reason so far, 0 if there is none.
abbrev bar : ℕ → ℕ → State → ℕ
bar best id s = if best == 0 then 0 else cell s.counts id best

top_from-higher :
    (k r best id : ℕ) (s : State)
    → bar best id s < cell s.counts id r
    → top_from (suc k) r best id s ≡ top_from k (r + 1) r id s
unfolding top_from
top_from-higher k r best id s h = ground (arith, h)

top_from-same :
    (k r best id : ℕ) (s : State)
    → cell s.counts id r ≤ bar best id s
    → top_from (suc k) r best id s ≡ top_from k (r + 1) best id s
unfolding top_from
top_from-same k r best id s h = ground (arith, h)

-- The result beats the best so far and all that is left to see.
record Best (k r best id : ℕ) (s : State) (t : ℕ) : Type 0 where
  range : (t ≡ best) ⊎ (r ≤ t) × (t < r + k)
  beats : bar best id s ≤ bar t id s
  all : (j : ℕ) → r ≤ j → j < r + k → cell s.counts id j ≤ bar t id s

top_from-Best : (k r best id : ℕ) (s : State) → 0 < r → Best k r best id s (top_from k r best id s)
unfolding top_from
top_from-Best zero r best id s pos = record {
  range = inl refl;
  beats = omega arith;
  all = λ j lo hi. absurd (omega arith);
}
top_from-Best (suc k) r best id s pos = elim (dec_lt (bar best id s) (cell s.counts id r)) [
  | yes more ↦
      let b = top_from-Best k (r + 1) r id s (omega arith) in
      let this : bar r id s ≡ cell s.counts id r = ground (arith, pos) in
      rw (top_from-higher k r best id s more) (record {
        range = elim b.range [
          | inl e ↦ inr (omega (arith, e), omega (arith, e))
          | inr (lo, hi) ↦ inr (omega (arith, lo), omega (arith, hi))
        ];
        beats = omega (arith, b.beats, this);
        all = λ j lo hi. elim (ℕ_discrete r j) [
          | yes same ↦
              subst (λ i. cell s.counts id i ≤ bar (top_from k (r + 1) r id s) id s) same
                (omega (arith, b.beats, this))
          | no apart ↦ b.all j (omega (arith, apart)) (omega arith)
        ];
      })
  | no less ↦
      let b = top_from-Best k (r + 1) best id s (omega arith) in
      rw (top_from-same k r best id s (omega arith)) (record {
        range = elim b.range [
          | inl e ↦ inl e
          | inr (lo, hi) ↦ inr (omega (arith, lo), omega (arith, hi))
        ];
        beats = b.beats;
        all = λ j lo hi. elim (ℕ_discrete r j) [
          | yes same ↦
              subst (λ i. cell s.counts id i ≤ bar (top_from k (r + 1) best id s) id s) same
                (omega (arith, b.beats))
          | no apart ↦ b.all j (omega (arith, apart)) (omega arith)
        ];
      })
]

-- No reason counts more than the one that `why_top_reason` gives; it gives none only where all
-- counts are 0.
pub top_reason-greatest :
    (id reason : ℕ) (s : State)
    → (count id reason s ≤ count id (top_reason id s) s) × (top_reason id s < 7)
unfolding count top_reason
top_reason-greatest id reason s =
    let b = top_from-Best 6 1 0 id s (omega arith) in
    (ground (arith, b.all reason, b.range, b.beats), ground (arith, b.range))
