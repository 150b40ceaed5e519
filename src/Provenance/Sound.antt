-- ===== src/Provenance/Sound.antt =====
-- A trace finds only records in reach of its start.
use native.Mathlib.Decide.{dec_le}
use aevros.Base.{
  ℕ, zero, suc, ◌+◌, ◌≡◌, sym, inl, inr, Bool, true, not, ◌&&◌, List, [], ◌∷◌, ltb, length, arith,
  Bool-cases, List-cases, All, subst,
}
use aevros.Provenance.{
  Entity, Record, Walk, max_records, from_of, next_of, is_visited, follow, visit, walk,
}
use aevros.Provenance.Reach.{
  In, Reach, onward, entity_equal→eq, All-append, All-In, visit-limit, visit-leaves, visit-passes,
  leaves, walk-limit, walk-done, walk-round,
}

module _ (forward : Bool) (rs : List Record) (start : Entity) where
  -- A valid record of the log that leaves an entity in reach.
  pub record Leads (r : Record) : Type 0 where
    pub listed : In r rs
    pub is_valid : r.valid ≡ true
    pub reached : Reach forward rs start (from_of forward r)

  -- What every step of the trace keeps.
  pub record Sound (w : Walk) : Type 0 where
    pub queued : All (Reach forward rs start) w.queue
    pub found : All Leads w.results

  follow-Sound : (r : Record) (w : Walk) → Sound w → Leads r → Sound (follow forward r w)
  unfolding follow
  follow-Sound r w s h =
      elim (Bool-cases (
        not (is_visited (next_of forward r) w.visited)
        && ltb (length w.visited) (max_records + 1))) [
          | inl e ↦ rw e (record {
            queued =
                All-append (Reach forward rs start) w.queue (next_of forward r ∷ []) s.queued
                  (onward r h.listed h.is_valid h.reached, tt);
            found = All-append Leads w.results (r ∷ []) s.found (h, tt);
          })
          | inr e ↦ rw e (record {
            queued = s.queued;
            found = All-append Leads w.results (r ∷ []) s.found (h, tt);
          })
        ]

  visit-Sound :
      (max : ℕ) (e : Entity) (l : List Record) (w : Walk)
      → Reach forward rs start e
      → All (λ r. In r rs) l
      → Sound w
      → Sound (visit forward max e l w)
  unfolding visit
  visit-Sound max e [] w reach listed s = s
  visit-Sound max e (r ∷ l) w reach (h, listed) s = elim (dec_le max (length w.results)) [
    | yes full ↦ rw (visit-limit forward max e (r ∷ l) w full) s
    | no room ↦ elim (Bool-cases (leaves forward e r)) [
      | inr apart ↦
          rw (visit-passes forward max e r l w (omega arith) apart)
            (visit-Sound max e l w reach listed s)
      | inl out ↦
          let same : from_of forward r ≡ e =
            entity_equal→eq (from_of forward r) e (ground (arith, out)) in
          rw (visit-leaves forward max e r l w (omega arith) out) (
            visit-Sound max e l (follow forward r w) reach listed (
              follow-Sound r w s (record {
                listed = h;
                is_valid = ground (arith, out);
                reached = subst (Reach forward rs start) (sym same) reach;
              })))
    ]
  ]

  pub walk-Sound : (fuel max : ℕ) (w : Walk) → Sound w → Sound (walk fuel forward max rs w)
  unfolding walk
  walk-Sound zero max w s = s
  walk-Sound (suc fuel) max w s = elim (dec_le max (length w.results)) [
    | yes full ↦ rw (walk-limit (suc fuel) forward max rs w full) s
    | no room ↦ elim (List-cases w.queue) [
      | inl e ↦ rw (walk-done (suc fuel) forward max rs w e) s
      | inr (e, rest, q) ↦
          let (reach, others) = subst (All (Reach forward rs start)) q s.queued in
          rw (walk-round fuel forward max rs w e rest (omega arith) q) (
            walk-Sound fuel max (visit forward max e rs (record w { queue = rest })) (
              visit-Sound max e rs (record w { queue = rest }) reach (All-In rs)
                (record { queued = others; found = s.found })))
    ]
  ]
