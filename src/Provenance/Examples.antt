-- ===== src/Provenance/Examples.antt =====
-- Runs of the provenance log.
use aevros.Base.{
  ℕ, ◌-◌, ◌≡◌, refl, ◌↔◌, true, false, List, [], ◌∷◌, length, arith, drop, replicate,
  length-replicate, map,
}
use aevros.Provenance.{
  Entity, Record, State, Claim, blank, reset, trace, snapshot, copy, walk, visit, follow,
  is_visited, entity_equal, oldest_slot,
}
use aevros.Provenance.Log.{log_all, history, snapshot-log_all}
use aevros.Provenance.Reach.{In}
use aevros.Provenance.Sound.{Leads}
use aevros.Provenance.Search.{trace-reach}

abbrev process : ℕ → Entity
process n = record { type = 3; id = n }

-- One process creates the next.
abbrev created : ℕ → ℕ → Claim
created a b = record { source = process a; target = process b; relation = 3; reason = 5 }

-- A chain, a claim that is refused, and a way back to the start.
abbrev calls : List (Claim × ℕ)
calls =
    (created 1 2, 10)
    ∷ (created 2 3, 20)
    ∷ (record (created 5 6) { relation = 0 }, 25)
    ∷ (created 3 1, 30)
    ∷ (created 7 8, 40)
    ∷ []

abbrev zeroed : State
zeroed = record { records = replicate 256 blank; record_count = 0; next_id = 0; dropped = 0 }

snapshot-log_all_example :
    (snapshot (log_all calls (reset zeroed))
      ≡ drop (length (history 1 calls) - 256) (history 1 calls))
    × ((log_all calls (reset zeroed)).dropped ≡ length (history 1 calls) - 256)
snapshot-log_all_example = snapshot-log_all calls zeroed (length-replicate 256 blank) (omega arith)

-- A log of four records.
abbrev logged : State
logged = record { records = history 1 calls; record_count = 4; next_id = 5; dropped = 0 }

history_four : map (λ r. r.id) (history 1 calls) ≡ 1 ∷ 2 ∷ 3 ∷ 4 ∷ []
unfolding history
history_four = refl

traced : map (λ r. r.id) (trace (process 2) true 256 logged) ≡ 2 ∷ 3 ∷ 1 ∷ []
unfolding trace walk visit follow is_visited entity_equal history copy oldest_slot
traced = refl

traced_back : map (λ r. r.id) (trace (process 2) false 2 logged) ≡ 1 ∷ 3 ∷ []
unfolding trace walk visit follow is_visited entity_equal history copy oldest_slot
traced_back = refl

abbrev third : Record
third = record {
  id = 3;
  tick = 30;
  source = process 3;
  target = process 1;
  relation = 3;
  reason = 5;
  valid = true;
}

trace-reach_example :
    In third (trace (process 2) true 256 logged) ↔ Leads true (snapshot logged) (process 2) third
trace-reach_example = trace-reach (process 2) true 256 logged third (omega arith) (omega arith)
