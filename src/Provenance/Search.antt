-- ===== src/Provenance/Search.antt =====
-- `provenance_trace_from` and `provenance_trace_to` find what is in reach.
use native.Mathlib.Decide.{dec_le}
use aevros.Base.{
  ℕ, zero, suc, ◌+◌, ◌≤◌, ◌≡◌, refl, sym, ap, ◌↔◌, inl, inr, Bool, true, false, List, [], ◌∷◌,
  length, length-append, arith, Bool-cases, List-cases, All, count_if,
}
use aevros.Provenance.{
  Entity, Record, State, Walk, max_records, is_visited, follow, visit, walk, trace, snapshot, copy,
  oldest_slot,
}
use aevros.Provenance.Reach.{
  In, here, visit-limit, visit-leaves, visit-passes, leaves, walk-limit, walk-done, walk-round,
  All-lookup,
}
use aevros.Provenance.Sound.{Leads, walk-Sound}
use aevros.Provenance.Visited.{entity_equal_refl}
use aevros.Provenance.Follow.{Followed}
use aevros.Provenance.Trace.{Rounds, walk-Complete, is_done}

length-copy : (s : State) (k n : ℕ) → length (copy s k n) ≡ n
unfolding copy
length-copy s k zero = refl
length-copy s k (suc n) = ap suc (length-copy s (k + 1) n)

length-follow :
    (forward : Bool) (r : Record) (w : Walk)
    → length (follow forward r w).results ≡ length w.results + 1
unfolding follow
length-follow forward r w = ground (arith, length-append w.results (r ∷ []))

visit-bounded :
    (forward : Bool) (max : ℕ) (e : Entity) (l : List Record) (w : Walk)
    → length w.results ≤ max
    → length (visit forward max e l w).results ≤ max
unfolding visit
visit-bounded forward max e [] w le = le
visit-bounded forward max e (r ∷ l) w le = elim (dec_le max (length w.results)) [
  | yes full ↦ rw (visit-limit forward max e (r ∷ l) w full) le
  | no room ↦ elim (Bool-cases (leaves forward e r)) [
    | inl out ↦ rw (visit-leaves forward max e r l w (omega arith) out) (
        visit-bounded forward max e l (follow forward r w)
          (omega (arith, length-follow forward r w)))
    | inr apart ↦
        rw (visit-passes forward max e r l w (omega arith) apart)
          (visit-bounded forward max e l w le)
  ]
]

walk-bounded :
    (fuel : ℕ) (forward : Bool) (max : ℕ) (rs : List Record) (w : Walk)
    → length w.results ≤ max
    → length (walk fuel forward max rs w).results ≤ max
unfolding walk
walk-bounded zero forward max rs w le = le
walk-bounded (suc fuel) forward max rs w le = elim (dec_le max (length w.results)) [
  | yes full ↦ rw (walk-limit (suc fuel) forward max rs w full) le
  | no room ↦ elim (List-cases w.queue) [
    | inl e ↦ rw (walk-done (suc fuel) forward max rs w e) le
    | inr (e, rest, q) ↦ rw (walk-round fuel forward max rs w e rest (omega arith) q) (
        walk-bounded fuel forward max rs (visit forward max e rs (record w { queue = rest }))
          (visit-bounded forward max e rs (record w { queue = rest }) le))
  ]
]

abbrev first : Entity → Walk
first start = record { queue = start ∷ []; visited = start ∷ []; results = [] }

-- Whatever room it has, a trace finds valid records of the log in reach of the start, each from
-- an entity that a chain of valid records links with it, and no more than there is room for.
pub trace-Leads :
    (start : Entity) (forward : Bool) (max : ℕ) (s : State)
    → All (Leads forward (snapshot s) start) (trace start forward max s)
      × (length (trace start forward max s) ≤ max)
unfolding trace
trace-Leads start forward max s = (
  (walk-Sound forward (snapshot s) start (max_records + 2) max (first start)
      (record { queued = (here, tt); found = tt })).found,
  walk-bounded (max_records + 2) forward max (snapshot s) (first start) (omega arith),
)

nothing_done :
    (forward : Bool) (r : Record) (rs : List Record) (start : Entity)
    → is_done forward rs start [] r ≡ false
unfolding is_visited
nothing_done forward r rs start = ground arith

none_done :
    (forward : Bool) (rs l : List Record) (start : Entity)
    → All (λ r. is_done forward rs start [] r ≡ true → Followed forward (first start) r) l
none_done forward rs [] start = tt
none_done forward rs (r ∷ l) start = (
  λ yes. absurd (ground (arith, nothing_done forward r rs start, yes)),
  none_done forward rs l start,
)

count-none_done :
    (forward : Bool) (rs l : List Record) (start : Entity)
    → count_if (is_done forward rs start []) l ≡ 0
unfolding count_if
count-none_done forward rs [] start = refl
count-none_done forward rs (r ∷ l) start =
    ground (arith, nothing_done forward r rs start, count-none_done forward rs l start)

first-Rounds :
    (forward : Bool) (rs : List Record) (start : Entity) → Rounds forward rs start [] (first start)
unfolding is_visited
first-Rounds forward rs start = record {
  orderly = record { split = refl; distinct = (refl, tt); few = omega arith };
  all = none_done forward rs rs start;
  found = sym (count-none_done forward rs rs start);
  started = ground (arith, entity_equal_refl start);
}

-- With room for 256 records or more, a trace over a log of 256 records or fewer finds exactly the
-- valid records in reach of the start.
pub trace-reach :
    (start : Entity) (forward : Bool) (max : ℕ) (s : State) (r : Record)
    → s.record_count ≤ 256
    → 256 ≤ max
    → In r (trace start forward max s) ↔ Leads forward (snapshot s) start r
unfolding trace
trace-reach start forward max s r few big = (
  λ found.
      All-lookup (Leads forward (snapshot s) start) (trace start forward max s) r
        (trace-Leads start forward max s).0 found,
  λ leads.
      walk-Complete forward (snapshot s) start (max_records + 2) max [] (first start) big
        (omega (arith, length-copy s (oldest_slot s) s.record_count)) (omega arith)
        (first-Rounds forward (snapshot s) start) r leads.listed leads.is_valid leads.reached,
)
