-- ===== src/Provenance.antt =====
-- Provenance/provenance.c: the log of causes and effects. The array of records, its counters and
-- the searches. The tick count and the interrupt guard are outside: each call takes the tick that
-- it reads, and runs alone. A null result pointer is a caller's error and is not modelled; a size
-- of 0, which the code answers in the same way, is.
pub mod View
pub mod Log
pub mod Reach
pub mod Sound
pub mod Visited
pub mod Follow
pub mod Trace
pub mod Search
mod Examples
use aevros.Base.{
  ℕ, zero, suc, ◌+◌, ◌-◌, ◌%◌, ◌^◌, Bool, true, false, not, ◌&&◌, ◌||◌, Option, none, some, List,
  [], ◌∷◌, ◌++◌, ltb, leb, ◌==◌, if◌then◌else◌, add32, sub32, length, get_or, set, replicate, find,
  is_some, take,
}

abbrev pub max_records : ℕ
max_records = 256

-- The enumerations are numbers; 0 is the NONE of each.
pub record Entity : Type 0 where
  pub type : ℕ
  pub id : ℕ

pub record Record : Type 0 where
  pub id : ℕ
  pub tick : ℕ
  pub source : Entity
  pub target : Entity
  pub relation : ℕ
  pub reason : ℕ
  pub valid : Bool

pub record State : Type 0 where
  pub records : List Record
  pub record_count : ℕ
  pub next_id : ℕ
  pub dropped : ℕ

abbrev pub blank : Record
blank = record {
  id = 0;
  tick = 0;
  source = record { type = 0; id = 0 };
  target = record { type = 0; id = 0 };
  relation = 0;
  reason = 0;
  valid = false;
}

pub invalidate : List Record → List Record
invalidate [] = []
invalidate (r ∷ l) = record r { valid = false } ∷ invalidate l

pub reset : State → State
reset s = record { records = invalidate s.records; record_count = 0; next_id = 1; dropped = 0 }

pub oldest_slot : State → ℕ
oldest_slot s = if ltb s.record_count max_records then 0 else sub32 s.next_id 1 % max_records

pub entity_equal : Entity → Entity → Bool
entity_equal a b = a.type == b.type && a.id == b.id

-- What a call records.
pub record Claim : Type 0 where
  pub source : Entity
  pub target : Entity
  pub relation : ℕ
  pub reason : ℕ

abbrev pub stamped : ℕ → ℕ → Claim → Record
stamped id tick c = record {
  id = id;
  tick = tick;
  source = c.source;
  target = c.target;
  relation = c.relation;
  reason = c.reason;
  valid = true;
}

pub store : Claim → ℕ → State → ℕ × State
store c tick s =
    let id = s.next_id in
    if ltb s.record_count max_records
    then (
      id,
      record {
        records = set s.records s.record_count (stamped id tick c);
        record_count = s.record_count + 1;
        next_id = add32 id 1;
        dropped = s.dropped;
      },
    )
    else (
      id,
      record {
        records = set s.records (sub32 id 1 % max_records) (stamped id tick c);
        record_count = s.record_count;
        next_id = add32 id 1;
        dropped = add32 s.dropped 1;
      },
    )

abbrev pub input_valid : Claim → Bool
input_valid c = not (c.source.type == 0) && not (c.target.type == 0) && not (c.relation == 0)

pub log : Claim → ℕ → State → ℕ × State
log c tick s = if input_valid c then store c tick s else (0, s)

abbrev pub says : Claim → Record → Bool
says c r =
    r.valid
    && r.relation == c.relation
    && entity_equal r.source c.source
    && entity_equal r.target c.target

-- The search of `provenance_record_once`: the id of the first match below `record_count`, or 0.
pub known_id : Claim → State → ℕ
known_id c s = elim (find (says c) (take s.record_count s.records)) [ none ↦ 0 | some r ↦ r.id ]

pub log_once : Claim → ℕ → State → ℕ × State
log_once c tick s =
    if not (input_valid c)
    then (0, s)
    else if known_id c s == 0
    then store c tick s
    else (known_id c s, s)

pub get : ℕ → State → Option Record
get id s = if id == 0 then none else find (λ r. r.valid && r.id == id) s.records

-- The copy of `provenance_get_snapshot`: `n` records from slot `k` on.
pub copy : State → ℕ → ℕ → List Record
copy s k zero = []
copy s k (suc n) = get_or s.records (k % max_records) blank ∷ copy s (k + 1) n

abbrev pub snapshot : State → List Record
snapshot s = copy s (oldest_slot s) s.record_count

-- The loop of the three searches: the matches, `max` at most.
pub pick : (Record → Bool) → ℕ → List Record → List Record
pick p max [] = []
pick p zero (r ∷ l) = []
pick p (suc max) (r ∷ l) =
    let here = pick p max l in let there = pick p (suc max) l in if p r then r ∷ here else there

abbrev pub find_from : Entity → ℕ → State → List Record
find_from e max s = pick (λ r. r.valid && entity_equal r.source e) max (snapshot s)

abbrev pub find_to : Entity → ℕ → State → List Record
find_to e max s = pick (λ r. r.valid && entity_equal r.target e) max (snapshot s)

abbrev pub find_relation : Entity → ℕ → ℕ → State → List Record
find_relation e relation max s =
    pick
      (λ r.
        r.valid && r.relation == relation && (entity_equal r.source e || entity_equal r.target e))
      max (snapshot s)

abbrev pub from_of : Bool → Record → Entity
from_of forward r = if forward then r.source else r.target

abbrev pub next_of : Bool → Record → Entity
next_of forward r = if forward then r.target else r.source

-- `seen`.
pub is_visited : Entity → List Entity → Bool
is_visited e [] = false
is_visited e (x ∷ l) = entity_equal x e || is_visited e l

-- `trace_queue` from `head` to `tail`, `trace_visited` and the results.
pub record Walk : Type 0 where
  pub queue : List Entity
  pub visited : List Entity
  pub results : List Record

-- The body of the inner loop for a record that leaves the current entity.
pub follow : Bool → Record → Walk → Walk
follow forward r w =
    let next = next_of forward r in
    if not (is_visited next w.visited) && ltb (length w.visited) (max_records + 1)
    then record {
      queue = w.queue ++ (next ∷ []);
      visited = w.visited ++ (next ∷ []);
      results = w.results ++ (r ∷ []);
    }
    else record w { results = w.results ++ (r ∷ []) }

-- The inner loop over the copied records.
pub visit : Bool → ℕ → Entity → List Record → Walk → Walk
visit forward max current [] w = w
visit forward max current (r ∷ l) w =
    let followed = visit forward max current l (follow forward r w) in
    let passed = visit forward max current l w in
    if not (ltb (length w.results) max)
    then w
    else if r.valid && entity_equal (from_of forward r) current
    then followed
    else passed

-- The outer loop, with `fuel` rounds left.
pub walk : ℕ → Bool → ℕ → List Record → Walk → Walk
walk zero forward max copied w = w
walk (suc fuel) forward max copied w = elim w.queue [
  | [] ↦ w
  | current ∷ rest ↦
      let next =
        walk fuel forward max copied
          (visit forward max current copied (record w { queue = rest })) in
      if ltb (length w.results) max then next else w
]

-- Each round takes one of the entities that were ever queued, `max_records + 1` at most.
pub trace : Entity → Bool → ℕ → State → List Record
trace start forward max s =
    (walk (max_records + 2) forward max (snapshot s)
      (record { queue = start ∷ []; visited = start ∷ []; results = [] })).results
