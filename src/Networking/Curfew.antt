-- ===== src/Networking/Curfew.antt =====
-- Networking/Curfew/curfew.c: the limit on bad frames by source address. The tick count is read
-- three times by a call (the new entry's `window_start` and `last_seen`, then `now`), so a call
-- takes the three readings. `denied` and `in_use` are Booleans; the log line is not modelled.
pub mod Fair
pub mod Verdict
mod Examples
use aevros.Base.{
  ℕ, zero, suc, ◌+◌, ◌-◌, ◌%◌, ◌^◌, ◌<◌, Bool, true, false, not, ◌&&◌, ◌||◌, Option, none, some,
  List, [], ◌∷◌, ltb, leb, ◌==◌, if◌then◌else◌, is_some, bytes_eq, add32, sub32, get_or, update_at,
  replicate,
}

abbrev pub capacity : ℕ
capacity = 64

abbrev pub window_ticks : ℕ
window_ticks = 200

abbrev pub threshold : ℕ
threshold = 150

pub record Entry : Type 0 where
  pub ip : List ℕ
  pub window_start : ℕ
  pub count : ℕ
  pub last_seen : ℕ
  pub denied : Bool
  pub in_use : Bool

pub record State : Type 0 where
  pub entries : List Entry
  pub denied_total : ℕ

-- The three readings of the tick count.
pub record Ticks : Type 0 where
  pub start : ℕ
  pub seen : ℕ
  pub now : ℕ

abbrev pub blank : Entry
blank = record {
  ip = 0 ∷ 0 ∷ 0 ∷ 0 ∷ [];
  window_start = 0;
  count = 0;
  last_seen = 0;
  denied = false;
  in_use = false;
}

abbrev pub zeroed : State
zeroed = record { entries = replicate capacity blank; denied_total = 0 }

abbrev pub matches : List ℕ → Entry → Bool
matches ip e = e.in_use && bytes_eq e.ip ip

-- Where the search of `find_or_create` ends.
pub data Slot : Type 0 where
  there : ℕ → Slot
  fresh : ℕ → Slot
  no_slot : Slot

-- `target`: the free slot, or else the one seen longest ago.
unfoldable pub target : Option ℕ → Option (ℕ × ℕ) → Slot
target (some i) oldest = fresh i
target none (some (i, seen)) = fresh i
target none none = no_slot

-- `free_slot` after the slot `i`.
unfoldable pub next_free : ℕ → Entry → Option ℕ → Option ℕ
next_free i e free = if not e.in_use && not (is_some free) then some i else free

-- `oldest` after the slot `i`, with its `last_seen`.
unfoldable pub next_oldest : ℕ → Entry → Option (ℕ × ℕ) → Option (ℕ × ℕ)
next_oldest i e none = if e.in_use then some (i, e.last_seen) else none
next_oldest i e (some (j, seen)) =
    if e.in_use && ltb e.last_seen seen then some (i, e.last_seen) else some (j, seen)

-- The `for` of `find_or_create`, from the slot `i` on.
unfoldable pub scan : List ℕ → ℕ → Option ℕ → Option (ℕ × ℕ) → List Entry → Slot
scan ip i free oldest [] = target free oldest
scan ip i free oldest (e ∷ es) =
    let rest = scan ip (i + 1) (next_free i e free) (next_oldest i e oldest) es in
    if matches ip e then there i else rest

abbrev pub opened : List ℕ → Ticks → Entry
opened ip t = record {
  ip = ip;
  window_start = t.start;
  count = 0;
  last_seen = t.seen;
  denied = false;
  in_use = true;
}

unfoldable pub find_or_create : List ℕ → Ticks → State → Option ℕ × State
find_or_create ip t s = elim (scan ip 0 none none s.entries) [
  | there i ↦ (some i, s)
  | fresh i ↦ (some i, record s { entries = update_at i (λ _. opened ip t) s.entries })
  | no_slot ↦ (none, s)
]

unfoldable pub roll_window : ℕ → Entry → Entry
roll_window now e =
    if ltb window_ticks (sub32 now e.window_start)
    then record e { window_start = now; count = 0; denied = false }
    else e

-- What `curfew_check` and `curfew_strike` do with the entry first.
abbrev pub touch : ℕ → Entry → Entry
touch now e = roll_window now (record e { last_seen = now })

unfoldable pub check_at : ℕ → ℕ → State → Bool × State
check_at now i s =
    let es = update_at i (touch now) s.entries in
    (not (get_or es i blank).denied, record s { entries = es })

unfoldable pub check : List ℕ → Ticks → State → Bool × State
check ip t s =
    let (slot, s') = find_or_create ip t s in
    elim slot [ none ↦ (true, s') | some i ↦ check_at t.now i s' ]

abbrev pub counted : Entry → Entry
counted e = record e { count = add32 e.count 1 }

-- The test of `curfew_strike` after the count.
abbrev pub is_over : Entry → Bool
is_over e = leb threshold e.count && not e.denied

pub punish : Entry → Entry
punish e = if is_over e then record e { denied = true } else e

pub strike_at : ℕ → ℕ → State → State
strike_at now i s =
    let es = update_at i (λ e. counted (touch now e)) s.entries in
    record {
      entries = update_at i punish es;
      denied_total = if is_over (get_or es i blank) then add32 s.denied_total 1 else s.denied_total;
    }

pub strike : List ℕ → Ticks → State → State
strike ip t s =
    let (slot, s') = find_or_create ip t s in
    elim slot [ none ↦ s' | some i ↦ strike_at t.now i s' ]
