-- ===== src/Networking/WatchList.antt =====
-- Networking/WatchList/watchlist.c: the flood limit by MAC address. The tick count is read twice by a
-- strike of a new sender (the entry's `window_start`, then `now`), so a strike takes both readings.
-- `flagged` and `in_use` are Booleans.
pub mod Flood
pub mod Limit
mod Examples
use aevros.Base.{
  ℕ, Bool, true, false, not, ◌&&◌, Option, none, some, List, [], ◌∷◌, ltb, leb, if◌then◌else◌,
  bytes_eq, add32, sub32, find, update_first, count_if, replicate,
}

abbrev pub capacity : ℕ
capacity = 16

abbrev pub window_ticks : ℕ
window_ticks = 200

abbrev pub threshold : ℕ
threshold = 4000

-- `watch_entry_t`
pub record Entry : Type 0 where
  pub mac : List ℕ
  pub window_start : ℕ
  pub count : ℕ
  pub flagged : Bool
  pub in_use : Bool

pub record State : Type 0 where
  pub entries : List Entry
  pub dropped_total : ℕ

-- The two readings of the tick count.
pub record Ticks : Type 0 where
  pub start : ℕ
  pub now : ℕ

abbrev pub blank : Entry
blank = record {
  mac = 0 ∷ (0 ∷ (0 ∷ (0 ∷ (0 ∷ (0 ∷ [])))));
  window_start = 0;
  count = 0;
  flagged = false;
  in_use = false;
}

abbrev pub zeroed : State
zeroed = record { entries = replicate capacity blank; dropped_total = 0 }

abbrev pub matches : List ℕ → Entry → Bool
matches mac e = e.in_use && bytes_eq e.mac mac

abbrev pub is_free : Entry → Bool
is_free e = not e.in_use

abbrev pub opened : List ℕ → ℕ → Entry
opened mac start = record {
  mac = mac;
  window_start = start;
  count = 0;
  flagged = false;
  in_use = true;
}

-- The slot that `find_or_create` gives.
pub data Slot : Type 0 where
  there fresh : Entry → Slot
  no_slot : Slot

pub slot_of : Option Entry → Option Entry → List ℕ → ℕ → Slot
slot_of (some e) free mac start = there e
slot_of none (some e) mac start = fresh (opened mac start)
slot_of none none mac start = no_slot

pub find_or_create : List ℕ → ℕ → State → Slot
find_or_create mac start s =
    slot_of (find (matches mac) s.entries) (find is_free s.entries) mac start

pub roll_window : ℕ → Entry → Entry
roll_window now e =
    if ltb window_ticks (sub32 now e.window_start)
    then record e { window_start = now; count = 0; flagged = false }
    else e

pub counted : Entry → Entry
counted e = record e { count = add32 e.count 1 }

-- The test of the count, after the event.
pub flag : Entry → Entry
flag e = if leb threshold e.count then record e { flagged = true } else e

abbrev pub struck : ℕ → Entry → Entry
struck now e = flag (counted (roll_window now e))

-- Whether the strike reports `IDS_EVENT_WATCHLIST_FLAG`.
pub notifies : ℕ → Entry → Bool
notifies now e = let e' = counted (roll_window now e) in leb threshold e'.count && not e'.flagged

-- The answer of a strike, and its event.
pub record Verdict : Type 0 where
  pub answer : Bool
  pub notified : Bool

abbrev pub verdict : ℕ → Entry → Verdict
verdict now e = record { answer = (struck now e).flagged; notified = notifies now e }

pub strike_slot : List ℕ → ℕ → Slot → State → Verdict × State
strike_slot mac now (there e) s =
    (verdict now e, record s { entries = update_first (matches mac) (struck now) s.entries })
strike_slot mac now (fresh e) s =
    (verdict now e, record s { entries = update_first is_free (λ _. struck now e) s.entries })
strike_slot mac now no_slot s = (record { answer = false; notified = false }, s)

pub strike : List ℕ → Ticks → State → Verdict × State
strike mac t s = strike_slot mac t.now (find_or_create mac t.start s) s

pub note_dropped : State → State
note_dropped s = record s { dropped_total = add32 s.dropped_total 1 }

pub dropped_count : State → ℕ
dropped_count s = s.dropped_total

-- What `watchlist_is_flagged` does with the entry first.
pub expire : ℕ → Entry → Entry
expire now e =
    if ltb window_ticks (sub32 now e.window_start) then record e { flagged = false } else e

pub flag_of : ℕ → Option Entry → Bool
flag_of now none = false
flag_of now (some e) = (expire now e).flagged

pub is_flagged : List ℕ → ℕ → State → Bool × State
is_flagged mac now s = (
  flag_of now (find (matches mac) s.entries),
  record s { entries = update_first (matches mac) (expire now) s.entries },
)

pub flagged_count : State → ℕ
flagged_count s = count_if (λ e. e.in_use && e.flagged) s.entries
