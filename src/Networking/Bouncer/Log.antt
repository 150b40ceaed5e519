-- ===== src/Networking/Bouncer/Log.antt =====
-- The log gives its last 64 entries, the newest first.
use aevros.Base.{
  ℕ, ◌+◌, ◌-◌, ◌%◌, ◌^◌, ◌<◌, ◌≡◌, ◌≢◌, refl, ◌∙◌, false, some, arith, leb, length, get_or,
  length-set, get_or-set_self, get_or-set_ne, min,
}
use aevros.Networking.Bouncer.{Note, Entry, State, blank, entry_of, log, log_count, log_get}

pub record IsLog (s : State) : Type 0 where
  pub sized : length s.door_log ≡ 64
  pub inside : s.log_head < 64

log-IsLog : (n : Note) (s : State) → IsLog s → IsLog (log n s)
unfolding log
log-IsLog n s v = record {
  sized = length-set s.door_log s.log_head _ ∙ v.sized;
  inside = omega arith;
}

-- The entry that the note overwrites.
abbrev pub oldest : State → Entry
oldest s = get_or s.door_log s.log_head blank

log_get-newest :
    (n : Note) (s : State)
    → IsLog s
    → s.log_total + 1 < 2 ^ 32
    → log_get 0 (log n s) ≡ some (entry_of n (oldest s))
unfolding log log_get
log_get-newest n s v small =
    let slot : ((s.log_head + 1) % 64 + 64 - 1 - 0) % 64 ≡ s.log_head = omega (arith, v.inside) in
    let none_out : leb (log_count (log n s)) 0 ≡ false = ground (arith, small) in
    rw
      (
        none_out,
        slot,
        get_or-set_self s.door_log s.log_head (entry_of n (oldest s)) blank
            (omega (arith, v.sized, v.inside)),
      )
      refl

log_get-older :
    (n : Note) (s : State) (k : ℕ)
    → IsLog s
    → s.log_total + 1 < 2 ^ 32
    → k < 63
    → log_get (k + 1) (log n s) ≡ log_get k s
unfolding log log_get
log_get-older n s k v small le =
    let slot : ((s.log_head + 1) % 64 + 64 - 1 - (k + 1)) % 64 ≡ (s.log_head + 64 - 1 - k) % 64 =
      omega (arith, v.inside) in
    let apart : s.log_head ≢ (s.log_head + 64 - 1 - k) % 64 = omega (arith, v.inside) in
    let out : leb (log_count (log n s)) (k + 1) ≡ leb (log_count s) k = ground (arith, small, le) in
    rw
      (
        out,
        slot,
        get_or-set_ne s.door_log s.log_head ((s.log_head + 64 - 1 - k) % 64) (entry_of n (oldest s))
            blank apart,
      )
      refl

-- A note becomes the entry 0 of the log, the others go back by one, and the log counts 64 at most.
-- The total must not wrap round.
pub log_get-log :
    (n : Note) (s : State) (k : ℕ)
    → IsLog s
    → s.log_total + 1 < 2 ^ 32
    → k < 63
    → (log_get 0 (log n s) ≡ some (entry_of n (oldest s)))
      × (log_get (k + 1) (log n s) ≡ log_get k s)
      × (log_count (log n s) ≡ min 64 (log_count s + 1))
      × IsLog (log n s)
unfolding log
log_get-log n s k v small le = (
  log_get-newest n s v small,
  log_get-older n s k v small le,
  ground (arith, small),
  log-IsLog n s v,
)
