-- ===== src/Networking/Why.antt =====
-- Networking/Why/why.c: why a connection did not do more. Two tables of a counter and a tick for
-- each connection and reason. The interrupt guard is outside: a call runs alone. The report and the
-- texts are not modelled.
pub mod Top
mod Examples
use aevros.Base.{
  ℕ, zero, suc, ◌+◌, ◌-◌, ◌%◌, ◌<◌, Bool, true, false, not, ◌&&◌, ◌||◌, List, [], ◌∷◌, ltb, leb,
  ◌==◌, if◌then◌else◌, add32, sub32, get_or, set, update_at, replicate,
}
use aevros.Networking.LockBox

-- `WHY_NONE`, `WHY_RETRANSMIT_TIMEOUT` and `WHY_COUNT` of the enumeration.
abbrev pub none_reason : ℕ
none_reason = 0

abbrev pub retransmit_timeout : ℕ
retransmit_timeout = 5

abbrev pub reason_count : ℕ
reason_count = 7

abbrev pub say_every_ticks : ℕ
say_every_ticks = 100

pub record State : Type 0 where
  pub counts : List (List ℕ)
  pub last_said : List (List ℕ)

abbrev pub zeroes : List (List ℕ)
zeroes = replicate LockBox.capacity (replicate reason_count 0)

abbrev pub init : State
init = record { counts = zeroes; last_said = zeroes }

abbrev pub is_valid : ℕ → ℕ → Bool
is_valid id reason = ltb id LockBox.capacity && ltb none_reason reason && ltb reason reason_count

abbrev pub cell : List (List ℕ) → ℕ → ℕ → ℕ
cell table id reason = get_or (get_or table id []) reason 0

abbrev pub set_cell : List (List ℕ) → ℕ → ℕ → ℕ → List (List ℕ)
set_cell table id reason v = update_at id (λ row. set row reason v) table

unfoldable pub note : ℕ → ℕ → ℕ → State → Bool × State
note now id reason s =
    let n = cell s.counts id reason in
    let say = n == 0 || leb say_every_ticks (sub32 now (cell s.last_said id reason)) in
    if not (is_valid id reason) then (false, s) else (
      say,
      record {
        counts = set_cell s.counts id reason (add32 n 1);
        last_said = if say then set_cell s.last_said id reason now else s.last_said;
      },
    )

pub count : ℕ → ℕ → State → ℕ
count id reason s = if not (is_valid id reason) then 0 else cell s.counts id reason

-- The `for` of `why_top_reason`, with `k` rounds left, from the reason `r` on.
pub top_from : ℕ → ℕ → ℕ → ℕ → State → ℕ
top_from zero r best id s = best
top_from (suc k) r best id s =
    let bar = if best == none_reason then 0 else cell s.counts id best in
    let higher = top_from k (r + 1) r id s in
    let same = top_from k (r + 1) best id s in if ltb bar (cell s.counts id r) then higher else same

pub top_reason : ℕ → State → ℕ
top_reason id s = if leb LockBox.capacity id then none_reason else top_from 6 1 none_reason id s
