-- ===== src/Networking/Scheduler/Timer.antt =====
-- Networking/Scheduler/scheduler.c: the acknowledgements and the clock.
use aevros.Base.{
  ℕ, zero, suc, ◌+◌, ◌*◌, ◌-◌, ◌/◌, ◌%◌, ◌^◌, true, not, ◌&&◌, ◌||◌, Option, none, some, List, [],
  ◌∷◌, map, ltb, leb, ◌==◌, if◌then◌else◌, is_some, add32, sub32, update_at, get_or, count_if,
}
use aevros.Networking.Conversation.{closed, is_closed}
use aevros.Networking.LockBox
use aevros.Networking.Scheduler.{
  retry_limit, min_rto, max_rto, dup_ack_threshold, idle, failure, Segment, Conn, State, Outside,
  valid_id, seq_before, is_retry, conn_at, set_conn, resend, oldest, free_segment, clear_window,
}

-- What the `for` of `scheduler_ack` leaves: the segments, `freed` and `sample`.
pub record Acked : Type 0 where
  pub seg : List Segment
  pub freed : ℕ
  pub sample : Option ℕ

abbrev pub sample_of : ℕ → Segment → Option ℕ → Option ℕ
sample_of now e sample =
    if not e.retransmitted && not (is_some sample) then some (sub32 now e.start_timer) else sample

unfoldable pub free_acked : ℕ → ℕ → Option ℕ → List Segment → Acked
free_acked acked now sample [] = record { seg = []; freed = 0; sample = sample }
free_acked acked now sample (e ∷ es) =
    let kept = free_acked acked now sample es in
    let freed = free_acked acked now (sample_of now e sample) es in
    if not e.in_use || seq_before acked (add32 e.seq e.seq_len)
    then record { seg = e ∷ kept.seg; freed = kept.freed; sample = kept.sample }
    else record { seg = free_segment e ∷ freed.seg; freed = freed.freed + 1; sample = freed.sample }

abbrev pub clamp : ℕ → ℕ
clamp rto = if ltb rto min_rto then min_rto else if ltb max_rto rto then max_rto else rto

abbrev pub timed : ℕ → ℕ → Conn → Conn
timed srtt rttvar c = record c {
  srtt = srtt;
  rttvar = rttvar;
  rto = clamp (add32 srtt (4 * rttvar % 2 ^ 32));
}

-- The new estimates, where there is a sample.
unfoldable pub smooth : Option ℕ → Conn → Conn
smooth none c = c
smooth (some sample) c =
    if c.srtt == 0
    then timed sample (sample / 2) c
    else let diff = if ltb c.srtt sample then sample - c.srtt else c.srtt - sample in
      timed (add32 (c.srtt - c.srtt / 8) (sample / 8)) (add32 (c.rttvar - c.rttvar / 4) (diff / 4))
        c

-- `scheduler_ack` where it freed a segment.
unfoldable pub settle : ℕ → Acked → Conn → Conn
settle acked a c =
    let c' = smooth a.sample (record c { seg = a.seg }) in
    record c' {
      retry_track = 0;
      dup_ack_count = 0;
      last_ack_seen = acked;
      state = if is_some (oldest c') then c'.state else idle;
    }

-- The fast retransmission, at the third duplicate.
unfoldable pub fast : Outside → ℕ → Conn → State → State
fast t id c s = elim (oldest c) [
  | none ↦ set_conn id (record c { dup_ack_count = 0 }) s
  | some (i, e) ↦ resend t id e (set_conn id (record c { dup_ack_count = 0 }) s)
]

-- `scheduler_ack` where it freed none.
unfoldable pub duplicate : Outside → ℕ → ℕ → Conn → State → State
duplicate t id acked c s =
    if c.last_ack_seen == acked
    then (if leb dup_ack_threshold (add32 c.dup_ack_count 1)
        then fast t id c s
        else set_conn id (record c { dup_ack_count = add32 c.dup_ack_count 1 }) s)
    else set_conn id (record c { last_ack_seen = acked; dup_ack_count = 0 }) s

unfoldable pub ack : Outside → ℕ → ℕ → ℕ → State → State
ack t now id acked s =
    let c = conn_at id s in
    let a = free_acked acked now none c.seg in
    if not (valid_id id) || not (is_retry c.state)
    then s
    else if a.freed == 0
    then duplicate t id acked c s
    else set_conn id (settle acked a c) s

abbrev pub cancelled : Conn → Conn
cancelled c = record (clear_window c) { rto = 0; srtt = 0; rttvar = 0 }

unfoldable pub cancel : ℕ → State → State
cancel id s = if not (valid_id id) then s else set_conn id (cancelled (conn_at id s)) s

-- `rapport_on_rst`
unfoldable pub on_rst : ℕ → State → State
on_rst id s =
    if not (valid_id id)
    then s
    else if is_closed (get_or s.status id closed)
    then s
    else let s' = cancel id (record s { status = update_at id (λ _. closed) s.status }) in
      record s' { lockbox = LockBox.release id s'.lockbox }

unfoldable pub give_up : ℕ → Conn → State → State
give_up id c s = on_rst id (
    set_conn id (record (clear_window c) { state = failure })
      (record s { giveup_total = add32 s.giveup_total 1 }))

abbrev pub resent : Segment → Segment
resent e = record e { retransmitted = true }

-- The connection after a timeout of the segment in the slot `i`.
abbrev pub backed_off : ℕ → ℕ → Conn → Conn
backed_off now i c = record c {
  seg = update_at i (λ e. record e { start_timer = now }) (map resent c.seg);
  rto = if ltb max_rto (c.rto * 2 % 2 ^ 32) then max_rto else c.rto * 2 % 2 ^ 32;
  retry_track = add32 c.retry_track 1;
}

-- The body of the loop of `scheduler_tick` for a connection that waits.
unfoldable pub expire : Outside → ℕ → ℕ → Conn → Option (ℕ × Segment) → State → State
expire t now id c none s = set_conn id (record c { state = idle }) s
expire t now id c (some (i, e)) s =
    if ltb (sub32 now e.start_timer) c.rto
    then s
    else if leb retry_limit c.retry_track
    then give_up id c s
    else set_conn id (backed_off now i c) (resend t id e s)

unfoldable pub tick_conn : Outside → ℕ → ℕ → State → State
tick_conn t now id s =
    let c = conn_at id s in if not (is_retry c.state) then s else expire t now id c (oldest c) s

-- The loop of `scheduler_tick` with `k` rounds left, from the connection `i` on.
unfoldable pub tick_from : (ℕ → Outside) → ℕ → ℕ → ℕ → State → State
tick_from t now zero i s = s
tick_from t now (suc k) i s = tick_from t now k (i + 1) (tick_conn (t i) now i s)

abbrev pub tick : (ℕ → Outside) → ℕ → State → State
tick t now s = tick_from t now LockBox.capacity 0 s

pub sum_in_flight : List Segment → ℕ
sum_in_flight [] = 0
sum_in_flight (e ∷ es) = let rest = sum_in_flight es in if e.in_use then e.seq_len + rest else rest

pub bytes_in_flight : ℕ → State → ℕ
bytes_in_flight id s =
    let total = sum_in_flight (conn_at id s).seg in
    if not (valid_id id) then 0 else if ltb 65535 total then 65535 else total

pub free_slots : ℕ → State → ℕ
free_slots id s = if not (valid_id id) then 0 else count_if (λ e. not e.in_use) (conn_at id s).seg
