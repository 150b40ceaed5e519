-- ===== src/Networking/Scheduler.antt =====
-- Networking/Scheduler/scheduler.c: the retransmission of TCP segments. A connection is the record
-- `Conn`; the state holds the 64 of them, the counters, and the states of the modules that the
-- code calls: Bailiff, Why, LockBox, and of Rapport (IPv4/Conversation/rapport.c), whose
-- `rapport_on_rst` it calls, the states of the conversations. A segment's frame is the bytes that
-- are sent. The tick counts that Bailiff and Why read, and whether the driver takes a frame, are
-- the record `Outside`; the log lines are not modelled.
pub mod Timer
pub mod Conns
pub mod Rto
mod Examples
use aevros.Base.{
  ℕ, zero, suc, ◌+◌, ◌*◌, ◌-◌, ◌/◌, ◌%◌, ◌^◌, ◌<◌, Bool, true, false, not, ◌&&◌, ◌||◌, Option, none,
  some, List, [], ◌∷◌, map, ltb, leb, ◌==◌, if◌then◌else◌, is_some, add32, sub32, find,
  update_first, update_at, get_or, count_if, replicate, length,
}
use aevros.Networking.Bailiff
use aevros.Networking.Conversation.{Status, closed}
use aevros.Networking.LockBox
use aevros.Networking.Why

abbrev pub retry_limit : ℕ
retry_limit = 8

abbrev pub initial_rto : ℕ
initial_rto = 100

abbrev pub min_rto : ℕ
min_rto = 20

abbrev pub max_rto : ℕ
max_rto = 1000

abbrev pub dup_ack_threshold : ℕ
dup_ack_threshold = 3

abbrev pub max_frame : ℕ
max_frame = Bailiff.max_frame

abbrev pub window : ℕ
window = 4

-- `packet_sched_state_t`
pub data Phase : Type 0 where
  idle retry failure dropped : Phase

-- `sched_segment_t`; its `length` is that of the frame.
pub record Segment : Type 0 where
  pub seq : ℕ
  pub seq_len : ℕ
  pub start_timer : ℕ
  pub in_use : Bool
  pub retransmitted : Bool
  pub frame : List ℕ

-- `packets_state_t`
pub record Conn : Type 0 where
  pub seg : List Segment
  pub state : Phase
  pub retry_track : ℕ
  pub srtt : ℕ
  pub rttvar : ℕ
  pub rto : ℕ
  pub last_ack_seen : ℕ
  pub dup_ack_count : ℕ

pub record State : Type 0 where
  pub conns : List Conn
  pub retransmit_total : ℕ
  pub giveup_total : ℕ
  pub bailiff : Bailiff.State
  pub why : Why.State
  pub status : List Status
  pub lockbox : LockBox.LockBox

-- What one `resend` reads from outside.
pub record Outside : Type 0 where
  pub reclaim : ℕ
  pub issued : ℕ
  pub present : ℕ
  pub noted : ℕ
  pub sent : Bool

abbrev pub blank_segment : Segment
blank_segment = record {
  seq = 0;
  seq_len = 0;
  start_timer = 0;
  in_use = false;
  retransmitted = false;
  frame = [];
}

abbrev pub blank : Conn
blank = record {
  seg = replicate window blank_segment;
  state = idle;
  retry_track = 0;
  srtt = 0;
  rttvar = 0;
  rto = 0;
  last_ack_seen = 0;
  dup_ack_count = 0;
}

abbrev pub zeroed : State
zeroed = record {
  conns = replicate LockBox.capacity blank;
  retransmit_total = 0;
  giveup_total = 0;
  bailiff = Bailiff.initial;
  why = Why.init;
  status = replicate LockBox.capacity closed;
  lockbox = LockBox.empty;
}

abbrev pub valid_id : ℕ → Bool
valid_id id = ltb id LockBox.capacity

-- `(int32_t)(a - b) < 0`.
abbrev pub seq_before : ℕ → ℕ → Bool
seq_before a b = leb (2 ^ 31) (sub32 a b)

abbrev pub is_retry : Phase → Bool
is_retry idle = false
is_retry retry = true
is_retry failure = false
is_retry dropped = false

abbrev pub conn_at : ℕ → State → Conn
conn_at id s = get_or s.conns id blank

abbrev pub set_conn : ℕ → Conn → State → State
set_conn id c s = record s { conns = update_at id (λ _. c) s.conns }

-- `resend` with the pass that Bailiff gave, if it gave one.
pub present : Outside → ℕ → List ℕ → Option ℕ → State → State
present t id frame none s = s
present t id frame (some pass) s =
    let (done, b) = Bailiff.present_pass t.present pass frame t.sent s.bailiff in
    if done
    then record s {
      bailiff = b;
      retransmit_total = add32 s.retransmit_total 1;
      why = (Why.note t.noted id Why.retransmit_timeout s.why).1;
    }
    else record s { bailiff = b }

pub resend : Outside → ℕ → Segment → State → State
resend t id e s =
    let (pass, b) = Bailiff.request_pass t.reclaim t.issued e.frame s.bailiff in
    present t id e.frame pass (record s { bailiff = b })

-- The `for` of `oldest` from the slot `i` on, with the best so far and its slot.
pub oldest_from : ℕ → Option (ℕ × Segment) → List Segment → Option (ℕ × Segment)
oldest_from i best [] = best
oldest_from i none (e ∷ es) =
    let here = oldest_from (i + 1) (some (i, e)) es in
    let past = oldest_from (i + 1) none es in if e.in_use then here else past
oldest_from i (some (j, b)) (e ∷ es) =
    let here = oldest_from (i + 1) (some (i, e)) es in
    let past = oldest_from (i + 1) (some (j, b)) es in
    if e.in_use && seq_before e.seq b.seq then here else past

abbrev pub oldest : Conn → Option (ℕ × Segment)
oldest c = oldest_from 0 none c.seg

abbrev pub free_segment : Segment → Segment
free_segment e = record e { in_use = false }

abbrev pub clear_window : Conn → Conn
clear_window c = record c {
  seg = map free_segment c.seg;
  state = idle;
  retry_track = 0;
  dup_ack_count = 0;
}

abbrev pub is_free : Segment → Bool
is_free e = not e.in_use

abbrev pub tracked : ℕ → ℕ → ℕ → List ℕ → Segment
tracked now seq seq_len frame = record {
  seq = seq;
  seq_len = seq_len;
  start_timer = now;
  in_use = true;
  retransmitted = false;
  frame = frame;
}

-- `scheduler_track` for a connection with a free slot.
pub track_conn : ℕ → ℕ → ℕ → List ℕ → Conn → Conn
track_conn now seq seq_len frame c =
    let seg = update_first is_free (λ _. tracked now seq seq_len frame) c.seg in
    let rto = if c.rto == 0 then initial_rto else c.rto in
    if is_retry c.state
    then record c { seg = seg; rto = rto }
    else record c { seg = seg; rto = rto; state = retry; retry_track = 0; dup_ack_count = 0 }

pub track : ℕ → ℕ → ℕ → ℕ → List ℕ → State → Bool × State
track now id seq seq_len frame s =
    if not (valid_id id) || length frame == 0 || ltb max_frame (length frame)
    then (false, s)
    else if is_some (find is_free (conn_at id s).seg)
    then (true, set_conn id (track_conn now seq seq_len frame (conn_at id s)) s)
    else (false, s)
