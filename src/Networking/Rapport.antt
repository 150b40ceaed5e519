-- ===== src/Networking/Rapport.antt =====
-- Networking/IPv4/Conversation/rapport.c: the state of each TCP conversation, which it moves from
-- the greeting to the goodbye. `status` stands in Scheduler's state, since Scheduler gives a
-- conversation up through `rapport_on_rst` (`on_rst` of Scheduler/Timer); the other tables are the
-- list `slots`. The sequence numbers and the peer's window are in Rapport/Sequence. `now` is the tick count that an operation reads. The log lines are not modelled.
pub mod Sequence
pub mod Diagram
pub mod Steps
mod Moves
pub mod Goodbye
pub mod Ends
mod Examples
use aevros.Base.{
  ℕ, zero, suc, ◌+◌, Bool, true, false, not, List, ltb, leb, ◌==◌, if◌then◌else◌, add32, sub32,
  update_at, get_or, replicate,
}
use aevros.Networking.Conversation.{
  Status, closed, listen, syn_sent, syn_received, established, fin_wait, closing, time_wait,
  fin_wait_1, fin_wait_2, close_wait, last_ack,
}
use aevros.Networking.LockBox
use aevros.Networking.Scheduler
use aevros.Networking.Scheduler.Timer
use aevros.Networking.Scheduler.Timer.{cancel}

abbrev pub time_wait_ticks : ℕ
time_wait_ticks = 400

-- What the static tables but `status` keep of a conversation.
pub record Slot : Type 0 where
  pub expected_seq : ℕ
  pub our_isn : ℕ
  pub our_fin_seq : ℕ
  pub time_wait_started : ℕ
  pub peer_window : ℕ
  pub send_seq : ℕ

pub record State : Type 0 where
  pub slots : List Slot
  pub sched : Scheduler.State

abbrev pub blank : Slot
blank = record {
  expected_seq = 0;
  our_isn = 0;
  our_fin_seq = 0;
  time_wait_started = 0;
  peer_window = 0;
  send_seq = 0;
}

abbrev pub zeroed : State
zeroed = record { slots = replicate LockBox.capacity blank; sched = Scheduler.zeroed }

abbrev pub valid_id : ℕ → Bool
valid_id id = ltb id LockBox.capacity

abbrev pub status_of : ℕ → State → Status
status_of id s = get_or s.sched.status id closed

abbrev pub slot_of : ℕ → State → Slot
slot_of id s = get_or s.slots id blank

abbrev pub set_status : ℕ → Status → State → State
set_status id x s = record s {
  sched = record s.sched { status = update_at id (λ _. x) s.sched.status };
}

abbrev pub set_slot : ℕ → (Slot → Slot) → State → State
set_slot id f s = record s { slots = update_at id f s.slots }

pub enter_time_wait : ℕ → ℕ → State → State
enter_time_wait now id s =
    set_slot id (λ v. record v { time_wait_started = now }) (set_status id time_wait s)

pub on_syn : ℕ → ℕ → ℕ → State → State
on_syn id peer_isn our_isn s =
    let s' =
      set_slot id
        (λ v. record v {
          expected_seq = add32 peer_isn 1;
          our_isn = our_isn;
          send_seq = add32 our_isn 1;
        })
        (set_status id syn_received s) in
    if not (valid_id id) then s else s'

-- The two branches of `rapport_initiate_close`.
abbrev pub after_close : Status → Status
after_close closed = closed
after_close listen = listen
after_close syn_sent = syn_sent
after_close syn_received = syn_received
after_close established = fin_wait_1
after_close fin_wait = fin_wait
after_close closing = closing
after_close time_wait = time_wait
after_close fin_wait_1 = fin_wait_1
after_close fin_wait_2 = fin_wait_2
after_close close_wait = last_ack
after_close last_ack = last_ack

pub initiate_close : ℕ → ℕ → State → State
initiate_close id fin_seq s =
    let s' = set_slot id (λ v. record v { our_fin_seq = fin_seq }) s in
    if not (valid_id id) then s else set_status id (after_close (status_of id s)) s'

-- `status[conn_id] = CONV_CLOSED; scheduler_cancel(conn_id); lockbox_release(conn_id);`
pub let_go : ℕ → State → State
let_go id s =
    let c = cancel id (set_status id closed s).sched in
    record s { sched = record c { lockbox = LockBox.release id c.lockbox } }

abbrev pub acks_fin : ℕ → Slot → Bool
acks_fin ack_num v = leb (add32 v.our_fin_seq 1) ack_num

-- The `switch` of `rapport_on_ack`.
pub acked : ℕ → ℕ → ℕ → Status → State → State
acked now id ack_num closed s = s
acked now id ack_num listen s = s
acked now id ack_num syn_sent s = s
acked now id ack_num syn_received s =
    if not (ack_num == add32 (slot_of id s).our_isn 1) then s else set_status id established s
acked now id ack_num established s = s
acked now id ack_num fin_wait s = s
acked now id ack_num closing s =
    if acks_fin ack_num (slot_of id s) then enter_time_wait now id s else s
acked now id ack_num time_wait s = s
acked now id ack_num fin_wait_1 s =
    if acks_fin ack_num (slot_of id s) then set_status id fin_wait_2 s else s
acked now id ack_num fin_wait_2 s = s
acked now id ack_num close_wait s = s
acked now id ack_num last_ack s = if acks_fin ack_num (slot_of id s) then let_go id s else s

pub on_ack : ℕ → ℕ → ℕ → State → State
on_ack now id ack_num s = if not (valid_id id) then s else acked now id ack_num (status_of id s) s

abbrev pub counted : Slot → Slot
counted v = record v { expected_seq = add32 v.expected_seq 1 }

-- The `switch` of `rapport_on_fin`.
pub finished : ℕ → ℕ → Status → State → State
finished now id closed s = s
finished now id listen s = s
finished now id syn_sent s = s
finished now id syn_received s = s
finished now id established s = set_status id close_wait (set_slot id counted s)
finished now id fin_wait s = s
finished now id closing s = s
finished now id time_wait s = s
finished now id fin_wait_1 s = set_status id closing (set_slot id counted s)
finished now id fin_wait_2 s = enter_time_wait now id (set_slot id counted s)
finished now id close_wait s = s
finished now id last_ack s = s

pub on_fin : ℕ → ℕ → State → State
on_fin now id s = if not (valid_id id) then s else finished now id (status_of id s) s

pub on_rst : ℕ → State → State
on_rst id s = record s { sched = Timer.on_rst id s.sched }

pub initiate_connect : ℕ → ℕ → State → State
initiate_connect id our_isn s =
    if not (valid_id id)
    then s
    else set_slot id (λ v. record v { our_isn = our_isn }) (set_status id syn_sent s)

-- `rapport_on_syn_ack` in the state SYN_SENT.
pub connected : ℕ → ℕ → ℕ → State → Bool × State
connected id peer_isn ack_num s =
    let isn = add32 (slot_of id s).our_isn 1 in
    let s' =
      set_slot id (λ v. record v { expected_seq = add32 peer_isn 1; send_seq = isn })
        (set_status id established s) in
    if not (ack_num == isn) then (false, s) else (true, s')

abbrev pub is_syn_sent : Status → Bool
is_syn_sent closed = false
is_syn_sent listen = false
is_syn_sent syn_sent = true
is_syn_sent syn_received = false
is_syn_sent established = false
is_syn_sent fin_wait = false
is_syn_sent closing = false
is_syn_sent time_wait = false
is_syn_sent fin_wait_1 = false
is_syn_sent fin_wait_2 = false
is_syn_sent close_wait = false
is_syn_sent last_ack = false

pub on_syn_ack : ℕ → ℕ → ℕ → State → Bool × State
on_syn_ack id peer_isn ack_num s =
    if not (valid_id id)
    then (false, s)
    else if not (is_syn_sent (status_of id s))
    then (false, s)
    else connected id peer_isn ack_num s

abbrev pub is_time_wait : Status → Bool
is_time_wait closed = false
is_time_wait listen = false
is_time_wait syn_sent = false
is_time_wait syn_received = false
is_time_wait established = false
is_time_wait fin_wait = false
is_time_wait closing = false
is_time_wait time_wait = true
is_time_wait fin_wait_1 = false
is_time_wait fin_wait_2 = false
is_time_wait close_wait = false
is_time_wait last_ack = false

-- `status[i] = CONV_CLOSED; lockbox_release(i);`
abbrev pub expired : ℕ → State → State
expired i s =
    let s' = set_status i closed s in
    record s' { sched = record s'.sched { lockbox = LockBox.release i s'.sched.lockbox } }

-- The body of the loop of `rapport_tick`.
pub tick_slot : ℕ → ℕ → State → State
tick_slot now i s =
    if not (is_time_wait (status_of i s))
    then s
    else if ltb (sub32 now (slot_of i s).time_wait_started) time_wait_ticks
    then s
    else expired i s

-- The loop with `k` rounds left.
pub tick_from : ℕ → ℕ → ℕ → State → State
tick_from now zero i s = s
tick_from now (suc k) i s = tick_from now k (i + 1) (tick_slot now i s)

abbrev pub tick : ℕ → State → State
tick now s = tick_from now LockBox.capacity 0 s
