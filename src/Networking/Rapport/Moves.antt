-- ===== src/Networking/Rapport/Moves.antt =====
-- The arrow that each operation takes, and that it touches no other conversation.
use aevros.Base.{
  ℕ, zero, suc, ◌+◌, ◌≡◌, refl, inl, inr, Bool, true, false, List, arith, sym, subst, if_both, ltb,
  update_at, get_or, Bool-cases,
}
use aevros.Networking.Conversation.{
  Status, closed, listen, syn_sent, syn_received, established, fin_wait, closing, time_wait,
  fin_wait_1, fin_wait_2, close_wait, last_ack, is_closed,
}
use aevros.Networking.Scheduler
use aevros.Networking.Scheduler.Timer
use aevros.Networking.Rapport.{
  State, status_of, set_status, enter_time_wait, on_syn, initiate_close, after_close, let_go, acked,
  on_ack, finished, on_fin, on_rst, initiate_connect, connected, is_syn_sent, is_time_wait,
  on_syn_ack, tick_slot, tick_from,
}
use aevros.Networking.Rapport.Diagram.{
  Event, syn, connect, syn_ack, ack, fin, close, rst, clock, greeted, reached_out, answered, heard,
  we_close, we_close_too, our_fin_heard, both_heard, last_heard, they_close, at_once,
  they_close_too, hung_up, waited, Arrow, Moves, Trail, stop, go, table, taken, kept, taken_if,
}

pub cancel-status : (id : ℕ) (s : Scheduler.State) → (Timer.cancel id s).status ≡ s.status
unfolding Timer.cancel
cancel-status id s = ground arith

let_go-table : (id : ℕ) (s : State) → table (let_go id s) ≡ update_at id (λ _. closed) (table s)
unfolding let_go
let_go-table id s = cancel-status id _

pub on_syn-Moves :
    (id peer_isn our_isn : ℕ) (s : State)
    → Moves syn id (table s) (table (on_syn id peer_isn our_isn s))
unfolding on_syn
on_syn-Moves id peer_isn our_isn s = elim (Bool-cases (ltb id 64)) [
  | inl known ↦ rw known (inr (syn_received, greeted, refl))
  | inr unknown ↦ rw unknown (inl refl)
]

pub connect-Moves :
    (id our_isn : ℕ) (s : State)
    → Moves connect id (table s) (table (initiate_connect id our_isn s))
unfolding initiate_connect
connect-Moves id our_isn s = elim (Bool-cases (ltb id 64)) [
  | inl known ↦ rw known (inr (syn_sent, reached_out, refl))
  | inr unknown ↦ rw unknown (inl refl)
]

after_close-Moves :
    (id : ℕ) (before : List Status) (a : Status)
    → get_or before id closed ≡ a
    → Moves close id before (update_at id (λ _. after_close a) before)
after_close-Moves id before closed at = kept id before at
after_close-Moves id before listen at = kept id before at
after_close-Moves id before syn_sent at = kept id before at
after_close-Moves id before syn_received at = kept id before at
after_close-Moves id before established at = taken id before at we_close
after_close-Moves id before fin_wait at = kept id before at
after_close-Moves id before closing at = kept id before at
after_close-Moves id before time_wait at = kept id before at
after_close-Moves id before fin_wait_1 at = kept id before at
after_close-Moves id before fin_wait_2 at = kept id before at
after_close-Moves id before close_wait at = taken id before at we_close_too
after_close-Moves id before last_ack at = kept id before at

pub initiate_close-Moves :
    (id fin_seq : ℕ) (s : State) → Moves close id (table s) (table (initiate_close id fin_seq s))
unfolding initiate_close
initiate_close-Moves id fin_seq s = elim (Bool-cases (ltb id 64)) [
  | inl known ↦ rw known (after_close-Moves id (table s) (status_of id s) refl)
  | inr unknown ↦ rw unknown (inl refl)
]

let_go-Moves :
    {e : Event} (id : ℕ) (s : State) {a : Status}
    → status_of id s ≡ a
    → Arrow e a closed
    → Moves e id (table s) (table (let_go id s))
let_go-Moves {e} id s at arrow =
    subst (Moves e id (table s)) (sym (let_go-table id s)) (taken id (table s) at arrow)

acked-Moves :
    (now id ack_num : ℕ) (a : Status) (s : State)
    → status_of id s ≡ a
    → Moves ack id (table s) (table (acked now id ack_num a s))
unfolding acked enter_time_wait
acked-Moves now id ack_num closed s at = inl refl
acked-Moves now id ack_num listen s at = inl refl
acked-Moves now id ack_num syn_sent s at = inl refl
acked-Moves now id ack_num syn_received s at =
    if_both (λ r. Moves ack id (table s) (table r)) _ s (set_status id established s) (inl refl)
      (taken id (table s) at heard)
acked-Moves now id ack_num established s at = inl refl
acked-Moves now id ack_num fin_wait s at = inl refl
acked-Moves now id ack_num closing s at =
    taken_if ack id _ s (enter_time_wait now id s) (taken id (table s) at both_heard)
acked-Moves now id ack_num time_wait s at = inl refl
acked-Moves now id ack_num fin_wait_1 s at =
    taken_if ack id _ s (set_status id fin_wait_2 s) (taken id (table s) at our_fin_heard)
acked-Moves now id ack_num fin_wait_2 s at = inl refl
acked-Moves now id ack_num close_wait s at = inl refl
acked-Moves now id ack_num last_ack s at =
    taken_if ack id _ s (let_go id s) (let_go-Moves id s at last_heard)

finished-Moves :
    (now id : ℕ) (a : Status) (s : State)
    → status_of id s ≡ a
    → Moves fin id (table s) (table (finished now id a s))
unfolding finished enter_time_wait
finished-Moves now id closed s at = inl refl
finished-Moves now id listen s at = inl refl
finished-Moves now id syn_sent s at = inl refl
finished-Moves now id syn_received s at = inl refl
finished-Moves now id established s at = taken id (table s) at they_close
finished-Moves now id fin_wait s at = inl refl
finished-Moves now id closing s at = inl refl
finished-Moves now id time_wait s at = inl refl
finished-Moves now id fin_wait_1 s at = taken id (table s) at at_once
finished-Moves now id fin_wait_2 s at = taken id (table s) at they_close_too
finished-Moves now id close_wait s at = inl refl
finished-Moves now id last_ack s at = inl refl

pub on_ack-Moves :
    (now id ack_num : ℕ) (s : State) → Moves ack id (table s) (table (on_ack now id ack_num s))
unfolding on_ack
on_ack-Moves now id ack_num s =
    if_both (λ r. Moves ack id (table s) (table r)) _ s (acked now id ack_num (status_of id s) s)
      (inl refl) (acked-Moves now id ack_num (status_of id s) s refl)

pub on_fin-Moves : (now id : ℕ) (s : State) → Moves fin id (table s) (table (on_fin now id s))
unfolding on_fin
on_fin-Moves now id s =
    if_both (λ r. Moves fin id (table s) (table r)) _ s (finished now id (status_of id s) s)
      (inl refl) (finished-Moves now id (status_of id s) s refl)

pub on_rst-Moves : (id : ℕ) (s : State) → Moves rst id (table s) (table (on_rst id s))
unfolding on_rst Timer.on_rst
on_rst-Moves id s = elim (Bool-cases (ltb id 64)) [
  | inr unknown ↦ rw unknown (inl refl)
  | inl known ↦ elim (Bool-cases (is_closed (get_or s.sched.status id closed))) [
    | inl is_shut ↦ rw (known, is_shut) (inl refl)
    | inr is_open ↦
        let left : (Timer.cancel id (set_status id closed s).sched).status
            ≡ update_at id (λ _. closed) (table s) =
          cancel-status id (set_status id closed s).sched in
        rw (known, is_open)
          (subst (Moves rst id (table s)) (sym left) (taken id (table s) refl hung_up))
  ]
]

is_syn_sent→eq : (a : Status) → is_syn_sent a ≡ true → a ≡ syn_sent
is_syn_sent→eq syn_sent h = refl
is_syn_sent→eq other h = cc

is_time_wait→eq : (a : Status) → is_time_wait a ≡ true → a ≡ time_wait
is_time_wait→eq time_wait h = refl
is_time_wait→eq other h = cc

connected-Moves :
    (id peer_isn ack_num : ℕ) (s : State)
    → status_of id s ≡ syn_sent
    → Moves syn_ack id (table s) (table (connected id peer_isn ack_num s).1)
unfolding connected
connected-Moves id peer_isn ack_num s at =
    if_both (λ (r : Bool × State). Moves syn_ack id (table s) (table r.1)) _ (false, s) _ (inl refl)
      (taken id (table s) at answered)

pub on_syn_ack-Moves :
    (id peer_isn ack_num : ℕ) (s : State)
    → Moves syn_ack id (table s) (table (on_syn_ack id peer_isn ack_num s).1)
unfolding on_syn_ack
on_syn_ack-Moves id peer_isn ack_num s = elim (Bool-cases (ltb id 64)) [
  | inr unknown ↦ rw unknown (inl refl)
  | inl known ↦ elim (Bool-cases (is_syn_sent (status_of id s))) [
    | inr other ↦ rw (known, other) (inl refl)
    | inl sent ↦
        rw (known, sent)
          (connected-Moves id peer_isn ack_num s (is_syn_sent→eq (status_of id s) sent))
  ]
]

tick_slot-Moves : (now i : ℕ) (s : State) → Moves clock i (table s) (table (tick_slot now i s))
unfolding tick_slot
tick_slot-Moves now i s = elim (Bool-cases (is_time_wait (status_of i s))) [
  | inr other ↦ rw other (inl refl)
  | inl waits ↦ rw waits (
      if_both (λ r. Moves clock i (table s) (table r)) _ s _ (inl refl)
        (taken i (table s) (is_time_wait→eq (status_of i s) waits) waited))
]

pub tick_from-Trail :
    (now k i : ℕ) (s : State) → Trail clock (table s) (table (tick_from now k i s))
unfolding tick_from
tick_from-Trail now zero i s = stop
tick_from-Trail now (suc k) i s =
    go i (tick_slot-Moves now i s) (tick_from-Trail now k (i + 1) (tick_slot now i s))
