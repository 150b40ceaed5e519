-- ===== src/Networking/Rapport/Sequence.antt =====
-- Networking/IPv4/Conversation/rapport.c: the sequence numbers and the peer's window of an open
-- conversation.
use aevros.Base.{ℕ, Bool, false, not, ◌&&◌, ltb, leb, ◌==◌, if◌then◌else◌, add32}
use aevros.Networking.Conversation.{Status, closed}
use aevros.Networking.Scheduler.Timer.{bytes_in_flight}
use aevros.Networking.Rapport.{State, valid_id, status_of, slot_of, set_slot}

pub set_peer_window : ℕ → ℕ → State → State
set_peer_window id window s =
    if not (valid_id id) then s else set_slot id (λ v. record v { peer_window = window }) s

pub get_peer_window : ℕ → State → ℕ
get_peer_window id s = if not (valid_id id) then 0 else (slot_of id s).peer_window

pub send_allowed : ℕ → ℕ → State → Bool
send_allowed id length s =
    if not (valid_id id)
    then false
    else leb (add32 (bytes_in_flight id s.sched) length) (slot_of id s).peer_window

pub seq_expected : ℕ → ℕ → State → Bool
seq_expected id seq s = if not (valid_id id) then false else seq == (slot_of id s).expected_seq

pub get_expected_seq : ℕ → State → ℕ
get_expected_seq id s = if not (valid_id id) then 0 else (slot_of id s).expected_seq

pub get_send_seq : ℕ → State → ℕ
get_send_seq id s = if not (valid_id id) then 0 else (slot_of id s).send_seq

pub advance_send_seq : ℕ → ℕ → State → State
advance_send_seq id amount s =
    if not (valid_id id)
    then s
    else set_slot id (λ v. record v { send_seq = add32 v.send_seq amount }) s

pub get_our_isn : ℕ → State → ℕ
get_our_isn id s = if not (valid_id id) then 0 else (slot_of id s).our_isn

pub is_stale_retransmit : ℕ → ℕ → ℕ → State → Bool
is_stale_retransmit id seq data_len s =
    if not (valid_id id)
    then false
    else ltb seq (slot_of id s).expected_seq && leb (add32 seq data_len) (slot_of id s).expected_seq

pub advance_seq : ℕ → ℕ → State → State
advance_seq id amount s =
    if not (valid_id id)
    then s
    else set_slot id (λ v. record v { expected_seq = add32 v.expected_seq amount }) s

pub get_state : ℕ → State → Status
get_state id s = if not (valid_id id) then closed else status_of id s
