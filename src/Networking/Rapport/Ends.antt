-- ===== src/Networking/Rapport/Ends.antt =====
-- A conversation that both sides close ends, whatever the order of their goodbyes.
use aevros.Base.{ℕ, ◌+◌, ◌^◌, ◌≡◌, ◌<◌, ◌≤◌, true, List, [], ◌∷◌, arith, add32, sub32, leb}
use aevros.Networking.Conversation.{established}
use aevros.Networking.Rapport.{Slot, State, initiate_close, on_ack, on_fin}
use aevros.Networking.Rapport.Steps.{Call, acks, fins, closes, ticks, step}
use aevros.Networking.Rapport.Goodbye.{
  At, Gone, close-At, fin-established, fin-fin_wait_1, fin-fin_wait_2, ack-fin_wait_1, ack-closing,
  ack-last_ack, tick_from-over,
}

unfoldable pub run : State → List Call → State
run s [] = s
run s (c ∷ cs) = run (step s c) cs

-- Our FIN is acknowledged before the peer's FIN comes, or after it, or the peer is the first to close.
pub data Order : Type 0 where
  ours_first at_once theirs_first : Order

-- The calls of the closing of `id`, with the acknowledgement `n` of our FIN, at the tick count `t`, and a
-- later run of the clock at `now`.
abbrev pub script : Order → ℕ → ℕ → ℕ → ℕ → ℕ → List Call
script ours_first id fin_seq n t now = closes id fin_seq ∷ acks t id n ∷ fins t id ∷ ticks now ∷ []
script at_once id fin_seq n t now = closes id fin_seq ∷ fins t id ∷ acks t id n ∷ ticks now ∷ []
script theirs_first id fin_seq n t now = fins t id ∷ closes id fin_seq ∷ acks t id n ∷ []

-- An established conversation whose three closing messages arrive, in whichever of the three orders,
-- ends: after the last of them, and 400 ticks where we wait in TIME_WAIT, it is CLOSED and its slot in
-- LockBox is free. The sequence number after our FIN must not wrap around.
pub run-script_ends :
    (order : Order) (id fin_seq n t now : ℕ) (v : Slot) (s : State)
    → id < 64
    → At id established v s
    → fin_seq + 1 < 2 ^ 32
    → fin_seq + 1 ≤ n
    → 400 ≤ sub32 now t
    → Gone id (run s (script order id fin_seq n t now))
unfolding run step
run-script_ends ours_first id fin_seq n t now v s known h room covers late =
    let test : leb (add32 fin_seq 1) n ≡ true = ground arith in
    let s1 = initiate_close id fin_seq s in
    let s2 = on_ack t id n s1 in
    tick_from-over id known now late 64 0 (on_fin t id s2) (omega arith) (omega arith) (
      fin-fin_wait_2 id known t s2
        (ack-fin_wait_1 id known t n test s1 (close-At id known fin_seq s h)))
run-script_ends at_once id fin_seq n t now v s known h room covers late =
    let test : leb (add32 fin_seq 1) n ≡ true = ground arith in
    let s1 = initiate_close id fin_seq s in
    let s2 = on_fin t id s1 in
    tick_from-over id known now late 64 0 (on_ack t id n s2) (omega arith) (omega arith) (
      ack-closing id known t n test s2
        (fin-fin_wait_1 id known t s1 (close-At id known fin_seq s h)))
run-script_ends theirs_first id fin_seq n t now v s known h room covers late =
    let test : leb (add32 fin_seq 1) n ≡ true = ground arith in
    let s1 = on_fin t id s in
    ack-last_ack id known t n test (initiate_close id fin_seq s1)
      (close-At id known fin_seq s1 (fin-established id known t s h))
