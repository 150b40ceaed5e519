-- ===== src/Networking/Rapport/Steps.antt =====
-- The calls as steps of the diagram.
use aevros.Base.{ℕ, List}
use aevros.Networking.Conversation.{Status}
use aevros.Networking.Rapport.{
  State, on_syn, initiate_close, on_ack, on_fin, on_rst, initiate_connect, on_syn_ack, tick,
}
use aevros.Networking.Rapport.Diagram.{
  syn, connect, syn_ack, ack, fin, close, rst, clock, Moves, Trail, table,
}
use aevros.Networking.Rapport.Moves.{
  on_syn-Moves, connect-Moves, on_syn_ack-Moves, on_ack-Moves, on_fin-Moves, initiate_close-Moves,
  on_rst-Moves, tick_from-Trail,
}

-- The calls, with the tick counts that they read.
pub data Call : Type 0 where
  syns : ℕ → ℕ → ℕ → Call
  connects : ℕ → ℕ → Call
  syn_acks : ℕ → ℕ → ℕ → Call
  acks : ℕ → ℕ → ℕ → Call
  fins : ℕ → ℕ → Call
  closes : ℕ → ℕ → Call
  rsts : ℕ → Call
  ticks : ℕ → Call

unfoldable pub step : State → Call → State
step s (syns id peer_isn our_isn) = on_syn id peer_isn our_isn s
step s (connects id our_isn) = initiate_connect id our_isn s
step s (syn_acks id peer_isn ack_num) = (on_syn_ack id peer_isn ack_num s).1
step s (acks now id ack_num) = on_ack now id ack_num s
step s (fins now id) = on_fin now id s
step s (closes id fin_seq) = initiate_close id fin_seq s
step s (rsts id) = on_rst id s
step s (ticks now) = tick now s

-- What a call may do to the table of the states.
abbrev pub Effect : Call → List Status → List Status → Type 0
Effect (syns id peer_isn our_isn) = Moves syn id
Effect (connects id our_isn) = Moves connect id
Effect (syn_acks id peer_isn ack_num) = Moves syn_ack id
Effect (acks now id ack_num) = Moves ack id
Effect (fins now id) = Moves fin id
Effect (closes id fin_seq) = Moves close id
Effect (rsts id) = Moves rst id
Effect (ticks now) = Trail clock

-- Whatever the call and the state: the conversation of the call keeps its state or takes an arrow of
-- the diagram that is marked with the call, and all others keep theirs; the clock takes any number of
-- its arrows, each from TIME_WAIT to CLOSED.
pub step-Effect : (s : State) (call : Call) → Effect call (table s) (table (step s call))
unfolding step
step-Effect s (syns id peer_isn our_isn) = on_syn-Moves id peer_isn our_isn s
step-Effect s (connects id our_isn) = connect-Moves id our_isn s
step-Effect s (syn_acks id peer_isn ack_num) = on_syn_ack-Moves id peer_isn ack_num s
step-Effect s (acks now id ack_num) = on_ack-Moves now id ack_num s
step-Effect s (fins now id) = on_fin-Moves now id s
step-Effect s (closes id fin_seq) = initiate_close-Moves id fin_seq s
step-Effect s (rsts id) = on_rst-Moves id s
step-Effect s (ticks now) = tick_from-Trail now 64 0 s
