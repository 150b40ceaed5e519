-- ===== src/Networking/Conversation.antt =====
-- Networking/IPv4/Conversation/conversation.h: the states of a TCP conversation.

use aevros.Base.{Bool, true, false}

-- `conversation_state_t`
pub data Status : Type 0 where
  closed listen syn_sent syn_received established fin_wait closing : Status
  time_wait fin_wait_1 fin_wait_2 close_wait last_ack : Status

abbrev pub is_closed : Status → Bool
is_closed closed = true
is_closed listen = false
is_closed syn_sent = false
is_closed syn_received = false
is_closed established = false
is_closed fin_wait = false
is_closed closing = false
is_closed time_wait = false
is_closed fin_wait_1 = false
is_closed fin_wait_2 = false
is_closed close_wait = false
is_closed last_ack = false
