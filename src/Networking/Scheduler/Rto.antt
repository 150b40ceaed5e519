-- ===== src/Networking/Scheduler/Rto.antt =====
-- The timers of the connections stay in their bounds.
use native.Mathlib.Decide.{dec_le}
use aevros.Base.{
  ℕ, zero, suc, ◌+◌, ◌≤◌, ◌≡◌, refl, sym, ◌∙◌, inl, inr, subst, Bool, true, false, not, ◌||◌,
  Option, none, some, List, [], ◌∷◌, arith, ltb, leb, ◌==◌, if◌then◌else◌, if_both, is_some, add32,
  sub32, update_at, length, length-map, All, All-update_at, All-replicate, Bool-cases, Option-cases,
  find,
}
use aevros.Networking.Conversation.{closed}
use aevros.Networking.LockBox
use aevros.Networking.Scheduler.{
  Segment, Conn, State, Outside, idle, is_retry, blank, zeroed, conn_at, set_conn, present, resend,
  oldest, is_free, free_segment, track_conn, track, retry_limit, valid_id, max_frame,
}
use aevros.Networking.Scheduler.Timer.{
  free_acked, fast, duplicate, ack, cancel, on_rst, give_up, backed_off, expire, tick_conn,
  tick_from, tick,
}
use aevros.Networking.Scheduler.Conns.{
  IsConn, blank-IsConn, get-IsConn, track_conn-IsConn, length-free_acked, settle-IsConn,
  same-IsConn, cancelled-IsConn, backed_off-IsConn, waits,
}

pub record AllConn (s : State) : Type 0 where
  pub conns : All IsConn s.conns

set_conn-AllConn :
    (id : ℕ) (c : Conn) (s : State) → AllConn s → IsConn c → AllConn (set_conn id c s)
set_conn-AllConn id c s a h = record {
  conns = All-update_at IsConn id (λ _. c) s.conns (λ x e k. h) a.conns;
}

present-conns :
    (t : Outside) (id : ℕ) (frame : List ℕ) (pass : Option ℕ) (s : State)
    → (present t id frame pass s).conns ≡ s.conns
unfolding present
present-conns t id frame none s = refl
present-conns t id frame (some pass) s = ground arith

resend-conns : (t : Outside) (id : ℕ) (e : Segment) (s : State) → (resend t id e s).conns ≡ s.conns
unfolding resend
resend-conns t id e s = present-conns t id e.frame _ _

resend-AllConn :
    (t : Outside) (id : ℕ) (e : Segment) (s : State) → AllConn s → AllConn (resend t id e s)
resend-AllConn t id e s a = record {
  conns = subst (All IsConn) (sym (resend-conns t id e s)) a.conns;
}

track-AllConn :
    (now id seq seq_len : ℕ) (frame : List ℕ) (s : State)
    → AllConn s
    → AllConn (track now id seq seq_len frame s).1
unfolding track
track-AllConn now id seq seq_len frame s a =
    let after = track_conn now seq seq_len frame (conn_at id s) in
    let set =
      set_conn-AllConn id after s a
        (track_conn-IsConn now seq seq_len frame (conn_at id s) (get-IsConn id s.conns a.conns)) in
    let fits : Bool × State =
      if is_some (find is_free (conn_at id s).seg)
      then (true, set_conn id after s)
      else (false, s) in
    let all : AllConn fits.1 =
      if_both (λ (r : Bool × State). AllConn r.1) (is_some (find is_free (conn_at id s).seg))
        (true, set_conn id after s) (false, s) set a in
    if_both (λ (r : Bool × State). AllConn r.1)
      (not (valid_id id) || length frame == 0 || ltb max_frame (length frame)) (false, s) fits a all

fast-AllConn :
    (t : Outside) (id : ℕ) (c : Conn) (s : State) → AllConn s → IsConn c → AllConn (fast t id c s)
unfolding fast
fast-AllConn t id c s a h =
    let c' : Conn = record c { dup_ack_count = 0 } in
    let set = set_conn-AllConn id c' s a (same-IsConn c.last_ack_seen 0 c h) in
    elim (Option-cases (oldest c)) [
      | inl e ↦
          subst
            (λ o.
              AllConn (elim o [
                | none ↦ set_conn id c' s
                | some (i, x) ↦ resend t id x (set_conn id c' s)
              ]))
            (sym e) set
      | inr ((i, x), e) ↦
          subst
            (λ o.
              AllConn (elim o [
                | none ↦ set_conn id c' s
                | some (i, x) ↦ resend t id x (set_conn id c' s)
              ]))
            (sym e) (resend-AllConn t id x (set_conn id c' s) set)
    ]

duplicate-AllConn :
    (t : Outside) (id acked : ℕ) (c : Conn) (s : State)
    → AllConn s
    → IsConn c
    → AllConn (duplicate t id acked c s)
unfolding duplicate
duplicate-AllConn t id acked c s a h =
    if_both AllConn _ _ _
      (if_both AllConn _ _ _ (fast-AllConn t id c s a h)
        (set_conn-AllConn id _ s a (same-IsConn c.last_ack_seen (add32 c.dup_ack_count 1) c h)))
      (set_conn-AllConn id _ s a (same-IsConn acked 0 c h))

ack-AllConn :
    (t : Outside) (now id acked : ℕ) (s : State) → AllConn s → AllConn (ack t now id acked s)
unfolding ack
ack-AllConn t now id acked s a =
    let c = conn_at id s in
    let h = get-IsConn id s.conns a.conns in
    let len = length-free_acked acked now none c.seg ∙ h.sized in
    if_both AllConn _ _ _ a (
      if_both AllConn _ _ _ (duplicate-AllConn t id acked c s a h)
        (set_conn-AllConn id _ s a (settle-IsConn acked (free_acked acked now none c.seg) c len h)))

cancel-AllConn : (id : ℕ) (s : State) → AllConn s → AllConn (cancel id s)
unfolding cancel
cancel-AllConn id s a =
    if_both AllConn _ _ _ a
      (set_conn-AllConn id _ s a (cancelled-IsConn (conn_at id s) (get-IsConn id s.conns a.conns)))

released :
    (id : ℕ) (s : State) → AllConn s → AllConn (record s { lockbox = LockBox.release id s.lockbox })
released id s a = record { conns = a.conns }

on_rst-AllConn : (id : ℕ) (s : State) → AllConn s → AllConn (on_rst id s)
unfolding on_rst
on_rst-AllConn id s a = if_both AllConn _ _ _ a (
    if_both AllConn _ _ _ a (
      released id _ (
        cancel-AllConn id (record s { status = update_at id (λ _. closed) s.status })
          (record { conns = a.conns }))))

give_up-AllConn : (id : ℕ) (c : Conn) (s : State) → AllConn s → IsConn c → AllConn (give_up id c s)
unfolding give_up
give_up-AllConn id c s a h = on_rst-AllConn id _ (
    set_conn-AllConn id _ (record s { giveup_total = add32 s.giveup_total 1 })
      (record { conns = a.conns })
      (record {
        sized = length-map free_segment c.seg ∙ h.sized;
        tries = omega arith;
        bounded = h.bounded;
        armed = inl refl;
      }))

expire-AllConn :
    (t : Outside) (now id : ℕ) (c : Conn) (o : Option (ℕ × Segment)) (s : State)
    → AllConn s
    → IsConn c
    → 20 ≤ c.rto
    → AllConn (expire t now id c o s)
unfolding expire
expire-AllConn t now id c none s a h set =
    set_conn-AllConn id (record c { state = idle }) s a
      (record { sized = h.sized; tries = h.tries; bounded = h.bounded; armed = inl refl })
expire-AllConn t now id c (some (i, e)) s a h set =
    if_both AllConn (ltb (sub32 now e.start_timer) c.rto) s
      (if leb retry_limit c.retry_track
        then give_up id c s
        else set_conn id (backed_off now i c) (resend t id e s))
      a
      (elim (dec_le 8 c.retry_track) [
        | yes many ↦
            let test : leb retry_limit c.retry_track ≡ true = ground (arith, many) in
            rw test (give_up-AllConn id c s a h)
        | no few ↦
            let test : leb retry_limit c.retry_track ≡ false = ground (arith, few) in
            rw test (
              set_conn-AllConn id (backed_off now i c) (resend t id e s) (resend-AllConn t id e s a)
                (backed_off-IsConn now i c h set (omega arith)))
      ])

tick_conn-AllConn :
    (t : Outside) (now id : ℕ) (s : State) → AllConn s → AllConn (tick_conn t now id s)
unfolding tick_conn
tick_conn-AllConn t now id s a =
    let c = conn_at id s in
    let h = get-IsConn id s.conns a.conns in
    elim (Bool-cases (is_retry c.state)) [
      | inr e ↦ rw e a
      | inl e ↦ rw e (expire-AllConn t now id c (oldest c) s a h (waits c h e))
    ]

tick_from-AllConn :
    (t : ℕ → Outside) (now k i : ℕ) (s : State) → AllConn s → AllConn (tick_from t now k i s)
unfolding tick_from
tick_from-AllConn t now zero i s a = a
tick_from-AllConn t now (suc k) i s a =
    tick_from-AllConn t now k (i + 1) (tick_conn (t i) now i s) (tick_conn-AllConn (t i) now i s a)

-- The calls, with what they read from outside.
pub data Call : Type 0 where
  tracks : ℕ → ℕ → ℕ → ℕ → List ℕ → Call
  acks : Outside → ℕ → ℕ → ℕ → Call
  cancels : ℕ → Call
  ticks : (ℕ → Outside) → ℕ → Call

unfoldable pub step : State → Call → State
step s (tracks now id seq seq_len frame) = (track now id seq seq_len frame s).1
step s (acks t now id acked) = ack t now id acked s
step s (cancels id) = cancel id s
step s (ticks t now) = tick t now s

unfoldable pub run : State → List Call → State
run s [] = s
run s (c ∷ cs) = run (step s c) cs

step-AllConn : (s : State) (c : Call) → AllConn s → AllConn (step s c)
unfolding step
step-AllConn s (tracks now id seq seq_len frame) a = track-AllConn now id seq seq_len frame s a
step-AllConn s (acks t now id acked) a = ack-AllConn t now id acked s a
step-AllConn s (cancels id) a = cancel-AllConn id s a
step-AllConn s (ticks t now) a = tick_from-AllConn t now 64 0 s a

run-keeps_AllConn : (s : State) (cs : List Call) → AllConn s → AllConn (run s cs)
unfolding run
run-keeps_AllConn s [] a = a
run-keeps_AllConn s (c ∷ cs) a = run-keeps_AllConn (step s c) cs (step-AllConn s c a)

-- From the zeroed state, after any calls, whatever the driver and the clock do: every connection has
-- its window of four slots, at most 8 timeouts counted, and a retransmission timeout that is unset or
-- 20 to 1000 ticks, and that is set while the connection waits for an acknowledgement.
pub run-AllConn : (calls : List Call) → AllConn (run zeroed calls)
run-AllConn calls =
    run-keeps_AllConn zeroed calls (record { conns = All-replicate IsConn 64 blank blank-IsConn })
