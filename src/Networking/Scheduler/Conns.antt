-- ===== src/Networking/Scheduler/Conns.antt =====
-- What each change of a connection keeps of its window and its timers.
use aevros.Base.{
  ℕ, zero, suc, ◌*◌, ◌/◌, ◌%◌, ◌^◌, ◌<◌, ◌≤◌, ◌≡◌, refl, ◌∙◌, ◌⊎◌, inl, inr, true, false, Option,
  none, some, List, [], ◌∷◌, map, arith, ◌==◌, add32, get_or, length, length-map, length-update_at,
  length-update_first, All, Bool-cases,
}
use aevros.Networking.Scheduler.{
  Segment, Conn, is_retry, blank, is_free, free_segment, tracked, track_conn,
}
use aevros.Networking.Scheduler.Timer.{
  Acked, free_acked, smooth, settle, cancelled, resent, backed_off, clamp, timed, sample_of,
}

-- The window has its four slots, no more than 8 timeouts are counted, the timeout is 0 before the
-- first segment and 20 to 1000 ticks after it, and is set while the connection waits.
pub record IsConn (c : Conn) : Type 0 where
  pub sized : length c.seg ≡ 4
  pub tries : c.retry_track ≤ 8
  pub bounded : (c.rto ≡ 0) ⊎ (20 ≤ c.rto) × (c.rto ≤ 1000)
  pub armed : (is_retry c.state ≡ false) ⊎ (20 ≤ c.rto)

pub blank-IsConn : IsConn blank
blank-IsConn = record { sized = refl; tries = omega arith; bounded = inl refl; armed = inl refl }

pub get-IsConn : (id : ℕ) (cs : List Conn) → All IsConn cs → IsConn (get_or cs id blank)
get-IsConn id [] a = blank-IsConn
get-IsConn zero (c ∷ cs) (h, a) = h
get-IsConn (suc id) (c ∷ cs) (h, a) = get-IsConn id cs a

pub track_conn-IsConn :
    (now seq seq_len : ℕ) (frame : List ℕ) (c : Conn)
    → IsConn c
    → IsConn (track_conn now seq seq_len frame c)
unfolding track_conn
track_conn-IsConn now seq seq_len frame c h =
    let len = length-update_first is_free (λ _. tracked now seq seq_len frame) c.seg ∙ h.sized in
    record {
      sized = ground (arith, len);
      tries = ground (arith, h.tries);
      bounded = ground (arith, h.bounded);
      armed = ground (arith, h.bounded);
    }

pub length-free_acked :
    (acked now : ℕ) (sample : Option ℕ) (es : List Segment)
    → length (free_acked acked now sample es).seg ≡ length es
unfolding free_acked
length-free_acked acked now sample [] = refl
length-free_acked acked now sample (e ∷ es) = ground (
  arith,
  length-free_acked acked now sample es,
  length-free_acked acked now (sample_of now e sample) es,
)

clamp-bounds : (rto : ℕ) → (20 ≤ clamp rto) × (clamp rto ≤ 1000)
clamp-bounds rto = (ground arith, ground arith)

timed-IsConn : (srtt rttvar : ℕ) (c : Conn) → IsConn c → IsConn (timed srtt rttvar c)
timed-IsConn srtt rttvar c h =
    let (low, high) = clamp-bounds (add32 srtt (4 * rttvar % 2 ^ 32)) in
    record { sized = h.sized; tries = h.tries; bounded = inr (low, high); armed = inr low }

smooth-IsConn : (sample : Option ℕ) (c : Conn) → IsConn c → IsConn (smooth sample c)
unfolding smooth
smooth-IsConn none c h = h
smooth-IsConn (some sample) c h = elim (Bool-cases (c.srtt == 0)) [
  | inl e ↦ rw e (timed-IsConn sample (sample / 2) c h)
  | inr e ↦ rw e (timed-IsConn _ _ c h)
]

pub settle-IsConn :
    (acked : ℕ) (a : Acked) (c : Conn) → length a.seg ≡ 4 → IsConn c → IsConn (settle acked a c)
unfolding settle
settle-IsConn acked a c len h =
    let k =
      smooth-IsConn a.sample (record c { seg = a.seg })
        (record { sized = len; tries = h.tries; bounded = h.bounded; armed = h.armed }) in
    record {
      sized = k.sized;
      tries = omega arith;
      bounded = k.bounded;
      armed = ground (arith, k.armed);
    }

-- The retransmissions and the duplicates change neither timer nor window.
pub same-IsConn :
    (n m : ℕ) (c : Conn) → IsConn c → IsConn (record c { last_ack_seen = n; dup_ack_count = m })
same-IsConn n m c h = record {
  sized = h.sized;
  tries = h.tries;
  bounded = h.bounded;
  armed = h.armed;
}

pub cancelled-IsConn : (c : Conn) → IsConn c → IsConn (cancelled c)
cancelled-IsConn c h = record {
  sized = length-map free_segment c.seg ∙ h.sized;
  tries = omega arith;
  bounded = inl refl;
  armed = inl refl;
}

pub backed_off-IsConn :
    (now i : ℕ) (c : Conn) → IsConn c → 20 ≤ c.rto → c.retry_track < 8 → IsConn (backed_off now i c)
backed_off-IsConn now i c h set fewer = record {
  sized =
      length-update_at i (λ e. record e { start_timer = now }) (map resent c.seg)
      ∙ length-map resent c.seg
      ∙ h.sized;
  tries = omega arith;
  bounded = inr (ground (arith, set, h.bounded), ground (arith, set, h.bounded));
  armed = inr (ground (arith, set, h.bounded));
}

-- A connection that waits has its timeout set.
pub waits : (c : Conn) → IsConn c → is_retry c.state ≡ true → 20 ≤ c.rto
waits c h r = ground (arith, h.armed, r)
