-- ===== src/Networking/Foyer.antt =====
-- Networking/Foyer/foyer.c: the frames that wait for the MAC address of their target. A frame is the
-- list of its bytes. Each frame that is sent goes through a pass of Bailiff, and a `Moment` holds what
-- these calls read: three tick counts, and the driver's answer.
pub mod Drain
mod Examples
use aevros.Networking.Rolodex
use aevros.Networking.Bailiff
use aevros.Base.{
  ℕ, zero, suc, ◌+◌, Bool, true, false, not, ◌&&◌, ◌||◌, Option, none, some, List, [], ◌∷◌, ◌++◌,
  ltb, leb, ◌==◌, if◌then◌else◌, is_some, bytes_eq, add32, sub32, find, update_first, replicate,
  length, take, drop,
}

abbrev pub capacity : ℕ
capacity = 16

abbrev pub max_frame : ℕ
max_frame = Bailiff.max_frame

abbrev pub max_retries : ℕ
max_retries = 5

abbrev pub retry_interval_tick : ℕ
retry_interval_tick = 100

-- `foyer_entry_t`
pub record Entry : Type 0 where
  pub target_ip : List ℕ
  pub frame : List ℕ
  pub in_use : Bool
  pub last_attempt : ℕ
  pub retry_count : ℕ

-- What the slots share: the passes and the counters.
pub record Desk : Type 0 where
  pub bailiff : Bailiff.State
  pub flushed_total : ℕ
  pub dropped_total : ℕ

pub record State : Type 0 where
  pub slots : List Entry
  pub desk : Desk

pub record Moment : Type 0 where
  pub asked : ℕ
  pub issued : ℕ
  pub shown : ℕ
  pub sent : Bool

abbrev pub blank : Entry
blank = record {
  target_ip = replicate 4 0;
  frame = [];
  in_use = false;
  last_attempt = 0;
  retry_count = 0;
}

abbrev pub zeroed : State
zeroed = record {
  slots = replicate capacity blank;
  desk = record { bailiff = Bailiff.initial; flushed_total = 0; dropped_total = 0 };
}

-- `bailiff_present_pass` where `bailiff_request_pass` gave a pass.
pub present : Moment → List ℕ → Option ℕ → Bailiff.State → Bool × Bailiff.State
present m frame none b = (false, b)
present m frame (some id) b = Bailiff.present_pass m.shown id frame m.sent b

pub send : Moment → List ℕ → Bailiff.State → Bool × Bailiff.State
send m frame b =
    let (id, b') = Bailiff.request_pass m.asked m.issued frame b in present m frame id b'

pub send_request : Moment → Option (List ℕ) → Desk → Desk
send_request m none d = d
send_request m (some frame) d = record d { bailiff = (send m frame d.bailiff).1 }

pub send_arp_request : Moment → List ℕ → List ℕ → Rolodex.State → Desk → Desk
send_arp_request m our_mac target_ip r d =
    send_request m (Rolodex.request_frame target_ip our_mac r) d

-- `memcpy(e->frame, mac, 6)`, of which `len` bytes are sent.
pub address : List ℕ → List ℕ → List ℕ
address mac frame = take (length frame) (mac ++ drop 6 frame)

-- The frame goes out, and is counted where it left.
pub release : Moment → List ℕ → Desk → Desk
release m frame d =
    let (left, b) = send m frame d.bailiff in
    record d {
      bailiff = b;
      flushed_total = if left then add32 d.flushed_total 1 else d.flushed_total;
    }

abbrev pub is_free : Entry → Bool
is_free e = not e.in_use

abbrev pub waits_for : List ℕ → Entry → Bool
waits_for ip e = e.in_use && bytes_eq e.target_ip ip

abbrev pub held : List ℕ → List ℕ → ℕ → Bool → Entry
held ip frame now waiting = record {
  target_ip = ip;
  frame = frame;
  in_use = waiting;
  last_attempt = now;
  retry_count = 0;
}

-- `foyer_queue` after the slot is found, with the MAC address of the target.
pub place : Moment → List ℕ → List ℕ → List ℕ → ℕ → Option (List ℕ) → Rolodex.State → State → State
place m our_mac ip frame now (some mac) r s = record {
  slots = update_first is_free (λ _. held ip (address mac frame) now false) s.slots;
  desk = release m (address mac frame) s.desk;
}
place m our_mac ip frame now none r s = record {
  slots = update_first is_free (λ _. held ip frame now true) s.slots;
  desk =
      if is_some (find (waits_for ip) s.slots)
      then s.desk
      else send_arp_request m our_mac ip r s.desk;
}

abbrev pub drop_one : Desk → Desk
drop_one d = record d { dropped_total = add32 d.dropped_total 1 }

pub queue : Moment → List ℕ → List ℕ → List ℕ → ℕ → Rolodex.State → State → Bool × State
queue m our_mac ip frame now r s =
    if length frame == 0 || ltb max_frame (length frame)
    then (false, s)
    else if not (is_some (find is_free s.slots))
    then (false, record s { desk = drop_one s.desk })
    else (true, place m our_mac ip frame now (Rolodex.lookup ip r) r s)

abbrev pub leave : Entry → Entry
leave e = record e { in_use = false }

-- `foyer_tick` on a slot in use whose address is not known.
pub retry : Moment → List ℕ → ℕ → Rolodex.State → Entry → Desk → Entry × Desk
retry m our_mac now r e d =
    if ltb (sub32 now e.last_attempt) retry_interval_tick
    then (e, d)
    else if leb max_retries e.retry_count
    then (leave e, drop_one d)
    else (
      record e { retry_count = add32 e.retry_count 1; last_attempt = now },
      send_arp_request m our_mac e.target_ip r d,
    )

pub serve : Moment → List ℕ → ℕ → Rolodex.State → Option (List ℕ) → Entry → Desk → Entry × Desk
serve m our_mac now r (some mac) e d =
    (leave (record e { frame = address mac e.frame }), release m (address mac e.frame) d)
serve m our_mac now r none e d = retry m our_mac now r e d

pub visit : Moment → List ℕ → ℕ → Rolodex.State → Entry → Desk → Entry × Desk
visit m our_mac now r e d =
    if e.in_use then serve m our_mac now r (Rolodex.lookup e.target_ip r) e d else (e, d)

-- The loop of `foyer_tick`, from the slot `i` on; each slot has its moment.
pub visit_all :
    (ℕ → Moment) → ℕ → List ℕ → ℕ → Rolodex.State → List Entry → Desk → List Entry × Desk
visit_all ms i our_mac now r [] d = ([], d)
visit_all ms i our_mac now r (e ∷ es) d =
    let (e', d') = visit (ms i) our_mac now r e d in
    let (es', d'') = visit_all ms (suc i) our_mac now r es d' in (e' ∷ es', d'')

pub tick : (ℕ → Moment) → List ℕ → ℕ → Rolodex.State → State → State
tick ms our_mac now r s =
    let (es, d) = visit_all ms 0 our_mac now r s.slots s.desk in record { slots = es; desk = d }

pub flushed_count : State → ℕ
flushed_count s = s.desk.flushed_total

pub dropped_count : State → ℕ
dropped_count s = s.desk.dropped_total
