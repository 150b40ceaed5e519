-- ===== src/Networking/Bouncer.antt =====
-- Networking/IPv4/Bouncer/bouncer.c: the filter of Ethernet frames, and its log. A frame is the
-- list of its bytes; `bouncer_log` takes the tick that it reads. A null address, which leaves the
-- bytes of the entry before, is `none`. The texts are not modelled.
pub mod Log
mod Examples
use aevros.Base.{
  ℕ, zero, suc, ◌+◌, ◌-◌, ◌%◌, ◌^◌, Bool, true, false, not, ◌&&◌, ◌||◌, Option, none, some, List,
  [], ◌∷◌, ltb, leb, ◌==◌, if◌then◌else◌, add32, length, get_or, set, take, drop, replicate,
}

abbrev pub min_frame : ℕ
min_frame = 14

abbrev pub max_frame : ℕ
max_frame = 1518

abbrev pub log_capacity : ℕ
log_capacity = 64

-- `bounce_verdict_t`
pub data Verdict : Type 0 where
  accept too_short too_long bad_dest : Verdict

-- `bouncer_log_entry_t`
pub record Entry : Type 0 where
  pub tick : ℕ
  pub verdict : Verdict
  pub frame_len : ℕ
  pub dest_mac : List ℕ
  pub src_mac : List ℕ

pub record State : Type 0 where
  pub door_log : List Entry
  pub log_head : ℕ
  pub log_total : ℕ
  pub turned_away : ℕ

abbrev pub blank : Entry
blank = record {
  tick = 0;
  verdict = accept;
  frame_len = 0;
  dest_mac = replicate 6 0;
  src_mac = replicate 6 0;
}

abbrev pub zeroed : State
zeroed = record {
  door_log = replicate log_capacity blank;
  log_head = 0;
  log_total = 0;
  turned_away = 0;
}

-- The `for` of `mac_equal`, over `n` bytes.
pub first_equal : ℕ → List ℕ → List ℕ → Bool
first_equal zero a b = true
first_equal (suc n) a b =
    let rest = first_equal n (drop 1 a) (drop 1 b) in
    if not (get_or a 0 0 == get_or b 0 0) then false else rest

abbrev pub mac_equal : List ℕ → List ℕ → Bool
mac_equal a b = first_equal 6 a b

-- The `for` of `mac_broadcast`.
pub first_full : ℕ → List ℕ → Bool
first_full zero mac = true
first_full (suc n) mac =
    let rest = first_full n (drop 1 mac) in if not (get_or mac 0 0 == 255) then false else rest

abbrev pub mac_broadcast : List ℕ → Bool
mac_broadcast mac = first_full 6 mac

abbrev pub mac_multicast : List ℕ → Bool
mac_multicast mac = not (get_or mac 0 0 % 2 == 0)

pub check : List ℕ → List ℕ → Verdict
check frame our_mac =
    if ltb max_frame (length frame)
    then too_long
    else if ltb (length frame) min_frame
    then too_short
    else if mac_equal frame our_mac
    then accept
    else if mac_broadcast frame
    then accept
    else if mac_multicast frame
    then accept
    else bad_dest

abbrev pub is_accept : Verdict → Bool
is_accept accept = true
is_accept too_short = false
is_accept too_long = false
is_accept bad_dest = false

abbrev pub copied : Option (List ℕ) → List ℕ → List ℕ
copied none old = old
copied (some mac) old = mac

-- What a call of `bouncer_log` notes.
pub record Note : Type 0 where
  pub tick : ℕ
  pub verdict : Verdict
  pub frame_len : ℕ
  pub dest_mac : Option (List ℕ)
  pub src_mac : Option (List ℕ)

abbrev pub entry_of : Note → Entry → Entry
entry_of n old = record {
  tick = n.tick;
  verdict = n.verdict;
  frame_len = n.frame_len;
  dest_mac = copied n.dest_mac old.dest_mac;
  src_mac = copied n.src_mac old.src_mac;
}

unfoldable pub log : Note → State → State
log n s = record {
  door_log = set s.door_log s.log_head (entry_of n (get_or s.door_log s.log_head blank));
  log_head = (s.log_head + 1) % log_capacity;
  log_total = add32 s.log_total 1;
  turned_away = if is_accept n.verdict then s.turned_away else add32 s.turned_away 1;
}

abbrev pub log_count : State → ℕ
log_count s = if ltb s.log_total log_capacity then s.log_total else log_capacity

unfoldable pub log_get : ℕ → State → Option Entry
log_get index s =
    if leb (log_count s) index
    then none
    else some (get_or s.door_log ((s.log_head + log_capacity - 1 - index) % log_capacity) blank)
