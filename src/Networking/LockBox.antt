-- ===== src/Networking/LockBox.antt =====
-- Networking/IPv4/LockBox/lockbox.c: the table of claimed sockets, with a quota for each remote
-- address, a cap on the buffered bytes of each socket and a generation for each slot. The three
-- static variables are the record `LockBox`, the argument and result of each operation.
pub mod Answer
pub mod Claim
pub mod Valid
mod Examples
use aevros.Base.{
  ℕ, suc, ◌+◌, ◌-◌, Bool, true, false, not, ◌&&◌, ◌||◌, Option, none, some, List, [], ◌∷◌, ltb, leb,
  ◌==◌, if◌then◌else◌, is_some, bytes_eq, add32, find_index, update_first, count_if, replicate,
  drop, get_elem?, get_or, update_at,
}

abbrev pub capacity : ℕ
capacity = 64

abbrev pub max_per_ip : ℕ
max_per_ip = 8

abbrev pub max_buffered : ℕ
max_buffered = 4096

-- `lockbox_result_t`
pub data Result : Type 0 where
  ok reject_table_full reject_ip_quota reject_already_exists : Result

-- `lockbox_entry_t`
pub record Entry : Type 0 where
  pub local_port : ℕ
  pub remote_ip : List ℕ
  pub remote_port : ℕ
  pub protocol : ℕ
  pub buffered_bytes : ℕ
  pub in_use : Bool

pub record LockBox : Type 0 where
  pub table : List Entry
  pub generation : List ℕ
  pub rejected_count : ℕ

abbrev pub blank : Entry
blank = record {
  local_port = 0;
  remote_ip = 0 ∷ 0 ∷ 0 ∷ 0 ∷ [];
  remote_port = 0;
  protocol = 0;
  buffered_bytes = 0;
  in_use = false;
}

-- The zeroed static variables.
abbrev pub empty : LockBox
empty = record {
  table = replicate capacity blank;
  generation = replicate capacity 0;
  rejected_count = 0;
}

abbrev pub is_free : Entry → Bool
is_free e = not e.in_use

-- The slot belongs to this remote address.
abbrev pub held_by : List ℕ → Entry → Bool
held_by ip e = e.in_use && bytes_eq e.remote_ip ip

-- The slot is this connection.
abbrev pub connects : ℕ → List ℕ → ℕ → ℕ → Entry → Bool
connects local_port remote_ip remote_port protocol e =
    e.in_use
    && (e.local_port == local_port
        && (e.remote_port == remote_port
            && (e.protocol == protocol && bytes_eq e.remote_ip remote_ip)))

-- The slot is in use on this local port.
abbrev pub on_port : ℕ → ℕ → Entry → Bool
on_port local_port protocol e = e.in_use && (e.local_port == local_port && e.protocol == protocol)

-- `return i` in the loop, `return LOCKBOX_CAPACITY` after it.
abbrev pub or_capacity : Option ℕ → ℕ
or_capacity none = capacity
or_capacity (some i) = i

unfoldable pub count_for_ip : List ℕ → LockBox → ℕ
count_for_ip ip s = count_if (held_by ip) s.table

abbrev pub first_id : ℕ → ℕ
first_id after_id = if leb capacity after_id then 0 else after_id + 1

pub next_for_port : ℕ → ℕ → ℕ → LockBox → ℕ
next_for_port local_port protocol after_id s =
    elim (find_index (on_port local_port protocol) (drop (first_id after_id) s.table)) [
      | none ↦ capacity
      | some i ↦ first_id after_id + i
    ]

unfoldable pub find_connection : ℕ → List ℕ → ℕ → ℕ → LockBox → ℕ
find_connection local_port remote_ip remote_port protocol s =
    or_capacity (find_index (connects local_port remote_ip remote_port protocol) s.table)

pub record Claimed : Type 0 where
  pub result : Result
  -- What `*out_id` is set to, if it is.
  pub out_id : Option ℕ
  pub box : LockBox

abbrev pub reject : Result → LockBox → Claimed
reject r s = record {
  result = r;
  out_id = none;
  box = record s { rejected_count = add32 s.rejected_count 1 };
}

-- The writes of `lockbox_claim` to slot `i`, the first free one.
abbrev pub take_slot : ℕ → List ℕ → ℕ → ℕ → LockBox → ℕ → Claimed
take_slot local_port remote_ip remote_port protocol s i = record {
  result = ok;
  out_id = some i;
  box = record s {
    table =
        update_first is_free
          (λ e. record {
            local_port = local_port;
            remote_ip = remote_ip;
            remote_port = remote_port;
            protocol = protocol;
            buffered_bytes = 0;
            in_use = true;
          })
          s.table;
    generation = update_at i (λ g. add32 g 1) s.generation;
  };
}

unfoldable pub claim : ℕ → List ℕ → ℕ → ℕ → LockBox → Claimed
unfolding find_connection count_for_ip
claim local_port remote_ip remote_port protocol s =
    if not (find_connection local_port remote_ip remote_port protocol s == capacity)
    then reject reject_already_exists s
    else if leb max_per_ip (count_for_ip remote_ip s)
    then reject reject_ip_quota s
    else elim (find_index is_free s.table) [
      | none ↦ reject reject_table_full s
      | some i ↦ take_slot local_port remote_ip remote_port protocol s i
    ]

-- `table[id].in_use`, for `id` in range.
abbrev pub in_use_at : ℕ → LockBox → Bool
in_use_at id s = elim (get_elem? s.table id) [ none ↦ false | some e ↦ e.in_use ]

abbrev pub buffered_at : ℕ → LockBox → ℕ
buffered_at id s = elim (get_elem? s.table id) [ none ↦ 0 | some e ↦ e.buffered_bytes ]

-- `table[id].buffered_bytes = n`
abbrev pub set_buffered : ℕ → ℕ → LockBox → LockBox
set_buffered id n s = record s {
  table = update_at id (λ e. record e { buffered_bytes = n }) s.table;
}

unfoldable pub deposit : ℕ → ℕ → LockBox → Bool × LockBox
deposit id bytes s =
    if leb capacity id || not (in_use_at id s)
    then (false, s)
    else if ltb max_buffered (add32 (buffered_at id s) bytes)
    then (false, record s { rejected_count = add32 s.rejected_count 1 })
    else (true, set_buffered id (add32 (buffered_at id s) bytes) s)

unfoldable pub consume : ℕ → ℕ → LockBox → LockBox
consume id bytes s =
    if leb capacity id
    then s
    else if ltb (buffered_at id s) bytes
    then set_buffered id 0 s
    else set_buffered id (buffered_at id s - bytes) s

unfoldable pub release : ℕ → LockBox → LockBox
release id s =
    if ltb id capacity
    then record s { table = update_at id (λ e. record e { in_use = false }) s.table }
    else s

unfoldable pub active_count : LockBox → ℕ
active_count s = count_if (λ e. e.in_use) s.table

unfoldable pub listen : ℕ → ℕ → LockBox → Claimed
unfolding claim
listen local_port protocol s = claim local_port (0 ∷ 0 ∷ 0 ∷ 0 ∷ []) 0 protocol s

unfoldable pub get_generation : ℕ → LockBox → ℕ
get_generation id s = if leb capacity id then 0 else get_or s.generation id 0

pub find_listener : ℕ → ℕ → LockBox → ℕ
find_listener local_port protocol s = or_capacity (find_index (on_port local_port protocol) s.table)

-- What the call writes through its three pointers, if it returns 1.
abbrev pub tuple_of : Option Entry → Option (ℕ × List ℕ × ℕ)
tuple_of none = none
tuple_of (some e) = if e.in_use then some (e.local_port, e.remote_ip, e.remote_port) else none

pub get_tuple : ℕ → LockBox → Option (ℕ × List ℕ × ℕ)
get_tuple id s = if leb capacity id then none else tuple_of (get_elem? s.table id)
