-- ===== src/Networking/Inbox.antt =====
-- Networking/IPv4/Inbox/inbox.c: the bytes that wait on each socket, a circular buffer for each
-- slot of the lock box. The five parallel arrays are one array of records here, and each call also
-- takes and returns the lock box that it calls.
pub mod Buffer
pub mod Counts
pub mod Stream
pub mod Session
pub mod Frame
pub mod Tidy
pub mod Kept
pub mod Claimed
pub mod Reached
mod Examples
use aevros.Base.{
  ℕ, zero, suc, ◌+◌, ◌%◌, Bool, true, false, List, [], ◌∷◌, ltb, leb, ◌==◌, if◌then◌else◌, add16,
  sub16, length, get_or, set, replicate, update_at,
}
use aevros.Networking.LockBox
use aevros.Networking.LockBox.{LockBox, capacity, max_buffered, get_generation}

-- Entry `conn_id` of `storage`, `write_pos`, `read_pos`, `count` and `seen_generation`.
pub record Slot : Type 0 where
  pub storage : List ℕ
  pub write_pos : ℕ
  pub read_pos : ℕ
  pub count : ℕ
  pub seen_generation : ℕ

-- The zeroed arrays.
abbrev pub blank : Slot
blank = record {
  storage = replicate max_buffered 0;
  write_pos = 0;
  read_pos = 0;
  count = 0;
  seen_generation = 0;
}

abbrev pub slot_at : ℕ → List Slot → Slot
slot_at id boxes = get_or boxes id blank

pub reset_if_stale : ℕ → Slot → Slot
reset_if_stale gen x =
    if x.seen_generation == gen
    then x
    else record x { write_pos = 0; read_pos = 0; count = 0; seen_generation = gen }

-- The loop of `inbox_deposit` over the payload.
pub store_loop : List ℕ → Slot → Slot
store_loop [] x = x
store_loop (b ∷ bs) x = store_loop bs (record x {
  storage = set x.storage x.write_pos b;
  write_pos = (x.write_pos + 1) % max_buffered;
})

pub store : List ℕ → Slot → Slot
unfolding store_loop
store payload x =
    let y = store_loop payload x in record y { count = add16 y.count (length payload) }

-- `length` is the length of the payload.
pub deposit : ℕ → List ℕ → LockBox → List Slot → Bool × LockBox × List Slot
unfolding store reset_if_stale
deposit conn_id payload lb boxes =
    if leb capacity conn_id
    then (false, lb, boxes)
    else let fresh = update_at conn_id (reset_if_stale (get_generation conn_id lb)) boxes in
      let (done, lb') = LockBox.deposit conn_id (length payload) lb in
      if done then (true, lb', update_at conn_id (store payload) fresh) else (false, lb', fresh)

-- The loop of `inbox_read`, for `n` rounds: the bytes that go to `out`, and the slot.
pub fetch_loop : ℕ → Slot → List ℕ × Slot
fetch_loop zero x = ([], x)
fetch_loop (suc n) x =
    let (bytes, y) = fetch_loop n (record x { read_pos = (x.read_pos + 1) % max_buffered }) in
    (get_or x.storage x.read_pos 0 ∷ bytes, y)

abbrev pub to_read : ℕ → Slot → ℕ
to_read max_len x = if ltb max_len x.count then max_len else x.count

pub fetch : ℕ → Slot → List ℕ × Slot
unfolding fetch_loop
fetch max_len x =
    let n = to_read max_len x in
    let (bytes, y) = fetch_loop n x in (bytes, record y { count = sub16 y.count n })

-- The bytes that go to `out`; the `uint16_t` returned is their number.
pub read : ℕ → ℕ → LockBox → List Slot → List ℕ × LockBox × List Slot
unfolding fetch reset_if_stale
read conn_id max_len lb boxes =
    if leb capacity conn_id
    then ([], lb, boxes)
    else let fresh = update_at conn_id (reset_if_stale (get_generation conn_id lb)) boxes in
      let n = to_read max_len (slot_at conn_id fresh) in
      (
        (fetch max_len (slot_at conn_id fresh)).0,
        (if ltb 0 n then LockBox.consume conn_id n lb else lb),
        update_at conn_id (λ x. (fetch max_len x).1) fresh,
      )

pub available : ℕ → LockBox → List Slot → ℕ × List Slot
unfolding reset_if_stale
available conn_id lb boxes =
    if leb capacity conn_id
    then (0, boxes)
    else let fresh = update_at conn_id (reset_if_stale (get_generation conn_id lb)) boxes in
      ((slot_at conn_id fresh).count, fresh)
