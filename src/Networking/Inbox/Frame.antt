-- ===== src/Networking/Inbox/Frame.antt =====
-- What a call on one socket leaves of the others.
use aevros.Base.{
  ℕ, zero, suc, ◌-◌, ◌≤◌, ◌<◌, ◌≡◌, ◌≢◌, refl, ap, ◌∙◌, true, false, List, [], ◌∷◌, arith, add32,
  length, length-update_at, get_or-update_self, get_or-update_ne, get_elem?-update_ne, update_at,
  leb,
}
use aevros.Networking.LockBox
use aevros.Networking.LockBox.{
  LockBox, Entry, capacity, max_per_ip, is_free, claim, take_slot, get_generation, buffered_at,
  set_buffered, find_connection, count_for_ip,
}
use aevros.Networking.Inbox.{
  Slot, slot_at, blank, store, store_loop, fetch, fetch_loop, to_read, reset_if_stale, deposit,
  read,
}
use aevros.Networking.Inbox.Counts.{reset-reset}

-- The socket `j` has the same bytes counted, the same generation and the same buffer.
pub record Same (j : ℕ) (lb lb' : LockBox) (boxes boxes' : List Slot) : Type 0 where
  pub buffered : buffered_at j lb' ≡ buffered_at j lb
  pub generation : get_generation j lb' ≡ get_generation j lb
  pub slot : slot_at j boxes' ≡ slot_at j boxes

-- The sizes of the arrays.
pub record Sized (lb : LockBox) (boxes : List Slot) : Type 0 where
  pub table : length lb.table ≡ capacity
  pub gens : length lb.generation ≡ capacity
  pub slots : length boxes ≡ capacity

buffered_other :
    (i j n : ℕ) (lb : LockBox) → i ≢ j → buffered_at j (set_buffered i n lb) ≡ buffered_at j lb
buffered_other i j n lb ne =
    ground
      (arith, get_elem?-update_ne i j (λ (e : Entry). record e { buffered_bytes = n }) lb.table ne)

pub deposit-Same :
    (i j : ℕ) (payload : List ℕ) (lb : LockBox) (boxes : List Slot)
    → i ≢ j
    → Same j lb (deposit i payload lb boxes).1 boxes (deposit i payload lb boxes).2
unfolding deposit LockBox.deposit get_generation
deposit-Same i j payload lb boxes ne =
    let reset = reset_if_stale (get_generation i lb) in
    let once = get_or-update_ne i j reset boxes blank ne in
    let twice = get_or-update_ne i j (store payload) (update_at i reset boxes) blank ne in
    let other = buffered_other i j (add32 (buffered_at i lb) (length payload)) lb ne in
    record {
      buffered = ground (arith, other);
      generation = ground arith;
      slot = ground (arith, once, twice);
    }

pub read-Same :
    (i j n : ℕ) (lb : LockBox) (boxes : List Slot)
    → i ≢ j
    → Same j lb (read i n lb boxes).1 boxes (read i n lb boxes).2
unfolding read LockBox.consume get_generation
read-Same i j n lb boxes ne =
    let reset = reset_if_stale (get_generation i lb) in
    let once = get_or-update_ne i j reset boxes blank ne in
    let twice = get_or-update_ne i j (λ x. (fetch n x).1) (update_at i reset boxes) blank ne in
    let m = to_read n (slot_at i (update_at i reset boxes)) in
    record {
      buffered =
          ground
            (arith, buffered_other i j 0 lb ne, buffered_other i j (buffered_at i lb - m) lb ne);
      generation = ground arith;
      slot = ground (arith, once, twice);
    }

-- A call beyond the table changes nothing.
pub deposit_beyond :
    (i : ℕ) (payload : List ℕ) (lb : LockBox) (boxes : List Slot)
    → capacity ≤ i
    → deposit i payload lb boxes ≡ (false, lb, boxes)
unfolding deposit
deposit_beyond i payload lb boxes far =
    let e : leb capacity i ≡ true = ground (arith, far) in rw e refl

pub read_beyond :
    (i n : ℕ) (lb : LockBox) (boxes : List Slot)
    → capacity ≤ i
    → read i n lb boxes ≡ ([], lb, boxes)
unfolding read
read_beyond i n lb boxes far = let e : leb capacity i ≡ true = ground (arith, far) in rw e refl

-- The loops keep the generation that the slot has seen.
store_loop-seen : (bs : List ℕ) (x : Slot) → (store_loop bs x).seen_generation ≡ x.seen_generation
unfolding store_loop
store_loop-seen [] x = refl
store_loop-seen (b ∷ bs) x = store_loop-seen bs _

store-seen : (bs : List ℕ) (x : Slot) → (store bs x).seen_generation ≡ x.seen_generation
unfolding store
store-seen bs x = store_loop-seen bs x

fetch_loop-seen : (n : ℕ) (x : Slot) → (fetch_loop n x).1.seen_generation ≡ x.seen_generation
unfolding fetch_loop
fetch_loop-seen zero x = refl
fetch_loop-seen (suc n) x = fetch_loop-seen n _

fetch-seen : (n : ℕ) (x : Slot) → (fetch n x).1.seen_generation ≡ x.seen_generation
unfolding fetch
fetch-seen n x = fetch_loop-seen (to_read n x) x

-- After a call the slot has seen the generation.
module _ (i : ℕ) (lb : LockBox) (boxes : List Slot) (low : i < capacity)
    (slots : length boxes ≡ capacity) where
  abbrev fresh : List Slot
  fresh = update_at i (reset_if_stale (get_generation i lb)) boxes

  fresh-seen : (slot_at i fresh).seen_generation ≡ get_generation i lb
  fresh-seen =
      ap (λ (x : Slot). x.seen_generation)
        (get_or-update_self i (reset_if_stale (get_generation i lb)) boxes blank
          (omega (arith, low, slots)))
      ∙ reset-reset (get_generation i lb) (slot_at i boxes)

  worked-seen :
      (f : Slot → Slot)
      → ((x : Slot) → (f x).seen_generation ≡ x.seen_generation)
      → (slot_at i (update_at i f fresh)).seen_generation ≡ get_generation i lb
  worked-seen f keeps =
      ap (λ (x : Slot). x.seen_generation)
        (get_or-update_self i f fresh blank (
          omega
            (arith, low, slots, length-update_at i (reset_if_stale (get_generation i lb)) boxes)))
      ∙ (keeps (slot_at i fresh) ∙ fresh-seen)

  pub deposit-seen :
      (payload : List ℕ)
      → (slot_at i (deposit i payload lb boxes).2).seen_generation ≡ get_generation i lb
  unfolding deposit
  deposit-seen payload =
      ground (arith, low, fresh-seen, worked-seen (store payload) (store-seen payload))

  pub read-seen : (n : ℕ) → (slot_at i (read i n lb boxes).2).seen_generation ≡ get_generation i lb
  unfolding read
  read-seen n = ground (arith, low, worked-seen (λ x. (fetch n x).1) (fetch-seen n))

-- No deposit or read changes a generation or a size.
pub deposit-generation :
    (i j : ℕ) (payload : List ℕ) (lb : LockBox) (boxes : List Slot)
    → get_generation j (deposit i payload lb boxes).1 ≡ get_generation j lb
unfolding deposit LockBox.deposit get_generation
deposit-generation i j payload lb boxes = ground arith

pub read-generation :
    (i j n : ℕ) (lb : LockBox) (boxes : List Slot)
    → get_generation j (read i n lb boxes).1 ≡ get_generation j lb
unfolding read LockBox.consume get_generation
read-generation i j n lb boxes = ground arith

pub deposit-Sized :
    (i : ℕ) (payload : List ℕ) (lb : LockBox) (boxes : List Slot)
    → Sized lb boxes
    → Sized (deposit i payload lb boxes).1 (deposit i payload lb boxes).2
unfolding deposit LockBox.deposit
deposit-Sized i payload lb boxes z =
    let reset = reset_if_stale (get_generation i lb) in
    let n = add32 (buffered_at i lb) (length payload) in
    let once = length-update_at i reset boxes in
    let twice = length-update_at i (store payload) (update_at i reset boxes) in
    let rows = length-update_at i (λ (e : Entry). record e { buffered_bytes = n }) lb.table in
    record {
      table = ground (arith, z.table, rows);
      gens = ground (arith, z.gens);
      slots = ground (arith, z.slots, once, twice);
    }

pub read-Sized :
    (i n : ℕ) (lb : LockBox) (boxes : List Slot)
    → Sized lb boxes
    → Sized (read i n lb boxes).1 (read i n lb boxes).2
unfolding read LockBox.consume
read-Sized i n lb boxes z =
    let reset = reset_if_stale (get_generation i lb) in
    let m = to_read n (slot_at i (update_at i reset boxes)) in
    let once = length-update_at i reset boxes in
    let twice = length-update_at i (λ x. (fetch n x).1) (update_at i reset boxes) in
    let rows =
      λ (k : ℕ). length-update_at i (λ (e : Entry). record e { buffered_bytes = k }) lb.table in
    record {
      table = ground (arith, z.table, rows 0, rows (buffered_at i lb - m));
      gens = ground (arith, z.gens);
      slots = ground (arith, z.slots, once, twice);
    }
