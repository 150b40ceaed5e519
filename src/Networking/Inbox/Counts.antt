-- ===== src/Networking/Inbox/Counts.antt =====
-- What a socket's inbox and the lock box count of it.
use aevros.Base.{
  ℕ, ◌+◌, ◌-◌, ◌^◌, ◌≤◌, ◌<◌, ◌≡◌, refl, ◌&&◌, List, arith, ltb, leb, if◌then◌else◌, length,
  get_elem?-some, get_elem?-update_self, length-update_at,
}
use aevros.Networking.LockBox
use aevros.Networking.LockBox.{
  LockBox, Entry, capacity, max_buffered, get_generation, buffered_at, in_use_at, set_buffered,
}
use aevros.Networking.Inbox.{Slot, slot_at, reset_if_stale}
use aevros.Networking.Inbox.Buffer.{contents, IsRing}

-- The slot as the next call sees it.
abbrev pub current : ℕ → LockBox → List Slot → Slot
current id lb boxes = reset_if_stale (get_generation id lb) (slot_at id boxes)

-- The bytes that wait on a socket.
abbrev pub waiting : ℕ → LockBox → List Slot → List ℕ
waiting id lb boxes = contents (current id lb boxes)

-- Both sides have the socket in range, and count the same bytes.
pub record Agrees (id : ℕ) (lb : LockBox) (boxes : List Slot) : Type 0 where
  pub below : id < capacity
  pub sized : length lb.table ≡ capacity
  pub slots : length boxes ≡ capacity
  pub ring : IsRing (current id lb boxes)
  pub counted : (current id lb boxes).count ≡ buffered_at id lb

-- What `lockbox_deposit` and `lockbox_consume` do to the counts, for a slot in range.
module _ (id : ℕ) (lb : LockBox) (below : id < capacity) (sized : length lb.table ≡ capacity) where
  pub buffered_at-set_buffered : (n : ℕ) → buffered_at id (set_buffered id n lb) ≡ n
  buffered_at-set_buffered n =
      let (e, here) = get_elem?-some id lb.table (omega arith) in
      let there =
        get_elem?-update_self id (λ (x : Entry). record x { buffered_bytes = n }) lb.table in
      ground (arith, here, there)

  pub in_use_at-set_buffered : (n : ℕ) → in_use_at id (set_buffered id n lb) ≡ in_use_at id lb
  in_use_at-set_buffered n =
      let (e, here) = get_elem?-some id lb.table (omega arith) in
      let there =
        get_elem?-update_self id (λ (x : Entry). record x { buffered_bytes = n }) lb.table in
      ground (arith, here, there)

  pub consumed :
      (n : ℕ)
      → let lb' = (if ltb 0 n then LockBox.consume id n lb else lb) in
        (get_generation id lb' ≡ get_generation id lb)
        × (length lb'.table ≡ capacity)
        × (buffered_at id lb' ≡ buffered_at id lb - n)
  unfolding LockBox.consume get_generation
  consumed n =
      let zeroed = buffered_at-set_buffered 0 in
      let less = buffered_at-set_buffered (buffered_at id lb - n) in
      let long =
        λ (k : ℕ). length-update_at id (λ (x : Entry). record x { buffered_bytes = k }) lb.table in
      (
        ground arith,
        ground (arith, sized, long 0, long (buffered_at id lb - n)),
        ground (arith, below, zeroed, less),
      )

  pub generation-set_buffered :
      (n : ℕ) → get_generation id (set_buffered id n lb) ≡ get_generation id lb
  unfolding get_generation
  generation-set_buffered n = refl

  -- When the lock box takes a deposit.
  pub deposit-taken :
      (n : ℕ)
      → buffered_at id lb ≤ max_buffered
      → n < 2 ^ 16
      → (LockBox.deposit id n lb).0 ≡ (in_use_at id lb && leb (buffered_at id lb + n) max_buffered)
  unfolding LockBox.deposit
  deposit-taken n h short = ground (arith, below)

-- A slot that is current stays so.
pub reset-reset : (g : ℕ) (x : Slot) → (reset_if_stale g x).seen_generation ≡ g
unfolding reset_if_stale
reset-reset g x = ground arith

pub reset_current : (g : ℕ) (x : Slot) → x.seen_generation ≡ g → reset_if_stale g x ≡ x
unfolding reset_if_stale
reset_current g x h = ground arith
