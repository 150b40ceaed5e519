-- ===== src/Networking/Postbox.antt =====
-- Networking/IPv4/Postbox/postbox.c: the datagrams that wait for a UDP socket. The four arrays are
-- one list with a record for each slot. An envelope's `len` is the number of its bytes: the bytes
-- of the buffer past it are never read.
pub mod Queue
pub mod Sockets
mod Examples
use aevros.Base.{
  ℕ, zero, suc, ◌+◌, ◌-◌, ◌%◌, Bool, true, false, not, ◌&&◌, ◌||◌, Option, none, some, List, [],
  ◌∷◌, ltb, leb, ◌==◌, if◌then◌else◌, length, get_or, set, take, update_at, replicate,
}
use aevros.Networking.LockBox

abbrev pub max_pending : ℕ
max_pending = 8

abbrev pub max_datagram : ℕ
max_datagram = 576

-- `envelope_t`
pub record Envelope : Type 0 where
  pub src_ip : List ℕ
  pub src_port : ℕ
  pub bytes : List ℕ

pub record Box : Type 0 where
  pub queue : List Envelope
  pub head : ℕ
  pub tail : ℕ
  pub pending : ℕ

abbrev pub blank : Envelope
blank = record { src_ip = replicate 4 0; src_port = 0; bytes = [] }

abbrev pub zeroed : Box
zeroed = record { queue = replicate max_pending blank; head = 0; tail = 0; pending = 0 }

abbrev pub boxes : List Box
boxes = replicate LockBox.capacity zeroed

-- `postbox_deposit` for a valid slot.
unfoldable pub put : Envelope → Box → Bool × Box
put e b =
    if ltb max_datagram (length e.bytes)
    then (false, b)
    else if leb max_pending b.pending
    then (false, b)
    else (
      true,
      record {
        queue = set b.queue b.tail e;
        head = b.head;
        tail = (b.tail + 1) % max_pending;
        pending = b.pending + 1;
      },
    )

-- `postbox_read` for a valid slot: what it writes to its results. The code returns the number of
-- bytes, which is 0 for no datagram and for an empty one; its writes tell the two apart.
unfoldable pub get : ℕ → Box → Option Envelope × Box
get max_len b =
    let e = get_or b.queue b.head blank in
    if b.pending == 0 then (none, b) else (
      some (record e { bytes = take max_len e.bytes }),
      record b { head = (b.head + 1) % max_pending; pending = b.pending - 1 },
    )

abbrev pub box_at : ℕ → List Box → Box
box_at slot s = get_or s slot zeroed

pub deposit : ℕ → Envelope → List Box → Bool × List Box
deposit slot e s =
    if leb LockBox.capacity slot
    then (false, s)
    else ((put e (box_at slot s)).0, update_at slot (λ b. (put e b).1) s)

pub read : ℕ → ℕ → List Box → Option Envelope × List Box
read slot max_len s =
    if leb LockBox.capacity slot
    then (none, s)
    else ((get max_len (box_at slot s)).0, update_at slot (λ b. (get max_len b).1) s)

abbrev pub pending_count : ℕ → List Box → ℕ
pending_count slot s = if leb LockBox.capacity slot then 0 else (box_at slot s).pending
