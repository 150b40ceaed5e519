-- ===== src/Networking/Inbox/Session.antt =====
-- A session of deposits and reads on one socket, against a byte queue.
use aevros.Base.{
  ℕ, ◌+◌, ◌^◌, ◌<◌, ◌≡◌, refl, Bool, true, ◌&&◌, List, [], ◌∷◌, ◌++◌, arith, leb, if◌then◌else◌,
  length, take, drop, All,
}
use aevros.Networking.LockBox.{LockBox, max_buffered, in_use_at}
use aevros.Networking.Inbox.{Slot, deposit, read}
use aevros.Networking.Inbox.Counts.{Agrees, waiting}
use aevros.Networking.Inbox.Stream.{waiting-deposit, waiting-read, in_use-deposit, in_use-read}

pub data Op : Type 0 where
  puts : List ℕ → Op
  gets : ℕ → Op

-- A payload's length is a `uint16_t`.
abbrev pub IsShort : Op → Type 0
IsShort (puts payload) = length payload < 2 ^ 16
IsShort (gets n) = Unit

-- Whether a deposit was taken, and the bytes that a read gave.
abbrev pub Reply : Type 0
Reply = Bool × List ℕ

unfoldable pub run : ℕ → List Op → LockBox → List Slot → List Reply
run id [] lb boxes = []
run id (puts payload ∷ ops) lb boxes =
    let (done, lb', boxes') = deposit id payload lb boxes in (done, []) ∷ run id ops lb' boxes'
run id (gets n ∷ ops) lb boxes =
    let (out, lb', boxes') = read id n lb boxes in (true, out) ∷ run id ops lb' boxes'

-- A queue of at most 4096 bytes that takes a payload whole or not at all; one that is closed
-- takes none and can still be read.
unfoldable pub queue_run : Bool → List ℕ → List Op → List Reply
queue_run opened q [] = []
queue_run opened q (puts payload ∷ ops) =
    let taken = opened && leb (length q + length payload) max_buffered in
    (taken, []) ∷ queue_run opened (if taken then q ++ payload else q) ops
queue_run opened q (gets n ∷ ops) = (true, take n q) ∷ queue_run opened (drop n q) ops

-- Where the inbox and the lock box agree on a socket (it is in range, its buffer is a ring, and both
-- count the same bytes), no session of deposits and reads tells its inbox from a byte queue of at most
-- 4096 bytes.
pub run-refines :
    (id : ℕ) (ops : List Op) (lb : LockBox) (boxes : List Slot)
    → Agrees id lb boxes
    → All IsShort ops
    → run id ops lb boxes ≡ queue_run (in_use_at id lb) (waiting id lb boxes) ops
unfolding run queue_run
run-refines id [] lb boxes a short = refl
run-refines id (puts payload ∷ ops) lb boxes a (one, rest) =
    let (done, queue, agrees) = waiting-deposit id lb boxes a payload one in
    let (_, lb', boxes') = deposit id payload lb boxes in
    let ih = run-refines id ops lb' boxes' agrees rest in
    ground (arith, done, queue, ih, in_use-deposit id lb boxes a payload)
run-refines id (gets n ∷ ops) lb boxes a (one, rest) =
    let (out, queue, agrees) = waiting-read id lb boxes a n in
    let (_, lb', boxes') = read id n lb boxes in
    let ih = run-refines id ops lb' boxes' agrees rest in
    ground (arith, out, queue, ih, in_use-read id lb boxes a n)
