-- ===== src/Networking/Inbox/Tidy.antt =====
-- What the inbox and the lock box count of every socket, and the calls on them.
use aevros.Base.{ℕ, suc, ◌^◌, ◌≤◌, ◌<◌, ◌≡◌, sym, subst, List, [], ◌∷◌, arith, length, replicate}
use aevros.Networking.LockBox
use aevros.Networking.LockBox.{
  LockBox, Entry, capacity, max_per_ip, max_buffered, is_free, claim, take_slot, get_generation,
  buffered_at, in_use_at, find_connection, count_for_ip,
}
use aevros.Networking.Inbox.{Slot, slot_at, blank, reset_if_stale, deposit, read, available}
use aevros.Networking.Inbox.Buffer.{IsRing}
use aevros.Networking.Inbox.Counts.{Agrees}
use aevros.Networking.Inbox.Frame.{Same, Sized}

-- The calls on the sockets.
pub data Call : Type 0 where
  claims : ℕ → List ℕ → ℕ → ℕ → Call
  listens : ℕ → ℕ → Call
  releases : ℕ → Call
  deposits : ℕ → List ℕ → Call
  reads asks : ℕ → ℕ → Call

pub record State : Type 0 where
  pub box : LockBox
  pub boxes : List Slot

unfoldable pub zeroed : State
zeroed = record { box = LockBox.empty; boxes = replicate capacity blank }

unfoldable pub step : State → Call → State
step s (claims lp ip rp pr) = record s { box = (claim lp ip rp pr s.box).box }
step s (listens lp pr) = record s { box = (LockBox.listen lp pr s.box).box }
step s (releases id) = record s { box = LockBox.release id s.box }
step s (deposits id payload) =
    let (_, lb, boxes) = deposit id payload s.box s.boxes in record { box = lb; boxes = boxes }
step s (reads id n) =
    let (_, lb, boxes) = read id n s.box s.boxes in record { box = lb; boxes = boxes }
step s (asks id _) = record s { boxes = (available id s.box s.boxes).1 }

unfoldable pub run : State → List Call → State
run s [] = s
run s (c ∷ cs) = run (step s c) cs

-- A payload's length is a `uint16_t`.
abbrev pub IsShortCall : Call → Type 0
IsShortCall (claims lp ip rp pr) = Unit
IsShortCall (listens lp pr) = Unit
IsShortCall (releases id) = Unit
IsShortCall (deposits id payload) = length payload < 2 ^ 16
IsShortCall (reads id n) = Unit
IsShortCall (asks id n) = Unit

-- One socket, of which the lock box counts `b` bytes in the generation `g`, after `k` calls.
pub record Tidy (k b g : ℕ) (x : Slot) : Type 0 where
  pub ring : IsRing (reset_if_stale g x)
  pub counted : (reset_if_stale g x).count ≡ b
  pub seen : x.seen_generation ≤ g
  pub young : g ≤ k

abbrev pub TidyAt : ℕ → LockBox → List Slot → ℕ → Type 0
TidyAt k lb boxes id = Tidy k (buffered_at id lb) (get_generation id lb) (slot_at id boxes)

pub record IsTidy (k : ℕ) (s : State) : Type 0 where
  pub sized : Sized s.box s.boxes
  pub each : (id : ℕ) → id < capacity → TidyAt k s.box s.boxes id

pub Tidy-more : (k b g : ℕ) (x : Slot) → Tidy k b g x → Tidy (suc k) b g x
Tidy-more k b g x t = record {
  ring = t.ring;
  counted = t.counted;
  seen = t.seen;
  young = omega (arith, t.young);
}

pub Tidy-Same :
    (k id : ℕ) (lb lb' : LockBox) (boxes boxes' : List Slot)
    → Same id lb lb' boxes boxes'
    → TidyAt k lb boxes id
    → TidyAt (suc k) lb' boxes' id
Tidy-Same k id lb lb' boxes boxes' e t =
    subst (λ b. Tidy (suc k) b (get_generation id lb') (slot_at id boxes')) (sym e.buffered)
      (subst (λ g. Tidy (suc k) (buffered_at id lb) g (slot_at id boxes')) (sym e.generation)
        (subst (λ x. Tidy (suc k) (buffered_at id lb) (get_generation id lb) x) (sym e.slot)
          (Tidy-more k (buffered_at id lb) (get_generation id lb) (slot_at id boxes) t)))

pub Tidy-Agrees :
    (k id : ℕ) (lb : LockBox) (boxes : List Slot)
    → id < capacity
    → Sized lb boxes
    → TidyAt k lb boxes id
    → Agrees id lb boxes
Tidy-Agrees k id lb boxes low z t = record {
  below = low;
  sized = z.table;
  slots = z.slots;
  ring = t.ring;
  counted = t.counted;
}

-- A call on the socket itself, which brings its slot up to date.
pub Agrees-Tidy :
    (k g id : ℕ) (lb : LockBox) (boxes : List Slot)
    → Agrees id lb boxes
    → get_generation id lb ≡ g
    → (slot_at id boxes).seen_generation ≡ g
    → g ≤ k
    → TidyAt (suc k) lb boxes id
Agrees-Tidy k g id lb boxes a same seen young = record {
  ring = a.ring;
  counted = a.counted;
  seen = omega (arith, same, seen);
  young = omega (arith, same, young);
}
