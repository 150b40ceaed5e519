-- ===== src/Provenance/View.antt =====
-- The window of the snapshot, and how a new record moves it.
use aevros.Base.{
  ℕ, zero, suc, ◌+◌, ◌%◌, ◌^◌, ◌≤◌, ◌<◌, ◌≡◌, refl, ap, ◌∙◌, List, [], ◌∷◌, ◌++◌, add32, sub32,
  length, get_or, set, arith, drop, window, window-set_end, window-set_oldest,
}
use aevros.Provenance.{Record, State, Claim, blank, stamped, store, copy, snapshot, oldest_slot}

pub drop-append :
    {A : Type 0}
    → (k : ℕ) (l : List A) (m : List A) → k ≤ length l
    → drop k (l ++ m) ≡ drop k l ++ m
drop-append zero l m h = refl
drop-append (suc k) [] m h = absurd (omega arith)
drop-append (suc k) (x ∷ l) m h = drop-append k l m (omega arith)

pub drop_one : {A : Type 0} → (k : ℕ) (l : List A) → drop 1 (drop k l) ≡ drop (suc k) l
drop_one zero l = refl
drop_one (suc k) [] = refl
drop_one (suc k) (x ∷ l) = drop_one k l

copy-window : (s : State) (k n : ℕ) → copy s k n ≡ window 256 blank s.records (k % 256) n
unfolding copy
copy-window s k zero = refl
copy-window s k (suc n) =
    let e : (k + 1) % 256 ≡ (k % 256 + 1) % 256 = omega arith in
    ap (λ l. get_or s.records (k % 256) blank ∷ l)
      (copy-window s (k + 1) n ∙ ap (λ h. window 256 blank s.records h n) e)

pub store-early :
    (c : Claim) (tick : ℕ) (s : State)
    → s.record_count < 256
    → (store c tick s).1 ≡ record {
      records = set s.records s.record_count (stamped s.next_id tick c);
      record_count = s.record_count + 1;
      next_id = add32 s.next_id 1;
      dropped = s.dropped;
    }
unfolding store
store-early c tick s h = ground (arith, h)

pub store-late :
    (c : Claim) (tick : ℕ) (s : State)
    → 256 ≤ s.record_count
    → (store c tick s).1 ≡ record {
      records = set s.records (sub32 s.next_id 1 % 256) (stamped s.next_id tick c);
      record_count = s.record_count;
      next_id = add32 s.next_id 1;
      dropped = add32 s.dropped 1;
    }
unfolding store
store-late c tick s h = ground (arith, h)

snapshot-window :
    (s : State) → snapshot s ≡ window 256 blank s.records (oldest_slot s % 256) s.record_count
snapshot-window s = copy-window s (oldest_slot s) s.record_count

slot-early : (s : State) → s.record_count < 256 → oldest_slot s ≡ 0
unfolding oldest_slot
slot-early s h = ground (arith, h)

slot-late : (s : State) → 256 ≤ s.record_count → oldest_slot s ≡ sub32 s.next_id 1 % 256
unfolding oldest_slot
slot-late s h = ground (arith, h)

slot-zero :
    (s : State) → s.record_count ≤ 256 → s.next_id ≡ s.record_count + 1 → oldest_slot s % 256 ≡ 0
unfolding oldest_slot
slot-zero s h e = ground (arith, h, e)

slot-full :
    (s : State) (n : ℕ)
    → s.record_count ≡ 256
    → s.next_id ≡ n + 1
    → n + 1 < 2 ^ 32
    → oldest_slot s % 256 ≡ n % 256
unfolding oldest_slot
slot-full s n e next small = ground (arith, e, next, small)

pub view-early :
    (s t : State) (v : Record)
    → length s.records ≡ 256
    → s.record_count < 256
    → s.next_id ≡ s.record_count + 1
    → t.records ≡ set s.records s.record_count v
    → t.record_count ≡ suc s.record_count
    → t.next_id ≡ s.next_id + 1
    → snapshot t ≡ snapshot s ++ (v ∷ [])
view-early s t v sized lt next records count id =
    rw
      (
        snapshot-window t,
        snapshot-window s,
        slot-zero t (omega arith) (omega arith),
        slot-zero s (omega arith) next,
        records,
        count,
      )
      (window-set_end 256 blank s.records v s.record_count 0 s.record_count (omega arith)
        (omega arith) lt (omega arith))

pub view-late :
    (s t : State) (v : Record) (n : ℕ)
    → length s.records ≡ 256
    → s.record_count ≡ 256
    → s.next_id ≡ n + 1
    → n + 2 < 2 ^ 32
    → t.records ≡ set s.records (n % 256) v
    → t.record_count ≡ 256
    → t.next_id ≡ n + 2
    → snapshot t ≡ drop 1 (snapshot s) ++ (v ∷ [])
view-late s t v n sized full next small records count id =
    let turn : (n + 1) % 256 ≡ (n % 256 + 1) % 256 = omega arith in
    rw
      (
        snapshot-window t,
        snapshot-window s,
        slot-full t (n + 1) count (omega arith) (omega arith),
        slot-full s n full next (omega arith),
        records,
        count,
        full,
        turn,
      )
      (window-set_oldest 256 blank s.records v (n % 256) (omega arith) (omega arith))
