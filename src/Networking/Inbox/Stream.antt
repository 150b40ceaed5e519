-- ===== src/Networking/Inbox/Stream.antt =====
-- The inbox of a socket and the lock box's byte count together: the socket's byte stream.
use aevros.Base.{
  ℕ, ◌+◌, ◌-◌, ◌^◌, ◌<◌, ◌≡◌, ◌∙◌, sym, ap, subst, inl, inr, Bool, true, false, ◌&&◌, List, ◌++◌,
  arith, ltb, leb, if◌then◌else◌, Bool-cases, length, take, drop, get_or-update_self, update_at,
  length-update_at, add32,
}
use aevros.Networking.LockBox
use aevros.Networking.LockBox.{
  LockBox, Entry, capacity, max_buffered, get_generation, buffered_at, in_use_at, set_buffered,
}
use aevros.Networking.Inbox.{
  Slot, slot_at, blank, store, fetch, to_read, reset_if_stale, deposit, read,
}
use aevros.Networking.Inbox.Buffer.{contents, IsRing, store_lem, fetch_lem, length-contents}
use aevros.Networking.Inbox.Counts.{
  current, waiting, Agrees, buffered_at-set_buffered, in_use_at-set_buffered, consumed,
  generation-set_buffered, deposit-taken, reset-reset, reset_current,
}

-- What a socket takes: a byte queue that refuses what does not fit.
abbrev pub fits : ℕ → LockBox → List ℕ → List ℕ → Bool
fits id lb queue payload = in_use_at id lb && leb (length queue + length payload) max_buffered

deposit_shape :
    (id : ℕ) (payload : List ℕ) (lb : LockBox) (boxes : List Slot)
    → Agrees id lb boxes
    → length payload < 2 ^ 16
    → deposit id payload lb boxes ≡ (
        if fits id lb (waiting id lb boxes) payload
        then (
          true,
          set_buffered id (buffered_at id lb + length payload) lb,
          update_at id (store payload) (update_at id (reset_if_stale (get_generation id lb)) boxes),
        )
        else (
          false,
          (LockBox.deposit id (length payload) lb).1,
          update_at id (reset_if_stale (get_generation id lb)) boxes,
        ))
unfolding deposit LockBox.deposit
deposit_shape id payload lb boxes a short =
    ground (arith, a.below, a.counted, a.ring.full, length-contents (current id lb boxes))

-- The slot after the call that a call leaves for the next one.
module _ (id : ℕ) (lb : LockBox) (boxes : List Slot) (f : Slot → Slot)
    (a : Agrees id lb boxes) where
  abbrev after : List Slot
  after = update_at id f (update_at id (reset_if_stale (get_generation id lb)) boxes)

  slot_at-after : slot_at id after ≡ f (current id lb boxes)
  slot_at-after =
      get_or-update_self id f (update_at id (reset_if_stale (get_generation id lb)) boxes) blank (
        omega (
          arith,
          a.below,
          a.slots,
          length-update_at id (reset_if_stale (get_generation id lb)) boxes,
        ))
      ∙ ap f (
          get_or-update_self id (reset_if_stale (get_generation id lb)) boxes blank
            (omega (arith, a.below, a.slots)))

  length-after : length after ≡ capacity
  length-after =
      length-update_at id f (update_at id (reset_if_stale (get_generation id lb)) boxes)
      ∙ length-update_at id (reset_if_stale (get_generation id lb)) boxes
      ∙ a.slots

  -- If `f` keeps the generation, and the lock box the slot's, the next call sees what `f` left.
  current-after :
      (lb' : LockBox)
      → get_generation id lb' ≡ get_generation id lb
      → (f (current id lb boxes)).seen_generation ≡ (current id lb boxes).seen_generation
      → current id lb' after ≡ f (current id lb boxes)
  current-after lb' same keep =
      ap (λ g. reset_if_stale g (slot_at id after)) same
      ∙ ap (reset_if_stale (get_generation id lb)) slot_at-after
      ∙ reset_current (get_generation id lb) (f (current id lb boxes))
          (keep ∙ reset-reset (get_generation id lb) (slot_at id boxes))

  Agrees-after :
      (lb' : LockBox)
      → get_generation id lb' ≡ get_generation id lb
      → length lb'.table ≡ capacity
      → (f (current id lb boxes)).seen_generation ≡ (current id lb boxes).seen_generation
      → IsRing (f (current id lb boxes))
      → (f (current id lb boxes)).count ≡ buffered_at id lb'
      → Agrees id lb' after
  Agrees-after lb' same sized keep ring count = record {
    below = a.below;
    sized = sized;
    slots = length-after;
    ring = subst IsRing (sym (current-after lb' same keep)) ring;
    counted = ap (λ x. x.count) (current-after lb' same keep) ∙ count;
  }

-- A refused deposit only drops what a former socket left.
module _ (id : ℕ) (lb : LockBox) (boxes : List Slot) (n : ℕ) (a : Agrees id lb boxes) where
  abbrev opened : List Slot
  opened = update_at id (reset_if_stale (get_generation id lb)) boxes

  abbrev counted_refusal : LockBox
  counted_refusal = record lb { rejected_count = n }

  slot_at-opened : slot_at id opened ≡ current id lb boxes
  slot_at-opened =
      get_or-update_self id (reset_if_stale (get_generation id lb)) boxes blank
        (omega (arith, a.below, a.slots))

  current-opened : current id counted_refusal opened ≡ current id lb boxes
  unfolding get_generation
  current-opened =
      ap (reset_if_stale (get_generation id lb)) (
        get_or-update_self id (reset_if_stale (get_generation id lb)) boxes blank
          (omega (arith, a.below, a.slots)))
      ∙ reset_current (get_generation id lb) (current id lb boxes)
          (reset-reset (get_generation id lb) (slot_at id boxes))

  Agrees-opened : Agrees id counted_refusal opened
  Agrees-opened = record {
    below = a.below;
    sized = a.sized;
    slots = length-update_at id (reset_if_stale (get_generation id lb)) boxes ∙ a.slots;
    ring = subst IsRing (sym current-opened) a.ring;
    counted = ap (λ x. x.count) current-opened ∙ a.counted;
  }

refusal :
    (id n : ℕ) (lb : LockBox)
    → (LockBox.deposit id n lb).0 ≡ false
    → (LockBox.deposit id n lb).1
      ≡ record lb { rejected_count = (LockBox.deposit id n lb).1.rejected_count }
unfolding LockBox.deposit
refusal id n lb h = ground arith

deposit_refused :
    (id : ℕ) (payload : List ℕ) (lb : LockBox) (boxes : List Slot) (a : Agrees id lb boxes)
    → length payload < 2 ^ 16
    → fits id lb (waiting id lb boxes) payload ≡ false
    → (n : ℕ) × (deposit id payload lb boxes
        ≡ (false, counted_refusal id lb boxes n a, opened id lb boxes n a))
deposit_refused id payload lb boxes a short refused =
    let n = (LockBox.deposit id (length payload) lb).1.rejected_count in
    let unfits : (in_use_at id lb && leb (buffered_at id lb + length payload) max_buffered)
        ≡ false =
      ground (arith, refused, a.counted, length-contents (current id lb boxes)) in
    (
      n,
      deposit_shape id payload lb boxes a short
          ∙ rw refused (
              ap (λ box. (false, box, opened id lb boxes n a))
                (refusal id (length payload) lb (
                  deposit-taken id lb a.below a.sized (length payload)
                    (omega (arith, a.counted, a.ring.full)) short
                  ∙ unfits))),
    )

module _ (id : ℕ) (lb : LockBox) (boxes : List Slot) (a : Agrees id lb boxes) where
  -- Neither call claims or releases the socket.
  pub in_use-deposit :
      (payload : List ℕ) → in_use_at id (deposit id payload lb boxes).1 ≡ in_use_at id lb
  unfolding deposit LockBox.deposit
  in_use-deposit payload = ground (
    arith,
    in_use_at-set_buffered id lb a.below a.sized (add32 (buffered_at id lb) (length payload)),
  )

  pub in_use-read : (max_len : ℕ) → in_use_at id (read id max_len lb boxes).1 ≡ in_use_at id lb
  unfolding read LockBox.consume
  in_use-read max_len =
      let n = to_read max_len (slot_at id (opened id lb boxes 0 a)) in
      ground (
        arith,
        in_use_at-set_buffered id lb a.below a.sized 0,
        in_use_at-set_buffered id lb a.below a.sized (buffered_at id lb - n),
      )

  -- A deposit of fewer than 65536 bytes is taken exactly when the socket is in use and the bytes
  -- that wait, with the new ones, are 4096 at most. Then all of it waits behind what waited, and a
  -- refused deposit changes nothing that waits. The two counts agree afterwards.
  pub waiting-deposit :
      (payload : List ℕ)
      → length payload < 2 ^ 16
      → let (done, lb', boxes') = deposit id payload lb boxes in
        let queue = waiting id lb boxes in
        (done ≡ fits id lb queue payload)
        × (waiting id lb' boxes' ≡ (if done then queue ++ payload else queue))
        × Agrees id lb' boxes'
  waiting-deposit payload short = elim (Bool-cases (fits id lb (waiting id lb boxes) payload)) [
    | inl ok ↦
        let n = buffered_at id lb + length payload in
        let e : deposit id payload lb boxes
            ≡ (true, set_buffered id n lb, after id lb boxes (store payload) a) =
          ground (arith, ok, deposit_shape id payload lb boxes a short) in
        let (bytes, ring, count, seen) =
          store_lem payload (current id lb boxes) a.ring
            (ground (arith, ok, length-contents (current id lb boxes))) in
        let same : get_generation id (set_buffered id n lb) ≡ get_generation id lb =
          generation-set_buffered id lb a.below a.sized n in
        rw e (
          sym ok,
          ap contents (current-after id lb boxes (store payload) a (set_buffered id n lb) same seen)
              ∙ bytes,
          Agrees-after id lb boxes (store payload) a (set_buffered id n lb) same
              (length-update_at id (λ (x : Entry). record x { buffered_bytes = n }) lb.table
                ∙ a.sized)
              seen ring
              (omega (arith, count, a.counted, buffered_at-set_buffered id lb a.below a.sized n)),
        )
    | inr refused ↦
        let (n, e) = deposit_refused id payload lb boxes a short refused in
        rw e
          (sym refused, ap contents (current-opened id lb boxes n a), Agrees-opened id lb boxes n a)
  ]

  -- Reading takes the first `max_len` bytes that wait, or all where fewer wait, and leaves the
  -- rest waiting. The two counts agree afterwards.
  pub waiting-read :
      (max_len : ℕ)
      → let (out, lb', boxes') = read id max_len lb boxes in
        (out ≡ take max_len (waiting id lb boxes))
        × (waiting id lb' boxes' ≡ drop max_len (waiting id lb boxes))
        × Agrees id lb' boxes'
  unfolding read
  waiting-read max_len =
      let n = to_read max_len (current id lb boxes) in
      let lb' : LockBox = if ltb 0 n then LockBox.consume id n lb else lb in
      let (bytes, left, ring, count, seen) = fetch_lem max_len (current id lb boxes) a.ring in
      let (same, sized, held) = consumed id lb a.below a.sized n in
      let e : read id max_len lb boxes ≡ (
        (fetch max_len (current id lb boxes)).0,
        lb',
        after id lb boxes (λ x. (fetch max_len x).1) a,
      ) =
        ground (arith, a.below, slot_at-opened id lb boxes 0 a) in
      rw e (
        bytes,
        ap contents (current-after id lb boxes (λ x. (fetch max_len x).1) a lb' same seen) ∙ left,
        Agrees-after id lb boxes (λ x. (fetch max_len x).1) a lb' same sized seen ring
            (omega (arith, count, held, a.counted)),
      )
