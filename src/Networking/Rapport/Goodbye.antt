-- ===== src/Networking/Rapport/Goodbye.antt =====
-- What the closing calls do to a conversation, and that the clock frees one that waits.
use native.Mathlib.Decide.{ℕ_discrete}
use aevros.Base.{
  ℕ, zero, suc, ◌+◌, ◌≡◌, ◌≢◌, ◌<◌, ◌≤◌, sym, ◌∙◌, subst, true, false, arith, ltb, sub32, get_or,
  length, length-update_at, get_or-update_self, get_or-update_ne, ap, lt→ltb, if_both,
}
use aevros.Networking.Conversation.{
  Status, closed, established, closing, time_wait, fin_wait_1, fin_wait_2, close_wait, last_ack,
}
use aevros.Networking.LockBox
use aevros.Networking.Scheduler
use aevros.Networking.Scheduler.Timer
use aevros.Networking.Rapport.{
  Slot, State, blank, counted, acks_fin, status_of, slot_of, set_status, set_slot, enter_time_wait,
  initiate_close, after_close, let_go, acked, on_ack, finished, on_fin, is_time_wait, expired,
  tick_slot, tick_from,
}
use aevros.Networking.Rapport.Moves.{cancel-status}

-- The tables have their 64 entries, and those of `id` are `a` and `v`.
pub record At (id : ℕ) (a : Status) (v : Slot) (s : State) : Type 0 where
  pub sized : length s.sched.status ≡ 64
  pub slots : length s.slots ≡ 64
  pub boxes : length s.sched.lockbox.table ≡ 64
  pub status : status_of id s ≡ a
  pub slot : slot_of id s ≡ v

-- The conversation is over and its slot in LockBox is free.
pub record Gone (id : ℕ) (s : State) : Type 0 where
  pub status : status_of id s ≡ closed
  pub released : (get_or s.sched.lockbox.table id LockBox.blank).in_use ≡ false

module _ (id : ℕ) (known : id < 64) where
  set_status-At :
      {a : Status} {v : Slot} (b : Status) (s : State) → At id a v s → At id b v (set_status id b s)
  set_status-At b s h = record {
    sized = length-update_at id (λ _. b) s.sched.status ∙ h.sized;
    slots = h.slots;
    boxes = h.boxes;
    status = get_or-update_self id (λ _. b) s.sched.status closed (omega (arith, h.sized));
    slot = h.slot;
  }

  set_slot-At :
      {a : Status} {v : Slot} (f : Slot → Slot) (s : State)
      → At id a v s
      → At id a (f v) (set_slot id f s)
  set_slot-At f s h = record {
    sized = h.sized;
    slots = length-update_at id f s.slots ∙ h.slots;
    boxes = h.boxes;
    status = h.status;
    slot = get_or-update_self id f s.slots blank (omega (arith, h.slots)) ∙ ap f h.slot;
  }

  enter-At :
      {a : Status} {v : Slot} (now : ℕ) (s : State)
      → At id a v s
      → At id time_wait (record v { time_wait_started = now }) (enter_time_wait now id s)
  unfolding enter_time_wait
  enter-At now s h =
      set_slot-At (λ x. record x { time_wait_started = now }) (set_status id time_wait s)
        (set_status-At time_wait s h)

  pub close-At :
      {a : Status} {v : Slot} (fin_seq : ℕ) (s : State)
      → At id a v s
      → At id (after_close a) (record v { our_fin_seq = fin_seq }) (initiate_close id fin_seq s)
  unfolding initiate_close
  close-At fin_seq s h =
      rw (lt→ltb id 64 known, h.status)
        (set_status-At _ (set_slot id (λ v. record v { our_fin_seq = fin_seq }) s)
          (set_slot-At (λ v. record v { our_fin_seq = fin_seq }) s h))

  pub fin-established :
      {v : Slot} (now : ℕ) (s : State)
      → At id established v s
      → At id close_wait (counted v) (on_fin now id s)
  unfolding on_fin finished
  fin-established now s h =
      rw (lt→ltb id 64 known, h.status)
        (set_status-At close_wait (set_slot id counted s) (set_slot-At counted s h))

  pub fin-fin_wait_1 :
      {v : Slot} (now : ℕ) (s : State)
      → At id fin_wait_1 v s
      → At id closing (counted v) (on_fin now id s)
  unfolding on_fin finished
  fin-fin_wait_1 now s h =
      rw (lt→ltb id 64 known, h.status)
        (set_status-At closing (set_slot id counted s) (set_slot-At counted s h))

  pub fin-fin_wait_2 :
      {v : Slot} (now : ℕ) (s : State)
      → At id fin_wait_2 v s
      → At id time_wait (record (counted v) { time_wait_started = now }) (on_fin now id s)
  unfolding on_fin finished
  fin-fin_wait_2 now s h =
      rw (lt→ltb id 64 known, h.status)
        (enter-At now (set_slot id counted s) (set_slot-At counted s h))

  freed :
      (b : LockBox.LockBox)
      → length b.table ≡ 64
      → (get_or (LockBox.release id b).table id LockBox.blank).in_use ≡ false
  unfolding LockBox.release
  freed b sized =
      let off =
        get_or-update_self id (λ (e : LockBox.Entry). record e { in_use = false }) b.table
          LockBox.blank (omega (arith, sized)) in
      rw (lt→ltb id 64 known) (ap (λ (e : LockBox.Entry). e.in_use) off)

  cancel-lockbox : (t : Scheduler.State) → (Timer.cancel id t).lockbox ≡ t.lockbox
  unfolding Timer.cancel
  cancel-lockbox t = ground arith

  let_go-Gone : {a : Status} {v : Slot} (s : State) → At id a v s → Gone id (let_go id s)
  unfolding let_go
  let_go-Gone s h =
      let t : Scheduler.State = (set_status id closed s).sched in
      let shut = (set_status-At closed s h).status in
      record {
        status = subst (λ x. get_or x id closed ≡ closed) (sym (cancel-status id t)) shut;
        released =
            subst (λ b. (get_or (LockBox.release id b).table id LockBox.blank).in_use ≡ false)
              (sym (cancel-lockbox t)) (freed t.lockbox h.boxes);
      }

  -- The acknowledgement `n` is one of our FIN.
  module _ {v : Slot} (now n : ℕ) (covers : acks_fin n v ≡ true) (s : State) where
    pub ack-fin_wait_1 : At id fin_wait_1 v s → At id fin_wait_2 v (on_ack now id n s)
    unfolding on_ack acked
    ack-fin_wait_1 h =
        rw (lt→ltb id 64 known, h.status, h.slot, covers) (set_status-At fin_wait_2 s h)

    pub ack-closing :
        At id closing v s
        → At id time_wait (record v { time_wait_started = now }) (on_ack now id n s)
    unfolding on_ack acked
    ack-closing h = rw (lt→ltb id 64 known, h.status, h.slot, covers) (enter-At now s h)

    pub ack-last_ack : At id last_ack v s → Gone id (on_ack now id n s)
    unfolding on_ack acked
    ack-last_ack h = rw (lt→ltb id 64 known, h.status, h.slot, covers) (let_go-Gone s h)

  expired-Gone : {a : Status} {v : Slot} (s : State) → At id a v s → Gone id (expired id s)
  expired-Gone s h = record {
    status = (set_status-At closed s h).status;
    released = freed s.sched.lockbox h.boxes;
  }

  release-get_ne :
      (i : ℕ) (b : LockBox.LockBox)
      → i ≢ id
      → get_or (LockBox.release i b).table id LockBox.blank ≡ get_or b.table id LockBox.blank
  unfolding LockBox.release
  release-get_ne i b ne =
      let same =
        get_or-update_ne i id (λ (e : LockBox.Entry). record e { in_use = false }) b.table
          LockBox.blank ne in
      ground (arith, same)

  length-release :
      (i : ℕ) (b : LockBox.LockBox) → length (LockBox.release i b).table ≡ length b.table
  unfolding LockBox.release
  length-release i b =
      ground
        (arith, length-update_at i (λ (e : LockBox.Entry). record e { in_use = false }) b.table)

  module _ (i : ℕ) (s : State) (ne : i ≢ id) where
    status-expired_ne : status_of id (expired i s) ≡ status_of id s
    status-expired_ne = get_or-update_ne i id (λ _. closed) s.sched.status closed ne

    expired-keeps_Gone : Gone id s → Gone id (expired i s)
    expired-keeps_Gone g = record {
      status = status-expired_ne ∙ g.status;
      released =
          ap (λ (e : LockBox.Entry). e.in_use) (release-get_ne i s.sched.lockbox ne) ∙ g.released;
    }

    expired-keeps_At : {a : Status} {v : Slot} → At id a v s → At id a v (expired i s)
    expired-keeps_At h = record {
      sized = length-update_at i (λ _. closed) s.sched.status ∙ h.sized;
      slots = h.slots;
      boxes = length-release i s.sched.lockbox ∙ h.boxes;
      status = status-expired_ne ∙ h.status;
      slot = h.slot;
    }

  module _ (now : ℕ) where
    tick_slot-Gone : (i : ℕ) (s : State) → Gone id s → Gone id (tick_slot now i s)
    unfolding tick_slot
    tick_slot-Gone i s g = elim (ℕ_discrete i id) [
      | yes same ↦
          let shut : is_time_wait (status_of i s) ≡ false =
            subst (λ x. is_time_wait (status_of x s) ≡ false) (sym same)
              (ap is_time_wait g.status) in
          rw shut g
      | no ne ↦
          if_both (Gone id) _ s _ g
            (if_both (Gone id) _ s (expired i s) g (expired-keeps_Gone i s ne g))
    ]

    tick_slot-At :
        {v : Slot} (i : ℕ) (s : State)
        → i ≢ id
        → At id time_wait v s
        → At id time_wait v (tick_slot now i s)
    unfolding tick_slot
    tick_slot-At {v} i s ne h =
        if_both (At id time_wait v) _ s _ h
          (if_both (At id time_wait v) _ s (expired i s) h (expired-keeps_At i s ne h))

    tick_from-Gone : (k i : ℕ) (s : State) → Gone id s → Gone id (tick_from now k i s)
    unfolding tick_from
    tick_from-Gone zero i s g = g
    tick_from-Gone (suc k) i s g =
        tick_from-Gone k (i + 1) (tick_slot now i s) (tick_slot-Gone i s g)

    module _ {v : Slot} (over : 400 ≤ sub32 now v.time_wait_started) where
      tick_slot-over : (s : State) → At id time_wait v s → Gone id (tick_slot now id s)
      unfolding tick_slot
      tick_slot-over s h =
          let late : ltb (sub32 now v.time_wait_started) 400 ≡ false = ground (arith, over) in
          rw (h.status, h.slot, late) (expired-Gone s h)

      pub tick_from-over :
          (k i : ℕ) (s : State)
          → i ≤ id
          → id < i + k
          → At id time_wait v s
          → Gone id (tick_from now k i s)
      unfolding tick_from
      tick_from-over zero i s low high h = absurd (omega arith)
      tick_from-over (suc k) i s low high h = elim (ℕ_discrete i id) [
        | yes same ↦
            tick_from-Gone k (i + 1) (tick_slot now i s)
              (subst (λ x. Gone id (tick_slot now x s)) (sym same) (tick_slot-over s h))
        | no other ↦
            tick_from-over k (i + 1) (tick_slot now i s) (omega (arith, other)) (omega arith)
              (tick_slot-At i s other h)
      ]
