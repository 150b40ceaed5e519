-- ===== src/Networking/Inbox/Kept.antt =====
-- Deposits, reads, questions and releases keep the agreement of the inbox and the lock box.
use native.Mathlib.Decide.{ℕ_discrete}
use aevros.Base.{
  ℕ, suc, ◌^◌, ◌<◌, ◌≡◌, refl, sym, subst, ap, ◌∙◌, ◌⊎◌, inl, inr, false, List, arith, Bool-cases,
  length, length-update_at, get_or-update_self, get_or-update_ne, get_elem?-update_self,
  get_elem?-update_ne, update_at, leb,
}
use aevros.Networking.LockBox
use aevros.Networking.LockBox.{
  LockBox, Entry, capacity, max_per_ip, max_buffered, is_free, claim, take_slot, get_generation,
  buffered_at, in_use_at, find_connection, count_for_ip,
}
use aevros.Networking.Inbox.{Slot, slot_at, blank, reset_if_stale, deposit, read, available}
use aevros.Networking.Inbox.Buffer.{IsRing}
use aevros.Networking.Inbox.Counts.{reset_current, reset-reset}
use aevros.Networking.Inbox.Stream.{waiting-deposit, waiting-read}
use aevros.Networking.Inbox.Frame.{
  Same, deposit-Same, read-Same, deposit-seen, read-seen, deposit-generation, read-generation,
  deposit-Sized, read-Sized,
}
use aevros.Networking.Inbox.Tidy.{
  releases, deposits, reads, asks, State, step, Tidy, TidyAt, IsTidy, Tidy-more, Tidy-Same,
  Tidy-Agrees, Agrees-Tidy,
}

pub deposit-IsTidy :
    (k i : ℕ) (payload : List ℕ) (s : State)
    → length payload < 2 ^ 16
    → IsTidy k s
    → IsTidy (suc k) (step s (deposits i payload))
unfolding step
deposit-IsTidy k i payload s short t = record {
  sized = deposit-Sized i payload s.box s.boxes t.sized;
  each = λ id low. elim (ℕ_discrete i id) [
    | no ne ↦
        Tidy-Same k id s.box _ s.boxes _ (deposit-Same i id payload s.box s.boxes ne)
          (t.each id low)
    | yes e ↦
        let low' : i < capacity = omega (arith, e, low) in
        let here = t.each i low' in
        let (_, _, agrees) =
          waiting-deposit i s.box s.boxes (Tidy-Agrees k i s.box s.boxes low' t.sized here) payload
            short in
        subst
          (TidyAt (suc k) (deposit i payload s.box s.boxes).1 (deposit i payload s.box s.boxes).2) e
          (Agrees-Tidy k (get_generation i s.box) i _ _ agrees
            (deposit-generation i i payload s.box s.boxes)
            (deposit-seen i s.box s.boxes low' t.sized.slots payload) here.young)
  ];
}

pub read-IsTidy : (k i n : ℕ) (s : State) → IsTidy k s → IsTidy (suc k) (step s (reads i n))
unfolding step
read-IsTidy k i n s t = record {
  sized = read-Sized i n s.box s.boxes t.sized;
  each = λ id low. elim (ℕ_discrete i id) [
    | no ne ↦ Tidy-Same k id s.box _ s.boxes _ (read-Same i id n s.box s.boxes ne) (t.each id low)
    | yes e ↦
        let low' : i < capacity = omega (arith, e, low) in
        let here = t.each i low' in
        let (_, _, agrees) =
          waiting-read i s.box s.boxes (Tidy-Agrees k i s.box s.boxes low' t.sized here) n in
        subst (TidyAt (suc k) (read i n s.box s.boxes).1 (read i n s.box s.boxes).2) e (
          Agrees-Tidy k (get_generation i s.box) i _ _ agrees (read-generation i i n s.box s.boxes)
            (read-seen i s.box s.boxes low' t.sized.slots n) here.young)
  ];
}

Tidy-reset : (k b g : ℕ) (x : Slot) → Tidy k b g x → Tidy (suc k) b g (reset_if_stale g x)
Tidy-reset k b g x t =
    let now = reset_current g (reset_if_stale g x) (reset-reset g x) in
    record {
      ring = subst IsRing (sym now) t.ring;
      counted = ap (λ (y : Slot). y.count) now ∙ t.counted;
      seen = omega (arith, reset-reset g x);
      young = omega (arith, t.young);
    }

asks-boxes :
    (i n : ℕ) (s : State)
    → (step s (asks i n) ≡ s)
      ⊎ (step s (asks i n)
          ≡ record s { boxes = update_at i (reset_if_stale (get_generation i s.box)) s.boxes })
unfolding step available
asks-boxes i n s = elim (Bool-cases (leb capacity i)) [
  | inl far ↦ inl (ground (arith, far))
  | inr low ↦ inr (ground (arith, low))
]

IsTidy-more : (k : ℕ) (s : State) → IsTidy k s → IsTidy (suc k) s
IsTidy-more k s t = record {
  sized = t.sized;
  each = λ id low.
      Tidy-more k (buffered_at id s.box) (get_generation id s.box) (slot_at id s.boxes)
        (t.each id low);
}

pub asks-IsTidy : (k i n : ℕ) (s : State) → IsTidy k s → IsTidy (suc k) (step s (asks i n))
asks-IsTidy k i n s t = elim (asks-boxes i n s) [
  | inl same ↦ subst (IsTidy (suc k)) (sym same) (IsTidy-more k s t)
  | inr e ↦
      let reset = reset_if_stale (get_generation i s.box) in
      subst (IsTidy (suc k)) (sym e) (record {
        sized = record {
          table = t.sized.table;
          gens = t.sized.gens;
          slots = length-update_at i reset s.boxes ∙ t.sized.slots;
        };
        each = λ id low. elim (ℕ_discrete i id) [
          | no ne ↦
              subst (Tidy (suc k) (buffered_at id s.box) (get_generation id s.box))
                (sym (get_or-update_ne i id reset s.boxes blank ne))
                (Tidy-more k _ _ _ (t.each id low))
          | yes here ↦
              let low' : i < length s.boxes = omega (arith, here, low, t.sized.slots) in
              let low'' : i < capacity = omega (arith, here, low) in
              subst (TidyAt (suc k) s.box (update_at i reset s.boxes)) here (
                subst (Tidy (suc k) (buffered_at i s.box) (get_generation i s.box))
                  (sym (get_or-update_self i reset s.boxes blank low'))
                  (Tidy-reset k _ _ _ (t.each i low'')))
        ];
      })
]

release-Same :
    (i id : ℕ) (s : State)
    → Same id s.box (step s (releases i)).box s.boxes (step s (releases i)).boxes
unfolding step LockBox.release get_generation
release-Same i id s =
    let f : Entry → Entry = λ e. record e { in_use = false } in
    record {
      buffered = elim (ℕ_discrete i id) [
        | no ne ↦ ground (arith, get_elem?-update_ne i id f s.box.table ne)
        | yes e ↦
            subst (λ j. buffered_at j (LockBox.release i s.box) ≡ buffered_at j s.box) e
              (ground (arith, get_elem?-update_self i f s.box.table))
      ];
      generation = ground arith;
      slot = refl;
    }

pub release-IsTidy : (k i : ℕ) (s : State) → IsTidy k s → IsTidy (suc k) (step s (releases i))
unfolding step LockBox.release
release-IsTidy k i s t =
    let rows = length-update_at i (λ (e : Entry). record e { in_use = false }) s.box.table in
    record {
      sized = record {
        table = ground (arith, t.sized.table, rows);
        gens = ground (arith, t.sized.gens);
        slots = t.sized.slots;
      };
      each = λ id low. Tidy-Same k id s.box _ s.boxes _ (release-Same i id s) (t.each id low);
    }
