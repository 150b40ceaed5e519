-- ===== src/Networking/Inbox/Claimed.antt =====
-- A claim keeps the agreement of the inbox and the lock box.
use native.Mathlib.Decide.{ℕ_discrete}
use aevros.Base.{
  ℕ, zero, suc, ◌+◌, ◌^◌, ◌≤◌, ◌<◌, ◌≡◌, ◌≢◌, refl, sym, subst, ap, ◌∙◌, ◌⊎◌, inl, inr, Bool, true,
  false, some, List, [], ◌∷◌, arith, Bool-cases, Option-cases, add32, length, length-update_at,
  length-update_first, get_or-update_self, get_or-update_ne, get_elem?-some, get_elem?-update_self,
  get_elem?-update_ne, update_at, update_first, find_index, find_index-find, leb, ◌==◌,
}
use aevros.Networking.LockBox.{
  LockBox, Entry, capacity, max_per_ip, max_buffered, is_free, claim, take_slot, get_generation,
  buffered_at, find_connection, count_for_ip,
}
use aevros.Networking.Inbox.{Slot, slot_at, reset_if_stale}
use aevros.Networking.Inbox.Frame.{Same}
use aevros.Networking.Inbox.Tidy.{State, Tidy, TidyAt, IsTidy, Tidy-Same}

-- What a claim leaves: another count of the refused, or a slot that was free and is taken.
claim_box :
    (lp : ℕ) (ip : List ℕ) (rp pr : ℕ) (lb : LockBox)
    → ((claim lp ip rp pr lb).box ≡ record lb { rejected_count = add32 lb.rejected_count 1 })
      ⊎ ((i : ℕ) × (find_index is_free lb.table ≡ some i)
          × ((claim lp ip rp pr lb).box ≡ (take_slot lp ip rp pr lb i).box))
unfolding claim
claim_box lp ip rp pr lb = elim (Bool-cases (find_connection lp ip rp pr lb == capacity)) [
  | inr there ↦ inl (ground (arith, there))
  | inl new ↦ elim (Bool-cases (leb max_per_ip (count_for_ip ip lb))) [
    | inl many ↦ inl (ground (arith, new, many))
    | inr few ↦ elim (Option-cases (find_index is_free lb.table)) [
      | inl full ↦ inl (ground (arith, new, few, full))
      | inr (i, at) ↦ inr (i, at, ground (arith, new, few, at))
    ]
  ]
]

update_first-at :
    {A : Type 0} (p : A → Bool) (f : A → A) (xs : List A) (i : ℕ)
    → find_index p xs ≡ some i
    → update_first p f xs ≡ update_at i f xs
unfolding find_index update_first
update_first-at p f [] i h = refl
update_first-at p f (x ∷ xs) zero h = ground (arith, h)
update_first-at p f (x ∷ xs) (suc i) h = ground (arith, h, update_first-at p f xs i)

-- A slot that is claimed in the next generation is empty.
claimed-Tidy : (k b g : ℕ) (x : Slot) → Tidy k b g x → Tidy (suc k) 0 (suc g) x
unfolding reset_if_stale
claimed-Tidy k b g x t =
    let stale : (x.seen_generation == suc g) ≡ false = ground (arith, t.seen) in
    let room : max_buffered ≤ length x.storage = ground (arith, t.ring.room) in
    record {
      ring = record {
        room = ground (arith, stale, room);
        read_in = ground (arith, stale);
        full = ground (arith, stale);
        tail = ground (arith, stale);
      };
      counted = ground (arith, stale);
      seen = omega (arith, t.seen);
      young = omega (arith, t.young);
    }

module _ (lp : ℕ) (ip : List ℕ) (rp pr : ℕ) (lb : LockBox) (i : ℕ)
    (at : find_index is_free lb.table ≡ some i) where
  abbrev won : LockBox
  won = (take_slot lp ip rp pr lb i).box

  abbrev filled : Entry → Entry
  filled e = record {
    local_port = lp;
    remote_ip = ip;
    remote_port = rp;
    protocol = pr;
    buffered_bytes = 0;
    in_use = true;
  }

  won-Same : (id : ℕ) (boxes : List Slot) → i ≢ id → Same id lb won boxes boxes
  unfolding get_generation
  won-Same id boxes ne = record {
    buffered =
        ap (λ t. buffered_at id (record lb { table = t }))
          (update_first-at is_free filled lb.table i at)
        ∙ ground (arith, get_elem?-update_ne i id filled lb.table ne);
    generation = ground (arith, get_or-update_ne i id (λ (g : ℕ). add32 g 1) lb.generation 0 ne);
    slot = refl;
  }

  won-buffered : i < length lb.table → buffered_at i won ≡ 0
  won-buffered low =
      let (e, here) = get_elem?-some i lb.table low in
      ap (λ t. buffered_at i (record lb { table = t }))
        (update_first-at is_free filled lb.table i at)
      ∙ ground (arith, here, get_elem?-update_self i filled lb.table)

  won-generation :
      i < capacity
      → length lb.generation ≡ capacity
      → get_generation i lb + 1 < 2 ^ 32
      → get_generation i won ≡ suc (get_generation i lb)
  unfolding get_generation
  won-generation low gens small = ground (
    arith,
    low,
    small,
    get_or-update_self i (λ (g : ℕ). add32 g 1) lb.generation 0 (omega (arith, low, gens)),
  )

pub claim-IsTidy :
    (k lp : ℕ) (ip : List ℕ) (rp pr : ℕ) (s : State)
    → suc k < 2 ^ 32
    → IsTidy k s
    → IsTidy (suc k) (record s { box = (claim lp ip rp pr s.box).box })
unfolding get_generation
claim-IsTidy k lp ip rp pr s small t = elim (claim_box lp ip rp pr s.box) [
  | inl e ↦
      subst (λ b. IsTidy (suc k) (record s { box = b })) (sym e)
        (record {
          sized = record { table = t.sized.table; gens = t.sized.gens; slots = t.sized.slots };
          each = λ id low.
              Tidy-Same k id s.box (record s.box { rejected_count = add32 s.box.rejected_count 1 })
                s.boxes s.boxes (record { buffered = refl; generation = refl; slot = refl })
                (t.each id low);
        })
  | inr (i, at, e) ↦
      let in_table : i < length s.box.table = (find_index-find is_free s.box.table i at).0 in
      let here : i < capacity = omega (arith, in_table, t.sized.table) in
      let mine = t.each i here in
      subst (λ b. IsTidy (suc k) (record s { box = b })) (sym e)
        (record {
          sized = record {
            table =
                length-update_first is_free (filled lp ip rp pr s.box i at) s.box.table
                ∙ t.sized.table;
            gens = length-update_at i (λ (g : ℕ). add32 g 1) s.box.generation ∙ t.sized.gens;
            slots = t.sized.slots;
          };
          each = λ id low. elim (ℕ_discrete i id) [
            | no ne ↦
                Tidy-Same k id s.box _ s.boxes s.boxes
                  (won-Same lp ip rp pr s.box i at id s.boxes ne) (t.each id low)
            | yes same ↦ subst (TidyAt (suc k) (won lp ip rp pr s.box i at) s.boxes) same (
                subst
                  (λ b.
                    Tidy (suc k) b (get_generation i (won lp ip rp pr s.box i at))
                      (slot_at i s.boxes))
                  (sym (won-buffered lp ip rp pr s.box i at in_table))
                  (subst (λ g. Tidy (suc k) 0 g (slot_at i s.boxes))
                    (sym (
                      won-generation lp ip rp pr s.box i at here t.sized.gens
                        (omega (arith, mine.young, small))))
                    (claimed-Tidy k _ _ _ mine)))
          ];
        })
]
