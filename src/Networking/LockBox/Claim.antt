-- ===== src/Networking/LockBox/Claim.antt =====
-- What `lockbox_claim` answers, and what the other operations see after it.
use aevros.Base.{
  ℕ, suc, ◌<◌, ◌≡◌, refl, ◌⊎◌, inl, inr, true, false, not, sym, subst, All, Bool-cases, none, some,
  List, arith, ltb, leb, ◌==◌, if◌then◌else◌, Option-cases, bytes_eq_refl, add32, find, find_index,
  get_elem?-update_first, get_or-update_self, count-update_gain, is_some-find_index,
  find_index-find, find_index-update_new, find-not-count,
}
use aevros.Networking.LockBox.{
  capacity, max_per_ip, Entry, LockBox, ok, reject_table_full, reject_ip_quota,
  reject_already_exists, is_free, connects, claim, take_slot, find_connection, count_for_ip,
  active_count, get_tuple, buffered_at, get_generation,
}
use aevros.Networking.LockBox.Valid.{IsValid, find_connection-none}
use aevros.Networking.LockBox.Answer.{
  Answer, IsConnection, over_quota, full, granted, held_by-Holds, absent, there_is, room, no_room,
}

module _ (lp : ℕ) (ip : List ℕ) (rp pr : ℕ) (s : LockBox) where
  claim-tests :
      IsValid s
      → ((claim lp ip rp pr s).result ≡ (
          if not (find_connection lp ip rp pr s == capacity)
          then reject_already_exists
          else if leb max_per_ip (count_for_ip ip s)
          then reject_ip_quota
          else if ltb (active_count s) capacity
          then ok
          else reject_table_full))
        × (((claim lp ip rp pr s).result ≡ ok)
            ⊎ (((claim lp ip rp pr s).out_id ≡ none)
                × ((claim lp ip rp pr s).box
                    ≡ record s { rejected_count = add32 s.rejected_count 1 })))
  unfolding claim active_count
  claim-tests v = elim (Option-cases (find_index is_free s.table)) [
    | inl e ↦ ground (
      arith,
      e,
      v.sized,
      is_some-find_index is_free s.table,
      find-not-count (λ (x : Entry). x.in_use) s.table,
    )
    | inr (i, e) ↦ ground (
      arith,
      e,
      v.sized,
      is_some-find_index is_free s.table,
      find-not-count (λ (x : Entry). x.in_use) s.table,
    )
  ]

  there_already :
      IsValid s
      → (find_connection lp ip rp pr s == capacity) ≡ false
      → Answer lp ip rp pr s.table reject_already_exists
  unfolding find_connection
  there_already v h = elim (Option-cases (find_index (connects lp ip rp pr) s.table)) [
    | inl lost ↦ absurd (ground (arith, h, lost))
    | inr (i, at) ↦ there_is lp ip rp pr i s.table at
  ]

  -- The answer where the connection is not there.
  new_connection :
      IsValid s
      → All (λ e. ¬ IsConnection lp ip rp pr e) s.table
      → Answer lp ip rp pr s.table (
          if leb max_per_ip (count_for_ip ip s)
          then reject_ip_quota
          else if ltb (active_count s) capacity
          then ok
          else reject_table_full)
  unfolding count_for_ip active_count
  new_connection v new =
      let held = held_by-Holds ip s.table in
      elim (Bool-cases (leb max_per_ip (count_for_ip ip s))) [
        | inl many ↦ rw many (over_quota (count_for_ip ip s) new held (ground (arith, many)))
        | inr few ↦ elim (Option-cases (find_index is_free s.table)) [
          | inl none_free ↦
              let busy : ltb (active_count s) capacity ≡ false = ground (
                arith,
                none_free,
                v.sized,
                is_some-find_index is_free s.table,
                find-not-count (λ (x : Entry). x.in_use) s.table,
              ) in
              rw (few, busy)
                (full (count_for_ip ip s) new held (ground (arith, few))
                  (no_room s.table none_free))
          | inr (i, at) ↦
              let spare : ltb (active_count s) capacity ≡ true = ground (
                arith,
                at,
                v.sized,
                is_some-find_index is_free s.table,
                find-not-count (λ (x : Entry). x.in_use) s.table,
              ) in
              let (e, there, unused) = room s.table i at in
              rw (few, spare)
                (granted (count_for_ip ip s) i e new held (ground (arith, few)) there unused)
        ]
      ]

  -- A claim is answered by the first of these that applies: a slot is in use for the connection
  -- already; 8 slots or more are held by its remote address; all slots are in use; else it succeeds. A
  -- refused claim sets no id and leaves the table and the generations.
  pub claim-result :
      IsValid s
      → Answer lp ip rp pr s.table (claim lp ip rp pr s).result
        × (((claim lp ip rp pr s).result ≡ ok)
            ⊎ (((claim lp ip rp pr s).out_id ≡ none)
                × ((claim lp ip rp pr s).box
                    ≡ record s { rejected_count = add32 s.rejected_count 1 })))
  claim-result v =
      let (result, left) = claim-tests v in
      (
        elim (Bool-cases (find_connection lp ip rp pr s == capacity)) [
          | inr there ↦
              let e : (claim lp ip rp pr s).result ≡ reject_already_exists =
                ground (arith, result, there) in
              subst (Answer lp ip rp pr s.table) (sym e) (there_already v there)
          | inl new ↦
              let e : (claim lp ip rp pr s).result ≡ (
                  if leb max_per_ip (count_for_ip ip s)
                  then reject_ip_quota
                  else if ltb (active_count s) capacity
                  then ok
                  else reject_table_full) =
                ground (arith, result, new) in
              subst (Answer lp ip rp pr s.table) (sym e)
                (new_connection v (absent lp ip rp pr s v.sized (ground (arith, new))))
        ],
        left,
      )

  claim-shape :
      IsValid s
      → (claim lp ip rp pr s).result ≡ ok
      → (i : ℕ) × (find_index is_free s.table ≡ some i)
        × (find (connects lp ip rp pr) s.table ≡ none)
        × (claim lp ip rp pr s ≡ take_slot lp ip rp pr s i)
  unfolding claim
  claim-shape v h = elim (Option-cases (find_index is_free s.table)) [
    | inl e ↦ absurd (ground (arith, e))
    | inr (i, e) ↦
        (i, e, ground (arith, e, find_connection-none lp ip rp pr s v.sized), ground (arith, e))
  ]

  -- A claim that succeeds sets an id below 64. The connection is then found at that id with an
  -- empty buffer and the next generation, and one more slot is in use.
  pub claim-ok :
      IsValid s
      → (claim lp ip rp pr s).result ≡ ok
      → (i : ℕ) × ((claim lp ip rp pr s).out_id ≡ some i)
        × (i < capacity)
        × (find_connection lp ip rp pr (claim lp ip rp pr s).box ≡ i)
        × (get_tuple i (claim lp ip rp pr s).box ≡ some (lp, ip, rp))
        × (buffered_at i (claim lp ip rp pr s).box ≡ 0)
        × (get_generation i (claim lp ip rp pr s).box ≡ add32 (get_generation i s) 1)
        × (active_count (claim lp ip rp pr s).box ≡ suc (active_count s))
  unfolding find_connection get_tuple get_generation active_count
  claim-ok v h =
      let (i, free, fresh, e) = claim-shape v h in
      let (below, same, hit) = find_index-find is_free s.table i free in
      let written = get_elem?-update_first is_free taken s.table i free in
      (
        i,
        ground (arith, e),
        omega (arith, v.sized),
        ground (
          arith,
          e,
          free,
          find_index-update_new is_free (connects lp ip rp pr) taken s.table
              (λ a m. ground (arith, bytes_eq_refl ip)) fresh,
        ),
        ground (arith, e, written, same, hit, v.sized),
        ground (arith, e, written, same, hit),
        ground
            (arith, e, v.sized, v.gens, get_or-update_self i (λ (g : ℕ). add32 g 1) s.generation 0),
        ground (
          arith,
          e,
          count-update_gain is_free (λ (x : Entry). x.in_use) taken s.table (λ a m. ground arith)
              (λ a m. refl) hit,
        ),
      )
    where
      taken : Entry → Entry
      taken x = record {
        local_port = lp;
        remote_ip = ip;
        remote_port = rp;
        protocol = pr;
        buffered_bytes = 0;
        in_use = true;
      }
