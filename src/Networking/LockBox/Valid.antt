-- ===== src/Networking/LockBox/Valid.antt =====
-- What holds of the socket table after any sequence of calls.
use native.Mathlib.Nat.{le_trans}
use aevros.Base.{
  ℕ, ◌-◌, ◌≤◌, ◌<◌, ◌≡◌, refl, ◌∙◌, inl, inr, true, false, none, List, [], ◌∷◌, arith, is_some,
  Bool-cases, Option-cases, bytes_eq, bytes_eq→eq, add32, find, find_index, update_first, count_if,
  length, update_at, length-update_at, length-update_first, get_elem?, count-update_at,
  count-update_at_le, count-update_same, count-update_gain, find_none→count, All-get,
  is_some-find_index, find_index-find, All, All-update_first, All-update_at, All-replicate,
  count-replicate,
}
use aevros.Networking.LockBox.{
  capacity, max_per_ip, max_buffered, Entry, LockBox, blank, empty, is_free, held_by, connects,
  claim, deposit, consume, release, listen, take_slot, find_connection, count_for_ip, set_buffered,
  buffered_at,
}

-- The arrays have their size; a connection has one slot at most; a remote address has eight at
-- most; no slot holds more bytes than the cap.
pub record IsValid (s : LockBox) : Type 0 where
  pub sized : length s.table ≡ capacity
  pub gens : length s.generation ≡ capacity
  pub single : (lp : ℕ) (ip : List ℕ) (rp pr : ℕ) → count_if (connects lp ip rp pr) s.table ≤ 1
  pub quota : (ip : List ℕ) → count_if (held_by ip) s.table ≤ max_per_ip
  pub bounded : All (λ e. e.buffered_bytes ≤ max_buffered) s.table

abbrev taken : ℕ → List ℕ → ℕ → ℕ → Entry → Entry
taken lp ip rp pr e = record {
  local_port = lp;
  remote_ip = ip;
  remote_port = rp;
  protocol = pr;
  buffered_bytes = 0;
  in_use = true;
}

-- A write that leaves the addresses and `in_use` of a slot, and its bytes within the cap.
set_buffered-IsValid :
    (id n : ℕ) (s : LockBox) → n ≤ max_buffered → IsValid s → IsValid (set_buffered id n s)
set_buffered-IsValid id n s h v = record {
  sized = length-update_at id (λ e. record e { buffered_bytes = n }) s.table ∙ v.sized;
  gens = v.gens;
  single = λ lp ip rp pr.
      rw
        (count-update_at id (λ e. record e { buffered_bytes = n }) (connects lp ip rp pr) s.table
          (λ a. refl))
        (v.single lp ip rp pr);
  quota = λ ip.
      rw
        (count-update_at id (λ e. record e { buffered_bytes = n }) (held_by ip) s.table (λ a. refl))
        (v.quota ip);
  bounded =
      All-update_at _ id (λ e. record e { buffered_bytes = n }) s.table (λ a p b. h) v.bounded;
}

buffered-bound : (id : ℕ) (s : LockBox) → IsValid s → buffered_at id s ≤ max_buffered
buffered-bound id s v = elim (Option-cases (get_elem? s.table id)) [
  | inl e ↦ rw (e, buffered_at) (omega arith)
  | inr (a, e) ↦
      rw (e, buffered_at) (All-get (λ x. x.buffered_bytes ≤ max_buffered) id s.table a v.bounded e)
]

reject-IsValid : (s : LockBox) (n : ℕ) → IsValid s → IsValid (record s { rejected_count = n })
reject-IsValid s n v = record {
  sized = v.sized;
  gens = v.gens;
  single = v.single;
  quota = v.quota;
  bounded = v.bounded;
}

deposit-IsValid : (id bytes : ℕ) (s : LockBox) → IsValid s → IsValid (deposit id bytes s).1
unfolding deposit
deposit-IsValid id bytes s v =
    let n = add32 (buffered_at id s) bytes in
    ground (arith, v, reject-IsValid s (add32 s.rejected_count 1) v, set_buffered-IsValid id n s)

consume-IsValid : (id bytes : ℕ) (s : LockBox) → IsValid s → IsValid (consume id bytes s)
unfolding consume
consume-IsValid id bytes s v = ground (
  arith,
  v,
  buffered-bound id s v,
  set_buffered-IsValid id 0 s,
  set_buffered-IsValid id (buffered_at id s - bytes) s,
)

vacated-IsValid :
    (id : ℕ) (s : LockBox)
    → IsValid s
    → IsValid (record s { table = update_at id (λ e. record e { in_use = false }) s.table })
vacated-IsValid id s v = record {
  sized = length-update_at id (λ e. record e { in_use = false }) s.table ∙ v.sized;
  gens = v.gens;
  single = λ lp ip rp pr.
      le_trans
        (count-update_at_le id (λ e. record e { in_use = false }) (connects lp ip rp pr) s.table
          (λ a h. refl))
        (v.single lp ip rp pr);
  quota = λ ip.
      le_trans
        (count-update_at_le id (λ e. record e { in_use = false }) (held_by ip) s.table
          (λ a h. refl))
        (v.quota ip);
  bounded = All-update_at _ id (λ e. record e { in_use = false }) s.table (λ a p b. b) v.bounded;
}

release-IsValid : (id : ℕ) (s : LockBox) → IsValid s → IsValid (release id s)
unfolding release
release-IsValid id s v = ground (arith, v, vacated-IsValid id s v)

-- The claim of one connection, where neither it nor a full quota is in the way.
module _ (lp : ℕ) (ip : List ℕ) (rp pr : ℕ) (s : LockBox) (i : ℕ) (v : IsValid s)
    (fresh : find (connects lp ip rp pr) s.table ≡ none)
    (room : count_if (held_by ip) s.table < max_per_ip)
    (free : is_some (find is_free s.table) ≡ true) where
  single-take_slot :
      (a : ℕ) (b : List ℕ) (c d : ℕ)
      → count_if (connects a b c d) (update_first is_free (taken lp ip rp pr) s.table) ≤ 1
  single-take_slot a b c d = elim (Bool-cases (connects a b c d (taken lp ip rp pr blank))) [
    | inl same ↦ ground (
      arith,
      same,
      bytes_eq→eq ip b,
      find_none→count (connects lp ip rp pr) s.table fresh,
      count-update_gain is_free (connects a b c d) (taken lp ip rp pr) s.table (λ e h. ground arith)
          (λ e h. same) free,
    )
    | inr apart ↦ ground (
      arith,
      v.single a b c d,
      count-update_same is_free (connects a b c d) (taken lp ip rp pr) s.table
          (λ e h. ground arith),
    )
  ]

  quota-take_slot :
      (j : List ℕ)
      → count_if (held_by j) (update_first is_free (taken lp ip rp pr) s.table) ≤ max_per_ip
  quota-take_slot j = elim (Bool-cases (bytes_eq ip j)) [
    | inl same ↦ ground (
      arith,
      bytes_eq→eq ip j same,
      count-update_gain is_free (held_by j) (taken lp ip rp pr) s.table (λ e h. ground arith)
          (λ e h. same) free,
    )
    | inr apart ↦ ground (
      arith,
      v.quota j,
      count-update_same is_free (held_by j) (taken lp ip rp pr) s.table (λ e h. ground arith),
    )
  ]

  take_slot-IsValid : IsValid (take_slot lp ip rp pr s i).box
  take_slot-IsValid = record {
    sized = length-update_first is_free (taken lp ip rp pr) s.table ∙ v.sized;
    gens = length-update_at i (λ g. add32 g 1) s.generation ∙ v.gens;
    single = single-take_slot;
    quota = quota-take_slot;
    bounded = All-update_first _ is_free (taken lp ip rp pr) s.table (λ a h. omega arith) v.bounded;
  }

-- The scan for a connection answers 64 only if it finds none.
pub find_connection-none :
    (lp : ℕ) (ip : List ℕ) (rp pr : ℕ) (s : LockBox)
    → length s.table ≡ capacity
    → find_connection lp ip rp pr s ≡ capacity
    → find (connects lp ip rp pr) s.table ≡ none
unfolding find_connection
find_connection-none lp ip rp pr s sized h =
    elim (Option-cases (find_index (connects lp ip rp pr) s.table)) [
      | inl e ↦ ground (arith, e, is_some-find_index (connects lp ip rp pr) s.table)
      | inr (i, e) ↦ absurd (ground (arith, e, find_index-find (connects lp ip rp pr) s.table i e))
    ]

claim-IsValid :
    (lp : ℕ) (ip : List ℕ) (rp pr : ℕ) (s : LockBox) → IsValid s → IsValid (claim lp ip rp pr s).box
unfolding claim count_for_ip
claim-IsValid lp ip rp pr s v = elim (Option-cases (find_index is_free s.table)) [
  | inl e ↦ ground (arith, e, reject-IsValid s (add32 s.rejected_count 1) v)
  | inr (i, e) ↦ ground (
    arith,
    e,
    reject-IsValid s (add32 s.rejected_count 1) v,
    find_connection-none lp ip rp pr s v.sized,
    is_some-find_index is_free s.table,
    take_slot-IsValid lp ip rp pr s i v,
  )
]

-- The calls of the module that change its state.
pub data Call : Type 0 where
  claims : ℕ → List ℕ → ℕ → ℕ → Call
  listens deposits consumes : ℕ → ℕ → Call
  releases : ℕ → Call

unfoldable pub step : LockBox → Call → LockBox
step s (claims lp ip rp pr) = (claim lp ip rp pr s).box
step s (listens lp pr) = (listen lp pr s).box
step s (deposits id n) = (deposit id n s).1
step s (consumes id n) = consume id n s
step s (releases id) = release id s

unfoldable pub run : LockBox → List Call → LockBox
run s [] = s
run s (c ∷ cs) = run (step s c) cs

step-IsValid : (s : LockBox) (c : Call) → IsValid s → IsValid (step s c)
unfolding step listen
step-IsValid s (claims lp ip rp pr) v = claim-IsValid lp ip rp pr s v
step-IsValid s (listens lp pr) v = claim-IsValid lp (0 ∷ 0 ∷ 0 ∷ 0 ∷ []) 0 pr s v
step-IsValid s (deposits id n) v = deposit-IsValid id n s v
step-IsValid s (consumes id n) v = consume-IsValid id n s v
step-IsValid s (releases id) v = release-IsValid id s v

pub empty-IsValid : IsValid empty
empty-IsValid = record {
  sized = refl;
  gens = refl;
  single = λ lp ip rp pr. omega (arith, count-replicate (connects lp ip rp pr) capacity blank refl);
  quota = λ ip. omega (arith, count-replicate (held_by ip) capacity blank refl);
  bounded = All-replicate (λ e. e.buffered_bytes ≤ max_buffered) capacity blank (omega arith);
}

pub run_from-IsValid : (s : LockBox) (cs : List Call) → IsValid s → IsValid (run s cs)
unfolding run
run_from-IsValid s [] v = v
run_from-IsValid s (c ∷ cs) v = run_from-IsValid (step s c) cs (step-IsValid s c v)

-- From the zeroed state, after any sequence of calls: no connection is claimed twice, no remote
-- address holds more than 8 sockets, no socket has more than 4096 bytes buffered, and the two
-- arrays keep their 64 entries.
pub run-IsValid : (cs : List Call) → IsValid (run empty cs)
run-IsValid cs = run_from-IsValid empty cs empty-IsValid
