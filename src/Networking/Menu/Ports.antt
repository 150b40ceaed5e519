-- ===== src/Networking/Menu/Ports.antt =====
-- The menu is a set of ports of bounded size: what opening and closing do to it.
use native.Mathlib.Nat.{le_trans}
use aevros.Base.{
  ℕ, ◌≤◌, ◌≡◌, refl, ◌∙◌, inl, inr, Bool, true, false, ◌&&◌, ◌||◌, not, List, [], ◌∷◌, arith, ltb,
  ◌==◌, Bool-cases, Option-cases, find, find_none→count, count→find_none, find-update_new,
  find-update_other, find-not-count, count_if, count-update_le, count-update_same,
  count-update_gain, count-update_loss, count-replicate, update_first, update_first-none, length,
  length-update_first,
}
use aevros.Networking.Menu.{
  Entry, capacity, blank, empty, serves, is_free, is_open, open_port, close_port, count,
}

-- The call is about this port.
abbrev pub same_port : ℕ → ℕ → ℕ → ℕ → Bool
same_port port protocol p q = protocol == q && port == p

-- The table has its size, and one slot at most for each port.
pub record UniquePorts (entries : List Entry) : Type 0 where
  pub sized : length entries ≡ capacity
  pub single : (port protocol : ℕ) → count_if (serves port protocol) entries ≤ 1

abbrev taken : ℕ → ℕ → Entry → Entry
taken port protocol e = record e { port = port; protocol = protocol; in_use = true }

abbrev left : Entry → Entry
left e = record e { in_use = false }

module _ (port protocol p q : ℕ) (entries : List Entry) where
  is_open-open_self :
      same_port port protocol p q ≡ true
      → is_open p q (open_port port protocol entries).0 ≡ (open_port port protocol entries).1
  unfolding is_open open_port
  is_open-open_self same = elim (Option-cases (find (serves port protocol) entries)) [
    | inr (e, hit) ↦ ground (arith, hit, same)
    | inl miss ↦ ground (
      arith,
      same,
      miss,
      find-update_new is_free (serves port protocol) (taken port protocol) entries
          (λ a m. ground arith) miss,
    )
  ]

  is_open-open_other :
      same_port port protocol p q ≡ false
      → is_open p q (open_port port protocol entries).0 ≡ is_open p q entries
  unfolding is_open open_port
  is_open-open_other apart = ground (
    arith,
    find-update_other is_free (serves p q) (taken port protocol) entries (λ a m. ground arith)
        (λ a m. ground arith),
  )

  open_port-result :
      (open_port port protocol entries).1
      ≡ (is_open port protocol entries || ltb (count entries) (length entries))
  unfolding open_port is_open count
  open_port-result = ground (arith, find-not-count (λ (e : Entry). e.in_use) entries)

  open_port-refused :
      (open_port port protocol entries).1 ≡ false → (open_port port protocol entries).0 ≡ entries
  unfolding open_port
  open_port-refused h = ground arith

  -- Opening a port succeeds exactly when it is open already or fewer than 32 slots are in use.
  -- Then the port is open, and no other port changes; a refused call changes no port.
  pub is_open-open_port :
      length entries ≡ capacity
      → ((open_port port protocol entries).1
          ≡ (is_open port protocol entries || ltb (count entries) capacity))
        × (is_open p q (open_port port protocol entries).0 ≡ (
            (open_port port protocol entries).1 && same_port port protocol p q
            || is_open p q entries))
  is_open-open_port full = (
    rw (← full) open_port-result,
    elim (Bool-cases (same_port port protocol p q)) [
      | inl same ↦ ground (arith, same, is_open-open_self same, open_port-refused)
      | inr apart ↦ ground (arith, apart, is_open-open_other apart)
    ],
  )

  -- Closing a port closes it, and changes no other port.
  pub is_open-close_port :
      UniquePorts entries
      → is_open p q (close_port port protocol entries)
        ≡ (not (same_port port protocol p q) && is_open p q entries)
  unfolding is_open close_port
  is_open-close_port u = elim (Bool-cases (same_port port protocol p q)) [
    | inl same ↦ ground (
      arith,
      same,
      u.single port protocol,
      find_none→count (serves port protocol) entries,
      update_first-none (serves port protocol) (serves port protocol) left entries,
      count-update_loss (serves port protocol) (serves port protocol) left entries (λ a m. m)
          (λ a m. refl),
      count→find_none (serves port protocol) (update_first (serves port protocol) left entries),
    )
    | inr apart ↦ ground (
      arith,
      apart,
      find-update_other (serves port protocol) (serves p q) left entries (λ a m. ground arith)
          (λ a m. refl),
    )
  ]

  count-open_port :
      count_if (serves p q) entries ≤ 1
      → count_if (serves p q) (open_port port protocol entries).0 ≤ 1
  unfolding open_port
  count-open_port one = elim (Option-cases (find (serves port protocol) entries)) [
    | inr (e, hit) ↦ ground (arith, hit)
    | inl miss ↦ elim (Bool-cases (same_port port protocol p q)) [
      | inl same ↦ ground (
        arith,
        miss,
        same,
        find_none→count (serves port protocol) entries miss,
        count-update_gain is_free (serves p q) (taken port protocol) entries (λ a m. ground arith)
            (λ a m. same),
      )
      | inr apart ↦ ground (
        arith,
        miss,
        count-update_same is_free (serves p q) (taken port protocol) entries (λ a m. ground arith),
      )
    ]
  ]

-- The calls of the module that change the table.
pub data Call : Type 0 where
  opens closes : ℕ → ℕ → Call

unfoldable pub step : List Entry → Call → List Entry
step t (opens port protocol) = (open_port port protocol t).0
step t (closes port protocol) = close_port port protocol t

unfoldable pub run : List Entry → List Call → List Entry
run t [] = t
run t (c ∷ cs) = run (step t c) cs

step-UniquePorts : (t : List Entry) (c : Call) → UniquePorts t → UniquePorts (step t c)
unfolding step open_port close_port
step-UniquePorts t (opens port protocol) u = record {
  sized = ground (arith, length-update_first is_free (taken port protocol) t, u.sized);
  single = λ p q. count-open_port port protocol p q t (u.single p q);
}
step-UniquePorts t (closes port protocol) u = record {
  sized = length-update_first (serves port protocol) left t ∙ u.sized;
  single = λ p q.
      le_trans (count-update_le (serves port protocol) (serves p q) left t (λ a h. refl))
        (u.single p q);
}

empty-UniquePorts : UniquePorts empty
empty-UniquePorts = record {
  sized = refl;
  single = λ p q. omega (arith, count-replicate (serves p q) capacity blank refl);
}

run_from-UniquePorts : (t : List Entry) (cs : List Call) → UniquePorts t → UniquePorts (run t cs)
unfolding run
run_from-UniquePorts t [] u = u
run_from-UniquePorts t (c ∷ cs) u = run_from-UniquePorts (step t c) cs (step-UniquePorts t c u)

-- From the zeroed table, no sequence of calls gives a port two slots, or changes the number of
-- slots.
pub run-UniquePorts : (cs : List Call) → UniquePorts (run empty cs)
run-UniquePorts cs = run_from-UniquePorts empty cs empty-UniquePorts
