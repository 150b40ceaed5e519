-- ===== src/Networking/GuestList/Unique.antt =====
-- No address has two rules, whatever is called.
use aevros.Base.{
  ℕ, ◌≤◌, ◌≡◌, refl, inl, inr, true, false, List, [], ◌∷◌, arith, Bool-cases, Option-cases,
  bytes_eq, bytes_eq→eq, find, update_first, count_if, find_none→count, count-update_le,
  count-update_same, count-update_gain, count-map-le, length, length-update_first, length-map, ◌∙◌,
  add32, count-replicate,
}
use native.Mathlib.Nat.{le_trans}
use aevros.Networking.GuestList.{
  empty, blank, Verdict, Entry, capacity, matches, is_free, find_entry, set, clear, set_timed, tick,
  expire,
}
use aevros.Networking.GuestList.Lookup.{free_apart}

-- The table has its size, and one slot at most for each address.
pub record IsUnique (entries : List Entry) : Type 0 where
  pub sized : length entries ≡ capacity
  pub single : (ip : List ℕ) → count_if (matches ip) entries ≤ 1

-- The calls of the module, with the tick count at which each is made.
pub data Call : Type 0 where
  sets : List ℕ → Verdict → Call
  sets_timed : ℕ → List ℕ → Verdict → ℕ → Call
  clears : List ℕ → Call
  ticks : ℕ → Call

unfoldable pub step : List Entry → Call → List Entry
step t (sets ip v) = (set ip v t).0
step t (sets_timed now ip v d) = (set_timed now ip v d t).0
step t (clears ip) = clear ip t
step t (ticks now) = tick now t

unfoldable pub run : List Entry → List Call → List Entry
run t [] = t
run t (c ∷ cs) = run (step t c) cs

count-set :
    (ip j : List ℕ) (v : Verdict) (t : List Entry)
    → count_if (matches j) t ≤ 1
    → count_if (matches j) (set ip v t).0 ≤ 1
unfolding set find_entry
count-set ip j v t one = elim (Option-cases (find (matches ip) t)) [
  | inr (e, hit) ↦ ground (
    arith,
    hit,
    count-update_same (matches ip) (matches j) (λ x. record x { action = v }) t (λ a m. refl),
  )
  | inl miss ↦ elim (Bool-cases (bytes_eq ip j)) [
    | inl same ↦ ground (
      arith,
      miss,
      bytes_eq→eq ip j same,
      find_none→count (matches ip) t miss,
      count-update_gain is_free (matches j) (λ x. record x { ip = ip; action = v; in_use = true }) t
          (free_apart j) (λ a m. same),
    )
    | inr apart ↦ ground (
      arith,
      miss,
      count-update_same is_free (matches j) (λ x. record x { ip = ip; action = v; in_use = true }) t
          (λ a m. ground (arith, free_apart j a m)),
    )
  ]
]

length-set : (ip : List ℕ) (v : Verdict) (t : List Entry) → length (set ip v t).0 ≡ length t
unfolding set
length-set ip v t = ground (
  arith,
  length-update_first (matches ip) (λ x. record x { action = v }) t,
  length-update_first is_free (λ x. record x { ip = ip; action = v; in_use = true }) t,
)

pub set-IsUnique :
    (ip : List ℕ) (v : Verdict) (t : List Entry) → IsUnique t → IsUnique (set ip v t).0
set-IsUnique ip v t u = record {
  sized = length-set ip v t ∙ u.sized;
  single = λ j. count-set ip j v t (u.single j);
}

deadline-IsUnique :
    (ip : List ℕ) (n : ℕ) (t : List Entry)
    → IsUnique t
    → IsUnique (update_first (matches ip) (λ e. record e { expires_at_tick = n }) t)
deadline-IsUnique ip n t u = record {
  sized = length-update_first (matches ip) (λ e. record e { expires_at_tick = n }) t ∙ u.sized;
  single = λ j.
      rw
        (count-update_same (matches ip) (matches j) (λ e. record e { expires_at_tick = n }) t
          (λ a m. refl))
        (u.single j);
}

pub set_timed-IsUnique :
    (now : ℕ) (ip : List ℕ) (v : Verdict) (d : ℕ) (t : List Entry)
    → IsUnique t
    → IsUnique (set_timed now ip v d t).0
unfolding set_timed
set_timed-IsUnique now ip v d t u = elim (Bool-cases (set ip v t).1) [
  | inl e ↦ rw e (deadline-IsUnique ip (add32 now d) (set ip v t).0 (set-IsUnique ip v t u))
  | inr e ↦ rw e (set-IsUnique ip v t u)
]

pub expire_drops :
    (now : ℕ) (j : List ℕ) (e : Entry) → matches j e ≡ false → matches j (expire now e) ≡ false
expire_drops now j e h = ground arith

pub step-IsUnique : (t : List Entry) (c : Call) → IsUnique t → IsUnique (step t c)
unfolding step clear tick
step-IsUnique t (sets ip v) u = set-IsUnique ip v t u
step-IsUnique t (sets_timed now ip v d) u = set_timed-IsUnique now ip v d t u
step-IsUnique t (clears ip) u = record {
  sized = length-update_first (matches ip) (λ e. record e { in_use = false }) t ∙ u.sized;
  single = λ j.
      le_trans
        (count-update_le (matches ip) (matches j) (λ e. record e { in_use = false }) t
          (λ a h. refl))
        (u.single j);
}
step-IsUnique t (ticks now) u = record {
  sized = length-map (expire now) t ∙ u.sized;
  single =
      λ j. le_trans (count-map-le (matches j) (expire now) (expire_drops now j) t) (u.single j);
}

empty-IsUnique : IsUnique empty
empty-IsUnique = record {
  sized = refl;
  single = λ j. omega (arith, count-replicate (matches j) capacity blank refl);
}

run_from-IsUnique : (t : List Entry) (cs : List Call) → IsUnique t → IsUnique (run t cs)
unfolding run
run_from-IsUnique t [] u = u
run_from-IsUnique t (c ∷ cs) u = run_from-IsUnique (step t c) cs (step-IsUnique t c u)

-- From the zeroed table, no sequence of calls makes a table with two rules for one address, or
-- changes the number of slots.
pub run-IsUnique : (cs : List Call) → IsUnique (run empty cs)
run-IsUnique cs = run_from-IsUnique empty cs empty-IsUnique
