-- ===== src/Networking/GuestList/Expiry.antt =====
-- When a rule ends: `guestlist_clear`, and `guestlist_tick` after a timed rule.
use aevros.Base.{
  ℕ, ◌≤◌, ◌≡◌, ◌≢◌, refl, inl, inr, true, false, ◌||◌, List, some, arith, if◌then◌else◌, ltb, ◌==◌,
  Bool-cases, Option-cases, add32, bytes_eq, bytes_eq→eq, bytes_eq_refl, find, find-passes,
  find-map_one, find-update_self, find-update_new, find-update_other, count→find_none,
  find_none→count, count-update_loss, update_first-none, update_first,
}
use aevros.Networking.GuestList.{
  Verdict, no_rule, Entry, matches, is_free, find_entry, set, set_timed, clear, tick, check, expire,
}
use aevros.Networking.GuestList.Lookup.{matches_apart}
use aevros.Networking.GuestList.Unique.{IsUnique, set-IsUnique, set_timed-IsUnique, expire_drops}

module _ (ip : List ℕ) (v : Verdict) (t : List Entry) where
  -- The slot that `guestlist_set` leaves for the address: its deadline is that of the slot it took.
  set-found :
      (set ip v t).1 ≡ true
      → (e : Entry) × (find (matches ip) (set ip v t).0 ≡ some e) × (e.action ≡ v)
  unfolding set find_entry
  set-found h = elim (Option-cases (find (matches ip) t)) [
    | inr (e, hit) ↦ (
      record e { action = v },
      ground (
        arith,
        hit,
        find-update_self (matches ip) (matches ip) (λ x. record x { action = v }) t (λ a. refl)
            (λ a m. m),
      ),
      refl,
    )
    | inl miss ↦ elim (Option-cases (find is_free t)) [
      | inl full ↦ absurd (ground (arith, miss, full))
      | inr (e, free) ↦ (
        record e { ip = ip; action = v; in_use = true },
        ground (
          arith,
          miss,
          free,
          find-update_new is_free (matches ip)
              (λ x. record x { ip = ip; action = v; in_use = true }) t (λ a m. bytes_eq_refl ip)
              miss,
        ),
        refl,
      )
    ]
  ]

-- What a tick leaves of the rule of one address.
check-tick :
    (ip : List ℕ) (later : ℕ) (t : List Entry) (e : Entry)
    → IsUnique t
    → find (matches ip) t ≡ some e
    → check ip (tick later t)
      ≡ (if e.expires_at_tick == 0 || ltb later e.expires_at_tick then e.action else no_rule)
unfolding check tick find_entry
check-tick ip later t e u h = ground (
  arith,
  h,
  find-passes (matches ip) t h,
  find-map_one (matches ip) (expire later) (expire_drops later ip) t (u.single ip),
)

set_timed-found :
    (now : ℕ) (ip : List ℕ) (v : Verdict) (d : ℕ) (t : List Entry)
    → (set_timed now ip v d t).1 ≡ true
    → (e : Entry) × (find (matches ip) (set_timed now ip v d t).0 ≡ some e)
      × (e.action ≡ v)
      × (e.expires_at_tick ≡ add32 now d)
unfolding set_timed
set_timed-found now ip v d t h =
    let done : (set ip v t).1 ≡ true = ground arith in
    let (e, hit, same) = set-found ip v t done in
    (
      record e { expires_at_tick = add32 now d },
      ground (
        arith,
        done,
        hit,
        find-update_self (matches ip) (matches ip) (λ x. record x { expires_at_tick = add32 now d })
            (set ip v t).0 (λ a. refl) (λ a m. m),
      ),
      same,
      refl,
    )

module _ (ip : List ℕ) (v : Verdict) (t : List Entry) (u : IsUnique t) (later : ℕ) where
  -- A rule set for `d` ticks answers after a tick that comes below its deadline, and the first
  -- tick at or after the deadline takes the rule away. A deadline that wraps round to 0 never
  -- comes: the rule stays.
  pub check-tick-set_timed :
      (now d : ℕ)
      → (set_timed now ip v d t).1 ≡ true
      → check ip (tick later (set_timed now ip v d t).0)
        ≡ (if add32 now d == 0 || ltb later (add32 now d) then v else no_rule)
  check-tick-set_timed now d h =
      let (e, hit, same, deadline) = set_timed-found now ip v d t h in
      ground (
        arith,
        same,
        deadline,
        check-tick ip later (set_timed now ip v d t).0 e (set_timed-IsUnique now ip v d t u) hit,
      )

  -- `guestlist_set` leaves the deadline of a rule that it overwrites: an address whose old rule
  -- had the deadline `e.expires_at_tick` loses the new rule, set with no deadline, at the first
  -- tick at or after it.
  pub check-tick-set_stale :
      (e : Entry)
      → find_entry ip t ≡ some e
      → e.expires_at_tick ≢ 0
      → e.expires_at_tick ≤ later
      → check ip (tick later (set ip v t).0) ≡ no_rule
  unfolding find_entry set
  check-tick-set_stale e h timed past = ground (
    arith,
    h,
    find-update_self (matches ip) (matches ip) (λ x. record x { action = v }) t (λ a. refl)
        (λ a m. m),
    check-tick ip later (set ip v t).0 (record e { action = v }) (set-IsUnique ip v t u),
  )

-- After `guestlist_clear` the address has no rule, and every other address keeps its answer.
pub check-clear :
    (ip j : List ℕ) (t : List Entry)
    → IsUnique t
    → check j (clear ip t) ≡ (if bytes_eq ip j then no_rule else check j t)
unfolding check clear find_entry
check-clear ip j t u = elim (Bool-cases (bytes_eq ip j)) [
  | inl same ↦ ground (
    arith,
    bytes_eq→eq ip j same,
    u.single ip,
    find_none→count (matches ip) t,
    update_first-none (matches ip) (matches ip) gone t,
    count-update_loss (matches ip) (matches ip) gone t (λ a m. m) (λ a m. refl),
    count→find_none (matches ip) (update_first (matches ip) gone t),
  )
  | inr apart ↦ ground (
    arith,
    find-update_other (matches ip) (matches j) gone t (matches_apart ip j apart) (λ a m. refl),
  )
]
  where
    gone : Entry → Entry
    gone e = record e { in_use = false }
