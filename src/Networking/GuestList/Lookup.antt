-- ===== src/Networking/GuestList/Lookup.antt =====
-- What `guestlist_check` answers after `guestlist_set`.
use aevros.Base.{
  ℕ, ◌≡◌, refl, inl, inr, true, false, ◌&&◌, ◌||◌, List, arith, if◌then◌else◌, is_some,
  Option-cases, bytes_eq, bytes_eq→eq, bytes_eq_refl, find, length, ltb, find-not-count,
  find-update_self, find-update_new, find-update_other,
}
use aevros.Networking.GuestList.{
  Verdict, Entry, capacity, count, matches, is_free, find_entry, set, check,
}

-- Two addresses that match one entry are one address.
pub matches_of_eq :
    (ip j : List ℕ) → bytes_eq ip j ≡ true → (e : Entry) → matches j e ≡ matches ip e
matches_of_eq ip j h e = rw (bytes_eq→eq ip j h)

pub matches_apart :
    (ip j : List ℕ)
    → bytes_eq ip j ≡ false
    → (e : Entry) → matches ip e ≡ true
    → matches j e ≡ false
matches_apart ip j h e m = ground (arith, bytes_eq→eq e.ip ip)

pub free_apart : (j : List ℕ) (e : Entry) → is_free e ≡ true → matches j e ≡ false
free_apart j e h = ground arith

module _ (ip : List ℕ) (v : Verdict) (entries : List Entry) where
  -- The written slot answers with the new verdict.
  verdict-set_self : (set ip v entries).1 ≡ true → check ip (set ip v entries).0 ≡ v
  unfolding set check find_entry
  verdict-set_self h = elim (Option-cases (find (matches ip) entries)) [
    | inr (e, hit) ↦ ground (
      arith,
      hit,
      find-update_self (matches ip) (matches ip) (λ x. record x { action = v }) entries (λ a. refl)
          (λ a m. m),
    )
    | inl miss ↦ ground (
      arith,
      miss,
      bytes_eq_refl ip,
      find-update_new is_free (matches ip) (λ x. record x { ip = ip; action = v; in_use = true })
          entries (λ a m. bytes_eq_refl ip) miss,
    )
  ]

  -- Every other address keeps its answer.
  verdict-set_other :
      (j : List ℕ) → bytes_eq ip j ≡ false → check j (set ip v entries).0 ≡ check j entries
  unfolding set check find_entry
  verdict-set_other j ne = ground (
    arith,
    find-update_other (matches ip) (matches j) (λ x. record x { action = v }) entries
        (matches_apart ip j ne) (matches_apart ip j ne),
    find-update_other is_free (matches j) (λ x. record x { ip = ip; action = v; in_use = true })
        entries (free_apart j) (λ a m. ne),
  )

  set-full : (set ip v entries).1 ≡ false → (set ip v entries).0 ≡ entries
  unfolding set
  set-full h = ground arith

  set-done :
      (set ip v entries).1
      ≡ (is_some (find_entry ip entries) || ltb (count entries) (length entries))
  unfolding set count
  set-done = ground (arith, find-not-count (λ (e : Entry). e.in_use) entries)

-- `guestlist_set` succeeds exactly when the address has a rule or a slot is unused. Then the
-- address answers with the new verdict; no other address changes its answer, and a refused call
-- changes none.
pub check-set :
    (ip j : List ℕ) (v : Verdict) (entries : List Entry)
    → length entries ≡ capacity
    → ((set ip v entries).1 ≡ (is_some (find_entry ip entries) || ltb (count entries) capacity))
      × (check j (set ip v entries).0
          ≡ (if (set ip v entries).1 && bytes_eq ip j then v else check j entries))
check-set ip j v entries full = (
  rw (← full) (set-done ip v entries),
  ground (
    arith,
    verdict-set_self ip v entries,
    verdict-set_other ip v entries j,
    set-full ip v entries,
    bytes_eq→eq ip j,
  ),
)
