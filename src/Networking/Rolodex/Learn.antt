-- ===== src/Networking/Rolodex/Learn.antt =====
-- What the book says after an address was learned.
use aevros.Base.{
  ℕ, ◌≡◌, refl, inl, inr, Bool, true, false, not, ◌&&◌, ◌||◌, Option, none, some, List, arith,
  if◌then◌else◌, is_some, Option-cases, Bool-cases, bytes_eq, bytes_eq→eq, bytes_eq_refl, find,
  find-update_self, find-update_new, find-update_other,
}
use aevros.Networking.Rolodex.{
  State, Entry, matches, is_free, find_entry, expire_stale_entries, dispute, refresh, fill,
  learn_or_dispute, learn, is_disputed, lookup,
}

matches_apart :
    (ip j : List ℕ)
    → bytes_eq ip j ≡ false
    → (e : Entry) → matches ip e ≡ true
    → matches j e ≡ false
matches_apart ip j h e m = ground (arith, bytes_eq→eq e.ip ip)

free_apart : (j : List ℕ) (e : Entry) → is_free e ≡ true → matches j e ≡ false
free_apart j e h = ground arith

-- The state after the expiry.
abbrev pub expired : ℕ → State → State
expired now s = record s { book = expire_stale_entries now s.book }

-- The MAC address that is known is another one.
abbrev pub differs : List ℕ → Option (List ℕ) → Bool
differs mac none = false
differs mac (some m) = not (bytes_eq m mac)

module _ (ip mac : List ℕ) (now seen : ℕ) (s : State) where
  abbrev book : List Entry
  book = expire_stale_entries now s.book

  find-known :
      (e : Entry)
      → find (matches ip) book ≡ some e
      → find (matches ip) (learn ip mac now seen s).book
        ≡ some (if bytes_eq e.mac mac then refresh seen e else dispute e)
  unfolding learn_or_dispute find_entry
  find-known e h = ground (
    arith,
    h,
    find-update_self (matches ip) (matches ip) dispute book (λ a. refl) (λ a m. m),
    find-update_self (matches ip) (matches ip) (refresh seen) book (λ a. refl) (λ a m. m),
  )

  find-new :
      find (matches ip) book ≡ none
      → find (matches ip) (learn ip mac now seen s).book
        ≡ elim (find is_free book) [ none ↦ none | some e ↦ some (fill ip mac seen e) ]
  unfolding learn_or_dispute find_entry
  find-new h = ground (
    arith,
    h,
    find-update_new is_free (matches ip) (fill ip mac seen) book (λ a m. bytes_eq_refl ip) h,
  )

  find-other :
      (j : List ℕ)
      → bytes_eq ip j ≡ false
      → find (matches j) (learn ip mac now seen s).book ≡ find (matches j) book
  unfolding learn_or_dispute find_entry
  find-other j ne = ground (
    arith,
    find-update_other (matches ip) (matches j) dispute book (matches_apart ip j ne)
        (matches_apart ip j ne),
    find-update_other (matches ip) (matches j) (refresh seen) book (matches_apart ip j ne)
        (matches_apart ip j ne),
    find-update_other is_free (matches j) (fill ip mac seen) book (free_apart j) (λ a m. ne),
  )

-- What `rolodex_lookup` and `rolodex_disputed` say of `j` after `ip` was heard from at `mac`, in
-- terms of the book after the expiry. A known address keeps its first MAC address, and is disputed
-- once another one claims it; a new one is learned where a slot is free; no other changes.
pub lookup-learn :
    (ip mac j : List ℕ) (now seen : ℕ) (s : State)
    → (lookup j (learn ip mac now seen s) ≡ (
        if bytes_eq ip j
          && not (is_some (lookup ip (expired now s)))
          && is_some (find is_free (expired now s).book)
        then some mac
        else lookup j (expired now s)))
      × (is_disputed j (learn ip mac now seen s) ≡ (
          is_disputed j (expired now s)
          || bytes_eq ip j && differs mac (lookup ip (expired now s))))
unfolding lookup is_disputed find_entry
lookup-learn ip mac j now seen s = elim (Bool-cases (bytes_eq ip j)) [
  | inr ne ↦ (
    ground (arith, ne, find-other ip mac now seen s j ne),
    ground (arith, ne, find-other ip mac now seen s j ne),
  )
  | inl same ↦ elim (Option-cases (find (matches ip) (expired now s).book)) [
    | inl new ↦ (
      ground (arith, same, bytes_eq→eq ip j same, new, find-new ip mac now seen s new),
      ground (arith, same, bytes_eq→eq ip j same, new, find-new ip mac now seen s new),
    )
    | inr (e, known) ↦ (
      ground (arith, same, bytes_eq→eq ip j same, known, find-known ip mac now seen s e known),
      ground (arith, same, bytes_eq→eq ip j same, known, find-known ip mac now seen s e known),
    )
  ]
]
