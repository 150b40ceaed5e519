-- ===== src/Networking/Rolodex/Examples.antt =====
-- Runs of the ARP cache.
use aevros.Base.{
  ℕ, ◌≡◌, refl, true, not, ◌&&◌, ◌||◌, some, List, [], ◌∷◌, ◌++◌, if◌then◌else◌, is_some, bytes_eq,
  find, update_first, replicate,
}
use aevros.Networking.Rolodex.{
  State, zeroed, learn, learn_or_dispute, lookup, is_disputed, is_free, find_entry, handle, set_ip,
  note_request, build_reply,
}
use aevros.Networking.Rolodex.Learn.{expired, differs, lookup-learn}

abbrev host : List ℕ
host = 10 ∷ 0 ∷ 2 ∷ 2 ∷ []

abbrev mac : ℕ → List ℕ
mac n = 82 ∷ 85 ∷ 10 ∷ 0 ∷ 2 ∷ n ∷ []

abbrev learned : State
learned = learn host (mac 2) 10 11 zeroed

lookup-learn_example :
    (lookup host (learn host (mac 9) 20 21 learned) ≡ (
      if bytes_eq host host
        && not (is_some (lookup host (expired 20 learned)))
        && is_some (find is_free (expired 20 learned).book)
      then some (mac 9)
      else lookup host (expired 20 learned)))
    × (is_disputed host (learn host (mac 9) 20 21 learned) ≡ (
        is_disputed host (expired 20 learned)
        || bytes_eq host host && differs (mac 9) (lookup host (expired 20 learned))))
lookup-learn_example = lookup-learn host (mac 9) host 20 21 learned

-- The second claim is disputed, the first stays; after 6000 quiet ticks the book forgets it.
disputed :
    (lookup host (learn host (mac 9) 20 21 learned) ≡ some (mac 2))
    × (is_disputed host (learn host (mac 9) 20 21 learned) ≡ true)
    × (lookup host (learn host (mac 9) 6012 6012 learned) ≡ some (mac 9))
unfolding lookup is_disputed find_entry learn_or_dispute find update_first bytes_eq
disputed = (refl, refl, refl)

-- A request for 10.0.2.15 from the host.
abbrev who_has : List ℕ
who_has = 0 ∷ 1 ∷ 8 ∷ 0 ∷ 6 ∷ 4 ∷ 0 ∷ 1 ∷ mac 2 ++ host ++ replicate 6 0 ++ (10 ∷ 0 ∷ 2 ∷ 15 ∷ [])

answered :
    (build_reply (mac 15) (handle who_has (mac 2) 10 11 (set_ip (10 ∷ 0 ∷ 2 ∷ 15 ∷ []) zeroed))).0
    ≡ some (0 ∷ 1 ∷ 8 ∷ 0 ∷ 6 ∷ 4 ∷ 0 ∷ 2 ∷ mac 15 ++ (10 ∷ 0 ∷ 2 ∷ 15 ∷ mac 2) ++ host)
unfolding build_reply handle note_request learn_or_dispute find_entry set_ip find update_first
    bytes_eq
answered = refl
