-- ===== src/Networking/GuestList/Examples.antt =====
-- The guest list run on small inputs, and its theorems at them.
use aevros.Base.{ℕ, ◌≡◌, refl, true, List, [], ◌∷◌, arith, bytes_eq, find, update_first, count_if}
use aevros.Networking.GuestList.{
  no_rule, allowed, denied, Entry, empty, set, set_timed, tick, check, count, find_entry,
}
use aevros.Networking.GuestList.Lookup.{check-set}
use aevros.Networking.GuestList.Unique.{
  IsUnique, Call, sets, sets_timed, clears, ticks, run, step, run-IsUnique,
}
use aevros.Networking.GuestList.Expiry.{check-tick-set_stale}

abbrev router : List ℕ
router = 10 ∷ 0 ∷ 2 ∷ 2 ∷ []

abbrev stranger : List ℕ
stranger = 192 ∷ 168 ∷ 0 ∷ 9 ∷ []

abbrev calls : List Call
calls = sets router allowed ∷ sets_timed 100 stranger denied 50 ∷ []

rules : List Entry
rules = run empty calls

rules-IsUnique : IsUnique rules
unfolding rules
rules-IsUnique = run-IsUnique calls

two_rules : count rules ≡ 2
unfolding rules run step set set_timed count count_if find update_first bytes_eq
two_rules = refl

check-set_example : check stranger (set router denied empty).0 ≡ no_rule
unfolding set check find update_first bytes_eq
check-set_example = (check-set router stranger denied empty refl).1

run-IsUnique_example : IsUnique (run empty (sets router allowed ∷ ticks 7 ∷ clears router ∷ []))
run-IsUnique_example = run-IsUnique (sets router allowed ∷ ticks 7 ∷ clears router ∷ [])

abbrev banned : Entry
banned = record { ip = stranger; action = denied; expires_at_tick = 150; in_use = true }

check-tick-set_stale_example : check stranger (tick 150 (set stranger allowed rules).0) ≡ no_rule
unfolding rules run step set_timed set find_entry find update_first bytes_eq
check-tick-set_stale_example =
    check-tick-set_stale stranger allowed rules rules-IsUnique 150 banned refl (omega arith)
      (omega arith)
