-- ===== src/Networking/Curfew/Examples.antt =====
-- Runs of the limit on bad frames.
use aevros.Base.{
  ℕ, ◌≡◌, refl, true, false, not, List, [], ◌∷◌, arith, replicate, length-replicate, bytes_eq,
}
use aevros.Networking.Curfew.{
  Ticks, zeroed, check, strike, find_or_create, scan, check_at, strike_at, punish, roll_window,
  next_free, next_oldest, target,
}
use aevros.Networking.Curfew.Fair.{Call, strikes, run, step}
use aevros.Networking.Curfew.Verdict.{is_over_limit, check-run}

abbrev host : List ℕ
host = 10 ∷ 0 ∷ 0 ∷ 7 ∷ []

abbrev at_tick : ℕ → Ticks
at_tick n = record { start = n; seen = n; now = n }

abbrev flood : List Call
flood = replicate 150 (strikes host (at_tick 40))

check-run_example :
    (check host (at_tick 90) (run zeroed flood)).0 ≡ not (is_over_limit host 90 (run zeroed flood))
check-run_example =
    check-run flood host (at_tick 90)
      (omega (arith, length-replicate 150 (strikes host (at_tick 40))))

flood_refused : (check host (at_tick 90) (run zeroed flood)).0 ≡ false
unfolding run step check strike find_or_create scan check_at strike_at punish roll_window next_free
    next_oldest target bytes_eq
flood_refused = refl

flood_over : (check host (at_tick 241) (run zeroed flood)).0 ≡ true
unfolding run step check strike find_or_create scan check_at strike_at punish roll_window next_free
    next_oldest target bytes_eq
flood_over = refl
