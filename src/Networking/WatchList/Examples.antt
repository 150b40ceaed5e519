-- ===== src/Networking/WatchList/Examples.antt =====
-- Two senders, of which one strikes three times.
use aevros.Base.{ℕ, true, false, ◌+◌, ◌≡◌, refl, List, [], ◌∷◌, leb, arith, find, bytes_eq}
use aevros.Networking.WatchList.{zeroed, blank, strike, is_flagged, Ticks}
use aevros.Networking.WatchList.Flood.{Call, strikes, asks, drops, run, strikes_of, InWindow}
use aevros.Networking.WatchList.Limit.{is_flagged-run}

abbrev one : List ℕ
one = 2 ∷ (0 ∷ (0 ∷ (0 ∷ (0 ∷ (1 ∷ [])))))

abbrev two : List ℕ
two = 2 ∷ (0 ∷ (0 ∷ (0 ∷ (0 ∷ (2 ∷ [])))))

abbrev at : ℕ → Ticks
at n = record { start = n; now = n }

abbrev calls : List Call
calls =
    strikes two (at 900)
    ∷ (strikes one (at 20) ∷ (drops ∷ (asks one 100 ∷ (strikes one (at 210) ∷ []))))

is_flagged-run_example :
    (is_flagged one 210 (run (strike one (at 10) zeroed).1 calls)).0
    ≡ leb 4000 (1 + strikes_of one calls)
unfolding find bytes_eq InWindow strikes_of
is_flagged-run_example =
    is_flagged-run one (at 10) zeroed blank calls 210 refl refl (omega arith)
      (
        (λ (e : false ≡ true). absurd (ground (arith, e))),
        ((λ _. omega arith), (tt, ((λ _. omega arith), ((λ _. omega arith), tt)))),
      )
      (omega arith) (omega arith)
