-- ===== src/Networking/Foyer/Examples.antt =====
-- A frame that waits for an address that no one has.
use aevros.Networking.Rolodex
use aevros.Base.{ℕ, refl, inl, inr, true, List, [], ◌∷◌, arith, replicate, All}
use aevros.Networking.Foyer.{State, zeroed, blank, held}
use aevros.Networking.Foyer.Drain.{Round, run, Spaced, Empty, run-Empty}

abbrev mac : List ℕ
mac = 2 ∷ (0 ∷ (0 ∷ (0 ∷ (0 ∷ (9 ∷ [])))))

abbrev round : ℕ → Round
round n = record {
  moments = λ _. record { asked = n; issued = n; shown = n; sent = true };
  our_mac = mac;
  now = n;
  book = Rolodex.zeroed;
}

abbrev waiting : State
waiting = record zeroed { slots = held (replicate 4 7) (1 ∷ (2 ∷ [])) 50 true ∷ (blank ∷ []) }

run-Empty_example :
    All Empty
      (run waiting (
        round 150 ∷ (round 250 ∷ (round 360 ∷ (round 460 ∷ (round 560 ∷ (round 700 ∷ []))))))).slots
unfolding Spaced
run-Empty_example =
    run-Empty (round 150) (round 250 ∷ (round 360 ∷ (round 460 ∷ (round 560 ∷ (round 700 ∷ [])))))
      waiting (inr (omega arith), (inl refl, tt))
      (omega arith, (omega arith, (omega arith, (omega arith, (omega arith, tt))))) (omega arith)
