-- ===== src/Networking/Scheduler/Examples.antt =====
-- A segment that is never acknowledged.
use aevros.Base.{ℕ, true, List, [], ◌∷◌}
use aevros.Networking.Scheduler.{Outside, zeroed}
use aevros.Networking.Scheduler.Rto.{AllConn, Call, tracks, acks, cancels, ticks, run, run-AllConn}

abbrev quiet : ℕ → Outside
quiet now = record { reclaim = now; issued = now; present = now; noted = now; sent = true }

abbrev calls : List Call
calls =
    tracks 10 3 500 1 (1 ∷ 2 ∷ [])
    ∷ ticks (λ _. quiet 110) 110
    ∷ acks (quiet 120) 120 3 501
    ∷ tracks 130 3 501 1 (1 ∷ 3 ∷ [])
    ∷ cancels 3
    ∷ []

run-AllConn_example : AllConn (run zeroed calls)
run-AllConn_example = run-AllConn calls
