-- ===== src/Networking/Inbox/Examples.antt =====
-- The inbox at small inputs.
use aevros.Base.{ℕ, ◌≡◌, List, [], ◌∷◌, arith}
use aevros.Networking.LockBox.{in_use_at}
use aevros.Networking.Inbox.Counts.{waiting}
use aevros.Networking.Inbox.Session.{Op, puts, gets, queue_run, run as session_run}
use aevros.Networking.Inbox.Tidy.{Call, claims, releases, deposits, reads, asks, zeroed, run}
use aevros.Networking.Inbox.Reached.{reached-refines}

abbrev peer : List ℕ
peer = 10 ∷ 0 ∷ 2 ∷ 2 ∷ []

-- A socket that is claimed, used, released and claimed again.
abbrev calls : List Call
calls =
    claims 7 peer 40000 6
    ∷ deposits 0 (1 ∷ 2 ∷ 3 ∷ [])
    ∷ reads 0 1
    ∷ releases 0
    ∷ claims 8 peer 40001 6
    ∷ asks 0 0
    ∷ []

abbrev session : List Op
session = puts (104 ∷ 105 ∷ []) ∷ gets 1 ∷ puts (106 ∷ []) ∷ gets 9 ∷ []

reached-refines_example :
    session_run 0 session (run zeroed calls).box (run zeroed calls).boxes
    ≡ queue_run
        (in_use_at 0 (run zeroed calls).box)
        (waiting 0 (run zeroed calls).box (run zeroed calls).boxes)
        session
reached-refines_example =
    reached-refines calls 0 session (omega arith) (omega arith) (omega arith) (omega arith)
