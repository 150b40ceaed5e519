-- ===== src/Networking/Bouncer/Examples.antt =====
-- Frames at the door.
use aevros.Base.{ℕ, ◌+◌, ◌≡◌, refl, none, some, List, [], ◌∷◌, ◌++◌, arith, replicate, min}
use aevros.Networking.Bouncer.{
  Note, accept, bad_dest, too_short, State, zeroed, check, first_equal, first_full, log, log_get,
  log_count, entry_of,
}
use aevros.Networking.Bouncer.Log.{IsLog, oldest, log_get-log}

abbrev ours : List ℕ
ours = 82 ∷ 84 ∷ 0 ∷ 18 ∷ 52 ∷ 86 ∷ []

verdicts :
    (check (ours ++ replicate 8 0) ours ≡ accept)
    × (check (replicate 6 255 ++ replicate 8 0) ours ≡ accept)
    × (check (82 ∷ replicate 13 0) ours ≡ bad_dest)
    × (check ours ours ≡ too_short)
unfolding check first_equal first_full
verdicts = (refl, refl, refl, refl)

abbrev note : ℕ → Note
note n = record {
  tick = n;
  verdict = bad_dest;
  frame_len = 60;
  dest_mac = some ours;
  src_mac = none;
}

abbrev once : State
once = log (note 5) zeroed

log_get-log_example :
    (log_get 0 (log (note 6) once) ≡ some (entry_of (note 6) (oldest once)))
    × (log_get 1 (log (note 6) once) ≡ log_get 0 once)
    × (log_count (log (note 6) once) ≡ min 64 (log_count once + 1))
    × IsLog (log (note 6) once)
unfolding log
log_get-log_example =
    log_get-log (note 6) once 0 (record { sized = refl; inside = omega arith }) (omega arith)
      (omega arith)
