-- ===== src/Networking/Why/Examples.antt =====
-- Runs of the reasons.
use aevros.Base.{◌<◌, ◌≤◌, ◌≡◌, refl}
use aevros.Networking.Why.{State, init, note, count, top_reason, top_from}
use aevros.Networking.Why.Top.{top_reason-greatest}

abbrev noted : State
noted = (note 30 7 4 (note 20 7 5 (note 10 7 5 init).1).1).1

top_reason-greatest_example :
    (count 7 4 noted ≤ count 7 (top_reason 7 noted) noted) × (top_reason 7 noted < 7)
top_reason-greatest_example = top_reason-greatest 7 4 noted

mostly : (top_reason 7 noted ≡ 5) × (count 7 5 noted ≡ 2) × (top_reason 8 noted ≡ 0)
unfolding note count top_reason top_from
mostly = (refl, refl, refl)
