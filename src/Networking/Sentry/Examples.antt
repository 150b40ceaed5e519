-- ===== src/Networking/Sentry/Examples.antt =====
-- Three ports in one second from one address.
use aevros.Base.{ℕ, List, [], ◌∷◌}
use aevros.Networking.Sentry.{zeroed, observe}
use aevros.Networking.Sentry.Silence.{Event, asks, IsQuiet, watch, watch-observe_silent}

abbrev scanner : List ℕ
scanner = 10 ∷ 0 ∷ 0 ∷ 9 ∷ []

abbrev packets : List Event
packets = asks scanner 21 500 500 ∷ asks scanner 22 510 510 ∷ []

watch-observe_silent_example :
    IsQuiet (watch zeroed packets) (observe scanner 23 520 520 (watch zeroed packets))
watch-observe_silent_example = watch-observe_silent packets scanner 23 520 520
