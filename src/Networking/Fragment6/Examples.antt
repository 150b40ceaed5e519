-- ===== src/Networking/Fragment6/Examples.antt =====
-- A packet of ten bytes in two fragments.
use aevros.Base.{
  ℕ, ◌≡◌, ◌⊎◌, refl, inl, inr, true, false, none, some, List, [], ◌∷◌, ◌++◌, arith, replicate,
}
use aevros.Networking.Fragment6.{Key, State, zeroed, receive, accept, parse}
use aevros.Networking.Fragment6.Good.{IsPart}
use aevros.Networking.Fragment6.Packet.{Event, arrives, ticks, run, run-receive_whole}
use aevros.Networking.Fragment6.Two.{accept-two}

abbrev here : List ℕ
here = replicate 16 1

abbrev there : List ℕ
there = replicate 16 2

abbrev key : Key
key = record { src_ip = here; dst_ip = there; id = 9 }

abbrev body : List ℕ
body = 1 ∷ 2 ∷ 3 ∷ 4 ∷ 5 ∷ 6 ∷ 7 ∷ 8 ∷ []

abbrev rest : List ℕ
rest = 9 ∷ 10 ∷ []

-- The headers: the next header 17, the offset with the flag for more, and the number 9.
abbrev front : List ℕ
front = 17 ∷ 0 ∷ 0 ∷ 1 ∷ 0 ∷ 0 ∷ 0 ∷ 9 ∷ body

abbrev back : List ℕ
back = 17 ∷ 0 ∷ 0 ∷ 8 ∷ 0 ∷ 0 ∷ 0 ∷ 9 ∷ rest

front-IsPart : IsPart (body ++ rest) 17 (parse front)
front-IsPart = record { head = refl; fits = omega arith; slice = refl; last = inl refl }

back-IsPart : IsPart (body ++ rest) 17 (parse back)
back-IsPart = record { head = refl; fits = omega arith; slice = refl; last = inr refl }

abbrev events : List Event
events = arrives here there front 100 ∷ ticks 150 ∷ []

run-receive_whole_example :
    ((receive here there back 160 (run zeroed events)).0 ≡ none)
    ⊎ ((receive here there back 160 (run zeroed events)).0 ≡ some (17, body ++ rest))
run-receive_whole_example =
    run-receive_whole key (body ++ rest) 17 events back 160 (omega arith)
      (inr front-IsPart, (tt, tt)) refl back-IsPart

accept-two_example :
    (first : State) × (accept key
        (record { next_header = 17; offset_units = 0; more = true; bytes = body })
        100
        zeroed
      ≡ (none, first))
    × ((accept key
          (record { next_header = 17; offset_units = 1; more = false; bytes = rest })
          100
          first).0
        ≡ some (17, body ++ rest))
accept-two_example = accept-two key 17 1 100 body rest refl (omega arith)
