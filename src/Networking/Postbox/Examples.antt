-- ===== src/Networking/Postbox/Examples.antt =====
-- A session with two boxes.
use aevros.Base.{ℕ, ◌≡◌, refl, true, none, some, List, [], ◌∷◌, replicate}
use aevros.Networking.Postbox.{Envelope, boxes, put, get, deposit, read}
use aevros.Networking.Postbox.Sockets.{
  Call, deposits, reads, taken, given, answers, queue_answers, answers-boxes,
}

abbrev letter : ℕ → Envelope
letter n = record { src_ip = 10 ∷ 0 ∷ 0 ∷ n ∷ []; src_port = 53; bytes = 1 ∷ 2 ∷ n ∷ [] }

abbrev session : List Call
session =
    deposits 3 (letter 7)
    ∷ deposits 5 (letter 8)
    ∷ reads 3 576
    ∷ reads 5 2
    ∷ reads 3 576
    ∷ reads 64 9
    ∷ []

answers-boxes_example : answers boxes session ≡ queue_answers (replicate 64 []) session
answers-boxes_example = answers-boxes session

in_order :
    answers boxes session
    ≡ taken true
      ∷ taken true
      ∷ given (some (letter 7))
      ∷ given (some (record (letter 8) { bytes = 1 ∷ 2 ∷ [] }))
      ∷ given none
      ∷ given none
      ∷ []
unfolding answers put get deposit read
in_order = refl
