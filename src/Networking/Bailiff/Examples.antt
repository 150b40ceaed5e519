-- ===== src/Networking/Bailiff/Examples.antt =====
-- Runs of the passes.
use aevros.Base.{ℕ, ◌≡◌, refl, ◌⊎◌, true, false, List, [], ◌∷◌, add32, find, update_first}
use aevros.Networking.Bailiff.{
  initial, State, request_pass, present_pass, grant, honor, present_found, mix,
}
use aevros.Networking.Bailiff.Passes.{Authorises, HasPass, present_pass-Authorises}

abbrev frame : List ℕ
frame = 255 ∷ 1 ∷ 8 ∷ []

abbrev issued : State
issued = (request_pass 40 41 frame initial).1

present_pass-Authorises_example :
    ((present_pass 60 1 frame true issued).0 ≡ true)
      × HasPass (Authorises 60 1 frame) issued.passes
      × ((present_pass 60 1 frame true issued).1.transmitted_total
          ≡ add32 issued.transmitted_total 1)
      × ((present_pass 60 1 frame true issued).1.denied_total ≡ issued.denied_total)
    ⊎ ((present_pass 60 1 frame true issued).0 ≡ false)
      × ((present_pass 60 1 frame true issued).1.transmitted_total ≡ issued.transmitted_total)
      × ((present_pass 60 1 frame true issued).1.denied_total ≡ add32 issued.denied_total 1)
present_pass-Authorises_example = present_pass-Authorises 60 1 frame true issued

-- Sent once, refused the second time, for other bytes and after 500 ticks.
sent :
    ((present_pass 60 1 frame true issued).0 ≡ true)
    × ((present_pass 61 1 frame true (present_pass 60 1 frame true issued).1).0 ≡ false)
    × ((present_pass 60 1 (255 ∷ 1 ∷ 9 ∷ []) true issued).0 ≡ false)
    × ((present_pass 542 1 frame true issued).0 ≡ false)
unfolding request_pass present_pass grant honor present_found find update_first mix
sent = (refl, refl, refl, refl)
