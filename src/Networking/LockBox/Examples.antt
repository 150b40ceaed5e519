-- ===== src/Networking/LockBox/Examples.antt =====
-- The lock box run on small inputs, and its theorems at them.
use aevros.Base.{
  ℕ, ◌<◌, ◌≡◌, refl, none, some, List, [], ◌∷◌, find, find_index, update_first, count_if, bytes_eq,
  add32, suc, ◌⊎◌,
}
use aevros.Networking.LockBox.{
  LockBox, ok, capacity, empty, claim, listen, buffered_at, get_generation, find_connection,
  deposit, active_count, get_tuple,
}
use aevros.Networking.LockBox.Answer.{Answer}
use aevros.Networking.LockBox.Claim.{claim-result, claim-ok}
use aevros.Networking.LockBox.Valid.{
  IsValid, Call, claims, listens, deposits, releases, run, step, run-IsValid,
}

abbrev peer : List ℕ
peer = 10 ∷ 0 ∷ 2 ∷ 2 ∷ []

abbrev calls : List Call
calls = listens 7 6 ∷ claims 7 peer 40000 6 ∷ deposits 1 100 ∷ []

box : LockBox
box = run empty calls

two_active : active_count box ≡ 2
unfolding box run step listen claim deposit active_count find find_index update_first count_if
    bytes_eq
two_active = refl

run-IsValid_example : IsValid (run empty (claims 7 peer 40000 6 ∷ releases 0 ∷ []))
run-IsValid_example = run-IsValid (claims 7 peer 40000 6 ∷ releases 0 ∷ [])

claim-result_example :
    Answer 7 peer 40000 6 box.table (claim 7 peer 40000 6 box).result
    × (((claim 7 peer 40000 6 box).result ≡ ok)
        ⊎ (((claim 7 peer 40000 6 box).out_id ≡ none)
            × ((claim 7 peer 40000 6 box).box
                ≡ record box { rejected_count = add32 box.rejected_count 1 })))
unfolding box
claim-result_example = claim-result 7 peer 40000 6 box (run-IsValid calls)

claim-ok_example :
    let d = claim 8 peer 40000 6 box in
    (i : ℕ) × (d.out_id ≡ some i)
    × (i < capacity)
    × (find_connection 8 peer 40000 6 d.box ≡ i)
    × (get_tuple i d.box ≡ some (8, peer, 40000))
    × (buffered_at i d.box ≡ 0)
    × (get_generation i d.box ≡ add32 (get_generation i box) 1)
    × (active_count d.box ≡ suc (active_count box))
unfolding box run step listen claim deposit find find_index update_first count_if bytes_eq
claim-ok_example = claim-ok 8 peer 40000 6 box (run-IsValid calls) refl
