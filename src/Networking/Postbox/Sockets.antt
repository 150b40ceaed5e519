-- ===== src/Networking/Postbox/Sockets.antt =====
-- The boxes of all sockets are queues, whatever the order of the calls.
use native.Mathlib.Decide.{dec_le}
use aevros.Base.{
  ℕ, zero, suc, ◌≡◌, refl, ap, ap₂, ◌∙◌, Bool, true, false, Option, none, List, [], ◌∷◌, map, arith,
  leb, if◌then◌else◌, get_or, update_at, All, All-replicate, replicate,
}
use aevros.Networking.Postbox.{Envelope, Box, zeroed, boxes, put, get, deposit, read, box_at}
use aevros.Networking.Postbox.Queue.{IsBox, waiting, push, pop, put-Agrees, get-Agrees}

pub data Call : Type 0 where
  deposits : ℕ → Envelope → Call
  reads : ℕ → ℕ → Call

-- What a call answers.
pub data Answer : Type 0 where
  taken : Bool → Answer
  given : Option Envelope → Answer

unfoldable pub answers : List Box → List Call → List Answer
answers s [] = []
answers s (deposits slot e ∷ cs) = taken (deposit slot e s).0 ∷ answers (deposit slot e s).1 cs
answers s (reads slot n ∷ cs) = given (read slot n s).0 ∷ answers (read slot n s).1 cs

-- The same over a queue for each of 64 sockets.
unfoldable pub queue_answers : List (List Envelope) → List Call → List Answer
queue_answers qs [] = []
queue_answers qs (deposits slot e ∷ cs) =
    if leb 64 slot
    then taken false ∷ queue_answers qs cs
    else taken (push e (get_or qs slot [])).0
      ∷ queue_answers (update_at slot (λ q. (push e q).1) qs) cs
queue_answers qs (reads slot n ∷ cs) =
    if leb 64 slot
    then given none ∷ queue_answers qs cs
    else given (pop n (get_or qs slot [])).0
      ∷ queue_answers (update_at slot (λ q. (pop n q).1) qs) cs

zeroed-IsBox : IsBox zeroed
zeroed-IsBox = record { sized = refl; start = omega arith; few = omega arith; end = refl }

box-IsBox : (slot : ℕ) (s : List Box) → All IsBox s → IsBox (box_at slot s)
box-IsBox slot [] a = zeroed-IsBox
box-IsBox zero (b ∷ s) (v, a) = v
box-IsBox (suc slot) (b ∷ s) (v, a) = box-IsBox slot s a

box-waiting : (slot : ℕ) (s : List Box) → waiting (box_at slot s) ≡ get_or (map waiting s) slot []
box-waiting slot [] = refl
box-waiting zero (b ∷ s) = refl
box-waiting (suc slot) (b ∷ s) = box-waiting slot s

-- A change of one box is the change of its queue.
module _ (f : Box → Box) (g : List Envelope → List Envelope) where
  update-IsBox :
      (i : ℕ) (s : List Box)
      → ((b : Box) → IsBox b → IsBox (f b))
      → All IsBox s
      → All IsBox (update_at i f s)
  update-IsBox zero [] h a = tt
  update-IsBox (suc i) [] h a = tt
  update-IsBox zero (b ∷ s) h (v, a) = (h b v, a)
  update-IsBox (suc i) (b ∷ s) h (v, a) = (v, update-IsBox i s h a)

  update-waiting :
      (i : ℕ) (s : List Box)
      → ((b : Box) → IsBox b → waiting (f b) ≡ g (waiting b))
      → All IsBox s
      → map waiting (update_at i f s) ≡ update_at i g (map waiting s)
  update-waiting zero [] h a = refl
  update-waiting (suc i) [] h a = refl
  update-waiting zero (b ∷ s) h (v, a) = ap (λ q. q ∷ map waiting s) (h b v)
  update-waiting (suc i) (b ∷ s) h (v, a) = ap (◌∷◌ (waiting b)) (update-waiting i s h a)

answers-queues :
    (cs : List Call) (s : List Box) → All IsBox s → answers s cs ≡ queue_answers (map waiting s) cs
unfolding answers queue_answers deposit read
answers-queues [] s a = refl
answers-queues (deposits slot e ∷ cs) s a = elim (dec_le 64 slot) [
  | yes out ↦
      let test : leb 64 slot ≡ true = ground (arith, out) in
      rw test (ap (◌∷◌ (taken false)) (answers-queues cs s a))
  | no inside ↦
      let test : leb 64 slot ≡ false = ground (arith, inside) in
      let f : Box → Box = λ b. (put e b).1 in
      let g : List Envelope → List Envelope = λ q. (push e q).1 in
      let one = put-Agrees e (box_at slot s) (box-IsBox slot s a) in
      rw test (
        ap₂ (λ t l. taken t ∷ l) (one.same ∙ ap (λ q. (push e q).0) (box-waiting slot s))
          (answers-queues cs (update_at slot f s)
              (update-IsBox f g slot s (λ b v. (put-Agrees e b v).valid) a)
            ∙ ap (λ qs. queue_answers qs cs)
                (update-waiting f g slot s (λ b v. (put-Agrees e b v).view) a)))
]
answers-queues (reads slot n ∷ cs) s a = elim (dec_le 64 slot) [
  | yes out ↦
      let test : leb 64 slot ≡ true = ground (arith, out) in
      rw test (ap (◌∷◌ (given none)) (answers-queues cs s a))
  | no inside ↦
      let test : leb 64 slot ≡ false = ground (arith, inside) in
      let f : Box → Box = λ b. (get n b).1 in
      let g : List Envelope → List Envelope = λ q. (pop n q).1 in
      let one = get-Agrees n (box_at slot s) (box-IsBox slot s a) in
      rw test (
        ap₂ (λ t l. given t ∷ l) (one.same ∙ ap (λ q. (pop n q).0) (box-waiting slot s))
          (answers-queues cs (update_at slot f s)
              (update-IsBox f g slot s (λ b v. (get-Agrees n b v).valid) a)
            ∙ ap (λ qs. queue_answers qs cs)
                (update-waiting f g slot s (λ b v. (get-Agrees n b v).view) a)))
]

-- From the zeroed state, no session of deposits and reads tells the boxes of the 64 sockets from 64
-- queues that take datagrams of 576 bytes or fewer while fewer than eight wait, and give the oldest
-- one, cut off at the room of the read. Calls on any other socket are refused.
pub answers-boxes : (cs : List Call) → answers boxes cs ≡ queue_answers (replicate 64 []) cs
answers-boxes cs = answers-queues cs boxes (All-replicate IsBox 64 zeroed zeroed-IsBox)
