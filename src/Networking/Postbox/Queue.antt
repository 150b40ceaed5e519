-- ===== src/Networking/Postbox/Queue.antt =====
-- A box is a queue of at most eight datagrams.
use native.Mathlib.Decide.{dec_le, dec_lt}
use aevros.Base.{
  ℕ, suc, ◌+◌, ◌-◌, ◌%◌, ◌<◌, ◌≤◌, ◌≡◌, refl, ap, ◌∙◌, ◌⊎◌, inl, inr, Bool, true, false, ◌&&◌,
  Option, none, some, List, [], ◌∷◌, ◌++◌, arith, ltb, leb, if◌then◌else◌, length, get_or, set,
  take, length-set, window, window-set_end, length-window,
}
use aevros.Networking.Postbox.{Envelope, Box, blank, put, get}

abbrev pub waiting : Box → List Envelope
waiting b = window 8 blank b.queue b.head b.pending

pub record IsBox (b : Box) : Type 0 where
  pub sized : length b.queue ≡ 8
  pub start : b.head < 8
  pub few : b.pending ≤ 8
  pub end : b.tail ≡ (b.head + b.pending) % 8

-- The queue: it takes a datagram of 576 bytes or fewer while fewer than eight wait.
unfoldable pub push : Envelope → List Envelope → Bool × List Envelope
push e q =
    if leb (length e.bytes) 576 && ltb (length q) 8 then (true, q ++ (e ∷ [])) else (false, q)

-- It gives the first one, its bytes cut off at `max_len`.
unfoldable pub pop : ℕ → List Envelope → Option Envelope × List Envelope
pop max_len [] = (none, [])
pop max_len (e ∷ q) = (some (record e { bytes = take max_len e.bytes }), q)

length-waiting : (b : Box) → length (waiting b) ≡ b.pending
length-waiting b = length-window 8 blank b.queue b.head b.pending

-- A call on the box is the call on the queue.
pub record Agrees {A : Type 0} (box : A × Box) (queue : A × List Envelope) : Type 0 where
  pub valid : IsBox box.1
  pub same : box.0 ≡ queue.0
  pub view : waiting box.1 ≡ queue.1

put-refused :
    (e : Envelope) (b : Box) → (576 < length e.bytes) ⊎ (8 ≤ b.pending) → put e b ≡ (false, b)
unfolding put
put-refused e b h = ground (arith, h)

push-refused :
    (e : Envelope) (q : List Envelope)
    → (576 < length e.bytes) ⊎ (8 ≤ length q)
    → push e q ≡ (false, q)
unfolding push
push-refused e q h = ground (arith, h)

put-taken :
    (e : Envelope) (b : Box)
    → length e.bytes ≤ 576
    → b.pending < 8
    → put e b ≡ (
      true,
      record {
        queue = set b.queue b.tail e;
        head = b.head;
        tail = (b.tail + 1) % 8;
        pending = b.pending + 1;
      },
    )
unfolding put
put-taken e b h lt = ground (arith, h, lt)

push-taken :
    (e : Envelope) (q : List Envelope)
    → length e.bytes ≤ 576
    → length q < 8
    → push e q ≡ (true, q ++ (e ∷ []))
unfolding push
push-taken e q h lt = ground (arith, h, lt)

refused-Agrees :
    (e : Envelope) (b : Box)
    → IsBox b
    → (576 < length e.bytes) ⊎ (8 ≤ b.pending)
    → Agrees (put e b) (push e (waiting b))
refused-Agrees e b v h =
    let h' : (576 < length e.bytes) ⊎ (8 ≤ length (waiting b)) = rw (length-waiting b) h in
    rw (put-refused e b h, push-refused e (waiting b) h')
      (record { valid = v; same = refl; view = refl })

pub put-Agrees : (e : Envelope) (b : Box) → IsBox b → Agrees (put e b) (push e (waiting b))
put-Agrees e b v = elim (dec_le (length e.bytes) 576) [
  | no long ↦ refused-Agrees e b v (inl (omega arith))
  | yes short ↦ elim (dec_lt b.pending 8) [
    | no full ↦ refused-Agrees e b v (inr (omega arith))
    | yes room ↦
        let more : b.pending + 1 ≡ suc b.pending = omega arith in
        rw
          (
            put-taken e b short room,
            push-taken e (waiting b) short (omega (arith, length-waiting b, room)),
            more,
          )
          (record {
            valid = record {
              sized = length-set b.queue b.tail e ∙ v.sized;
              start = v.start;
              few = omega arith;
              end = omega (arith, v.end);
            };
            same = refl;
            view =
                window-set_end 8 blank b.queue e b.pending b.head b.tail (omega (arith, v.sized))
                  v.start room v.end;
          })
  ]
]

get-empty : (n : ℕ) (b : Box) → b.pending ≡ 0 → get n b ≡ (none, b)
unfolding get
get-empty n b h = ground (arith, h)

get-given :
    (n : ℕ) (b : Box)
    → 0 < b.pending
    → get n b ≡ (
      some (record (get_or b.queue b.head blank) {
        bytes = take n (get_or b.queue b.head blank).bytes;
      }),
      record b { head = (b.head + 1) % 8; pending = b.pending - 1 },
    )
unfolding get
get-given n b h = ground (arith, h)

waiting-none : (b : Box) → b.pending ≡ 0 → waiting b ≡ []
waiting-none b e = rw e refl

waiting-next :
    (b : Box)
    → 0 < b.pending
    → waiting b
      ≡ get_or b.queue b.head blank ∷ window 8 blank b.queue ((b.head + 1) % 8) (b.pending - 1)
waiting-next b h =
    let more : b.pending ≡ suc (b.pending - 1) = omega (arith, h) in
    ap (window 8 blank b.queue b.head) more

pub get-Agrees : (n : ℕ) (b : Box) → IsBox b → Agrees (get n b) (pop n (waiting b))
unfolding pop
get-Agrees n b v = elim (dec_lt 0 b.pending) [
  | no empty ↦
      let none_left : b.pending ≡ 0 = omega arith in
      rw (get-empty n b none_left, waiting-none b none_left)
        (record { valid = v; same = refl; view = waiting-none b none_left })
  | yes some_left ↦
      rw (get-given n b some_left, waiting-next b some_left)
        (record {
          valid = record {
            sized = v.sized;
            start = omega arith;
            few = omega (arith, v.few);
            end = omega (arith, v.end, some_left);
          };
          same = refl;
          view = refl;
        })
]
