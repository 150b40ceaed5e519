-- ===== src/Networking/Inbox/Reached.antt =====
-- After any calls, a socket is a byte queue.
use aevros.Base.{
  ℕ, zero, suc, ◌+◌, ◌^◌, ◌<◌, ◌≡◌, refl, sym, subst, List, [], ◌∷◌, arith, length,
  length-replicate, get_or, replicate, All,
}
use aevros.Networking.LockBox
use aevros.Networking.LockBox.{
  LockBox, Entry, capacity, max_per_ip, max_buffered, is_free, claim, take_slot, get_generation,
  buffered_at, in_use_at, find_connection, count_for_ip,
}
use aevros.Networking.Inbox.{slot_at, blank, reset_if_stale}
use aevros.Networking.Inbox.Counts.{waiting}
use aevros.Networking.Inbox.Session.{Op, IsShort, queue_run, run-refines, run as session_run}
use aevros.Networking.Inbox.Tidy.{
  Call, claims, listens, releases, deposits, reads, asks, State, zeroed, step, run, IsShortCall,
  Tidy, IsTidy, Tidy-Agrees,
}
use aevros.Networking.Inbox.Kept.{deposit-IsTidy, read-IsTidy, asks-IsTidy, release-IsTidy}
use aevros.Networking.Inbox.Claimed.{claim-IsTidy}

step-IsTidy :
    (k : ℕ) (s : State) (c : Call)
    → suc k < 2 ^ 32
    → IsShortCall c
    → IsTidy k s
    → IsTidy (suc k) (step s c)
unfolding step LockBox.listen
step-IsTidy k s (claims lp ip rp pr) small short t = claim-IsTidy k lp ip rp pr s small t
step-IsTidy k s (listens lp pr) small short t =
    claim-IsTidy k lp (0 ∷ 0 ∷ 0 ∷ 0 ∷ []) 0 pr s small t
step-IsTidy k s (releases i) small short t = release-IsTidy k i s t
step-IsTidy k s (deposits i payload) small short t = deposit-IsTidy k i payload s short t
step-IsTidy k s (reads i n) small short t = read-IsTidy k i n s t
step-IsTidy k s (asks i n) small short t = asks-IsTidy k i n s t

run-IsTidy :
    (k : ℕ) (s : State) (cs : List Call)
    → k + length cs < 2 ^ 32
    → All IsShortCall cs
    → IsTidy k s
    → IsTidy (k + length cs) (run s cs)
unfolding run
run-IsTidy k s [] small short t = subst (λ n. IsTidy n s) (omega arith) t
run-IsTidy k s (c ∷ cs) small (one, rest) t =
    let next = step-IsTidy k s c (omega (arith, small)) one t in
    subst (λ n. IsTidy n (run (step s c) cs)) (omega arith)
      (run-IsTidy (suc k) (step s c) cs (omega (arith, small)) rest next)

get_or-replicate_same : {A : Type 0} (i n : ℕ) (x : A) → get_or (replicate n x) i x ≡ x
get_or-replicate_same zero zero x = refl
get_or-replicate_same (suc i) zero x = refl
get_or-replicate_same zero (suc n) x = refl
get_or-replicate_same (suc i) (suc n) x = get_or-replicate_same i n x

blank-Tidy : Tidy 0 0 0 blank
unfolding reset_if_stale
blank-Tidy = record {
  ring = record {
    room = omega (arith, length-replicate {A = ℕ} max_buffered 0);
    read_in = omega arith;
    full = omega arith;
    tail = refl;
  };
  counted = refl;
  seen = omega arith;
  young = omega arith;
}

no_bytes :
    (i n : ℕ) → buffered_at i (record LockBox.empty { table = replicate n LockBox.blank }) ≡ 0
no_bytes zero zero = refl
no_bytes (suc i) zero = refl
no_bytes zero (suc n) = refl
no_bytes (suc i) (suc n) = no_bytes i n

no_generation : (i : ℕ) → get_generation i LockBox.empty ≡ 0
unfolding get_generation
no_generation i = ground (arith, get_or-replicate_same {A = ℕ} i capacity 0)

zeroed-IsTidy : IsTidy 0 zeroed
unfolding zeroed
zeroed-IsTidy = record {
  sized = record {
    table = length-replicate capacity LockBox.blank;
    gens = length-replicate {A = ℕ} capacity 0;
    slots = length-replicate capacity blank;
  };
  each = λ id low.
      subst
        (λ b. Tidy 0 b (get_generation id LockBox.empty) (slot_at id (replicate capacity blank)))
        (sym (no_bytes id capacity))
        (subst (λ g. Tidy 0 0 g (slot_at id (replicate capacity blank))) (sym (no_generation id))
          (subst (Tidy 0 0 0) (sym (get_or-replicate_same id capacity blank)) blank-Tidy));
}

-- After any calls from the zeroed state, fewer than 2 ^ 32, on any sockets (claims, listens, releases,
-- deposits of fewer than 65536 bytes, reads, and questions for what is available): no session of
-- such deposits and of reads on a socket tells its inbox from a queue of at most 4096 bytes, which begins
-- with what waits, takes a payload whole or not at all, and takes none where the socket is not in use.
pub reached-refines :
    (calls : List Call) (id : ℕ) (ops : List Op)
    → length calls < 2 ^ 32
    → All IsShortCall calls
    → id < capacity
    → All IsShort ops
    → session_run id ops (run zeroed calls).box (run zeroed calls).boxes
      ≡ queue_run
          (in_use_at id (run zeroed calls).box)
          (waiting id (run zeroed calls).box (run zeroed calls).boxes)
          ops
reached-refines calls id ops few short low shorts =
    let s = run zeroed calls in
    let t = run-IsTidy 0 zeroed calls (omega (arith, few)) short zeroed-IsTidy in
    run-refines id ops s.box s.boxes
      (Tidy-Agrees (0 + length calls) id s.box s.boxes low t.sized (t.each id low)) shorts
