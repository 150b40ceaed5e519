-- ===== src/Networking/Fragment6/Packet.antt =====
-- What is delivered is the whole packet, whatever the order of the fragments and whatever comes
-- between them.
use aevros.Base.{
  ℕ, ◌≤◌, ◌≡◌, ◌≢◌, ◌⊎◌, refl, inl, inr, none, some, List, [], ◌∷◌, map, ltb, if◌then◌else◌, length,
  All, All-replicate, if_both,
}
use aevros.Networking.Fragment6.{
  Key, Slot, State, zeroed, blank, parse, id_of, abort_slot, receive, is_old, tick,
}
use aevros.Networking.Fragment6.Good.{IsPart}
use aevros.Networking.Fragment6.Whole.{Fine, Answers, blank-Fine, abort-Fine, accept-Answers}

abbrev pub key_of : List ℕ → List ℕ → List ℕ → Key
key_of src_ip dst_ip header = record { src_ip = src_ip; dst_ip = dst_ip; id = id_of header }

-- A fragment arrives, or the clock runs.
pub data Event : Type 0 where
  arrives : List ℕ → List ℕ → List ℕ → ℕ → Event
  ticks : ℕ → Event

unfoldable pub run : State → List Event → State
run st [] = st
run st (arrives src_ip dst_ip header now ∷ es) = run (receive src_ip dst_ip header now st).1 es
run st (ticks now ∷ es) = run (tick now st) es

module _ (k : Key) (p : List ℕ) (nh : ℕ) where
  -- A fragment with the key `k` is a part of the packet `p`; nothing is asked of the others.
  abbrev pub Honest : Event → Type 0
  Honest (arrives src_ip dst_ip header now) =
      (key_of src_ip dst_ip header ≢ k) ⊎ IsPart p nh (parse header)
  Honest (ticks now) = Unit

  module _ (small : length p ≤ 2048) where
    receive-Answers :
        (src_ip dst_ip header : List ℕ) (now : ℕ) (st : State)
        → (key_of src_ip dst_ip header ≢ k) ⊎ IsPart p nh (parse header)
        → All (Fine k p nh small) st.slots
        → Answers k p nh small (key_of src_ip dst_ip header) (receive src_ip dst_ip header now st)
    unfolding receive
    receive-Answers src_ip dst_ip header now st honest a =
        if_both (Answers k p nh small (key_of src_ip dst_ip header)) (ltb (length header) 8) _ _
          (record { delivery = inr (inl refl); slots = a })
          (accept-Answers k p nh small (key_of src_ip dst_ip header) (parse header) now st honest a)

    tick-Fine :
        (now : ℕ) (slots : List Slot)
        → All (Fine k p nh small) slots
        → All (Fine k p nh small) (map (λ s. if is_old now s then abort_slot s else s) slots)
    tick-Fine now [] a = tt
    tick-Fine now (s ∷ slots) (h, a) = (
      if_both (Fine k p nh small) (is_old now s) (abort_slot s) s (abort-Fine k p nh small s h) h,
      tick-Fine now slots a,
    )

    run-Fine :
        (st : State) (events : List Event)
        → All Honest events
        → All (Fine k p nh small) st.slots
        → All (Fine k p nh small) (run st events).slots
    unfolding run tick
    run-Fine st [] hs a = a
    run-Fine st (arrives src_ip dst_ip header now ∷ es) (h, hs) a =
        run-Fine (receive src_ip dst_ip header now st).1 es hs
          (receive-Answers src_ip dst_ip header now st h a).slots
    run-Fine st (ticks now ∷ es) (h, hs) a = run-Fine (tick now st) es hs (tick-Fine now st.slots a)

-- A packet of at most 2048 bytes, whose fragments arrive in any order, any of them more than once or
-- never, among fragments of other packets and runs of the clock, provided that each fragment with its
-- two addresses and its number is a part of it: the next such fragment delivers nothing, or the whole
-- packet with its next header.
pub run-receive_whole :
    (k : Key) (p : List ℕ) (nh : ℕ) (events : List Event) (header : List ℕ) (now : ℕ)
    → length p ≤ 2048
    → All (Honest k p nh) events
    → id_of header ≡ k.id
    → IsPart p nh (parse header)
    → ((receive k.src_ip k.dst_ip header now (run zeroed events)).0 ≡ none)
      ⊎ ((receive k.src_ip k.dst_ip header now (run zeroed events)).0 ≡ some (nh, p))
run-receive_whole k p nh events header now small hs same part =
    let a =
      run-Fine k p nh small zeroed events hs
        (All-replicate (Fine k p nh small) 4 blank (blank-Fine k p nh small)) in
    elim (receive-Answers k p nh small k.src_ip k.dst_ip header now (run zeroed events) (inr part)
      a).delivery [ inl ne ↦ absurd (ne (cc same)) | inr d ↦ d ]
