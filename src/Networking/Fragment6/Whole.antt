-- ===== src/Networking/Fragment6/Whole.antt =====
-- The slots of one packet and of others, over any fragment.
use aevros.Base.{
  ℕ, ◌+◌, ◌%◌, ◌≤◌, ◌≡◌, ◌≢◌, ◌⊎◌, refl, sym, ◌∙◌, ap, subst, inl, inr, true, false, not, ◌&&◌,
  Option, none, some, List, arith, ltb, ◌==◌, bytes_eq, bytes_eq→eq, bytes_eq_refl, find_index,
  find_index-get_or, get_or, length, All, All-get_or, All-update_at, Bool-cases, if_both, if_cases,
}
use aevros.Networking.Fragment6.{
  Key, Slot, State, Fragment, blank, offset_bytes, matches, is_free, opened, abort_slot, Delivery,
  Taken, finish, conclude, add, settle, join, begin, place, drop_existing, accept,
}
use aevros.Networking.Fragment6.Step.{length-overwrite}
use aevros.Networking.Fragment6.Good.{IsPart, IsGood, opened-IsGood, add-IsRight}

-- `add` keeps what the slot belongs to, and the length of the buffer.
record Keeps (s : Slot) (t : Taken) : Type 0 where
  pub src : t.slot.src_ip ≡ s.src_ip
  pub dst : t.slot.dst_ip ≡ s.dst_ip
  pub id : t.slot.id ≡ s.id
  pub sized : length t.slot.buf ≡ length s.buf

add-Keeps :
    (f : Fragment) (s : Slot) → offset_bytes f + length f.bytes ≤ length s.buf → Keeps s (add f s)
unfolding add conclude finish
add-Keeps f s room =
    let long = length-overwrite (offset_bytes f) f.bytes s.buf room in
    record {
      src = ground arith;
      dst = ground arith;
      id = ground arith;
      sized = ground (arith, long);
    }

-- A slot that `k` and `k'` both match has both keys.
matches-same : (k k' : Key) (s : Slot) → matches k s ≡ true → matches k' s ≡ true → k ≡ k'
matches-same k k' s h h' =
    let a : bytes_eq s.src_ip k.src_ip ≡ true = ground (arith, h) in
    let a' : bytes_eq s.src_ip k'.src_ip ≡ true = ground (arith, h') in
    let b : bytes_eq s.dst_ip k.dst_ip ≡ true = ground (arith, h) in
    let b' : bytes_eq s.dst_ip k'.dst_ip ≡ true = ground (arith, h') in
    ground (
      arith,
      h,
      h',
      bytes_eq→eq s.src_ip k.src_ip a,
      bytes_eq→eq s.src_ip k'.src_ip a',
      bytes_eq→eq s.dst_ip k.dst_ip b,
      bytes_eq→eq s.dst_ip k'.dst_ip b',
    )

-- The key stays apart from one that the slot does not have.
apart-kept :
    (k : Key) (s : Slot) (t : Taken)
    → s.in_use ≡ true
    → matches k s ≡ false
    → Keeps s t
    → matches k t.slot ≡ false
apart-kept k s t used apart same = ground (
  arith,
  used,
  apart,
  same.id,
  ap (λ x. bytes_eq x k.src_ip) same.src,
  ap (λ x. bytes_eq x k.dst_ip) same.dst,
)

module _ (k : Key) (p : List ℕ) (nh : ℕ) (small : length p ≤ 2048) where
  -- The slot is of another packet, or it holds bytes of `p`.
  pub record Fine (s : Slot) : Type 0 where
    pub sized : length s.buf ≡ 2048
    pub good : (matches k s ≡ false) ⊎ IsGood p nh s

  -- An answer to a fragment of the key `k'`, and the slots after it.
  pub record Answers (k' : Key) (r : Delivery × State) : Type 0 where
    pub delivery : (k' ≢ k) ⊎ (r.0 ≡ none) ⊎ (r.0 ≡ some (nh, p))
    pub slots : All Fine r.1.slots

  pub blank-Fine : Fine blank
  blank-Fine = record { sized = refl; good = inl refl }

  settle-Answers :
      (k' : Key) (i : ℕ) (t : Taken) (st : State)
      → All Fine st.slots
      → Fine t.slot
      → (k' ≢ k) ⊎ (t.delivery ≡ none) ⊎ (t.delivery ≡ some (nh, p))
      → Answers k' (settle i t st)
  unfolding settle
  settle-Answers k' i t st a fine d = record {
    delivery = d;
    slots = All-update_at Fine i (λ _. t.slot) st.slots (λ x e h. fine) a;
  }

  pub abort-Fine : (s : Slot) → Fine s → Fine (abort_slot s)
  abort-Fine s h = record { sized = h.sized; good = inl refl }

  right :
      (f : Fragment) (s : Slot)
      → IsPart p nh f
      → (f.more && not (length f.bytes % 8 == 0)) ≡ false
      → IsGood p nh s
      → Fine (add f s).slot × (((add f s).delivery ≡ none) ⊎ ((add f s).delivery ≡ some (nh, p)))
  right f s part even g =
      let r = add-IsRight p nh small f part even s g in
      (record { sized = r.slot.sized; good = inr r.slot }, r.delivery)

  -- A slot of another packet stays one.
  other :
      (f : Fragment) (s : Slot)
      → offset_bytes f + length f.bytes ≤ 2048
      → s.in_use ≡ true
      → length s.buf ≡ 2048
      → matches k s ≡ false
      → Fine (add f s).slot
  other f s fits used sized apart =
      let same = add-Keeps f s (omega (arith, fits, sized)) in
      record { sized = same.sized ∙ sized; good = inl (apart-kept k s (add f s) used apart same) }

  -- A fragment of the packet is a part of it; nothing is asked of the others.
  abbrev pub IsHonest : Key → Fragment → Type 0
  IsHonest k' f = (k' ≢ k) ⊎ IsPart p nh f

  module _ (k' : Key) (f : Fragment) (honest : IsHonest k' f)
      (fits : offset_bytes f + length f.bytes ≤ 2048)
      (even : (f.more && not (length f.bytes % 8 == 0)) ≡ false) where
    self : (now : ℕ) (s : Slot) → matches k' (opened k' f.next_header now s) ≡ true
    self now s = ground (arith, bytes_eq_refl k'.src_ip, bytes_eq_refl k'.dst_ip)

    opened-right :
        (now : ℕ) (s : Slot)
        → length s.buf ≡ 2048
        → Fine (add f (opened k' f.next_header now s)).slot
          × ((k' ≢ k)
              ⊎ ((add f (opened k' f.next_header now s)).delivery ≡ none)
              ⊎ ((add f (opened k' f.next_header now s)).delivery ≡ some (nh, p)))
    opened-right now s sized = elim honest [
      | inr part ↦
          let head = part.head in
          let good : IsGood p nh (opened k' f.next_header now s) =
            subst (λ h. IsGood p nh (opened k' h now s)) (sym head)
              (opened-IsGood p nh small k' now s sized) in
          let (fine, d) = right f (opened k' f.next_header now s) part even good in (fine, inr d)
      | inl ne ↦
          let apart : matches k (opened k' f.next_header now s) ≡ false =
            elim (Bool-cases (matches k (opened k' f.next_header now s))) [
              | inr miss ↦ miss
              | inl hit ↦
                  absurd
                    (ne (sym (matches-same k k' (opened k' f.next_header now s) hit (self now s))))
            ] in
          (other f (opened k' f.next_header now s) fits refl sized apart, inl ne)
    ]

    found-right :
        (s : Slot)
        → Fine s
        → matches k' s ≡ true
        → Fine (add f s).slot
          × ((k' ≢ k) ⊎ ((add f s).delivery ≡ none) ⊎ ((add f s).delivery ≡ some (nh, p)))
    found-right s h hit =
        let used : s.in_use ≡ true = ground (arith, hit) in
        elim (Bool-cases (matches k s)) [
          | inl mine ↦
              let same : k' ≡ k = matches-same k' k s hit mine in
              let part : IsPart p nh f = elim honest [ inl ne ↦ absurd (ne same) | inr x ↦ x ] in
              let good : IsGood p nh s = elim h.good [
                | inl miss ↦ absurd (cc (mine, miss))
                | inr g ↦ g
              ] in
              let (fine, d) = right f s part even good in (fine, inr d)
          | inr miss ↦ (
            other f s fits used h.sized miss,
            inl (λ same. absurd (cc (miss, ap (λ x. matches x s) same, hit))),
          )
        ]

    begin-Answers :
        (now : ℕ) (slot : Option ℕ) (st : State)
        → All Fine st.slots
        → Answers k' (begin k' f now slot st)
    unfolding begin
    begin-Answers now none st a = record { delivery = inr (inl refl); slots = a }
    begin-Answers now (some i) st a =
        let s = get_or st.slots i blank in
        let h = All-get_or Fine i st.slots blank blank-Fine a in
        let (fine, d) = opened-right now s h.sized in
        settle-Answers k' i (add f (opened k' f.next_header now s)) st a fine d

    join-Answers :
        (i : ℕ) (s : Slot) (st : State)
        → All Fine st.slots
        → Fine s
        → matches k' s ≡ true
        → Answers k' (join i f s st)
    unfolding join
    join-Answers i s st a h hit =
        let (fine, d) = found-right s h hit in
        if_both (Answers k') _ _ _
          (record {
            delivery = inr (inl refl);
            slots = All-update_at Fine i (λ _. abort_slot s) st.slots (λ x e y. abort-Fine s h) a;
          })
          (settle-Answers k' i (add f s) st a fine d)

    place-Answers :
        (now : ℕ) (slot : Option ℕ) (st : State)
        → find_index (matches k') st.slots ≡ slot
        → All Fine st.slots
        → Answers k' (place k' f now slot st)
    unfolding place
    place-Answers now none st e a = begin-Answers now (find_index is_free st.slots) st a
    place-Answers now (some i) st e a =
        join-Answers i (get_or st.slots i blank) st a
          (All-get_or Fine i st.slots blank blank-Fine a)
          (find_index-get_or (matches k') i st.slots blank e)

  drop-Fine :
      (slot : Option ℕ) (st : State) → All Fine st.slots → All Fine (drop_existing slot st).slots
  unfolding drop_existing
  drop-Fine none st a = a
  drop-Fine (some i) st a =
      All-update_at Fine i _ st.slots
        (λ x e y.
          abort-Fine (get_or st.slots i blank) (All-get_or Fine i st.slots blank blank-Fine a))
        a

  pub accept-Answers :
      (k' : Key) (f : Fragment) (now : ℕ) (st : State)
      → IsHonest k' f
      → All Fine st.slots
      → Answers k' (accept k' f now st)
  unfolding accept
  accept-Answers k' f now st honest a =
      if_cases (Answers k') (f.more && not (length f.bytes % 8 == 0)) _ _
        (λ _. record { delivery = inr (inl refl); slots = a })
        (λ even.
          if_cases (Answers k') (ltb 2048 (offset_bytes f + length f.bytes)) _ _
            (λ _. record {
              delivery = inr (inl refl);
              slots = drop-Fine (find_index (matches k') st.slots) st a;
            })
            (λ room.
              place-Answers k' f honest (ground (arith, room)) even now
                (find_index (matches k') st.slots) st refl a))
