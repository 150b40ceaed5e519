-- ===== src/Networking/Fragment6/Good.antt =====
-- The slot of a packet holds bytes of that packet only, whatever fragment comes next.
use native.Mathlib.Decide.{dec_lt, dec_le}
use aevros.Base.{
  ℕ, zero, suc, ◌+◌, ◌-◌, ◌*◌, ◌/◌, ◌%◌, ◌^◌, ◌≤◌, ◌<◌, ◌≡◌, ◌⊎◌, refl, sym, ◌∙◌, ap, ap₂, subst,
  inl, inr, Bool, true, false, not, ◌&&◌, none, some, List, arith, ◌==◌, replicate, take, drop,
  length, Bool-cases, if_both, if_cases,
}
use aevros.Networking.Fragment6.{
  Key, Slot, Fragment, offset_bytes, end_unit, byte, bit_test, range_overlaps, set_range, all_set,
  overwrite, opened, filled, abort_slot, Taken, finish, conclude, add,
}
use aevros.Networking.Fragment6.Step.{
  byte-take, byte-drop, byte-overwrite_in, byte-overwrite_out, length-overwrite, bit-set_range,
  all_set-bit, same_bytes,
}

-- The fragment is a part of the packet `p`, whose next header is `nh`.
pub record IsPart (p : List ℕ) (nh : ℕ) (f : Fragment) : Type 0 where
  pub head : f.next_header ≡ nh
  pub fits : f.offset_units * 8 + length f.bytes ≤ length p
  pub slice : f.bytes ≡ take (length f.bytes) (drop (f.offset_units * 8) p)
  pub last : (f.more ≡ true) ⊎ (f.offset_units * 8 + length f.bytes ≡ length p)

-- Each byte of the packet in a unit that is there is right.
pub record IsGood (p : List ℕ) (nh : ℕ) (s : Slot) : Type 0 where
  pub sized : length s.buf ≡ 2048
  pub kept :
      (i : ℕ) → i < length p → bit_test s.unit_bitmap (i / 8) ≡ true → byte i s.buf ≡ byte i p
  pub total : (s.have_last ≡ false) ⊎ (s.total_len ≡ length p)
  pub head : s.next_header ≡ nh

pub no_bit : (n u : ℕ) → bit_test (replicate n false) u ≡ false
no_bit zero u = refl
no_bit (suc n) zero = refl
no_bit (suc n) (suc u) = no_bit n u

module _ (p : List ℕ) (nh : ℕ) (small : length p ≤ 2048) where
  pub opened-IsGood :
      (k : Key) (now : ℕ) (s : Slot) → length s.buf ≡ 2048 → IsGood p nh (opened k nh now s)
  opened-IsGood k now s sized = record {
    sized = sized;
    kept = λ i low h. let off = no_bit 256 (i / 8) in absurd (cc (off, h));
    total = inl refl;
    head = refl;
  }

  pub abort-IsGood : (s : Slot) → IsGood p nh s → IsGood p nh (abort_slot s)
  abort-IsGood s g = record { sized = g.sized; kept = g.kept; total = g.total; head = g.head }

  module _ (f : Fragment) (part : IsPart p nh f)
      (even : (f.more && not (length f.bytes % 8 == 0)) ≡ false) where
    start_eq : offset_bytes f ≡ f.offset_units * 8
    start_eq = omega (arith, part.fits, small)

    end_eq : end_unit f ≡ (f.offset_units * 8 + length f.bytes + 7) / 8
    end_eq = rw start_eq (ground (arith, part.fits, small))

    -- A byte of the fragment.
    fresh :
        (buf : List ℕ) (i : ℕ)
        → length buf ≡ 2048
        → f.offset_units * 8 ≤ i
        → i < f.offset_units * 8 + length f.bytes
        → byte i (overwrite (f.offset_units * 8) f.bytes buf) ≡ byte i p
    fresh buf i sized low high =
        let o = f.offset_units * 8 in
        byte-overwrite_in o f.bytes buf (omega (arith, part.fits, small, sized)) i low high
        ∙ ap (byte (i - o)) part.slice
        ∙ byte-take (i - o) (length f.bytes) (drop o p) (omega (arith, low, high))
        ∙ byte-drop (i - o) o p
        ∙ ap (λ k. byte k p) (omega (arith, low))

    -- A byte in a unit of the fragment is a byte of it.
    covered :
        (i : ℕ)
        → i < length p
        → f.offset_units ≤ i / 8
        → i / 8 < f.offset_units + (end_unit f - f.offset_units)
        → i < f.offset_units * 8 + length f.bytes
    covered i low a b = elim part.last [
      | inr whole ↦ omega (arith, whole, low)
      | inl more ↦
          let whole_units : length f.bytes % 8 ≡ 0 = ground (arith, more, even) in
          omega (arith, end_eq, whole_units, a, b)
    ]

    room : (s : Slot) → IsGood p nh s → f.offset_units * 8 + length f.bytes ≤ length s.buf
    room s g = omega (arith, part.fits, small, g.sized)

    filled-kept :
        (s : Slot) (i : ℕ)
        → IsGood p nh s
        → i < length p
        → bit_test (set_range s.unit_bitmap f.offset_units (end_unit f - f.offset_units)) (i / 8)
          ≡ true
        → byte i (overwrite (f.offset_units * 8) f.bytes s.buf) ≡ byte i p
    filled-kept s i g low h =
        let outside = byte-overwrite_out (f.offset_units * 8) f.bytes s.buf (room s g) i in
        elim (bit-set_range s.unit_bitmap f.offset_units (end_unit f - f.offset_units) (i / 8) h) [
          | inr (a, b) ↦ fresh s.buf i g.sized (omega (arith, a)) (covered i low a b)
          | inl old ↦ elim (dec_le (f.offset_units * 8) i) [
            | no before ↦ outside (inl (omega (arith, before))) ∙ g.kept i low old
            | yes from ↦ elim (dec_lt i (f.offset_units * 8 + length f.bytes)) [
              | yes to ↦ fresh s.buf i g.sized from to
              | no past ↦ outside (inr (omega (arith, past))) ∙ g.kept i low old
            ]
          ]
        ]

    pub filled-IsGood : (s : Slot) → IsGood p nh s → IsGood p nh (filled f s)
    filled-IsGood s g = record {
      sized =
          subst (λ o. length (overwrite o f.bytes s.buf) ≡ 2048) (sym start_eq)
            (length-overwrite (f.offset_units * 8) f.bytes s.buf (room s g) ∙ g.sized);
      kept = λ i low h.
          subst (λ o. byte i (overwrite o f.bytes s.buf) ≡ byte i p) (sym start_eq)
            (filled-kept s i g low h);
      total = g.total;
      head = g.head;
    }

    -- What comes out is nothing or the packet.
    pub record IsRight (t : Taken) : Type 0 where
      pub delivery : (t.delivery ≡ none) ⊎ (t.delivery ≡ some (nh, p))
      pub slot : IsGood p nh t.slot

    keeps :
        (s : Slot) (b : Bool)
        → IsGood p nh s
        → IsRight (record { delivery = none; overlap = b; slot = s })
    keeps s b g = record { delivery = inl refl; slot = g }

    -- All units are there, so all bytes are right.
    whole :
        (s : Slot)
        → IsGood p nh s
        → s.total_len ≡ length p
        → all_set s.unit_bitmap 0 ((s.total_len + 7) / 8) ≡ true
        → take s.total_len s.buf ≡ p
    whole s g all full =
        ap (λ n. take n s.buf) all
        ∙ same_bytes p s.buf (omega (arith, g.sized, small)) (λ i low. g.kept i low (
            all_set-bit s.unit_bitmap 0 ((s.total_len + 7) / 8) (i / 8) full (omega arith)
              (omega (arith, all, low))))

    finish-IsRight : (s : Slot) → IsGood p nh s → IsRight (finish s)
    unfolding finish
    finish-IsRight s g =
        if_cases IsRight (not s.have_last) _ _ (λ _. keeps s false g)
          (λ last.
            if_cases IsRight (not (all_set s.unit_bitmap 0 ((s.total_len + 7) / 8))) _ _
              (λ _. keeps s false g)
              (λ full. record {
                delivery = inr (
                    ap₂ (λ (a : ℕ) (b : List ℕ). some (a, b)) g.head
                      (whole s g (ground (arith, last, g.total)) (ground (arith, full))));
                slot = abort-IsGood s g;
              }))

    conclude-IsRight : (s : Slot) → IsGood p nh s → IsRight (conclude f s)
    unfolding conclude
    conclude-IsRight s g = elim (Bool-cases f.more) [
      | inl more ↦ rw more (finish-IsRight s g)
      | inr last ↦
          let stop : (offset_bytes f + length f.bytes) % 2 ^ 16 ≡ length p =
            ground (arith, start_eq, last, part.last, small) in
          rw last (
            if_both IsRight s.have_last
              (record { delivery = none; overlap = false; slot = abort_slot s }) _
              (keeps (abort_slot s) false (abort-IsGood s g))
              (finish-IsRight _
                (record { sized = g.sized; kept = g.kept; total = inr stop; head = g.head })))
    ]

    pub add-IsRight : (s : Slot) → IsGood p nh s → IsRight (add f s)
    unfolding add
    add-IsRight s g =
        if_both IsRight (range_overlaps s.unit_bitmap f.offset_units (end_unit f - f.offset_units))
          _ _ (keeps (abort_slot s) true (abort-IsGood s g))
          (conclude-IsRight (filled f s) (filled-IsGood s g))
