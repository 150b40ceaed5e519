-- ===== src/Networking/Fragment6/Two.antt =====
-- A packet of two fragments is delivered.
use native.Mathlib.Decide.{ℕ_discrete, dec_lt}
use aevros.Base.{
  ℕ, zero, suc, ◌+◌, ◌-◌, ◌*◌, ◌/◌, ◌%◌, ◌^◌, ◌≤◌, ◌<◌, ◌≡◌, refl, sym, ◌∙◌, ap, subst, inl, inr,
  Bool, true, false, not, ◌&&◌, none, some, List, [], ◌∷◌, ◌++◌, arith, ltb, ◌==◌, bytes_eq_refl,
  find_index, set, get_or-set_self, get_or-set_ne, length-set, take, drop, length, length-append,
  take_all, is_some, Bool-cases,
}
use aevros.Networking.Fragment6.{
  Key, Slot, State, Fragment, zeroed, blank, no_units, offset_bytes, end_unit, bit_test,
  range_overlaps, set_range, all_set, matches, opened, filled, finish, conclude, add, settle, join,
  begin, place, accept,
}
use aevros.Networking.Fragment6.Step.{bit-set_range}
use aevros.Networking.Fragment6.Good.{
  IsPart, IsGood, no_bit, opened-IsGood, filled-IsGood, add-IsRight,
}

range_free :
    (bm : List Bool) (start n : ℕ)
    → ((u : ℕ) → start ≤ u → bit_test bm u ≡ false)
    → range_overlaps bm start n ≡ false
unfolding range_overlaps
range_free bm start zero h = refl
range_free bm start (suc n) h =
    ground (
      arith,
      h start (omega arith),
      range_free bm (start + 1) n (λ u low. h u (omega (arith, low))),
    )

all_there :
    (bm : List Bool) (start n : ℕ)
    → ((u : ℕ) → u < start + n → bit_test bm u ≡ true)
    → all_set bm start n ≡ true
unfolding all_set
all_there bm start zero h = refl
all_there bm start (suc n) h =
    ground
      (arith, h start (omega arith), all_there bm (start + 1) n (λ u low. h u (omega (arith, low))))

no_bit_past : (bm : List Bool) (u : ℕ) → length bm ≤ u → ¬ (bit_test bm u ≡ true)
no_bit_past [] u out h = cc
no_bit_past (x ∷ bm) zero out h = omega (arith, out)
no_bit_past (x ∷ bm) (suc u) out h = no_bit_past bm u (omega (arith, out)) h

take-start : (a b : List ℕ) → take (length a) (a ++ b) ≡ a
take-start [] b = refl
take-start (x ∷ a) b = ap (◌∷◌ x) (take-start a b)

drop-start : (a b : List ℕ) → drop (length a) (a ++ b) ≡ b
drop-start [] b = refl
drop-start (x ∷ a) b = drop-start a b

set-keeps : (bm : List Bool) (i u : ℕ) → bit_test bm u ≡ true → bit_test (set bm i true) u ≡ true
set-keeps bm i u h = elim (ℕ_discrete i u) [
  | no ne ↦ get_or-set_ne bm i u true false ne ∙ h
  | yes e ↦ elim (dec_lt i (length bm)) [
    | yes low ↦
        subst (λ x. bit_test (set bm i true) x ≡ true) e (get_or-set_self bm i true false low)
    | no out ↦ absurd (no_bit_past bm u (omega (arith, e, out)) h)
  ]
]

set_range-keeps :
    (bm : List Bool) (start n u : ℕ)
    → bit_test bm u ≡ true
    → bit_test (set_range bm start n) u ≡ true
unfolding set_range
set_range-keeps bm start zero u h = h
set_range-keeps bm start (suc n) u h =
    set_range-keeps (set bm start true) (start + 1) n u (set-keeps bm start u h)

set_range-sets :
    (bm : List Bool) (start n u : ℕ)
    → start + n ≤ length bm
    → start ≤ u
    → u < start + n
    → bit_test (set_range bm start n) u ≡ true
unfolding set_range
set_range-sets bm start zero u room low high = absurd (omega arith)
set_range-sets bm start (suc n) u room low high = elim (dec_lt start u) [
  | yes past ↦
      set_range-sets (set bm start true) (start + 1) n u
        (omega (arith, length-set bm start true, room)) (omega (arith, past)) (omega (arith, high))
  | no here ↦
      let at : start ≡ u = omega (arith, here, low) in
      set_range-keeps (set bm start true) (start + 1) n u (
        subst (λ x. bit_test (set bm start true) x ≡ true) at
          (get_or-set_self bm start true false (omega (arith, room))))
]

length-set_range : (bm : List Bool) (start n : ℕ) → length (set_range bm start n) ≡ length bm
unfolding set_range
length-set_range bm start zero = refl
length-set_range bm start (suc n) =
    length-set_range (set bm start true) (start + 1) n ∙ length-set bm start true

module _ (k : Key) (nh m now : ℕ) (a b : List ℕ) (even : length a ≡ m * 8)
    (small : m * 8 + length b ≤ 2048) where
  abbrev first : Fragment
  first = record { next_header = nh; offset_units = 0; more = true; bytes = a }

  abbrev second : Fragment
  second = record { next_header = nh; offset_units = m; more = false; bytes = b }

  abbrev begun : Slot
  begun = opened k nh now blank

  begun_free : (u : ℕ) → 0 ≤ u → bit_test begun.unit_bitmap u ≡ false
  begun_free u h = no_bit 256 u

  abbrev half : Slot
  half = filled first begun

  add-first : add first begun ≡ record { delivery = none; overlap = false; slot = half }
  unfolding add conclude finish
  add-first = ground (arith, range_free begun.unit_bitmap 0 (end_unit first - 0) begun_free)

  abbrev waiting : State
  waiting = record zeroed { slots = half ∷ blank ∷ blank ∷ blank ∷ [] }

  even_test : (first.more && not (length a % 8 == 0)) ≡ false
  even_test = ground (arith, even)

  first_fits : ltb 2048 (offset_bytes first + length a) ≡ false
  first_fits = ground (arith, even, small)

  accept-first : accept k first now zeroed ≡ (none, waiting)
  unfolding accept place begin settle find_index
  accept-first = rw (even_test, first_fits, add-first) refl

  half_end : end_unit first - 0 ≡ m
  half_end = ground (arith, even, small)

  second_start : offset_bytes second ≡ m * 8
  second_start = omega (arith, small)

  second_end : end_unit second ≡ (m * 8 + length b + 7) / 8
  second_end = rw second_start (ground (arith, small))

  half_off : (u : ℕ) → m ≤ u → bit_test half.unit_bitmap u ≡ false
  half_off u low = elim (Bool-cases (bit_test half.unit_bitmap u)) [
    | inr off ↦ off
    | inl on ↦ elim (bit-set_range no_units 0 (end_unit first - 0) u on) [
      | inl old ↦ let off = no_bit 256 u in absurd (cc (off, old))
      | inr (x, high) ↦ absurd (omega (arith, half_end, high, low))
    ]
  ]

  full :
      (u : ℕ)
      → u < 0 + (m * 8 + length b + 7) / 8
      → bit_test (filled second half).unit_bitmap u ≡ true
  full u low = elim (dec_lt u m) [
    | yes left ↦ set_range-keeps half.unit_bitmap m (end_unit second - m) u (
        set_range-sets no_units 0 (end_unit first - 0) u (omega (arith, half_end, small))
          (omega arith) (omega (arith, half_end, left)))
    | no right ↦
        set_range-sets half.unit_bitmap m (end_unit second - m) u
          (omega (arith, length-set_range no_units 0 (end_unit first - 0), second_end, small))
          (omega (arith, right)) (omega (arith, second_end, low, right))
  ]

  -- The second fragment finds no unit of its own, and leaves none open.
  apart : range_overlaps half.unit_bitmap m (end_unit second - m) ≡ false
  apart = range_free half.unit_bitmap m (end_unit second - m) (λ u low. half_off u low)

  complete : all_set (filled second half).unit_bitmap 0 ((m * 8 + length b + 7) / 8) ≡ true
  complete =
      all_there (filled second half).unit_bitmap 0 ((m * 8 + length b + 7) / 8)
        (λ u low. full u low)

  abbrev packet : List ℕ
  packet = a ++ b

  sized : length packet ≡ m * 8 + length b
  sized = length-append a b ∙ omega (arith, even)

  first-IsPart : IsPart packet nh first
  first-IsPart = record {
    head = refl;
    fits = omega (arith, sized, even);
    slice = sym (take-start a b);
    last = inl refl;
  }

  second-IsPart : IsPart packet nh second
  second-IsPart = record {
    head = refl;
    fits = omega (arith, sized);
    slice =
        subst (λ n. b ≡ take (length b) (drop n packet)) even
          (sym (ap (take (length b)) (drop-start a b) ∙ take_all (length b) b (omega arith)));
    last = inr (sym sized);
  }

  short : length packet ≤ 2048
  short = omega (arith, sized, small)

  half-IsGood : IsGood packet nh half
  half-IsGood =
      filled-IsGood packet nh short first first-IsPart even_test begun
        (opened-IsGood packet nh short k now blank refl)

  total : (offset_bytes second + length b) % 2 ^ 16 ≡ m * 8 + length b
  total = omega (arith, second_start, small)

  closed :
      all_set
        (filled second half).unit_bitmap
        0
        (((offset_bytes second + length b) % 2 ^ 16 + 7) / 8)
      ≡ true
  closed = rw total complete

  delivers : is_some (add second half).delivery ≡ true
  unfolding add conclude finish
  delivers = ground (arith, apart, closed)

  add-second : (add second half).delivery ≡ some (nh, packet)
  add-second =
      elim (add-IsRight packet nh short second second-IsPart refl half half-IsGood).delivery [
        | inr d ↦ d
        | inl e ↦
            let lost : is_some (add second half).delivery ≡ false = ap is_some e in
            absurd (cc (lost, delivers))
      ]

  found : find_index (matches k) waiting.slots ≡ some 0
  unfolding find_index
  found =
      let hit : matches k half ≡ true =
        ground (arith, bytes_eq_refl k.src_ip, bytes_eq_refl k.dst_ip) in
      rw hit refl

  second_fits : ltb 2048 (offset_bytes second + length b) ≡ false
  second_fits = ground (arith, second_start, small)

  accept-second : (accept k second now waiting).0 ≡ some (nh, packet)
  unfolding accept place join settle
  accept-second =
      let same : (nh == nh) ≡ true = ground arith in rw (second_fits, found, same) add-second

-- From the zeroed state, a packet in two fragments, the first of some units of 8 bytes, the second of
-- the bytes that remain, at most 2048 in all: the first delivers nothing, and the second the whole
-- packet.
pub accept-two :
    (k : Key) (nh m now : ℕ) (a b : List ℕ)
    → length a ≡ m * 8
    → m * 8 + length b ≤ 2048
    → (first : State) × (accept k
          (record { next_header = nh; offset_units = 0; more = true; bytes = a })
          now
          zeroed
        ≡ (none, first))
      × ((accept k
            (record { next_header = nh; offset_units = m; more = false; bytes = b })
            now
            first).0
          ≡ some (nh, a ++ b))
accept-two k nh m now a b even small = (
  waiting k nh m now a b even small,
  accept-first k nh m now a b even small,
  accept-second k nh m now a b even small,
)
