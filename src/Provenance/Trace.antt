-- ===== src/Provenance/Trace.antt =====
-- A trace with room for 256 results finds every record in reach of its start.
use native.Mathlib.Decide.{dec_le}
use aevros.Base.{
  ℕ, zero, suc, ◌+◌, ◌<◌, ◌≤◌, ◌≡◌, refl, sym, ap, ◌∙◌, inl, inr, Bool, true, false, ◌&&◌, List, [],
  ◌∷◌, ◌++◌, length, length-append, arith, Bool-cases, List-cases, All, All-mono, subst, count_if,
  count_if-le-length, append_assoc, append-nil,
}
use aevros.Provenance.{Entity, Record, Walk, from_of, next_of, is_visited, follow, visit, walk}
use aevros.Provenance.Reach.{
  In, Reach, here, onward, visit-limit, visit-leaves, visit-passes, leaves, walk-limit, walk-done,
  walk-round, All-lookup,
}
use aevros.Provenance.Visited.{
  entity_equal_sym, is_visited_end, Distinct, not_done, count-round, count_full, count_none,
}
use aevros.Provenance.Follow.{Orderly, Followed, Later, follow-Follows}

-- What a round over the records `l` does, for the current entity `e`.
record Visits (forward : Bool) (done : List Entity) (e : Entity) (l : List Record) (w t : Walk)
    : Type 0 where
  orderly : Orderly done t
  later : Later w t
  all : All (λ r. leaves forward e r ≡ true → Followed forward t r) l
  found : length t.results ≡ length w.results + count_if (leaves forward e) l

count_nil : (p : Record → Bool) → count_if p [] ≡ 0
unfolding count_if
count_nil p = refl

count-yes :
    (p : Record → Bool) (r : Record) (l : List Record)
    → p r ≡ true
    → count_if p (r ∷ l) ≡ suc (count_if p l)
unfolding count_if
count-yes p r l e = rw e refl

count-no :
    (p : Record → Bool) (r : Record) (l : List Record)
    → p r ≡ false
    → count_if p (r ∷ l) ≡ count_if p l
unfolding count_if
count-no p r l e = rw e refl

nothing :
    (forward : Bool) (done : List Entity) (e : Entity) (l : List Record) (w : Walk)
    → Orderly done w
    → count_if (leaves forward e) l ≡ 0
    → Visits forward done e l w w
nothing forward done e l w o none = record {
  orderly = o;
  later = record { keeps = λ r h. h; sees = λ x h. h };
  all =
      All-mono (λ r. leaves forward e r ≡ false)
        (λ r. leaves forward e r ≡ true → Followed forward w r) l
        (λ r no yes. absurd (ground (arith, no, yes))) (count_none (leaves forward e) l none);
  found = omega (arith, none);
}

-- The inner loop, where the results have room for all that leaves the entity.
visit-Visits :
    (forward : Bool) (max : ℕ) (done : List Entity) (e : Entity) (l : List Record) (w : Walk)
    → 256 ≤ max
    → Orderly done w
    → length w.results + count_if (leaves forward e) l ≤ 256
    → Visits forward done e l w (visit forward max e l w)
unfolding visit
visit-Visits forward max done e [] w big o room =
    nothing forward done e [] w o (count_nil (leaves forward e))
visit-Visits forward max done e (r ∷ l) w big o room = elim (dec_le max (length w.results)) [
  | yes full ↦
      rw (visit-limit forward max e (r ∷ l) w full)
        (nothing forward done e (r ∷ l) w o (omega (arith, room)))
  | no more ↦ elim (Bool-cases (leaves forward e r)) [
    | inr apart ↦
        let fewer = count-no (leaves forward e) r l apart in
        let v = visit-Visits forward max done e l w big o (omega (arith, room, fewer)) in
        rw (visit-passes forward max e r l w (omega arith) apart) (record {
          orderly = v.orderly;
          later = v.later;
          all = (λ yes. absurd (ground (arith, apart, yes)), v.all);
          found = omega (arith, v.found, fewer);
        })
    | inl out ↦
        let more = count-yes (leaves forward e) r l out in
        let f = follow-Follows forward done r w o (omega (arith, room, more)) in
        let v =
          visit-Visits forward max done e l (follow forward r w) big f.orderly
            (omega (arith, room, more, f.one)) in
        rw (visit-leaves forward max e r l w (omega arith) out) (record {
          orderly = v.orderly;
          later = record {
            keeps = λ x h. v.later.keeps x (f.later.keeps x h);
            sees = λ x h. v.later.sees x (f.later.sees x h);
          };
          all = (
            λ yes. (v.later.keeps r f.followed.0, v.later.sees (next_of forward r) f.followed.1),
            v.all,
          );
          found = omega (arith, v.found, f.one, more);
        })
  ]
]

All-both :
    (P Q R : Record → Type 0) (l : List Record)
    → ((r : Record) → P r → Q r → R r)
    → All P l
    → All Q l
    → All R l
All-both P Q R [] f a b = tt
All-both P Q R (x ∷ l) f (p, a) (q, b) = (f x p q, All-both P Q R l f a b)

module _ (forward : Bool) (rs : List Record) (start : Entity) where
  abbrev pub is_done : List Entity → Record → Bool
  is_done done r = r.valid && is_visited (from_of forward r) done

  -- What holds at the head of the outer loop.
  pub record Rounds (done : List Entity) (w : Walk) : Type 0 where
    pub orderly : Orderly done w
    pub all : All (λ r. is_done done r ≡ true → Followed forward w r) rs
    pub found : length w.results ≡ count_if (is_done done) rs
    pub started : is_visited start w.visited ≡ true

  abbrev pub Complete : Walk → Type 0
  Complete w =
      (r : Record)
      → In r rs
      → r.valid ≡ true
      → Reach forward rs start (from_of forward r)
      → In r w.results

  Reach-is_visited :
      (e : Entity) (w : Walk)
      → Rounds w.visited w
      → Reach forward rs start e
      → is_visited e w.visited ≡ true
  Reach-is_visited e w d here = d.started
  Reach-is_visited e w d (onward r listed valid before) =
      let seen = Reach-is_visited (from_of forward r) w d before in
      (All-lookup (λ r. is_done w.visited r ≡ true → Followed forward w r) rs r d.all listed
        (ground (arith, valid, seen))).1

  -- The queue is empty: all that was visited is done.
  done-Complete : (w : Walk) → Rounds w.visited w → Complete w
  done-Complete w d r listed valid reach =
      let seen = Reach-is_visited (from_of forward r) w d reach in
      (All-lookup (λ r. is_done w.visited r ≡ true → Followed forward w r) rs r d.all listed
        (ground (arith, valid, seen))).0

  -- The results are full: they hold all records.
  full-Complete :
      (done : List Entity) (w : Walk) → Rounds done w → length rs ≤ length w.results → Complete w
  full-Complete done w d full r listed valid reach =
      let every = count_full (is_done done) rs (omega (arith, d.found, full)) in
      (All-lookup (λ r. is_done done r ≡ true → Followed forward w r) rs r d.all listed
        (All-lookup (λ r. is_done done r ≡ true) rs r every listed)).0

  round-Followed :
      (done : List Entity) (e : Entity) (w t : Walk) (r : Record)
      → Later w t
      → (is_done done r ≡ true → Followed forward w r)
      → (leaves forward e r ≡ true → Followed forward t r)
      → is_done (done ++ (e ∷ [])) r ≡ true
      → Followed forward t r
  round-Followed done e w t r later old new h = elim (Bool-cases (is_done done r)) [
    | inl before ↦
        let (listed, seen) = old before in
        (later.keeps r listed, later.sees (next_of forward r) seen)
    | inr now ↦
        let f = from_of forward r in
        new (ground (arith, h, now, is_visited_end f e done, entity_equal_sym e f))
  ]

  round-Rounds :
      (max : ℕ) (done : List Entity) (e : Entity) (rest : List Entity) (w : Walk)
      → 256 ≤ max
      → length rs ≤ 256
      → Rounds done w
      → w.queue ≡ e ∷ rest
      → Rounds (done ++ (e ∷ [])) (visit forward max e rs (record w { queue = rest }))
  round-Rounds max done e rest w big few d q =
      let at_end : w.visited ≡ done ++ (e ∷ rest) = d.orderly.split ∙ ap (λ l. done ++ l) q in
      let fresh = not_done e done rest (subst Distinct at_end d.orderly.distinct) in
      let sum = count-round forward e done rs fresh in
      let bound = count_if-le-length (is_done (done ++ (e ∷ []))) rs in
      let u : Walk = record w { queue = rest } in
      let v : Visits forward (done ++ (e ∷ [])) e rs u (visit forward max e rs u) =
        visit-Visits forward max (done ++ (e ∷ [])) e rs u big
          (record {
            split = at_end ∙ sym (append_assoc done (e ∷ []) rest);
            distinct = d.orderly.distinct;
            few = d.orderly.few;
          })
          (omega (arith, sum, bound, d.found)) in
      let t = visit forward max e rs u in
      record {
        orderly = v.orderly;
        all =
            All-both (λ r. is_done done r ≡ true → Followed forward u r)
              (λ r. leaves forward e r ≡ true → Followed forward t r)
              (λ r. is_done (done ++ (e ∷ [])) r ≡ true → Followed forward t r) rs
              (λ r. round-Followed done e u t r v.later) d.all v.all;
        found = omega (arith, sum, v.found, d.found);
        started = v.later.sees start d.started;
      }

  pub walk-Complete :
      (fuel max : ℕ) (done : List Entity) (w : Walk)
      → 256 ≤ max
      → length rs ≤ 256
      → 257 < fuel + length done
      → Rounds done w
      → Complete (walk fuel forward max rs w)
  unfolding walk
  walk-Complete zero max done w big few enough d =
      let len = ap length d.orderly.split ∙ length-append done w.queue in
      let bound = count_if-le-length (is_done done) rs in
      absurd (omega (arith, len, bound, enough, d.found, d.orderly.few))
  walk-Complete (suc fuel) max done w big few enough d = elim (dec_le max (length w.results)) [
    | yes full ↦
        rw (walk-limit (suc fuel) forward max rs w full) (full-Complete done w d (omega arith))
    | no room ↦ elim (List-cases w.queue) [
      | inl q ↦
          let all : w.visited ≡ done = d.orderly.split ∙ ap (λ l. done ++ l) q ∙ append-nil done in
          rw (walk-done (suc fuel) forward max rs w q)
            (done-Complete w (subst (λ l. Rounds l w) (sym all) d))
      | inr (e, rest, q) ↦
          let longer = length-append done (e ∷ []) in
          rw (walk-round fuel forward max rs w e rest (omega arith) q) (
            walk-Complete fuel max (done ++ (e ∷ []))
              (visit forward max e rs (record w { queue = rest })) big few (omega (arith, longer))
              (round-Rounds max done e rest w big few d q))
    ]
  ]
