-- ===== src/Provenance/Visited.antt =====
-- The list of visited entities: no entity twice, and what a round adds to it.
use aevros.Base.{
  ◌+◌, ◌≤◌, ◌≡◌, refl, sym, inl, inr, Bool, true, false, ◌&&◌, ◌||◌, List, [], ◌∷◌, ◌++◌, length,
  arith, Bool-cases, All, subst, count_if, count_if-le-length,
}
use aevros.Provenance.{Entity, Record, entity_equal, from_of, is_visited}
use aevros.Provenance.Reach.{leaves, entity_equal→eq}

pub entity_equal_refl : (a : Entity) → entity_equal a a ≡ true
unfolding entity_equal
entity_equal_refl a = ground arith

pub entity_equal_sym : (a b : Entity) → entity_equal a b ≡ entity_equal b a
unfolding entity_equal
entity_equal_sym a b = ground arith

pub is_visited_end :
    (e n : Entity) (l : List Entity)
    → is_visited e (l ++ (n ∷ [])) ≡ (is_visited e l || entity_equal n e)
unfolding is_visited
is_visited_end e n [] = ground arith
is_visited_end e n (x ∷ l) = ground (arith, is_visited_end e n l)

abbrev pub Distinct : List Entity → Type 0
Distinct [] = Unit
Distinct (x ∷ l) = (is_visited x l ≡ false) × Distinct l

pub Distinct-end :
    (n : Entity) (l : List Entity) → Distinct l → is_visited n l ≡ false → Distinct (l ++ (n ∷ []))
unfolding is_visited
Distinct-end n [] d h = (refl, tt)
Distinct-end n (x ∷ l) (apart, d) h = (
  ground (arith, is_visited_end x n l, apart, entity_equal_sym x n, h),
  Distinct-end n l d (ground (arith, h)),
)

is_visited-mid :
    (c x : Entity) (done rest : List Entity)
    → is_visited x (done ++ (c ∷ rest)) ≡ false
    → entity_equal c x ≡ false
unfolding is_visited
is_visited-mid c x [] rest h = ground (arith, h)
is_visited-mid c x (y ∷ done) rest h = is_visited-mid c x done rest (ground (arith, h))

-- The entity at the head of the queue is not done yet.
pub not_done :
    (c : Entity) (done rest : List Entity)
    → Distinct (done ++ (c ∷ rest))
    → is_visited c done ≡ false
unfolding is_visited
not_done c [] rest d = refl
not_done c (x ∷ done) rest (apart, d) =
    ground (arith, not_done c done rest d, is_visited-mid c x done rest apart, entity_equal_sym x c)

same_apart :
    (e c : Entity) (done : List Entity)
    → is_visited c done ≡ false
    → entity_equal e c ≡ true
    → is_visited e done ≡ false
same_apart e c done h same =
    subst (λ x. is_visited x done ≡ false) (sym (entity_equal→eq e c same)) h

-- A round for an entity that is not done adds the records that leave it.
pub count-round :
    (forward : Bool) (c : Entity) (done : List Entity) (rs : List Record)
    → is_visited c done ≡ false
    → count_if (λ r. r.valid && is_visited (from_of forward r) (done ++ (c ∷ []))) rs
      ≡ count_if (λ r. r.valid && is_visited (from_of forward r) done) rs
        + count_if (leaves forward c) rs
unfolding count_if
count-round forward c done [] h = refl
count-round forward c done (r ∷ rs) h =
    let e = from_of forward r in
    ground (
      arith,
      count-round forward c done rs h,
      is_visited_end e c done,
      entity_equal_sym c e,
      same_apart e c done h,
    )

pub count_full :
    {A : Type 0} (p : A → Bool) (l : List A) → length l ≤ count_if p l → All (λ a. p a ≡ true) l
unfolding count_if
count_full p [] h = tt
count_full p (a ∷ l) h = elim (Bool-cases (p a)) [
  | inl e ↦ (e, count_full p l (ground (arith, e, h)))
  | inr e ↦ absurd (ground (arith, e, h, count_if-le-length p l))
]

pub count_none :
    {A : Type 0} (p : A → Bool) (l : List A) → count_if p l ≡ 0 → All (λ a. p a ≡ false) l
unfolding count_if
count_none p [] h = tt
count_none p (a ∷ l) h = elim (Bool-cases (p a)) [
  | inl e ↦ absurd (ground (arith, e, h))
  | inr e ↦ (e, count_none p l (ground (arith, e, h)))
]
