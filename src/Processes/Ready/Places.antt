-- ===== src/Processes/Ready/Places.antt =====
-- The tasks of the ring are places in the list of the tasks, each once: the ring is no longer than the
-- list, so the rounds of a walk over it suffice.
use aevros.Base.{
  ℕ, zero, suc, ◌≤◌, ◌<◌, ◌≡◌, ◌≢◌, refl, inl, inr, subst, true, false, List, [], ◌∷◌, arith, ◌==◌,
  length, All, Bool-cases,
}

-- Each place is in the list once.
pub data Apart : List ℕ → Type 0 where
  empty : Apart []
  first : (x : ℕ) (xs : List ℕ) → All (λ y. x ≢ y) xs → Apart xs → Apart (x ∷ xs)

without : ℕ → List ℕ → List ℕ
without n [] = []
without n (x ∷ xs) = elim (x == n) [ true ↦ without n xs | false ↦ x ∷ without n xs ]

without-All : (P : ℕ → Type 0) (n : ℕ) (xs : List ℕ) → All P xs → All P (without n xs)
unfolding without
without-All P n [] a = tt
without-All P n (x ∷ xs) (h, a) = elim (Bool-cases (x == n)) [
  | inl hit ↦ rw (without, hit) (without-All P n xs a)
  | inr miss ↦ rw (without, miss) (h, without-All P n xs a)
]

without-Apart : (n : ℕ) (xs : List ℕ) → Apart xs → Apart (without n xs)
unfolding without
without-Apart n [] a = empty
without-Apart n (x ∷ xs) (first _ _ ne a) = elim (Bool-cases (x == n)) [
  | inl hit ↦ rw (without, hit) (without-Apart n xs a)
  | inr miss ↦
      rw (without, miss)
        (first x (without n xs) (without-All (λ y. x ≢ y) n xs ne) (without-Apart n xs a))
]

without-below : (n : ℕ) (xs : List ℕ) → All (λ y. y < suc n) xs → All (λ y. y < n) (without n xs)
unfolding without
without-below n [] a = tt
without-below n (x ∷ xs) (low, a) = elim (Bool-cases (x == n)) [
  | inl hit ↦ rw (without, hit) (without-below n xs a)
  | inr miss ↦ rw (without, miss) (ground (arith, low, miss), without-below n xs a)
]

length-without_all : (n : ℕ) (xs : List ℕ) → All (λ y. n ≢ y) xs → length (without n xs) ≡ length xs
unfolding without
length-without_all n [] a = refl
length-without_all n (x ∷ xs) (ne, a) = ground (arith, ne, length-without_all n xs a)

length-without : (n : ℕ) (xs : List ℕ) → Apart xs → length xs ≤ suc (length (without n xs))
unfolding without
length-without n [] a = omega arith
length-without n (x ∷ xs) (first _ _ ne a) = elim (Bool-cases (x == n)) [
  | inl hit ↦
      let e : x ≡ n = ground (arith, hit) in
      let same : length (without n xs) ≡ length xs =
        length-without_all n xs (subst (λ m. All (λ y. m ≢ y) xs) e ne) in
      rw (without, hit) (omega (arith, same))
  | inr miss ↦ let rest = length-without n xs a in rw (without, miss) (omega (arith, rest))
]

pub length-Apart : (n : ℕ) (xs : List ℕ) → Apart xs → All (λ y. y < n) xs → length xs ≤ n
length-Apart zero [] a low = omega arith
length-Apart zero (x ∷ xs) a (low, _) = absurd (omega (arith, low))
length-Apart (suc n) xs a low =
    let rest = length-Apart n (without n xs) (without-Apart n xs a) (without-below n xs low) in
    let drop = length-without n xs a in omega (arith, rest, drop)
