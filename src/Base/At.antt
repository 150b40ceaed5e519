-- ===== src/Base/At.antt =====
-- A write through `&t[i]`, and the index that a scan finds.
use Prim.Native.Nat.{ℕ, zero, suc, ◌≤◌, ◌<◌}
use mathlib.Core.Path.{◌≡◌, refl, ap, subst}
use mathlib.Core.Logic.{◌≢◌, inl, inr}
use mathlib.Core.Bool.{Bool, true, false}
use mathlib.Core.List.{List, [], ◌∷◌}
use mathlib.Core.Option.{Option, none, some}
use mathlib.Core.Option
use native.Mathlib.Omega.{arith}
use aevros.Base.Logic.{Bool-cases, is_some}
use aevros.Base.Lists.{length, get_elem?, get_or, replicate}
use aevros.Base.Slots.{find, find_index, update_first, count_if}

module _ {ℓ} {A : Type ℓ} where
  -- An index out of bounds changes nothing.
  abbrev pub update_at : ℕ → (A → A) → List A → List A
  update_at i f [] = []
  update_at zero f (x ∷ xs) = f x ∷ xs
  update_at (suc i) f (x ∷ xs) = x ∷ update_at i f xs

  pub length-update_at : (i : ℕ) (f : A → A) (xs : List A) → length (update_at i f xs) ≡ length xs
  length-update_at zero f [] = refl
  length-update_at (suc i) f [] = refl
  length-update_at zero f (x ∷ xs) = refl
  length-update_at (suc i) f (x ∷ xs) = ap suc (length-update_at i f xs)

  pub get_elem?-update_self :
      (i : ℕ) (f : A → A) (xs : List A)
      → get_elem? (update_at i f xs) i ≡ Option.map f (get_elem? xs i)
  get_elem?-update_self zero f [] = refl
  get_elem?-update_self (suc i) f [] = refl
  get_elem?-update_self zero f (x ∷ xs) = refl
  get_elem?-update_self (suc i) f (x ∷ xs) = get_elem?-update_self i f xs

  pub get_elem?-update_ne :
      (i j : ℕ) (f : A → A) (xs : List A) → i ≢ j → get_elem? (update_at i f xs) j ≡ get_elem? xs j
  get_elem?-update_ne zero j f [] h = refl
  get_elem?-update_ne (suc i) j f [] h = refl
  get_elem?-update_ne zero zero f (x ∷ xs) h = absurd (h refl)
  get_elem?-update_ne zero (suc j) f (x ∷ xs) h = refl
  get_elem?-update_ne (suc i) zero f (x ∷ xs) h = refl
  get_elem?-update_ne (suc i) (suc j) f (x ∷ xs) h =
      get_elem?-update_ne i j f xs (λ e. h (ap suc e))

  pub get_elem?-some : (i : ℕ) (xs : List A) → i < length xs → (a : A) × (get_elem? xs i ≡ some a)
  get_elem?-some i [] h = absurd (omega arith)
  get_elem?-some zero (x ∷ xs) h = (x, refl)
  get_elem?-some (suc i) (x ∷ xs) h = get_elem?-some i xs (omega arith)

  -- A write that keeps a test keeps the count of the slots that pass it.
  pub count-update_at :
      (i : ℕ) (f : A → A) (q : A → Bool) (xs : List A)
      → ((a : A) → q (f a) ≡ q a)
      → count_if q (update_at i f xs) ≡ count_if q xs
  unfolding count_if
  count-update_at zero f q [] h = refl
  count-update_at (suc i) f q [] h = refl
  count-update_at zero f q (x ∷ xs) h = ground (arith, h x)
  count-update_at (suc i) f q (x ∷ xs) h = ground (arith, count-update_at i f q xs h)

  pub count-update_at_le :
      (i : ℕ) (f : A → A) (q : A → Bool) (xs : List A)
      → ((a : A) → q a ≡ false → q (f a) ≡ false)
      → count_if q (update_at i f xs) ≤ count_if q xs
  unfolding count_if
  count-update_at_le zero f q [] h = omega arith
  count-update_at_le (suc i) f q [] h = omega arith
  count-update_at_le zero f q (x ∷ xs) h = ground (arith, h x)
  count-update_at_le (suc i) f q (x ∷ xs) h = ground (arith, count-update_at_le i f q xs h)

  -- The index found is in bounds, and its slot is the one that the scan for a slot finds.
  pub find_index-find :
      (p : A → Bool) (xs : List A) (i : ℕ)
      → find_index p xs ≡ some i
      → (i < length xs) × (get_elem? xs i ≡ find p xs) × (is_some (find p xs) ≡ true)
  unfolding find_index find
  find_index-find p [] i h = absurd (ground arith)
  find_index-find p (x ∷ xs) zero h = ground arith
  find_index-find p (x ∷ xs) (suc i) h = ground (arith, find_index-find p xs i)

  pub is_some-find_index :
      (p : A → Bool) (xs : List A) → is_some (find_index p xs) ≡ is_some (find p xs)
  unfolding find_index find
  is_some-find_index p [] = refl
  is_some-find_index p (x ∷ xs) = ground (arith, is_some-find_index p xs)

  -- The write at the first slot with `p` makes that index the first with `q`.
  pub find_index-update_new :
      (p q : A → Bool) (f : A → A) (xs : List A)
      → ((a : A) → p a ≡ true → q (f a) ≡ true)
      → find q xs ≡ none
      → find_index q (update_first p f xs) ≡ find_index p xs
  unfolding find_index find update_first
  find_index-update_new p q f [] h e = refl
  find_index-update_new p q f (x ∷ xs) h e = ground (arith, h x, find_index-update_new p q f xs h)

  -- A predicate on every slot.
  abbrev pub All {κ} : (A → Type κ) → List A → Type κ
  All P [] = Unit
  All P (x ∷ xs) = P x × All P xs

  pub All-mono {κ} : (P Q : A → Type κ) (xs : List A) → ((a : A) → P a → Q a) → All P xs → All Q xs
  All-mono P Q [] f a = tt
  All-mono P Q (x ∷ xs) f (h, a) = (f x h, All-mono P Q xs f a)

  pub All-update_first {κ} :
      (P : A → Type κ) (p : A → Bool) (f : A → A) (xs : List A)
      → ((a : A) → P a → P (f a))
      → All P xs
      → All P (update_first p f xs)
  unfolding update_first
  All-update_first P p f [] h a = tt
  All-update_first P p f (x ∷ xs) h (a, rest) = elim (Bool-cases (p x)) [
    | inl hit ↦ rw hit (h x a, rest)
    | inr miss ↦ rw miss (a, All-update_first P p f xs h rest)
  ]

  pub All-update_at {κ} :
      (P : A → Type κ) (i : ℕ) (f : A → A) (xs : List A)
      → ((a : A) → get_elem? xs i ≡ some a → P a → P (f a))
      → All P xs
      → All P (update_at i f xs)
  All-update_at P zero f [] h a = tt
  All-update_at P (suc i) f [] h a = tt
  All-update_at P zero f (x ∷ xs) h (a, rest) = (h x refl a, rest)
  All-update_at P (suc i) f (x ∷ xs) h (a, rest) = (a, All-update_at P i f xs h rest)

  pub All-get {κ} :
      (P : A → Type κ) (i : ℕ) (xs : List A) (a : A) → All P xs → get_elem? xs i ≡ some a → P a
  All-get P i [] a all h = absurd (ground arith)
  All-get P zero (x ∷ xs) a all h = let e : x ≡ a = cc in subst P e all.0
  All-get P (suc i) (x ∷ xs) a all h = All-get P i xs a all.1 h

  pub All-replicate {κ} : (P : A → Type κ) (n : ℕ) (a : A) → P a → All P (replicate n a)
  All-replicate P zero a h = tt
  All-replicate P (suc n) a h = (h, All-replicate P n a h)

module _ {ℓ} {A : Type ℓ} where
  pub get_elem?-update_first :
      (p : A → Bool) (f : A → A) (xs : List A) (i : ℕ)
      → find_index p xs ≡ some i
      → get_elem? (update_first p f xs) i ≡ Option.map f (get_elem? xs i)
  unfolding find_index update_first
  get_elem?-update_first p f [] i h = refl
  get_elem?-update_first p f (x ∷ xs) zero h = ground arith
  get_elem?-update_first p f (x ∷ xs) (suc i) h = ground (arith, get_elem?-update_first p f xs i)

  pub update_at-update_at :
      (i : ℕ) (f g : A → A) (xs : List A)
      → update_at i g (update_at i f xs) ≡ update_at i (λ a. g (f a)) xs
  update_at-update_at zero f g [] = refl
  update_at-update_at (suc i) f g [] = refl
  update_at-update_at zero f g (x ∷ xs) = refl
  update_at-update_at (suc i) f g (x ∷ xs) = ap (◌∷◌ x) (update_at-update_at i f g xs)

  pub get_or-update_self :
      (i : ℕ) (f : A → A) (xs : List A) (d : A)
      → i < length xs
      → get_or (update_at i f xs) i d ≡ f (get_or xs i d)
  get_or-update_self i f [] d h = absurd (omega arith)
  get_or-update_self zero f (x ∷ xs) d h = refl
  get_or-update_self (suc i) f (x ∷ xs) d h = get_or-update_self i f xs d (omega arith)

  pub get_or-update_ne :
      (i j : ℕ) (f : A → A) (xs : List A) (d : A)
      → i ≢ j
      → get_or (update_at i f xs) j d ≡ get_or xs j d
  get_or-update_ne zero j f [] d h = refl
  get_or-update_ne (suc i) j f [] d h = refl
  get_or-update_ne zero zero f (x ∷ xs) d h = absurd (h refl)
  get_or-update_ne zero (suc j) f (x ∷ xs) d h = refl
  get_or-update_ne (suc i) zero f (x ∷ xs) d h = refl
  get_or-update_ne (suc i) (suc j) f (x ∷ xs) d h = get_or-update_ne i j f xs d (λ e. h (ap suc e))

pub All-get_or {ℓ κ} :
    {A : Type ℓ} (P : A → Type κ) (i : ℕ) (xs : List A) (d : A) → P d → All P xs → P (get_or xs i d)
All-get_or P i [] d h a = h
All-get_or P zero (x ∷ xs) d h a = a.0
All-get_or P (suc i) (x ∷ xs) d h a = All-get_or P i xs d h a.1

-- The slot at the index that a scan finds.
pub find_index-get_or {ℓ} :
    {A : Type ℓ} (p : A → Bool) (i : ℕ) (xs : List A) (d : A)
    → find_index p xs ≡ some i
    → p (get_or xs i d) ≡ true
unfolding find_index
find_index-get_or p i [] d h = absurd (ground arith)
find_index-get_or p zero (x ∷ xs) d h = ground (arith, h)
find_index-get_or p (suc i) (x ∷ xs) d h = ground (arith, h, find_index-get_or p i xs d)
