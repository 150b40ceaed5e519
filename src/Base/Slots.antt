-- ===== src/Base/Slots.antt =====
-- A fixed table that the code scans from index 0: the first slot that passes a test, a write
-- through the pointer to it, and the number of slots that pass.
use Prim.Native.Nat.{ℕ, zero, suc, ◌≤◌, ◌<◌}
use mathlib.Core.Path.{◌≡◌, refl}
use mathlib.Core.Bool.{Bool, true, false, not}
use mathlib.Core.Logic.{inl, inr}
use mathlib.Core.List.{List, [], ◌∷◌, map}
use mathlib.Core.Option.{Option, none, some}
use mathlib.Core.Option
use native.Mathlib.Omega.{arith}
use aevros.Base.Logic.{if◌then◌else◌, Bool-cases, is_some, ltb}
use aevros.Base.Lists.{length, replicate}

module _ {ℓ} {A : Type ℓ} where
  -- `for (i) if (p(t[i])) return &t[i]; return 0;`
  unfoldable pub find : (A → Bool) → List A → Option A
  find p [] = none
  find p (x ∷ xs) = if p x then some x else find p xs

  -- The same scan, for the index.
  unfoldable pub find_index : (A → Bool) → List A → Option ℕ
  find_index p [] = none
  find_index p (x ∷ xs) = if p x then some 0 else Option.map suc (find_index p xs)

  -- A write through the pointer that the scan returns; none if the scan finds nothing.
  unfoldable pub update_first : (A → Bool) → (A → A) → List A → List A
  update_first p f [] = []
  update_first p f (x ∷ xs) = if p x then f x ∷ xs else x ∷ update_first p f xs

  -- `for (i) if (p(t[i])) n++;`
  unfoldable pub count_if : (A → Bool) → List A → ℕ
  count_if p [] = 0
  count_if p (x ∷ xs) = if p x then suc (count_if p xs) else count_if p xs

  pub length-update_first :
      (p : A → Bool) (f : A → A) (xs : List A) → length (update_first p f xs) ≡ length xs
  unfolding update_first
  length-update_first p f [] = refl
  length-update_first p f (x ∷ xs) = ground (arith, length-update_first p f xs)

  pub count_if-le-length : (p : A → Bool) (xs : List A) → count_if p xs ≤ length xs
  unfolding count_if
  count_if-le-length p [] = omega arith
  count_if-le-length p (x ∷ xs) = ground (arith, count_if-le-length p xs)

  -- The found slot passes the test.
  pub find-passes : (p : A → Bool) (xs : List A) {a : A} → find p xs ≡ some a → p a ≡ true
  unfolding find
  find-passes p [] h = absurd (ground arith)
  find-passes p (x ∷ xs) {a} h = ground (arith, find-passes p xs {a = a})

  pub find_none→count : (p : A → Bool) (xs : List A) → find p xs ≡ none → count_if p xs ≡ 0
  unfolding find count_if
  find_none→count p [] h = refl
  find_none→count p (x ∷ xs) h = ground (arith, find_none→count p xs)

  pub count→find_none : (p : A → Bool) (xs : List A) → count_if p xs ≡ 0 → find p xs ≡ none
  unfolding find count_if
  count→find_none p [] h = refl
  count→find_none p (x ∷ xs) h = ground (arith, count→find_none p xs)

  pub find_some→count :
      (p : A → Bool) (xs : List A) {a : A} → find p xs ≡ some a → 0 < count_if p xs
  unfolding find count_if
  find_some→count p [] h = absurd (ground arith)
  find_some→count p (x ∷ xs) {a} h = ground (arith, find_some→count p xs {a = a})

-- What a write to the first slot with `p` does to a scan with `q`, and to a count.
module _ {ℓ} {A : Type ℓ} (p q : A → Bool) (f : A → A) where
  -- The write keeps the test of the slot that it goes to.
  pub find-update_self :
      (xs : List A)
      → ((a : A) → q a ≡ p a)
      → ((a : A) → p a ≡ true → q (f a) ≡ true)
      → find q (update_first p f xs) ≡ Option.map f (find p xs)
  unfolding find update_first
  find-update_self [] e h = refl
  find-update_self (x ∷ xs) e h = ground (arith, e x, h x, find-update_self xs e h)

  -- The write goes to a slot with `q`, where no slot had it.
  pub find-update_new :
      (xs : List A)
      → ((a : A) → p a ≡ true → q (f a) ≡ true)
      → find q xs ≡ none
      → find q (update_first p f xs) ≡ Option.map f (find p xs)
  unfolding find update_first
  find-update_new [] h e = refl
  find-update_new (x ∷ xs) h e = ground (arith, h x, find-update_new xs h)

  -- The slot has `q` neither before the write nor after it.
  pub find-update_other :
      (xs : List A)
      → ((a : A) → p a ≡ true → q a ≡ false)
      → ((a : A) → p a ≡ true → q (f a) ≡ false)
      → find q (update_first p f xs) ≡ find q xs
  unfolding find update_first
  find-update_other [] h k = refl
  find-update_other (x ∷ xs) h k = ground (arith, h x, k x, find-update_other xs h k)

  pub count-update_same :
      (xs : List A)
      → ((a : A) → p a ≡ true → q (f a) ≡ q a)
      → count_if q (update_first p f xs) ≡ count_if q xs
  unfolding count_if update_first
  count-update_same [] h = refl
  count-update_same (x ∷ xs) h = ground (arith, h x, count-update_same xs h)

  pub count-update_gain :
      (xs : List A)
      → ((a : A) → p a ≡ true → q a ≡ false)
      → ((a : A) → p a ≡ true → q (f a) ≡ true)
      → is_some (find p xs) ≡ true
      → count_if q (update_first p f xs) ≡ suc (count_if q xs)
  unfolding count_if update_first find
  count-update_gain [] h k s = absurd (ground arith)
  count-update_gain (x ∷ xs) h k s = ground (arith, h x, k x, count-update_gain xs h k)

  pub count-update_loss :
      (xs : List A)
      → ((a : A) → p a ≡ true → q a ≡ true)
      → ((a : A) → p a ≡ true → q (f a) ≡ false)
      → is_some (find p xs) ≡ true
      → suc (count_if q (update_first p f xs)) ≡ count_if q xs
  unfolding count_if update_first find
  count-update_loss [] h k s = absurd (ground arith)
  count-update_loss (x ∷ xs) h k s = ground (arith, h x, k x, count-update_loss xs h k)

  pub count-update_le :
      (xs : List A)
      → ((a : A) → q a ≡ false → q (f a) ≡ false)
      → count_if q (update_first p f xs) ≤ count_if q xs
  unfolding count_if update_first
  count-update_le [] h = omega arith
  count-update_le (x ∷ xs) h = ground (arith, h x, count-update_le xs h)

  pub update_first-none : (xs : List A) → find p xs ≡ none → update_first p f xs ≡ xs
  unfolding find update_first
  update_first-none [] h = refl
  update_first-none (x ∷ xs) h = ground (arith, update_first-none xs)

-- The value that passes a test, or nothing.
abbrev pub keep {ℓ} : {A : Type ℓ} → (A → Bool) → Option A → Option A
keep p none = none
keep p (some a) = if p a then some a else none

-- A pass over the whole table that may only take the test `p` away from a slot.
module _ {ℓ} {A : Type ℓ} (p : A → Bool) (g : A → A)
    (drops : (a : A) → p a ≡ false → p (g a) ≡ false) where
  pub count-map-le : (xs : List A) → count_if p (map g xs) ≤ count_if p xs
  unfolding count_if
  count-map-le [] = omega arith
  count-map-le (x ∷ xs) = ground (arith, drops x, count-map-le xs)

  pub find-map_one :
      (xs : List A) → count_if p xs ≤ 1 → find p (map g xs) ≡ keep p (Option.map g (find p xs))
  unfolding find count_if
  find-map_one [] h = refl
  find-map_one (x ∷ xs) h = elim (Bool-cases (p x)) [
    | inl hit ↦ ground (arith, count→find_none p xs, find-map_one xs)
    | inr miss ↦ ground (arith, drops x, find-map_one xs)
  ]

pub count-replicate {ℓ} :
    {A : Type ℓ} (p : A → Bool) (n : ℕ) (a : A) → p a ≡ false → count_if p (replicate n a) ≡ 0
unfolding count_if
count-replicate p zero a h = refl
count-replicate p (suc n) a h = ground (arith, h, count-replicate p n a h)

-- A slot without `p` is found exactly when fewer slots have `p` than there are.
pub find-not-count {ℓ} :
    {A : Type ℓ} (p : A → Bool) (xs : List A)
    → is_some (find (λ a. not (p a)) xs) ≡ ltb (count_if p xs) (length xs)
unfolding find count_if
find-not-count p [] = refl
find-not-count p (x ∷ xs) = ground (arith, find-not-count p xs, count_if-le-length p xs)
