-- ===== src/Processes/Ready/Ring.antt =====
-- The ready queue as a ring of pointers, and its last task.
use aevros.Base.{
  ℕ, zero, suc, ◌<◌, ◌≡◌, ◌≢◌, refl, sym, ◌∙◌, ap, true, false, some, List, [], ◌∷◌, ◌++◌, arith,
  ◌==◌, get_or-update_self, get_or-update_ne, length, length-update_at, All,
}
use aevros.Processes.Ready.Places.{Apart, first}
use aevros.Processes.Ready.{Task, State, no_task, next_of, link, last_of}

-- Each task points to the following one, and the last one to `end`.
pub data Links (s : State) (end : ℕ) : List ℕ → Type 0 where
  last : (x : ℕ) → next_of x s ≡ some end → Links s end (x ∷ [])
  step :
      (x y : ℕ) (xs : List ℕ)
      → next_of x s ≡ some y
      → Links s end (y ∷ xs)
      → Links s end (x ∷ (y ∷ xs))

-- The last of a list that begins with `x`.
pub final : ℕ → List ℕ → ℕ
final x [] = x
final x (y ∷ xs) = final y xs

-- The walk from `x` finds the last task, where no task on the way is the head.
pub last_of-final :
    (s : State) (head f x : ℕ) (xs : List ℕ)
    → Links s head (x ∷ xs)
    → All (λ y. head ≢ y) xs
    → length xs < f
    → last_of f head x s ≡ some (final x xs)
unfolding last_of final
last_of-final s head zero x xs l ne enough = absurd (omega arith)
last_of-final s head (suc f) x [] (last _ on) ne enough =
    let hit : (head == head) ≡ true = ground arith in rw (on, last_of, hit) refl
last_of-final s head (suc f) x (y ∷ xs) (step _ _ _ on rest) (n, ne) enough =
    let miss : (y == head) ≡ false = ground (arith, n) in
    rw (on, last_of, miss) (last_of-final s head f y xs rest ne (omega (arith, enough)))

final-ne : (z x : ℕ) (xs : List ℕ) → All (λ y. z ≢ y) (x ∷ xs) → final x xs ≢ z
unfolding final
final-ne z x [] (ne, _) e = ne (sym e)
final-ne z x (y ∷ xs) (ne, nes) e = final-ne z y xs nes e

-- A write to the pointer of another task.
link_other : (i n x : ℕ) (s : State) → i ≢ x → next_of x (link i n s) ≡ next_of x s
link_other i n x s ne =
    ap (λ (t : Task). t.next)
      (get_or-update_ne i x (λ t. record t { next = some n }) s.tasks no_task ne)

pub link_self : (i n : ℕ) (s : State) → i < length s.tasks → next_of i (link i n s) ≡ some n
link_self i n s known =
    ap (λ (t : Task). t.next)
      (get_or-update_self i (λ t. record t { next = some n }) s.tasks no_task known)

-- The ring with `t` after its last task.
pub Links-append :
    (s : State) (head t x : ℕ) (xs : List ℕ)
    → Links s head (x ∷ xs)
    → Apart (x ∷ xs)
    → All (λ y. t ≢ y) (x ∷ xs)
    → All (λ y. y < length s.tasks) (x ∷ xs)
    → t < length s.tasks
    → Links (link t head (link (final x xs) t s)) head (x ∷ (xs ++ (t ∷ [])))
unfolding final
Links-append s head t x [] (last _ on) a (ne, _) (low, _) known =
    step x t [] (link_other t head x (link x t s) ne ∙ link_self x t s low) (
      last t (
        link_self t head (link x t s) (
          omega
            (arith, known, length-update_at x (λ (k : Task). record k { next = some t }) s.tasks))))
Links-append s head t x (y ∷ xs) (step _ _ _ on rest) (first _ _ others a) (ne, nes) (low, lows)
      known =
    step x y (xs ++ (t ∷ []))
      (link_other t head x (link (final y xs) t s) ne
        ∙ (link_other (final y xs) t x s (final-ne x y xs others) ∙ on))
      (Links-append s head t y xs rest a nes lows known)
