-- ===== src/Processes/Ready/Adds.antt =====
-- `task_add_ready` on the ready queue as a list.
use aevros.Base.{
  ℕ, zero, suc, ◌<◌, ◌≡◌, ◌≢◌, refl, sym, ◌∙◌, ap, subst, true, none, some, List, [], ◌∷◌, ◌++◌,
  arith, get_or, update_at, get_or-update_self, length, length-update_at, All,
}
use aevros.Processes.Ready.Places.{Apart, first, empty, length-Apart}
use aevros.Processes.Ready.{
  TaskState, Task, State, state_is_ready, is_ready, no_task, ready, next_of, set_state, link,
  append_after, add_to, add_ready,
}
use aevros.Processes.Ready.Ring.{Links, last, step, final, last_of-final, link_self, Links-append}

-- The queue as a list: empty, or a ring that begins at the head.
pub record IsRing (s : State) (x : ℕ) (xs : List ℕ) : Type 0 where
  pub head : s.ready_queue ≡ some x
  pub links : Links s x (x ∷ xs)
  pub apart : Apart (x ∷ xs)
  pub known : All (λ y. y < length s.tasks) (x ∷ xs)

abbrev pub IsQueue : State → List ℕ → Type 0
IsQueue s [] = s.ready_queue ≡ none
IsQueue s (x ∷ xs) = IsRing s x xs

next_update :
    (t x : ℕ) (y : TaskState) (ts : List Task)
    → (get_or (update_at t (λ k. record k { state = y }) ts) x no_task).next
      ≡ (get_or ts x no_task).next
next_update zero x y [] = refl
next_update (suc t) x y [] = refl
next_update zero zero y (k ∷ ts) = refl
next_update zero (suc x) y (k ∷ ts) = refl
next_update (suc t) zero y (k ∷ ts) = refl
next_update (suc t) (suc x) y (k ∷ ts) = next_update t x y ts

All-below : (m n : ℕ) (xs : List ℕ) → n ≡ m → All (λ y. y < m) xs → All (λ y. y < n) xs
All-below m n xs e a = subst (λ k. All (λ y. y < k) xs) (sym e) a

All-append : (P : ℕ → Type 0) (xs : List ℕ) (t : ℕ) → All P xs → P t → All P (xs ++ (t ∷ []))
All-append P [] t a h = (h, tt)
All-append P (x ∷ xs) t (g, a) h = (g, All-append P xs t a h)

-- A change of the tasks that keeps their pointers keeps the queue.
next-set_state : (t x : ℕ) (y : TaskState) (s : State) → next_of x (set_state t y s) ≡ next_of x s
next-set_state t x y s = next_update t x y s.tasks

Links-set_state :
    (s : State) (end t : ℕ) (y : TaskState) (xs : List ℕ)
    → Links s end xs
    → Links (set_state t y s) end xs
Links-set_state s end t y [] l = elim l [ ]
Links-set_state s end t y (x ∷ []) (last _ on) = last x (next-set_state t x y s ∙ on)
Links-set_state s end t y (x ∷ (z ∷ xs)) (step _ _ _ on rest) =
    step x z xs (next-set_state t x y s ∙ on) (Links-set_state s end t y (z ∷ xs) rest)

IsQueue-set_state :
    (s : State) (t : ℕ) (y : TaskState) (q : List ℕ) → IsQueue s q → IsQueue (set_state t y s) q
IsQueue-set_state s t y [] h = h
IsQueue-set_state s t y (x ∷ xs) h = record {
  head = h.head;
  links = Links-set_state s x t y (x ∷ xs) h.links;
  apart = h.apart;
  known =
      All-below _ _ (x ∷ xs) (length-update_at t (λ (k : Task). record k { state = y }) s.tasks)
        h.known;
}

Apart-append : (t : ℕ) (xs : List ℕ) → Apart xs → All (λ y. t ≢ y) xs → Apart (xs ++ (t ∷ []))
Apart-append t [] a ne = first t [] tt empty
Apart-append t (x ∷ xs) (first _ _ others a) (ne, nes) =
    first x (xs ++ (t ∷ [])) (All-append _ xs t others (λ e. ne (sym e))) (Apart-append t xs a nes)

append-IsRing :
    (s : State) (t x : ℕ) (xs : List ℕ)
    → IsRing s x xs
    → All (λ y. t ≢ y) (x ∷ xs)
    → t < length s.tasks
    → IsRing (link t x (link (final x xs) t s)) x (xs ++ (t ∷ []))
append-IsRing s t x xs r ne known = record {
  head = r.head;
  links = Links-append s x t x xs r.links r.apart ne r.known known;
  apart = Apart-append t (x ∷ xs) r.apart ne;
  known =
      All-below _ _ (x ∷ (xs ++ (t ∷ [])))
        (length-update_at t (λ (k : Task). record k { next = some x }) (link (final x xs) t s).tasks
          ∙ length-update_at (final x xs) (λ (k : Task). record k { next = some t }) s.tasks)
        (All-append _ (x ∷ xs) t r.known known);
}

state_update :
    (i x n : ℕ) (ts : List Task)
    → (get_or (update_at i (λ k. record k { next = some n }) ts) x no_task).state
      ≡ (get_or ts x no_task).state
state_update zero x n [] = refl
state_update (suc i) x n [] = refl
state_update zero zero n (k ∷ ts) = refl
state_update zero (suc x) n (k ∷ ts) = refl
state_update (suc i) zero n (k ∷ ts) = refl
state_update (suc i) (suc x) n (k ∷ ts) = state_update i x n ts

link_state : (i x n : ℕ) (s : State) → is_ready x (link i n s) ≡ is_ready x s
link_state i x n s = ap state_is_ready (state_update i x n s.tasks)

set_state-ready : (t : ℕ) (s : State) → t < length s.tasks → is_ready t (set_state t ready s) ≡ true
set_state-ready t s known =
    ap (λ (k : Task). state_is_ready k.state)
      (get_or-update_self t (λ k. record k { state = ready }) s.tasks no_task known)

head_apart : (x : ℕ) (xs : List ℕ) → Apart (x ∷ xs) → All (λ y. x ≢ y) xs
head_apart x xs (first _ _ ne _) = ne

add_to-IsQueue :
    (s : State) (t : ℕ) (q : List ℕ)
    → IsQueue s q
    → All (λ y. t ≢ y) q
    → t < length s.tasks
    → (s' : State) × (add_to t s.ready_queue s ≡ some s')
      × (is_ready t s' ≡ is_ready t s)
      × IsQueue s' (q ++ (t ∷ []))
unfolding add_to append_after
add_to-IsQueue s t [] e ne known = (
  link t t (record s { ready_queue = some t }),
  ap (λ o. add_to t o s) e,
  link_state t t t s,
  record {
    head = refl;
    links = last t (link_self t t (record s { ready_queue = some t }) known);
    apart = first t [] tt empty;
    known = (
      omega (arith, known, length-update_at t (λ (k : Task). record k { next = some t }) s.tasks),
      tt,
    );
  },
)
add_to-IsQueue s t (x ∷ xs) r ne known =
    let short = length-Apart (length s.tasks) (x ∷ xs) r.apart r.known in
    let end =
      last_of-final s x (length s.tasks) x xs r.links (head_apart x xs r.apart)
        (omega (arith, short)) in
    (
      link t x (link (final x xs) t s),
      ap (λ o. add_to t o s) r.head ∙ ap (λ o. append_after t x o s) end,
      link_state t t x (link (final x xs) t s) ∙ link_state (final x xs) t t s,
      append-IsRing s t x xs r ne known,
    )

-- `task_add_ready` appends to the ready queue. Where the ready queue is a ring of known tasks, each in
-- it once, or is empty, and the task is known and not in it, the call ends, the task is ready, and the
-- queue is the same one followed by the task.
pub add_ready-IsQueue :
    (s : State) (t : ℕ) (q : List ℕ)
    → IsQueue s q
    → All (λ y. t ≢ y) q
    → t < length s.tasks
    → (s' : State) × (add_ready t s ≡ some s') × (is_ready t s' ≡ true) × IsQueue s' (q ++ (t ∷ []))
unfolding add_ready
add_ready-IsQueue s t q h ne known =
    let same = length-update_at t (λ (k : Task). record k { state = ready }) s.tasks in
    let (s', e, r, i) =
      add_to-IsQueue (set_state t ready s) t q (IsQueue-set_state s t ready q h) ne
        (omega (arith, known, same)) in
    (s', e, r ∙ set_state-ready t s known, i)
