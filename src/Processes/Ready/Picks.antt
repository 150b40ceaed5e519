-- ===== src/Processes/Ready/Picks.antt =====
-- The task that `pick_next_task` takes.
use aevros.Base.{
  ℕ, zero, suc, ◌<◌, ◌≡◌, ◌≢◌, refl, ◌∙◌, ap, Bool, true, false, not, ◌&&◌, Option, none, some,
  List, [], ◌∷◌, arith, ◌==◌, if◌then◌else◌, length, find, All,
}
use aevros.Processes.Ready.{
  State, is_ready, points_to, Picked, found, ended, pick_from, start_of, picked, pick_next_task,
}
use aevros.Processes.Ready.Ring.{Links, last, step}

-- A ready task that is not the running one.
abbrev pub eligible : State → ℕ → Bool
eligible s t = is_ready t s && not (points_to s.current_task t)

abbrev pub ready_in : State → ℕ → Bool
ready_in s t = is_ready t s

-- The first of the ring that is eligible; else the running task where it is ready, or any ready one.
abbrev pub or_current : Option ℕ → Option ℕ → State → Option ℕ
or_current none any s = any
or_current (some c) any s = if is_ready c s then some c else any

abbrev pub first_choice : Option ℕ → Option ℕ → State → Option ℕ
first_choice (some t) any s = some t
first_choice none any s = or_current s.current_task any s

pub choice : List ℕ → State → Option ℕ
choice ring s = first_choice (find (eligible s) ring) (find (ready_in s) ring) s

either : Option ℕ → Option ℕ → Option ℕ
either none b = b
either (some a) b = some a

outcome : Option ℕ → Option ℕ → Picked
outcome (some t) any = found t
outcome none any = ended any

pick_from-find :
    (guard start x : ℕ) (xs : List ℕ) (fallback : Option ℕ) (s : State)
    → Links s start (x ∷ xs)
    → All (λ y. start ≢ y) xs
    → length xs < guard
    → pick_from guard start x fallback s
      ≡ outcome (find (eligible s) (x ∷ xs)) (either fallback (find (ready_in s) (x ∷ xs)))
unfolding pick_from outcome either find
pick_from-find zero start x xs fallback s l ne enough = absurd (omega arith)
pick_from-find (suc guard) start x [] none s (last _ on) ne enough =
    let hit : (start == start) ≡ true = ground arith in ground (arith, on, hit)
pick_from-find (suc guard) start x [] (some fb) s (last _ on) ne enough =
    let hit : (start == start) ≡ true = ground arith in ground (arith, on, hit)
pick_from-find (suc guard) start x (y ∷ xs) none s (step _ _ _ on rest) (n, ne) enough =
    let miss : (y == start) ≡ false = ground (arith, n) in
    let low : length xs < guard = omega (arith, enough) in
    let without_one = pick_from-find guard start y xs none s rest ne low in
    let with_one = pick_from-find guard start y xs (some x) s rest ne low in
    ground (arith, on, miss, without_one, with_one)
pick_from-find (suc guard) start x (y ∷ xs) (some fb) s (step _ _ _ on rest) (n, ne) enough =
    let miss : (y == start) ≡ false = ground (arith, n) in
    let low : length xs < guard = omega (arith, enough) in
    let with_one = pick_from-find guard start y xs (some fb) s rest ne low in
    ground (arith, on, miss, with_one)

picked-outcome : (a b : Option ℕ) (s : State) → picked (outcome a b) s ≡ first_choice a b s
unfolding picked outcome
picked-outcome (some t) b s = refl
picked-outcome none b s = ground arith

-- `pick_next_task` takes the first ready task that is not the running one, where the queue is not empty
-- and the ring that begins after the running task, or at the head where no task runs or the running one
-- points nowhere, has 65535 tasks or fewer. Where there is none, it takes the running task if that is
-- ready, and else any ready one.
pub pick_next_task-choice :
    (s : State) (head : ℕ) (ys : List ℕ)
    → s.ready_queue ≡ some head
    → Links s (start_of s.current_task head s) (start_of s.current_task head s ∷ ys)
    → All (λ y. start_of s.current_task head s ≢ y) ys
    → length ys < 65535
    → pick_next_task s ≡ choice (start_of s.current_task head s ∷ ys) s
unfolding pick_next_task choice either
pick_next_task-choice s head ys h l ne few =
    let start = start_of s.current_task head s in
    let from : (o : Option ℕ) → Option ℕ = λ o. elim o [
      | none ↦ none
      | some x ↦
          picked
            (pick_from 65535 (start_of s.current_task x s) (start_of s.current_task x s) none s) s
    ] in
    ap from h
    ∙ ap (λ p. picked p s) (pick_from-find 65535 start start ys none s l ne few)
    ∙ picked-outcome (find (eligible s) (start ∷ ys)) (find (ready_in s) (start ∷ ys)) s
