-- ===== src/Processes/Ready.antt =====
-- kernel/Process/task.c: the ready queue, a ring of tasks by their `next` pointers, and the choice of
-- the next task. A pointer to a task is its place in the list of the tasks, and an operation that
-- follows a null pointer, or does not end, answers none. The critical sections run alone, and the
-- log of the events, the page tables and the context switch are not modelled.
pub mod Places
pub mod Ring
pub mod Adds
pub mod Picks
mod Examples
use aevros.Base.{
  ℕ, zero, suc, Bool, true, false, not, ◌&&◌, Option, none, some, List, [], ◌∷◌, ◌==◌,
  if◌then◌else◌, is_some, get_or, update_at, length,
}

-- `task_state_t`
pub data TaskState : Type 0 where
  ready running blocked zombie suspended quarantined : TaskState

-- What the queue uses of a `task_t`.
pub record Task : Type 0 where
  pub state : TaskState
  pub next : Option ℕ

pub record State : Type 0 where
  pub tasks : List Task
  pub ready_queue : Option ℕ
  pub current_task : Option ℕ

abbrev pub no_task : Task
no_task = record { state = ready; next = none }

abbrev pub next_of : ℕ → State → Option ℕ
next_of i s = (get_or s.tasks i no_task).next

abbrev pub set_state : ℕ → TaskState → State → State
set_state i x s = record s { tasks = update_at i (λ t. record t { state = x }) s.tasks }

-- `i->next = n`
abbrev pub link : ℕ → ℕ → State → State
link i n s = record s { tasks = update_at i (λ t. record t { next = some n }) s.tasks }

-- `while (temp->next != ready_queue) temp = temp->next;`
pub last_of : ℕ → ℕ → ℕ → State → Option ℕ
last_of zero head temp s = none
last_of (suc f) head temp s = elim (next_of temp s) [
  | none ↦ none
  | some n ↦ elim (n == head) [ true ↦ some temp | false ↦ last_of f head n s ]
]

-- `task_add_ready` once the last task of the ring is found.
pub append_after : ℕ → ℕ → Option ℕ → State → Option State
append_after t head none s = none
append_after t head (some l) s = some (link t head (link l t s))

-- The rounds of a walk over the ring are as many as there are tasks.
pub add_to : ℕ → Option ℕ → State → Option State
add_to t none s = some (link t t (record s { ready_queue = some t }))
add_to t (some head) s = append_after t head (last_of (length s.tasks) head head s) s

pub add_ready : ℕ → State → Option State
add_ready t s = add_to t s.ready_queue (set_state t ready s)

-- The loop of `task_remove_ready`: the task before `t`, or the last one.
pub before_of : ℕ → ℕ → ℕ → ℕ → State → Option ℕ
before_of zero head t temp s = none
before_of (suc f) head t temp s = elim (next_of temp s) [
  | none ↦ none
  | some n ↦ elim (n == t) [
    | true ↦ some temp
    | false ↦ elim (next_of n s) [
      | none ↦ none
      | some n' ↦ elim (n' == head) [ true ↦ some n | false ↦ before_of f head t n s ]
    ]
  ]
]

abbrev pub points_to : Option ℕ → ℕ → Bool
points_to none t = false
points_to (some n) t = n == t

-- `temp->next = task->next;`, and the new head where the task was the head.
pub unlink : ℕ → ℕ → ℕ → Option ℕ → State → Option State
unlink t head temp none s = none
unlink t head temp (some n) s =
    let s' = link temp n s in some (if head == t then record s' { ready_queue = some n } else s')

pub remove_after : ℕ → ℕ → Option ℕ → State → Option State
remove_after t head none s = none
remove_after t head (some temp) s =
    if points_to (next_of temp s) t then unlink t head temp (next_of t s) s else some s

pub remove_from : ℕ → Option ℕ → State → Option State
remove_from t none s = some s
remove_from t (some head) s =
    let s' = set_state t blocked s in
    if head == t && points_to (next_of head s') head
    then some (record s' { ready_queue = none })
    else remove_after t head (before_of (length s.tasks) head t head s') s'

pub remove_ready : ℕ → State → Option State
remove_ready t s = remove_from t s.ready_queue s

abbrev pub state_is_ready : TaskState → Bool
state_is_ready x = elim x [ ready ↦ true | _ ↦ false ]

abbrev pub is_ready : ℕ → State → Bool
is_ready i s = state_is_ready (get_or s.tasks i no_task).state

-- The loop of `pick_next_task`, which ends after 0xFFFF rounds: a task that is ready and not the
-- running one, or the fallback.
pub data Picked : Type 0 where
  found : ℕ → Picked
  ended : Option ℕ → Picked

pub pick_from : ℕ → ℕ → ℕ → Option ℕ → State → Picked
pick_from zero start temp fallback s = ended fallback
pick_from (suc guard) start temp fallback s =
    let fallback' = if not (is_some fallback) && is_ready temp s then some temp else fallback in
    elim (is_ready temp s && not (points_to s.current_task temp)) [
      | true ↦ found temp
      | false ↦ elim (next_of temp s) [
        | none ↦ ended fallback'
        | some n ↦ elim (n == start) [
          | true ↦ ended fallback'
          | false ↦ pick_from guard start n fallback' s
        ]
      ]
    ]

abbrev pub or_else : Option ℕ → ℕ → ℕ
or_else none n = n
or_else (some m) n = m

abbrev pub start_of : Option ℕ → ℕ → State → ℕ
start_of none head s = head
start_of (some c) head s = or_else (next_of c s) head

pub picked : Picked → State → Option ℕ
picked (found t) s = some t
picked (ended fallback) s = elim s.current_task [
  | none ↦ fallback
  | some c ↦ if is_ready c s then some c else fallback
]

pub pick_next_task : State → Option ℕ
pick_next_task s = elim s.ready_queue [
  | none ↦ none
  | some head ↦
      let start = start_of s.current_task head s in picked (pick_from 65535 start start none s) s
]

pub wake : ℕ → State → State
wake t s = set_state t ready s
