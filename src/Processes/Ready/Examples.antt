-- ===== src/Processes/Ready/Examples.antt =====
-- Three tasks, of which two are in the ready queue.
use aevros.Base.{◌≡◌, refl, true, none, some, [], ◌∷◌, ◌++◌, arith}
use aevros.Processes.Ready.{
  State, blocked, ready, add_ready, pick_next_task, pick_from, picked, is_ready,
}
use aevros.Processes.Ready.Places.{empty, first}
use aevros.Processes.Ready.Ring.{last, step}
use aevros.Processes.Ready.Picks.{choice, pick_next_task-choice}
use aevros.Processes.Ready.Adds.{IsQueue, add_ready-IsQueue}

abbrev queue : State
queue = record {
  tasks =
      record { state = ready; next = some 1 }
      ∷ (record { state = ready; next = some 0 } ∷ (record { state = blocked; next = none } ∷ []));
  ready_queue = some 0;
  current_task = some 1;
}

queue-IsQueue : IsQueue queue (0 ∷ (1 ∷ []))
queue-IsQueue = record {
  head = refl;
  links = step 0 1 [] refl (last 1 refl);
  apart = first 0 (1 ∷ []) (omega arith, tt) (first 1 [] tt empty);
  known = (omega arith, (omega arith, tt));
}

add_ready-IsQueue_example :
    (s' : State) × (add_ready 2 queue ≡ some s')
    × (is_ready 2 s' ≡ true)
    × IsQueue s' ((0 ∷ (1 ∷ [])) ++ (2 ∷ []))
add_ready-IsQueue_example =
    add_ready-IsQueue queue 2 (0 ∷ (1 ∷ [])) queue-IsQueue (omega arith, (omega arith, tt))
      (omega arith)

picks_the_head : pick_next_task queue ≡ some 0
unfolding pick_next_task pick_from picked
picks_the_head = refl

pick_next_task-choice_example : pick_next_task queue ≡ choice (0 ∷ (1 ∷ [])) queue
pick_next_task-choice_example =
    pick_next_task-choice queue 0 (1 ∷ []) refl (step 0 1 [] refl (last 1 refl)) (omega arith, tt)
      (omega arith)
