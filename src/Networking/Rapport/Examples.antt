-- ===== src/Networking/Rapport/Examples.antt =====
-- A conversation that both sides close at once.
use aevros.Base.{refl, replicate, set, arith}
use aevros.Networking.Conversation.{closed, established}
use aevros.Networking.Scheduler
use aevros.Networking.Rapport.{State, blank, zeroed}
use aevros.Networking.Rapport.Diagram.{table}
use aevros.Networking.Rapport.Steps.{closes, step, Effect, step-Effect}
use aevros.Networking.Rapport.Goodbye.{At, Gone}
use aevros.Networking.Rapport.Ends.{at_once, script, run, run-script_ends}

abbrev talking : State
talking = record zeroed {
  sched = record Scheduler.zeroed { status = set (replicate 64 closed) 3 established };
}

talking-At : At 3 established blank talking
talking-At = record { sized = refl; slots = refl; boxes = refl; status = refl; slot = refl }

step-Effect_example : Effect (closes 3 900) (table talking) (table (step talking (closes 3 900)))
step-Effect_example = step-Effect talking (closes 3 900)

run-script_ends_example : Gone 3 (run talking (script at_once 3 900 901 50 460))
run-script_ends_example =
    run-script_ends at_once 3 900 901 50 460 blank talking (omega arith) talking-At (omega arith)
      (omega arith) (omega arith)
