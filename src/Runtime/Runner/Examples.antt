-- ===== src/Runtime/Runner/Examples.antt =====
-- Runs of runtime/runner.py at fixed inputs: a runtime with one ready task and one handler.
use deterministic_cognition.Prelude.{
  ℕ, String, refl, Bool, false, none, some, [], ◌∷◌, pos, is_blank,
}
use deterministic_cognition.Orchestration.State.{Task, ready}
use deterministic_cognition.Orchestration.Service.{init_db}
use deterministic_cognition.Runtime.State.{RuntimeState, interrupted, idle, RuntimeConfig, Runtime}
use deterministic_cognition.Runtime.Store.{find_runtime}
use deterministic_cognition.Runtime.Store.Calls.{empty_store}
use deterministic_cognition.Runtime.World.{World}
use deterministic_cognition.Runtime.Dispatch.{Handler, HandlerOutcome, Registry}
use deterministic_cognition.Runtime.Runner.{run_iterations, recover_runtime}
use deterministic_cognition.Runtime.Runner.Ensures.{Ensures, where_is}
use deterministic_cognition.Runtime.Runner.Bounded.{Rests}
use deterministic_cognition.Runtime.Runner.Ends.{Raises, run_iterations-Ends}
use deterministic_cognition.Runtime.Runner.Recovers.{Recovered, Refused, recover_runtime-outcome}

abbrev clock : ℕ → String
clock n = "now"

-- no interrupt
abbrev quiet : ℕ → Bool
quiet n = false

abbrev config : RuntimeConfig
config = record {
  actor = "runner";
  max_iterations = some (pos 2);
  max_retries = pos 0;
  checkpoint_every = 1;
  allow_unbounded = false;
}

abbrev row : RuntimeState → Runtime
row s = record {
  id = 1;
  name = "main";
  state = s;
  orchestration_db = "tasks.db";
  config = config;
  current_iteration = 1;
  created_at = "then";
  updated_at = "then";
  version = 1;
}

abbrev task : Task
task = record {
  id = 1;
  title = "build";
  description = none;
  task_type = "build";
  state = ready;
  priority = pos 5;
  actor = "planner";
  tags = [];
  metadata = [];
  created_at = "then";
  updated_at = "then";
  version = 2;
}

abbrev world : RuntimeState → World
world s = record {
  runtimes = record empty_store { runtimes = row s ∷ []; next_runtime = 2 };
  tasks = record init_db { tasks = task ∷ []; next_task = 2 };
  ticks = 0;
  iteration = 0;
  executed = 0;
}

abbrev build : Handler
build t s = (s, HandlerOutcome.returned "{}")

abbrev registry : Registry
registry = ("build", build) ∷ []

run_iterations-Ends_example :
    Ensures
      (Rests 1 (pos 2) 1)
      (Raises 1)
      (run_iterations clock quiet 1 3 config none (some registry) (world idle))
unfolding where_is find_runtime
run_iterations-Ends_example =
    run_iterations-Ends clock quiet 1 2 config none (some registry) (pos 2) (world idle) idle 1 refl
      refl refl tt

recover_runtime-outcome_example :
    Ensures
      (Recovered 1 interrupted 1)
      (Refused interrupted (world interrupted))
      (recover_runtime clock quiet 1 "operator" none (world interrupted))
unfolding where_is find_runtime is_blank
recover_runtime-outcome_example =
    recover_runtime-outcome clock quiet 1 "operator" none (world interrupted) interrupted 1 refl
      refl
