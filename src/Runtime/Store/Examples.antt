-- ===== src/Runtime/Store/Examples.antt =====
-- Runs of the calls of runtime/state_store.py at fixed inputs.
use deterministic_cognition.Prelude.{◌≡◌, refl, false, some, List, [], ◌∷◌, pos, is_blank, length}
use deterministic_cognition.Runtime.State.{
  idle, stopped, RuntimeConfig, validate_runtime_transition, can_transition, valid_transitions,
  state_in, state_eq,
}
use deterministic_cognition.Runtime.Store.{
  find_runtime, update_runtime, moved, register_runtime, transition_runtime, save_checkpoint,
}
use deterministic_cognition.Runtime.Store.Traced.{IsTraced}
use deterministic_cognition.Runtime.Store.Calls.{
  empty_store, Call, perform, perform_all, perform_all-IsTraced,
}

abbrev config : RuntimeConfig
config = record {
  actor = "runner";
  max_iterations = some (pos 3);
  max_retries = pos 0;
  checkpoint_every = 1;
  allow_unbounded = false;
}

-- the third call raises: 'stopped' is terminal
abbrev calls : List Call
calls =
    Call.register "t0" "main" "tasks.db" config
    ∷ Call.transition "t1" 1 stopped "halt" 0 []
    ∷ Call.transition "t2" 1 idle "again" 0 []
    ∷ Call.checkpoint "t3" 1 0 [] "kept"
    ∷ []

perform_all-IsTraced_example : IsTraced (perform_all calls empty_store)
perform_all-IsTraced_example = perform_all-IsTraced calls

events : length (perform_all calls empty_store).lineage ≡ 2
unfolding perform_all perform register_runtime transition_runtime save_checkpoint find_runtime
    update_runtime moved validate_runtime_transition can_transition valid_transitions state_in
    state_eq is_blank
events = refl
