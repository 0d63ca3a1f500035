-- ===== src/Orchestration/Examples.antt =====
-- Runs of the task service, and its theorems at work.
use deterministic_cognition.Prelude.{
  ℕ, suc, String, ◌≡◌, refl, true, false, none, some, [], ◌∷◌, Result, ok, err, pos, All, is_blank,
  contains, sorted, insort,
}
use deterministic_cognition.Orchestration.State.{
  ready, blocked, cancelled, validate_transition, state_eq, is_terminal, Task,
}
use deterministic_cognition.Orchestration.Service.{
  Store, init_db, ServiceError, NewTask, new_row, create_task, validate_new_task, validate_priority,
  transition_task, add_dependency, check_and_unblock, unblock_if, get_blocking_dependencies,
  is_blocking, has_dependency, find_task, lineage_of, dependencies_of, update_state, dep_snapshot,
}
use deterministic_cognition.Orchestration.Reach.{Step, create, Reach, start, next}
use deterministic_cognition.Orchestration.Invariant.{IsConsistent, Reach-IsConsistent}
use deterministic_cognition.Orchestration.Terminal.{
  IsResolved, Step-terminal, check_and_unblock_lem,
}

abbrev now : String
now = "2024-01-01T00:00:00Z"

abbrev job : NewTask
job = record {
  title = "survey";
  task_type = "research";
  actor = "operator";
  description = none;
  priority = pos 3;
  tags = "b" ∷ "a" ∷ [];
  metadata = [];
  reason = "Task created";
}

abbrev store_of : {A : Type 0} → Result ServiceError (Store × A) → Store
store_of (ok r) = r.0
store_of (err e) = init_db

-- opens the operations for the runs below
service : ℕ
unfolding create_task validate_new_task validate_priority transition_task validate_transition
    add_dependency check_and_unblock unblock_if get_blocking_dependencies is_blocking has_dependency
    find_task lineage_of dependencies_of update_state dep_snapshot is_blank contains sorted insort
    state_eq is_terminal
service = 0

abbrev s1 : Store
s1 = store_of (create_task now job init_db)

abbrev s2 : Store
s2 = store_of (create_task now job s1)

-- task 1 waits for task 2
abbrev s3 : Store
s3 = store_of (add_dependency now 1 2 "task_completion" s2)

abbrev s4 : Store
s4 = store_of (transition_task now 1 blocked "waits" "operator" [] s3)

abbrev s5 : Store
s5 = store_of (transition_task now 2 cancelled "dropped" "operator" [] s4)

still_blocked : check_and_unblock now 1 "system" s4 ≡ ok (s4, false)
unfolding service
still_blocked = refl

abbrev s_free : Store
s_free = store_of (transition_task now 1 blocked "waits" "operator" [] s1)

abbrev s_ready : Store
s_ready = store_of (check_and_unblock now 1 "system" s_free)

unblocks : check_and_unblock now 1 "system" s_free ≡ ok (s_ready, true)
unfolding service
unblocks = refl

abbrev dropped : Task
dropped = record {
  id = 2;
  title = "survey";
  description = none;
  task_type = "research";
  state = cancelled;
  priority = pos 3;
  actor = "operator";
  tags = "a" ∷ "b" ∷ [];
  metadata = [];
  created_at = now;
  updated_at = now;
  version = 2;
}

Reach-s1 : Reach s1
unfolding service
Reach-s1 = next start (create now job (new_row init_db job now) refl)

Reach-IsConsistent_example : IsConsistent s1
Reach-IsConsistent_example = Reach-IsConsistent Reach-s1

check_and_unblock_lem_example :
    (true ≡ true
      → ((t : Task) × (find_task 1 s_free.tasks ≡ some t)
          × (t.state ≡ blocked)
          × (find_task 1 s_ready.tasks
              ≡ some (record t { state = ready; version = suc t.version; updated_at = now })))
        × All (IsResolved s_free) (dependencies_of 1 s_free.dependencies))
    × (true ≡ false → s_ready ≡ s_free)
check_and_unblock_lem_example = check_and_unblock_lem now 1 "system" s_free s_ready true unblocks

abbrev s6 : Store
s6 = store_of (create_task now job s5)

third : Step s5 s6
unfolding service
third = create now job (new_row s5 job now) refl

-- the cancelled task 2 keeps its row when task 3 is created
Step-terminal_example : find_task 2 s6.tasks ≡ some dropped
unfolding service
Step-terminal_example = Step-terminal 2 dropped third refl refl
