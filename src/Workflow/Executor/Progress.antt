-- ===== src/Workflow/Executor/Progress.antt =====
-- workflow/executor.py, the functions that only read: what an execution can still do.
pub mod Liveness
use deterministic_cognition.Prelude.{
  ℕ, suc, String, Bool, true, false, not, ◌&&◌, ◌||◌, Option, none, some, List, [], ◌∷◌, get_or,
  contains, to_set, length, get_elem?, keep, all, eqb, ltb, if◌then◌else◌,
}
use deterministic_cognition.Workflow.State.{
  State, executing, blocked, completed, failed, cancelled, WorkflowExecution, StageExecution,
}
use deterministic_cognition.Workflow.Definition.{ExecutionPlan, all_node_ids}
use deterministic_cognition.Workflow.Downstream.{compute_downstream_blocked}

-- `execution.state in ('failed', 'cancelled', 'completed')`
abbrev pub is_settled : State → Bool
is_settled failed = true
is_settled cancelled = true
is_settled completed = true
is_settled _ = false

-- neither completed, nor failed, nor downstream of a failure
abbrev pub is_runnable : List String → List String → List String → String → Bool
is_runnable completed_ids failed_ids blocked_ids n =
    not (contains n completed_ids) && not (contains n failed_ids) && not (contains n blocked_ids)

abbrev pub is_nil {ℓ} : {A : Type ℓ} → List A → Bool
is_nil [] = true
is_nil (_ ∷ _) = false

unfoldable pub still_runnable : WorkflowExecution → ExecutionPlan → List String
still_runnable e plan =
    let downstream =
      compute_downstream_blocked (to_set e.failed_node_ids) plan.dependency_snapshot in
    keep (is_runnable e.completed_node_ids e.failed_node_ids downstream) (all_node_ids plan)

unfoldable pub detect_outcome : WorkflowExecution → ExecutionPlan → State
unfolding still_runnable
detect_outcome e plan =
    if is_settled e.state
    then e.state
    else if all (λ n. contains n e.completed_node_ids) (all_node_ids plan)
    then completed
    else if is_nil e.failed_node_ids
    then executing
    else if is_nil (still_runnable e plan)
    then blocked
    else executing

-- the test of `get_ready_node_ids`
unfoldable pub is_ready : WorkflowExecution → ExecutionPlan → String → Bool
is_ready e plan nid =
    if contains nid e.completed_node_ids || contains nid e.failed_node_ids
    then false
    else all (λ dep. contains dep e.completed_node_ids) (get_or nid plan.dependency_snapshot [])

unfoldable pub get_ready_node_ids : WorkflowExecution → ExecutionPlan → List String
unfolding is_ready
get_ready_node_ids e plan = keep (is_ready e plan) (all_node_ids plan)

unfoldable pub get_blocked_node_ids : WorkflowExecution → ExecutionPlan → List String
get_blocked_node_ids e plan =
    let downstream =
      compute_downstream_blocked (to_set e.failed_node_ids) plan.dependency_snapshot in
    if is_nil e.failed_node_ids
    then []
    else keep
        (λ nid.
          contains nid downstream
          && not (contains nid e.completed_node_ids)
          && not (contains nid e.failed_node_ids))
        (all_node_ids plan)

-- `none` is the `IndexError` of `plan.stages[stage_index]`
unfoldable pub compute_stage_execution :
    WorkflowExecution → ExecutionPlan → ℕ → Option StageExecution
compute_stage_execution e plan i = elim (get_elem? plan.stages i) [
  | none ↦ none
  | some stage ↦
      let done = keep (λ n. contains n e.completed_node_ids) stage.node_ids in
      let lost = keep (λ n. contains n e.failed_node_ids) stage.node_ids in
      some (record {
        stage_index = i;
        node_ids = stage.node_ids;
        completed_node_ids = done;
        failed_node_ids = lost;
        pending_node_ids =
            keep (λ n. not (contains n e.completed_node_ids) && not (contains n e.failed_node_ids))
              stage.node_ids;
        is_complete = eqb (length done) (length stage.node_ids);
        has_failures = ltb 0 (length lost);
      })
]
