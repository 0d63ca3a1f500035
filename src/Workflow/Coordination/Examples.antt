-- ===== src/Workflow/Coordination/Examples.antt =====
-- `submit_ready_nodes` of workflow/coordination.py for a plan of two nodes, of which one is ready.
use deterministic_cognition.Prelude.{
  ℕ, pos, String, ◌≡◌, refl, List, [], ◌∷◌, length, contains, ok, err, get, get_or, put, set_add,
  sorted, insort, is_blank, strip, lstrip, rstrip,
}
use deterministic_cognition.Orchestration.State.{
  Task, state_in, state_eq, validate_transition, can_transition, valid_transitions,
}
use deterministic_cognition.Orchestration.Service.{
  init_db, create_task, transition_task, validate_new_task, validate_priority, find_task,
  update_state, dep_snapshot, sorted_ids, dependencies_of,
}
use deterministic_cognition.Workflow.State.{WorkflowExecution, LineageEvent, executing}
use deterministic_cognition.Workflow.Definition.{WorkflowNode, WorkflowDefinition, ExecutionPlan}
use deterministic_cognition.Workflow.Planner.{node_map}
use deterministic_cognition.Workflow.Executor.Progress.{get_ready_node_ids, is_ready}
use deterministic_cognition.Workflow.Coordination.{
  find_submitted_node_ids, submitted_of, is_of, extract_node_id, extract_execution_id, Submission,
  made_ready, created, submit, submit_each, submit_ready_nodes,
}
use deterministic_cognition.Workflow.Coordination.Again.{submit_ready_nodes-again}
use deterministic_cognition.Workflow.Coordination.Listed.{to_submit, submit_ready_nodes-Names}
use deterministic_cognition.Workflow.Coordination.Rows.{IsSubmission, Matches, Keeps}
use deterministic_cognition.Orchestration.Reach.{start}
use deterministic_cognition.Orchestration.Invariant.{Reach-IsConsistent}

abbrev clock : ℕ → String
clock n = "now"

abbrev plan : ExecutionPlan
plan = record {
  workflow_id = "w";
  plan_id = "p";
  version = 1;
  stages =
      record { stage_index = 0; node_ids = "a" ∷ [] }
      ∷ record { stage_index = 1; node_ids = "b" ∷ [] }
      ∷ [];
  dependency_snapshot = ("a", []) ∷ ("b", "a" ∷ []) ∷ [];
  generated_at = "then";
  planner_version = "1.0.0";
}

abbrev node : String → List String → WorkflowNode
node id deps = record {
  node_id = id;
  task_type = "research";
  task_payload_json = "{}";
  dependency_ids = deps;
  priority = pos 0;
  tags = [];
  retry_policy = record { max_attempts = pos 1 };
  governance_requirements = [];
}

abbrev definition : WorkflowDefinition
definition = record {
  workflow_id = "w";
  name = "w";
  version = 1;
  nodes = node "a" [] ∷ node "b" ("a" ∷ []) ∷ [];
  edges = [];
  metadata_json = "{}";
  created_at = "then";
  topology_hash = "";
}

abbrev execution : WorkflowExecution
execution = record {
  execution_id = "x";
  workflow_id = "w";
  plan_id = "p";
  state = executing;
  active_stage_index = 0;
  completed_node_ids = [];
  failed_node_ids = [];
  node_attempts = [];
  created_at = "then";
  updated_at = "then";
  version = 3;
}

abbrev first : Submission
first = submit_ready_nodes clock execution "planner" plan definition init_db

abbrev returned : Submission → List Task × List LineageEvent
returned (s, ok r) = r
returned (s, err x) = ([], [])

first_returns : first ≡ (first.0, ok (returned first))
unfolding submit_ready_nodes submit_each submit created made_ready find_submitted_node_ids
    submitted_of is_of extract_node_id extract_execution_id get_ready_node_ids is_ready node_map get
    get_or put contains set_add sorted insort is_blank strip lstrip rstrip create_task
    transition_task validate_new_task validate_priority find_task update_state dep_snapshot
    sorted_ids dependencies_of state_in state_eq validate_transition can_transition
    valid_transitions
first_returns = refl

one_task : length (returned first).0 ≡ 1
unfolding submit_ready_nodes submit_each submit created made_ready find_submitted_node_ids
    submitted_of is_of extract_node_id extract_execution_id get_ready_node_ids is_ready node_map get
    get_or put contains set_add sorted insort is_blank strip lstrip rstrip create_task
    transition_task validate_new_task validate_priority find_task update_state dep_snapshot
    sorted_ids dependencies_of state_in state_eq validate_transition can_transition
    valid_transitions
one_task = refl

submit_ready_nodes-again_example :
    submit_ready_nodes clock execution "planner" plan definition first.0 ≡ (first.0, ok ([], []))
unfolding get_ready_node_ids is_ready contains get get_or
submit_ready_nodes-again_example =
    submit_ready_nodes-again clock execution "planner" plan definition init_db first.0
      (returned first) (refl, tt) first_returns

submit_ready_nodes-Names_example :
    Keeps init_db first.0
    × Matches
        (IsSubmission execution "planner" (node_map definition.nodes []) first.0)
        (to_submit execution plan init_db)
        (returned first).0
        (returned first).1
submit_ready_nodes-Names_example =
    submit_ready_nodes-Names clock execution "planner" plan definition init_db first.0
      (returned first).0 (returned first).1 (Reach-IsConsistent start) first_returns

-- 'a' is ready and has no task, 'b' waits for it
submitted_ids : to_submit execution plan init_db ≡ "a" ∷ []
unfolding get_ready_node_ids is_ready get get_or sorted insort contains
submitted_ids = refl
