-- ===== src/Workflow/Validation/Examples.antt =====
-- Validation and planning of small definitions and a snapshot of one execution: tests, and their theorems
-- at work.
use deterministic_cognition.Prelude.{
  ℕ, String, ◌≡◌, refl, true, false, List, [], ◌∷◌, ok, pos, ◌↔◌, ◌⊎◌, some, none, sorted, insort,
  put, get, get_or, remove, contains, contains_text, starts_with, is_blank,
}
use deterministic_cognition.Workflow.Definition.{
  ids_of, ExecutionPlan, WorkflowNode, ExecutionStage, WorkflowDefinition,
}
use deterministic_cognition.Workflow.Validation.{
  validate_workflow, node_errors, graph_errors, duplicate_errors, empty_errors, missing_errors,
  retry_errors, payload_errors, cycle_errors, disconnected_errors, show_list,
}
use deterministic_cognition.Workflow.Validation.Graph.{
  detect_cycles, run_kahn, empty_degrees, count_nodes, count_dependencies, with_degree, kahn_loop,
  release, components, own_parents, union_nodes, union_dependencies, union, find_root, group,
  sorted_components, insort_list, list_leb,
}
use deterministic_cognition.Workflow.Validation.Valid.{IsValid, check, validate_workflow_lem}
use deterministic_cognition.Workflow.Planner.{
  build_execution_plan, stages_of, node_map, add_edges, add_node_edges, add_edge, build_stages,
  take_nodes, decrement, zero_degree, sort_stage, insort_by, comes_first, priority_of,
}
use deterministic_cognition.Workflow.Planner.Accepted.{build_execution_plan-accepted}
use deterministic_cognition.Workflow.Planner.Stages.{Behind}
use deterministic_cognition.Workflow.Planner.Planned.{edges_of, stages_of-Behind}
use deterministic_cognition.Workflow.SnapshotPolicy.{
  SnapshotPolicy, should_snapshot, count_events_since, max_id, apply_snapshot_policy,
}
use deterministic_cognition.Workflow.SnapshotPolicy.Applied.{
  IsDue, IsTaken, apply_snapshot_policy_lem,
}
use deterministic_cognition.Workflow.Storage.{Db, load_execution, persist_snapshot, sort_items}
use deterministic_cognition.Workflow.State.{
  WorkflowExecution, LineageEvent, executing, node_submitted,
}

abbrev node : String → List String → WorkflowNode
node id deps = record {
  node_id = id;
  task_type = "step";
  task_payload_json = "{}";
  dependency_ids = deps;
  priority = pos 0;
  tags = [];
  retry_policy = record { max_attempts = pos 1 };
  governance_requirements = [];
}

abbrev definition_of : List WorkflowNode → WorkflowDefinition
definition_of nodes = record {
  workflow_id = "w";
  name = "w";
  version = 1;
  nodes = nodes;
  edges = [];
  metadata_json = "{}";
  created_at = "";
  topology_hash = "";
}

abbrev diamond : List WorkflowNode
diamond = node "d" ("b" ∷ "c" ∷ []) ∷ node "c" ("a" ∷ []) ∷ node "b" ("a" ∷ []) ∷ node "a" [] ∷ []

abbrev quoted : String → String
quoted s = s

unfoldable engine : ℕ
unfolding stages_of node_map add_edges add_node_edges add_edge build_stages take_nodes decrement
    zero_degree sort_stage insort_by comes_first priority_of sorted insort put get remove
engine = 0

unfoldable validator : ℕ
unfolding validate_workflow node_errors graph_errors duplicate_errors empty_errors missing_errors
    retry_errors payload_errors cycle_errors disconnected_errors detect_cycles run_kahn
    empty_degrees count_nodes count_dependencies with_degree kahn_loop release components
    own_parents union_nodes union_dependencies union find_root group sorted_components insort_list
    list_leb sorted insort put get get_or contains contains_text starts_with is_blank show_list
validator = 0

diamond_stages :
    stages_of diamond
    ≡ ok (
        record { stage_index = 0; node_ids = "a" ∷ [] }
        ∷ record { stage_index = 1; node_ids = "b" ∷ "c" ∷ [] }
        ∷ record { stage_index = 2; node_ids = "d" ∷ [] }
        ∷ [])
unfolding engine
diamond_stages = refl

diamond_valid : check (λ _. false) (λ _. "0.0") (λ _. true) quoted (definition_of diamond) ≡ true
unfolding validator
diamond_valid = refl

cycle_invalid :
    (validate_workflow
      (λ _. false)
      (λ _. "0.0")
      (λ _. true)
      quoted
      (definition_of (node "a" ("b" ∷ []) ∷ node "b" ("a" ∷ []) ∷ []))).errors
    ≡ "Circular dependency detected involving nodes: [a, b]" ∷ []
unfolding validator
cycle_invalid = refl

validate_workflow_lem_example :
    check (λ _. false) (λ _. "0.0") (λ _. true) quoted (definition_of diamond) ≡ true
    ↔ IsValid (λ _. false) (λ _. "0.0") (λ _. true) quoted diamond
validate_workflow_lem_example =
    validate_workflow_lem (λ _. false) (λ _. "0.0") (λ _. true) quoted (definition_of diamond)

abbrev policy : SnapshotPolicy
policy = record { events_per_snapshot = pos 2; snapshot_on_stage_advance = true }

abbrev running : WorkflowExecution
running = record {
  execution_id = "x";
  workflow_id = "w";
  plan_id = "p";
  state = executing;
  active_stage_index = 0;
  completed_node_ids = [];
  failed_node_ids = [];
  node_attempts = [];
  created_at = "then";
  updated_at = "then";
  version = 3;
}

abbrev submitted : LineageEvent
submitted = record {
  execution_id = "x";
  event_type = node_submitted;
  old_state = none;
  new_state = none;
  node_id = some "a";
  stage_index = 0;
  reason = "Submitted";
  created_at = "then";
  metadata = [];
}

-- the events 2 and 3 are stored after the last snapshot
abbrev db : Db
db = record {
  executions = running ∷ [];
  events = (1, submitted) ∷ (2, submitted) ∷ (3, submitted) ∷ [];
  last_event_id = 3;
  snapshots = [];
}

apply_snapshot_policy_lem_example :
    (IsDue policy running [] 1 db
      × ((db' : Db) × (k : ℕ) × (apply_snapshot_policy policy running (2 ∷ 3 ∷ []) [] 1 db
            ≡ ok (db', some k))
          × IsTaken running (2 ∷ 3 ∷ []) db db' k))
    ⊎ ((¬ IsDue policy running [] 1 db)
        × (apply_snapshot_policy policy running (2 ∷ 3 ∷ []) [] 1 db ≡ ok (db, none)))
apply_snapshot_policy_lem_example =
    apply_snapshot_policy_lem policy running running 2 (3 ∷ []) [] 1 db
      (unfold load_execution in refl)

snapshot_taken :
    apply_snapshot_policy policy running (2 ∷ 3 ∷ []) [] 1 db
    ≡ ok (record db { snapshots = (running, 3) ∷ [] }, some 1)
unfolding apply_snapshot_policy should_snapshot count_events_since max_id persist_snapshot
    load_execution sort_items
snapshot_taken = refl

stages_of-Behind_example :
    (stages : List ExecutionStage) × (stages_of diamond ≡ ok stages)
    × Behind (edges_of diamond []) (λ n. contains n ("d" ∷ "c" ∷ "b" ∷ "a" ∷ [])) stages
unfolding engine validator
stages_of-Behind_example =
    stages_of-Behind diamond ((refl, (refl, tt)), ((refl, tt), ((refl, tt), (tt, tt))))

build_execution_plan-accepted_example :
    (plan : ExecutionPlan) × (build_execution_plan
        (λ w v p. w)
        "now"
        (definition_of diamond)
        (validate_workflow
          (λ _. false)
          (λ _. "0.0")
          (λ _. true)
          quoted
          (definition_of diamond)).valid
        (validate_workflow
          (λ _. false)
          (λ _. "0.0")
          (λ _. true)
          quoted
          (definition_of diamond)).errors
      ≡ ok plan)
    × Behind (edges_of diamond []) (λ n. contains n (ids_of diamond)) plan.stages
build_execution_plan-accepted_example =
    build_execution_plan-accepted (λ _. false) (λ _. "0.0") (λ _. true) quoted (λ w v p. w) "now"
      (definition_of diamond) diamond_valid
