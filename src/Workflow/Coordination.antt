-- ===== src/Workflow/Coordination.antt =====
-- workflow/coordination.py: the tasks of the orchestration service for the nodes of an execution that are
-- ready. Each call of the service is a transaction of its own, so a call that raises after others leaves
-- what they wrote. `clock` gives the answers of `_now()`, one for each call of the service.
pub mod Submitted
pub mod Again
pub mod Rows
pub mod Open
pub mod Listed
pub mod Examples
use deterministic_cognition.Prelude.{
  ℕ, zero, suc, pos, String, ◌⧺◌, ◌==◌, show, Bool, true, false, not, ◌&&◌, ◌||◌, Option, none,
  some, List, [], ◌∷◌, Dict, get, put, contains, set_add, strip, Result, ok, err, if◌then◌else◌,
}
use deterministic_cognition.Orchestration.State.{
  TaskState, pending, ready, running, state_in as task_state_in, Task,
}
use deterministic_cognition.Orchestration.Service.{
  Store, ServiceError, NewTask, create_task, transition_task,
}
use deterministic_cognition.Workflow.State.{WorkflowExecution, LineageEvent, node_submitted}
use deterministic_cognition.Workflow.Definition.{WorkflowNode, WorkflowDefinition, ExecutionPlan}
use deterministic_cognition.Workflow.Planner.{node_map}
use deterministic_cognition.Workflow.Executor.Progress.{get_ready_node_ids}
use deterministic_cognition.Workflow.Executor.{
  ExecutorError, Outcome, record_node_completed, record_node_failed,
}

-- `_ACTIVE_TASK_STATES`
abbrev pub active_task_states : List TaskState
active_task_states = pending ∷ ready ∷ running ∷ []

-- what `submit_ready_nodes` raises: a `KeyError` of the map of the nodes, or an error of the service
pub data CoordinationError : Type 0 where
  key_error : String → CoordinationError
  service_error : ServiceError → CoordinationError

abbrev pub build_task_metadata : String → String → Dict String
build_task_metadata execution_id node_id =
    ("workflow_execution_id", execution_id) ∷ ("workflow_node_id", node_id) ∷ []

unfoldable pub extract_node_id : Task → Option String
extract_node_id t = get "workflow_node_id" t.metadata

unfoldable pub extract_execution_id : Task → Option String
extract_execution_id t = get "workflow_execution_id" t.metadata

abbrev pub is_text : Option String → String → Bool
is_text none x = false
is_text (some y) x = y == x

-- the row is of an active task of the execution
unfoldable pub is_of : String → Task → Bool
unfolding extract_execution_id
is_of execution_id t =
    task_state_in t.state active_task_states && is_text (extract_execution_id t) execution_id

-- `if nid: submitted.add(nid)`
abbrev pub add_node : Option String → List String → List String
add_node none submitted = submitted
add_node (some x) submitted = if x == "" then submitted else set_add x submitted

unfoldable pub submitted_of : String → List Task → List String → List String
unfolding is_of extract_node_id
submitted_of execution_id [] submitted = submitted
submitted_of execution_id (t ∷ ts) submitted =
    submitted_of execution_id ts
      (if is_of execution_id t then add_node (extract_node_id t) submitted else submitted)

unfoldable pub find_submitted_node_ids : Store → String → List String
unfolding submitted_of
find_submitted_node_ids s execution_id = submitted_of execution_id s.tasks []

-- `_payload.strip() not in ('{}', '')`, where `node.task_payload_json or '{}'` is the payload
abbrev pub has_payload : String → Bool
has_payload payload = not ((strip payload == "{}") || (strip payload == ""))

abbrev pub node_metadata : String → WorkflowNode → String → Dict String
node_metadata execution_id node node_id =
    if has_payload node.task_payload_json
    then put "task_payload_json" node.task_payload_json (build_task_metadata execution_id node_id)
    else build_task_metadata execution_id node_id

abbrev pub new_task : WorkflowExecution → WorkflowNode → String → String → NewTask
new_task e node node_id actor = record {
  title = "wf:" ⧺ e.workflow_id ⧺ ":" ⧺ node_id;
  task_type = node.task_type;
  actor = actor;
  description = none;
  priority = pos 3;
  tags = [];
  metadata = node_metadata e.execution_id node node_id;
  reason = "Workflow coordinator: submitting node " ⧺ node_id;
}

abbrev pub submission_event : WorkflowExecution → String → Task → LineageEvent
submission_event e node_id task = record {
  execution_id = e.execution_id;
  event_type = node_submitted;
  old_state = none;
  new_state = none;
  node_id = some node_id;
  stage_index = e.active_stage_index;
  reason = "Submitted as orchestration task " ⧺ show task.id;
  created_at = task.updated_at;
  metadata = [];
}

abbrev pub Submission : Type 0
Submission = Store × Result CoordinationError (List Task × List LineageEvent)

-- the entries of one node before those of the nodes after it
abbrev pub before : Task → LineageEvent → Submission → Submission
before task event (s, ok (tasks, events)) = (s, ok (task ∷ tasks, event ∷ events))
before task event (s, err x) = (s, err x)

module _ (clock : ℕ → String) (e : WorkflowExecution) (actor : String) where
  -- `transition_task` to 'ready', and what follows it
  unfoldable pub made_ready :
      ℕ → String → Store → Result ServiceError (Store × Task) → (Store → Submission) → Submission
  made_ready tick node_id s (err x) rest = (s, err (service_error x))
  made_ready tick node_id s (ok (s', task)) rest =
      before task (submission_event e node_id task) (rest s')

  unfoldable pub created :
      ℕ → String → Store → Result ServiceError (Store × Task) → (Store → Submission) → Submission
  unfolding made_ready
  created tick node_id s (err x) rest = (s, err (service_error x))
  created tick node_id s (ok (s', task)) rest =
      made_ready tick node_id s'
        (transition_task (clock (suc tick)) task.id ready
          "Workflow coordinator: node ready for execution" actor [] s')
        rest

  unfoldable pub submit :
      ℕ → String → Store → Option WorkflowNode → (Store → Submission) → Submission
  unfolding created
  submit tick node_id s none rest = (s, err (key_error node_id))
  submit tick node_id s (some node) rest =
      created tick node_id s (create_task (clock tick) (new_task e node node_id actor) s) rest

  -- the loop over the nodes that are ready
  unfoldable pub submit_each :
      ℕ → Dict WorkflowNode → List String → List String → Store → Submission
  unfolding submit
  submit_each tick nodes submitted [] s = (s, ok ([], []))
  submit_each tick nodes submitted (node_id ∷ ids) s =
      let skipped = submit_each tick nodes submitted ids s in
      let taken =
        submit tick node_id s (get node_id nodes)
          (submit_each (suc (suc tick)) nodes submitted ids) in
      if contains node_id submitted then skipped else taken

  unfoldable pub submit_ready_nodes : ExecutionPlan → WorkflowDefinition → Store → Submission
  unfolding submit_each
  submit_ready_nodes plan definition s =
      submit_each 0 (node_map definition.nodes []) (find_submitted_node_ids s e.execution_id)
        (get_ready_node_ids e plan) s

abbrev pub or_text : String → String → String
or_text reason default = if reason == "" then default else reason

unfoldable pub handle_task_result :
    (ℕ → String)
    → ℕ
    → WorkflowExecution
    → ExecutionPlan
    → WorkflowDefinition
    → String
    → Bool
    → String
    → Result ExecutorError Outcome
handle_task_result clock tick e plan definition node_id success reason =
    if success
    then record_node_completed clock tick e plan node_id
        (or_text reason "Task completed successfully")
    else record_node_failed clock tick e plan definition node_id (or_text reason "Task failed")

-- the execution is returned as it is
unfoldable pub step_execution :
    (ℕ → String)
    → WorkflowExecution
    → String
    → ExecutionPlan
    → WorkflowDefinition
    → Store
    → WorkflowExecution × Submission
unfolding submit_ready_nodes
step_execution clock e actor plan definition s =
    (e, submit_ready_nodes clock e actor plan definition s)
