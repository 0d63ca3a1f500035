-- ===== src/Workflow/Executor.antt =====
-- workflow/executor.py, the functions that change an execution. Each returns the new execution and
-- its lineage events, or the error that a transition raises. Time is the parameter `clock`, whose
-- values are the successive answers of `_now()`: each event takes one reading, so an operation that
-- starts at reading `t` and returns `n` events leaves off at reading `t + n`.
pub mod Progress
use deterministic_cognition.Prelude.{
  ℕ, zero, suc, ◌+◌, ◌-◌, String, ◌⧺◌, Bool, true, false, Option, none, some, List, [], ◌∷◌, ◌++◌,
  Result, ok, err, ◌>>=◌, ℤ, pos, ltb_ℤ, get_or, put, contains, sorted, to_set, set_add, length,
  get_elem?, all, show, show_ℤ, ◌==◌, if◌then◌else◌,
}
use deterministic_cognition.Workflow.State.{
  State, initialized, ready, executing, blocked, completed, TransitionError, WorkflowExecution,
  LineageEvent, EventType, state_transition, node_completed, node_failed, node_retry,
  stage_advanced, validate_execution_transition, make_execution_id,
}
use deterministic_cognition.Workflow.Definition.{
  ExecutionPlan, ExecutionStage, WorkflowNode, WorkflowDefinition,
}
use Progress.{detect_outcome}

-- What an operation returns: the new execution, and its lineage events in order.
abbrev pub Outcome : Type 0
Outcome = WorkflowExecution × List LineageEvent

-- What makes an operation raise.
pub data ExecutorError : Type 0 where
  transition_error : TransitionError → ExecutorError
  key_error : String → ExecutorError

-- an event about a node or a stage
abbrev pub event : WorkflowExecution → EventType → Option String → String → String → LineageEvent
event e kind nid why now = record {
  execution_id = e.execution_id;
  event_type = kind;
  old_state = none;
  new_state = none;
  node_id = nid;
  stage_index = e.active_stage_index;
  reason = why;
  created_at = now;
  metadata = [];
}

abbrev pub transition_event : WorkflowExecution → State → String → String → LineageEvent
transition_event e new why now = record (event e state_transition none why now) {
  old_state = some e.state;
  new_state = some new;
}

-- `{n.node_id: n for n in definition.nodes}[node_id]`: the last node of that name
unfoldable pub node_of : String → List WorkflowNode → Option WorkflowNode
node_of nid [] = none
node_of nid (n ∷ ns) = elim (node_of nid ns) [
  | some later ↦ some later
  | none ↦ if nid == n.node_id then some n else none
]

module _ (clock : ℕ → String) where
  -- `_transition`
  unfoldable pub transition :
      ℕ
      → WorkflowExecution
      → State
      → String
      → Result ExecutorError (WorkflowExecution × LineageEvent)
  transition t e new why = elim (validate_execution_transition e.state new) [
    | err x ↦ err (transition_error x)
    | ok _ ↦ ok (
      record e { state = new; updated_at = clock t; version = suc e.version },
      transition_event e new why (clock t),
    )
  ]

  -- one round of the loop of `_advance_stage_if_needed`
  abbrev pub advanced : ℕ → WorkflowExecution → WorkflowExecution
  advanced t e = record e {
    active_stage_index = suc e.active_stage_index;
    updated_at = clock t;
    version = suc e.version;
  }

  abbrev pub advance_event : ℕ → WorkflowExecution → LineageEvent
  advance_event t e =
      event e stage_advanced none
        ("Stage "
          ⧺ show e.active_stage_index
          ⧺ " complete; advancing to "
          ⧺ show (suc e.active_stage_index))
        (clock t)

  abbrev pub stage_done : WorkflowExecution → ExecutionStage → Bool
  stage_done e stage = all (λ n. contains n e.completed_node_ids) stage.node_ids

  -- The `while` loop of `_advance_stage_if_needed`; its index grows to the number of stages at most,
  -- so the first argument, the stages that are left, bounds its rounds.
  unfoldable pub advance_from : ℕ → ℕ → WorkflowExecution → ExecutionPlan → Outcome
  advance_from zero t e plan = (e, [])
  advance_from (suc left) t e plan =
      let rest = advance_from left (suc t) (advanced t e) plan in
      elim (get_elem? plan.stages e.active_stage_index) [
        | none ↦ (e, [])
        | some stage ↦ if stage_done e stage then (rest.0, advance_event t e ∷ rest.1) else (e, [])
      ]

  unfoldable pub advance_stage_if_needed : ℕ → WorkflowExecution → ExecutionPlan → Outcome
  unfolding advance_from
  advance_stage_if_needed t e plan =
      advance_from (length plan.stages - e.active_stage_index) t e plan

  -- a transition that comes last, behind the events so far
  unfoldable pub and_transition :
      ℕ → WorkflowExecution → State → String → List LineageEvent → Result ExecutorError Outcome
  and_transition t e new why events = do
    (e', evt) ← transition t e new why
    ok (e', events ++ evt ∷ [])

  -- the end of `record_node_completed`, after `outcome = detect_outcome(exec_, plan)`
  unfoldable pub settle_completed : ℕ → State → Outcome → Result ExecutorError Outcome
  settle_completed t completed (e, events) =
      and_transition t e completed "All workflow nodes completed successfully" events
  settle_completed t blocked (e, events) =
      and_transition t e blocked "Remaining nodes blocked by prior failures" events
  settle_completed t _ o = ok o

  unfoldable pub mark_completed : ℕ → WorkflowExecution → String → WorkflowExecution
  mark_completed t e nid = record e {
    completed_node_ids = sorted (set_add nid (to_set e.completed_node_ids));
    updated_at = clock t;
    version = suc e.version;
  }

  unfoldable pub record_node_completed :
      ℕ → WorkflowExecution → ExecutionPlan → String → String → Result ExecutorError Outcome
  record_node_completed t e plan nid why =
      let e1 = mark_completed t e nid in
      let (e2, stage_events) = advance_stage_if_needed (suc t) e1 plan in
      settle_completed (t + suc (length stage_events)) (detect_outcome e2 plan)
        (e2, event e1 node_completed (some nid) why (clock t) ∷ stage_events)

  -- a failure with attempts left
  unfoldable pub retry_node : ℕ → WorkflowExecution → String → ℕ → ℤ → String → Outcome
  retry_node t e nid attempts max_attempts why =
      let e1 = record e {
        node_attempts = put nid attempts e.node_attempts;
        updated_at = clock t;
        version = suc e.version;
      } in
      (
        e1,
        event e1 node_retry (some nid)
              ("Attempt " ⧺ show attempts ⧺ "/" ⧺ show_ℤ max_attempts ⧺ ": " ⧺ why) (clock t)
            ∷ [],
      )

  -- a failure after the last attempt
  unfoldable pub fail_node : ℕ → WorkflowExecution → String → ℕ → ℤ → String → Outcome
  fail_node t e nid attempts max_attempts why =
      let e1 = record e {
        failed_node_ids = sorted (set_add nid (to_set e.failed_node_ids));
        node_attempts = put nid attempts e.node_attempts;
        updated_at = clock t;
        version = suc e.version;
      } in
      (
        e1,
        event e1 node_failed (some nid)
              ("All " ⧺ show attempts ⧺ "/" ⧺ show_ℤ max_attempts ⧺ " attempts exhausted: " ⧺ why)
              (clock t)
            ∷ [],
      )

  -- the end of `record_node_failed`, after `outcome = detect_outcome(exec_, plan)`
  unfoldable pub settle_failed : ℕ → String → State → Outcome → Result ExecutorError Outcome
  settle_failed t nid blocked (e, events) =
      and_transition t e blocked ("Node " ⧺ nid ⧺ " failed; no progress possible") events
  settle_failed t nid _ o = ok o

  unfoldable pub record_node_failed :
      ℕ
      → WorkflowExecution
      → ExecutionPlan
      → WorkflowDefinition
      → String
      → String
      → Result ExecutorError Outcome
  record_node_failed t e plan definition nid why = elim (node_of nid definition.nodes) [
    | none ↦ err (key_error nid)
    | some node ↦
        let attempts = suc (get_or nid e.node_attempts 0) in
        let most = node.retry_policy.max_attempts in
        if ltb_ℤ (pos attempts) most
        then ok (retry_node t e nid attempts most why)
        else let (e1, events) = fail_node t e nid attempts most why in
          settle_failed (suc t) nid (detect_outcome e1 plan) (e1, events)
  ]

  -- `sha256` is hashlib's.
  unfoldable pub initialize_execution :
      (String → String) → ℕ → ExecutionPlan → WorkflowExecution × LineageEvent
  unfolding make_execution_id
  initialize_execution sha256 t plan =
      let id = make_execution_id sha256 plan.plan_id (clock t) in
      (
        record {
          execution_id = id;
          workflow_id = plan.workflow_id;
          plan_id = plan.plan_id;
          state = initialized;
          active_stage_index = 0;
          completed_node_ids = [];
          failed_node_ids = [];
          node_attempts = [];
          created_at = clock t;
          updated_at = clock t;
          version = 1;
        },
        record {
          execution_id = id;
          event_type = state_transition;
          old_state = none;
          new_state = some initialized;
          node_id = none;
          stage_index = 0;
          reason = "Execution initialized from plan";
          created_at = clock t;
          metadata = ("workflow_id", plan.workflow_id) ∷ ("plan_id", plan.plan_id) ∷ [];
        },
      )

  unfoldable pub start_execution : ℕ → WorkflowExecution → Result ExecutorError Outcome
  start_execution t e = do
    (e1, evt1) ← transition t e ready "Execution starting"
    (e2, evt2) ← transition (suc t) e1 executing "Execution in progress"
    ok (e2, evt1 ∷ evt2 ∷ [])
