-- ===== src/Workflow/History.antt =====
-- What a caller of workflow/executor.py and workflow/coordination.py can do with an execution: the
-- steps, each with the lineage events that it returns, and the histories that they make up.
pub mod Frame
pub mod Canonical
use deterministic_cognition.Prelude.{
  ℕ, String, ◌≡◌, ◌≢◌, Bool, false, List, [], ◌∷◌, ◌++◌, some, ok, contains,
}
use deterministic_cognition.Workflow.State.{State, node_submitted, WorkflowExecution, LineageEvent}
use deterministic_cognition.Workflow.Definition.{ExecutionPlan, WorkflowDefinition}
use deterministic_cognition.Workflow.Lineage.{is_terminal}
use deterministic_cognition.Workflow.Executor.{
  transition, start_execution, record_node_completed, record_node_failed, initialize_execution,
}

module _ (clock : ℕ → String) (plan : ExecutionPlan) (definition : WorkflowDefinition) where
  pub data Step (e e' : WorkflowExecution) (events : List LineageEvent) : Type 0 where
    start : (t : ℕ) → start_execution clock t e ≡ ok (e', events) → Step e e' events
    move :
        (t : ℕ) (new : State) (why : String) (evt : LineageEvent)
        → transition clock t e new why ≡ ok (e', evt)
        → events ≡ evt ∷ []
        → Step e e' events
    complete :
        (t : ℕ) (nid why : String)
        → nid ≢ ""
        → record_node_completed clock t e plan nid why ≡ ok (e', events)
        → Step e e' events
    fail :
        (t : ℕ) (nid why : String)
        → nid ≢ ""
        → record_node_failed clock t e plan definition nid why ≡ ok (e', events)
        → Step e e' events
    submit :
        (evt : LineageEvent)
        → evt.event_type ≡ node_submitted
        → evt.execution_id ≡ e.execution_id
        → e' ≡ e
        → events ≡ evt ∷ []
        → Step e e' events

  -- A caller that reports a node only once, and only while the execution runs.
  abbrev pub Guarded :
      {e e' : WorkflowExecution} {events : List LineageEvent} → Step e e' events → Type 0
  Guarded {e} (complete t nid why h s) =
      (contains nid e.completed_node_ids ≡ false) × (is_terminal (some e.state) ≡ false)
  Guarded {e} (fail t nid why h s) =
      (contains nid e.completed_node_ids ≡ false) × (is_terminal (some e.state) ≡ false)
  Guarded {e} (submit evt k i s l) = is_terminal (some e.state) ≡ false
  Guarded _ = Unit

  module _ (sha256 : String → String) where
    -- The executions that can arise, each with all lineage events so far.
    pub data History : WorkflowExecution → List LineageEvent → Type 0 where
      begin :
          (t : ℕ) {e : WorkflowExecution} {evt : LineageEvent} {events : List LineageEvent}
          → initialize_execution clock sha256 t plan ≡ (e, evt)
          → events ≡ evt ∷ []
          → History e events
      next :
          {e e' : WorkflowExecution} {old new events : List LineageEvent}
          → History e old
          → Step e e' new
          → events ≡ old ++ new
          → History e' events
