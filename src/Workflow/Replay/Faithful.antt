-- ===== src/Workflow/Replay/Faithful.antt =====
-- The replay of a lineage that the engine wrote.
use deterministic_cognition.Prelude.{
  ℕ, String, ◌≡◌, refl, ap, sym, ◌∙◌, true, some, List, [], ◌∷◌, ◌++◌, arith, get_or, get, length,
}
use deterministic_cognition.Workflow.State.{
  State, state_transition, WorkflowExecution, LineageEvent,
}
use deterministic_cognition.Workflow.Definition.{ExecutionPlan, WorkflowDefinition}
use deterministic_cognition.Workflow.Executor.{initialize_execution}
use deterministic_cognition.Workflow.History.{
  Step, start, move, complete, fail, submit, History, begin, next,
}
use deterministic_cognition.Workflow.History.Frame.{
  Same, Same-refl, transition-Same, start_execution-Same, record_node_completed-Same,
  record_node_failed-Same,
}
use deterministic_cognition.Workflow.History.Canonical.{IsCoherent, is_known, History-IsCoherent}
use deterministic_cognition.Workflow.Replay.{
  blank, apply_kind, apply_events, of_snapshot, or_initialized, replay_execution,
}
use deterministic_cognition.Workflow.Replay.Tracks.{apply_events-append, Step-Tracks}

-- A lineage whose first event names the execution, and whose replay ends in its variables.
pub record IsLineageOf (e : WorkflowExecution) (events : List LineageEvent) : Type 0 where
  pub first : LineageEvent
  pub rest : List LineageEvent
  pub split : events ≡ first ∷ rest
  pub kind : first.event_type ≡ state_transition
  pub execution_id : first.execution_id ≡ e.execution_id
  pub workflow_id : get_or "workflow_id" first.metadata "" ≡ e.workflow_id
  pub plan_id : get_or "plan_id" first.metadata "" ≡ e.plan_id
  pub created_at : first.created_at ≡ e.created_at
  pub replays : apply_events events blank ≡ of_snapshot e

or_initialized-known : (s : State) → is_known s ≡ true → or_initialized (some s) ≡ s
unfolding or_initialized
or_initialized-known (State.other a) h = cc
or_initialized-known State.ready h = refl
or_initialized-known _ h = refl

pub replay-IsLineageOf :
    (e : WorkflowExecution) (events : List LineageEvent)
    → IsLineageOf e events
    → is_known e.state ≡ true
    → (replay_execution events).execution ≡ some e
unfolding replay_execution
replay-IsLineageOf e events l h = rw l.split (
    ground (
      arith,
      or_initialized-known e.state h,
      l.split,
      l.kind,
      l.execution_id,
      l.workflow_id,
      l.plan_id,
      l.created_at,
      l.replays,
    ))

module _ (clock : ℕ → String) (plan : ExecutionPlan) (definition : WorkflowDefinition) where
  pub Step-Same :
      {e e' : WorkflowExecution} {events : List LineageEvent}
      → Step clock plan definition e e' events
      → Same e e'
  Step-Same {e} (start t p) = start_execution-Same clock t e p
  Step-Same {e} (move t new why evt p q) = transition-Same clock t e new why p
  Step-Same {e} (complete t nid why h p) = record_node_completed-Same clock t e plan nid why p
  Step-Same {e} (fail t nid why h p) = record_node_failed-Same clock t e plan definition nid why p
  Step-Same {e} (submit evt k i p q) = ground (arith, Same-refl e)

  Step-IsLineageOf :
      {e e' : WorkflowExecution} {old new : List LineageEvent}
      → Step clock plan definition e e' new
      → IsCoherent e
      → IsLineageOf e old
      → IsLineageOf e' (old ++ new)
  Step-IsLineageOf {e} {e'} {old} {new} s c l =
      let same = Step-Same s in
      record {
        first = l.first;
        rest = l.rest ++ new;
        split = ap (λ (xs : List LineageEvent). xs ++ new) l.split;
        kind = l.kind;
        execution_id = l.execution_id ∙ sym same.execution_id;
        workflow_id = l.workflow_id ∙ sym same.workflow_id;
        plan_id = l.plan_id ∙ sym same.plan_id;
        created_at = l.created_at ∙ sym same.created_at;
        replays =
            apply_events-append old new blank
            ∙ ap (apply_events new) l.replays
            ∙ Step-Tracks clock plan definition s c;
      }

  module _ (sha256 : String → String) where
    pub History-IsLineageOf :
        {e : WorkflowExecution} {events : List LineageEvent}
        → History clock plan definition sha256 e events
        → IsLineageOf e events
    unfolding initialize_execution apply_events apply_kind get_or get
    History-IsLineageOf {e} {events} (begin t {evt = evt} p q) = record {
      first = evt;
      rest = [];
      split = q;
      kind = ground arith;
      execution_id = ground arith;
      workflow_id = ground arith;
      plan_id = ground arith;
      created_at = ground arith;
      replays = rw q (ground arith);
    }
    History-IsLineageOf (next h s q) = rw q (
        Step-IsLineageOf s (History-IsCoherent clock plan definition sha256 h)
          (History-IsLineageOf h))

    -- From the lineage alone, `replay_execution` rebuilds every execution that the engine can
    -- reach, in all its fields, and applies each event once.
    pub replay-History :
        {e : WorkflowExecution} {events : List LineageEvent}
        → History clock plan definition sha256 e events
        → ((replay_execution events).execution ≡ some e)
          × ((replay_execution events).events_applied ≡ length events)
    unfolding replay_execution
    replay-History {e} {events} h =
        let l = History-IsLineageOf h in
        (
          replay-IsLineageOf e events l (History-IsCoherent clock plan definition sha256 h).known,
          rw l.split,
        )
