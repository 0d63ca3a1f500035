-- ===== src/Workflow/History/Canonical.antt =====
-- What holds of every execution that can arise: its lists of nodes are what `sorted(set(...))`
-- returns, and its state is one of the eight names.
use deterministic_cognition.Prelude.{
  ℕ, zero, suc, String, ◌≡◌, Bool, true, false, List, ok, arith, IsCanonical,
  sorted_set-IsCanonical,
}
use deterministic_cognition.Workflow.State.{
  State, ready, executing, WorkflowExecution, LineageEvent, validate_execution_transition,
}
use deterministic_cognition.Workflow.Definition.{ExecutionPlan, WorkflowDefinition}
use deterministic_cognition.Workflow.Executor.{
  Outcome, transition, advanced, advance_from, advance_stage_if_needed, mark_completed, retry_node,
  fail_node, initialize_execution,
}
use deterministic_cognition.Workflow.History.{
  Step, start, move, complete, fail, submit, History, begin, next,
}
use deterministic_cognition.Workflow.History.Frame.{
  Settled, stays, moves, Failed, retried, exhausted, start_execution-inv,
  record_node_completed-Settled, record_node_failed-Failed,
}

-- one of the eight names
abbrev pub is_known : State → Bool
is_known (State.other _) = false
is_known _ = true

pub record IsCoherent (e : WorkflowExecution) : Type 0 where
  pub completed : IsCanonical e.completed_node_ids
  pub failed : IsCanonical e.failed_node_ids
  pub known : is_known e.state ≡ true

pub validate-known :
    (old new : State) → validate_execution_transition old new ≡ ok tt → is_known new ≡ true
unfolding validate_execution_transition
validate-known old new h = ground arith

module _ (clock : ℕ → String) where
  pub transition-IsCoherent :
      (t : ℕ) (e : WorkflowExecution) (new : State) (why : String) {e' : WorkflowExecution}
      {evt : LineageEvent}
      → transition clock t e new why ≡ ok (e', evt)
      → IsCoherent e
      → IsCoherent e'
  unfolding transition
  transition-IsCoherent t e new why h c = ground (arith, validate-known e.state new)

  advance_from-IsCoherent :
      (left t : ℕ) (e : WorkflowExecution) (plan : ExecutionPlan)
      → IsCoherent e
      → IsCoherent (advance_from clock left t e plan).0
  unfolding advance_from
  advance_from-IsCoherent zero t e plan c = c
  advance_from-IsCoherent (suc left) t e plan c = ground (
    arith,
    advance_from-IsCoherent left (suc t) (advanced clock t e) plan
        (record { completed = c.completed; failed = c.failed; known = c.known }),
  )

  mark_completed-IsCoherent :
      (t : ℕ) (e : WorkflowExecution) (nid : String)
      → IsCoherent e
      → IsCoherent (mark_completed clock t e nid)
  unfolding mark_completed
  mark_completed-IsCoherent t e nid c = record {
    completed = sorted_set-IsCanonical nid e.completed_node_ids;
    failed = c.failed;
    known = c.known;
  }

  Settled-IsCoherent :
      (t : ℕ) {o o' : Outcome} → Settled clock t o o' → IsCoherent o.0 → IsCoherent o'.0
  Settled-IsCoherent t (stays p) c = ground (arith)
  Settled-IsCoherent t {o} (moves new why evt p q) c = transition-IsCoherent t o.0 new why p c

  Failed-IsCoherent :
      (t : ℕ) (e : WorkflowExecution) (nid why : String) {o : Outcome}
      → Failed clock t e nid why o
      → IsCoherent e
      → IsCoherent o.0
  unfolding retry_node fail_node
  Failed-IsCoherent t e nid why (retried most p) c = ground arith
  Failed-IsCoherent t e nid why (exhausted most p) c = Settled-IsCoherent (suc t) p (record {
    completed = c.completed;
    failed = sorted_set-IsCanonical nid e.failed_node_ids;
    known = c.known;
  })

  module _ (plan : ExecutionPlan) (definition : WorkflowDefinition) where
    pub Step-IsCoherent :
        {e e' : WorkflowExecution} {events : List LineageEvent}
        → Step clock plan definition e e' events
        → IsCoherent e
        → IsCoherent e'
    unfolding advance_stage_if_needed
    Step-IsCoherent {e} (start t p) c =
        let (e1, evt1, evt2, q, r, _) = start_execution-inv clock t e p in
        transition-IsCoherent (suc t) e1 executing _ r (transition-IsCoherent t e ready _ q c)
    Step-IsCoherent {e} (move t new why evt p q) c = transition-IsCoherent t e new why p c
    Step-IsCoherent {e} (complete t nid why h p) c =
        Settled-IsCoherent _ (record_node_completed-Settled clock t e plan nid why p) (
          advance_from-IsCoherent _ (suc t) (mark_completed clock t e nid) plan
            (mark_completed-IsCoherent t e nid c))
    Step-IsCoherent {e} (fail t nid why h p) c =
        Failed-IsCoherent t e nid why
          (record_node_failed-Failed clock t e plan definition nid why p) c
    Step-IsCoherent (submit evt k i p q) c = ground arith

    -- Every execution that arises is coherent.
    pub History-IsCoherent :
        (sha256 : String → String) {e : WorkflowExecution} {events : List LineageEvent}
        → History clock plan definition sha256 e events
        → IsCoherent e
    unfolding initialize_execution
    History-IsCoherent sha256 (begin t p q) = ground arith
    History-IsCoherent sha256 (next h s q) = Step-IsCoherent s (History-IsCoherent sha256 h)
