-- ===== src/Workflow/Lineage/Identity.antt =====
-- Every event that an operation returns names the execution.
use deterministic_cognition.Prelude.{
  ℕ, zero, suc, String, ◌≡◌, refl, ◌∙◌, List, [], ◌∷◌, ok, arith, All, All-append, length, ◌-◌,
}
use deterministic_cognition.Workflow.State.{
  State, ready, executing, WorkflowExecution, LineageEvent,
}
use deterministic_cognition.Workflow.Definition.{ExecutionPlan, WorkflowDefinition}
use deterministic_cognition.Workflow.Executor.{
  Outcome, transition, advanced, advance_from, advance_stage_if_needed, mark_completed, retry_node,
  fail_node,
}
use deterministic_cognition.Workflow.History.{Step, start, move, complete, fail, submit}
use deterministic_cognition.Workflow.History.Frame.{
  Settled, stays, moves, Failed, retried, exhausted, start_execution-inv, transition-Same,
  record_node_completed-Settled, record_node_failed-Failed, advance_from-Same,
}

abbrev pub Names : String → List LineageEvent → Type 0
Names id events = All (λ (evt : LineageEvent). evt.execution_id ≡ id) events

module _ (clock : ℕ → String) where
  transition-id :
      (t : ℕ) (e : WorkflowExecution) (new : State) (why : String) {e' : WorkflowExecution}
      {evt : LineageEvent}
      → transition clock t e new why ≡ ok (e', evt)
      → evt.execution_id ≡ e.execution_id
  unfolding transition
  transition-id t e new why h = ground arith

  advance_from-Names :
      (left t : ℕ) (e : WorkflowExecution) (plan : ExecutionPlan)
      → Names e.execution_id (advance_from clock left t e plan).1
  unfolding advance_from
  advance_from-Names zero t e plan = tt
  advance_from-Names (suc left) t e plan =
      ground (arith, advance_from-Names left (suc t) (advanced clock t e) plan)

  Settled-Names :
      (t : ℕ) (id : String) {o o' : Outcome}
      → Settled clock t o o'
      → o.0.execution_id ≡ id
      → Names id o.1
      → Names id o'.1
  Settled-Names t id (stays p) q h = rw p h
  Settled-Names t id {o} (moves new why evt p r) q h =
      rw r (All-append _ o.1 (evt ∷ []) h (transition-id t o.0 new why p ∙ q, tt))

  Failed-Names :
      (t : ℕ) (e : WorkflowExecution) (nid why : String) {o : Outcome}
      → Failed clock t e nid why o
      → Names e.execution_id o.1
  unfolding retry_node fail_node
  Failed-Names t e nid why (retried most p) = rw p (refl, tt)
  Failed-Names t e nid why (exhausted most p) =
      Settled-Names (suc t) e.execution_id p refl (refl, tt)

  module _ (plan : ExecutionPlan) (definition : WorkflowDefinition) where
    pub Step-Names :
        {e e' : WorkflowExecution} {events : List LineageEvent}
        → Step clock plan definition e e' events
        → Names e.execution_id events
    unfolding advance_stage_if_needed mark_completed
    Step-Names {e} {e'} (start t p) =
        let (e1, evt1, evt2, q, r, l) = start_execution-inv clock t e p in
        rw l (
          transition-id t e ready _ q,
          (
            transition-id (suc t) e1 executing _ r
                ∙ (transition-Same clock t e ready _ q).execution_id,
            tt,
          ),
        )
    Step-Names {e} (move t new why evt p q) = rw q (transition-id t e new why p, tt)
    Step-Names {e} (complete t nid why h p) =
        let e1 = mark_completed clock t e nid in
        let same =
          advance_from-Same clock (length plan.stages - e1.active_stage_index) (suc t) e1 plan in
        Settled-Names _ e.execution_id (record_node_completed-Settled clock t e plan nid why p)
          same.execution_id (refl, advance_from-Names _ (suc t) e1 plan)
    Step-Names {e} (fail t nid why h p) =
        Failed-Names t e nid why (record_node_failed-Failed clock t e plan definition nid why p)
    Step-Names {e} (submit evt k i p q) = rw q (i, tt)
