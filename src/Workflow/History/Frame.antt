-- ===== src/Workflow/History/Frame.antt =====
-- What the operations of workflow/executor.py leave alone: the identity of the execution.
use deterministic_cognition.Prelude.{
  ℕ, zero, suc, ◌+◌, length, String, ◌≡◌, refl, ◌∙◌, some, List, [], ◌∷◌, ◌++◌, inl, inr, ok,
  >>=-eq-ok, arith, Bool-cases, Option-cases, ℤ, pos, get_or, ltb_ℤ,
}
use deterministic_cognition.Workflow.State.{
  State, ready, executing, node_completed, WorkflowExecution, LineageEvent,
}
use deterministic_cognition.Workflow.Definition.{ExecutionPlan, WorkflowDefinition}
use deterministic_cognition.Workflow.Executor.{
  Outcome, transition, advanced, advance_from, advance_stage_if_needed, and_transition,
  settle_completed, settle_failed, mark_completed, record_node_completed, retry_node, fail_node,
  event, record_node_failed, start_execution, node_of,
}
use deterministic_cognition.Workflow.Executor.Progress.{detect_outcome}

-- Two stages of one execution.
pub record Same (e e' : WorkflowExecution) : Type 0 where
  pub execution_id : e'.execution_id ≡ e.execution_id
  pub workflow_id : e'.workflow_id ≡ e.workflow_id
  pub plan_id : e'.plan_id ≡ e.plan_id
  pub created_at : e'.created_at ≡ e.created_at

pub Same-refl : (e : WorkflowExecution) → Same e e
Same-refl e = record { execution_id = refl; workflow_id = refl; plan_id = refl; created_at = refl }

pub Same-trans : {a b c : WorkflowExecution} → Same a b → Same b c → Same a c
Same-trans p q = record {
  execution_id = q.execution_id ∙ p.execution_id;
  workflow_id = q.workflow_id ∙ p.workflow_id;
  plan_id = q.plan_id ∙ p.plan_id;
  created_at = q.created_at ∙ p.created_at;
}

module _ (clock : ℕ → String) where
  pub transition-Same :
      (t : ℕ) (e : WorkflowExecution) (new : State) (why : String) {e' : WorkflowExecution}
      {evt : LineageEvent}
      → transition clock t e new why ≡ ok (e', evt)
      → Same e e'
  unfolding transition
  transition-Same t e new why h = ground arith

  pub advance_from-Same :
      (left t : ℕ) (e : WorkflowExecution) (plan : ExecutionPlan)
      → Same e (advance_from clock left t e plan).0
  unfolding advance_from
  advance_from-Same zero t e plan = Same-refl e
  advance_from-Same (suc left) t e plan =
      ground (arith, advance_from-Same left (suc t) (advanced clock t e) plan)

  pub and_transition-inv :
      (t : ℕ) (e : WorkflowExecution) (new : State) (why : String) (events : List LineageEvent)
      {o : Outcome}
      → and_transition clock t e new why events ≡ ok o
      → (evt : LineageEvent) × (transition clock t e new why ≡ ok (o.0, evt))
        × (o.1 ≡ events ++ evt ∷ [])
  unfolding and_transition
  and_transition-inv t e new why events h =
      let (a, p, q) = >>=-eq-ok (transition clock t e new why) _ h in
      (a.1, ground arith, ground arith)

  -- the ways to pass through the last test of an operation
  pub data Settled (t : ℕ) (o o' : Outcome) : Type 0 where
    stays : o' ≡ o → Settled t o o'
    moves :
        (new : State) (why : String) (evt : LineageEvent)
        → transition clock t o.0 new why ≡ ok (o'.0, evt)
        → o'.1 ≡ o.1 ++ evt ∷ []
        → Settled t o o'

  and_transition-Settled :
      (t : ℕ) (e : WorkflowExecution) (new : State) (why : String) (events : List LineageEvent)
      {o' : Outcome}
      → and_transition clock t e new why events ≡ ok o'
      → Settled t (e, events) o'
  and_transition-Settled t e new why events h =
      let (evt, p, q) = and_transition-inv t e new why events h in moves new why evt p q

  pub settle_completed-Settled :
      (t : ℕ) (s : State) (o : Outcome) {o' : Outcome}
      → settle_completed clock t s o ≡ ok o'
      → Settled t o o'
  unfolding settle_completed
  settle_completed-Settled t State.completed o h = and_transition-Settled t _ _ _ _ h
  settle_completed-Settled t State.blocked o h = and_transition-Settled t _ _ _ _ h
  settle_completed-Settled t _ o h = stays (cc)

  pub settle_failed-Settled :
      (t : ℕ) (nid : String) (s : State) (o : Outcome) {o' : Outcome}
      → settle_failed clock t nid s o ≡ ok o'
      → Settled t o o'
  unfolding settle_failed
  settle_failed-Settled t nid State.blocked o h = and_transition-Settled t _ _ _ _ h
  settle_failed-Settled t nid _ o h = stays (cc)

  pub start_execution-inv :
      (t : ℕ) (e : WorkflowExecution) {o : Outcome}
      → start_execution clock t e ≡ ok o
      → (e1 : WorkflowExecution) × (evt1 evt2 : LineageEvent) × (transition clock t e ready
            "Execution starting"
          ≡ ok (e1, evt1))
        × (transition clock (suc t) e1 executing "Execution in progress" ≡ ok (o.0, evt2))
        × (o.1 ≡ evt1 ∷ evt2 ∷ [])
  unfolding start_execution
  start_execution-inv t e h =
      let (a, p, q) = >>=-eq-ok (transition clock t e ready "Execution starting") _ h in
      let (b, r, s) =
        >>=-eq-ok (transition clock (suc t) a.0 executing "Execution in progress") _ q in
      (a.0, a.1, b.1, ground arith, ground arith, ground arith)

  -- a failure that was recorded is a retry, or a last failure and the test behind it
  pub data Failed (t : ℕ) (e : WorkflowExecution) (nid why : String) (o : Outcome) : Type 0 where
    retried :
        (most : ℤ)
        → o ≡ retry_node clock t e nid (suc (get_or nid e.node_attempts 0)) most why
        → Failed t e nid why o
    exhausted :
        (most : ℤ)
        → Settled (suc t) (fail_node clock t e nid (suc (get_or nid e.node_attempts 0)) most why) o
        → Failed t e nid why o

  pub record_node_failed-Failed :
      (t : ℕ) (e : WorkflowExecution) (plan : ExecutionPlan) (definition : WorkflowDefinition)
      (nid why : String) {o : Outcome}
      → record_node_failed clock t e plan definition nid why ≡ ok o
      → Failed t e nid why o
  unfolding record_node_failed
  record_node_failed-Failed t e plan definition nid why h =
      elim (Option-cases (node_of nid definition.nodes)) [
        | inl missing ↦ absurd (ground arith)
        | inr (node, found) ↦
            elim (Bool-cases
              (ltb_ℤ (pos (suc (get_or nid e.node_attempts 0))) node.retry_policy.max_attempts)) [
                | inl more ↦ retried node.retry_policy.max_attempts (ground arith)
                | inr last ↦
                    let most = node.retry_policy.max_attempts in
                    let o1 =
                      fail_node clock t e nid (suc (get_or nid e.node_attempts 0)) most why in
                    exhausted most (
                      settle_failed-Settled (suc t) nid (detect_outcome o1.0 plan) o1
                        (ground arith))
              ]
      ]

  -- A recorded completion is the mark, the advance over complete stages, and the test behind them.
  pub record_node_completed-Settled :
      (t : ℕ) (e : WorkflowExecution) (plan : ExecutionPlan) (nid why : String) {o : Outcome}
      → record_node_completed clock t e plan nid why ≡ ok o
      → let e1 = mark_completed clock t e nid in
        let o2 = advance_stage_if_needed clock (suc t) e1 plan in
        Settled
          (t + suc (length o2.1))
          (o2.0, event e1 node_completed (some nid) why (clock t) ∷ o2.1)
          o
  unfolding record_node_completed
  record_node_completed-Settled t e plan nid why h = settle_completed-Settled _ _ _ h

  Settled-Same : (t : ℕ) {o o' : Outcome} → Settled t o o' → Same o.0 o'.0
  Settled-Same t {o} (stays p) = ground (arith, Same-refl o.0)
  Settled-Same t {o} (moves new why evt p q) = transition-Same t o.0 new why p

  pub start_execution-Same :
      (t : ℕ) (e : WorkflowExecution) {o : Outcome} → start_execution clock t e ≡ ok o → Same e o.0
  start_execution-Same t e h =
      let (e1, evt1, evt2, p, q, _) = start_execution-inv t e h in
      Same-trans (transition-Same t e ready _ p) (transition-Same (suc t) e1 executing _ q)

  mark_completed-Same :
      (t : ℕ) (e : WorkflowExecution) (nid : String) → Same e (mark_completed clock t e nid)
  unfolding mark_completed
  mark_completed-Same t e nid = record {
    execution_id = refl;
    workflow_id = refl;
    plan_id = refl;
    created_at = refl;
  }

  pub record_node_completed-Same :
      (t : ℕ) (e : WorkflowExecution) (plan : ExecutionPlan) (nid why : String) {o : Outcome}
      → record_node_completed clock t e plan nid why ≡ ok o
      → Same e o.0
  unfolding advance_stage_if_needed
  record_node_completed-Same t e plan nid why h = Same-trans (mark_completed-Same t e nid) (
      Same-trans (advance_from-Same _ (suc t) (mark_completed clock t e nid) plan)
        (Settled-Same _ (record_node_completed-Settled t e plan nid why h)))

  Failed-Same :
      (t : ℕ) (e : WorkflowExecution) (nid why : String) {o : Outcome}
      → Failed t e nid why o
      → Same e o.0
  unfolding retry_node fail_node
  Failed-Same t e nid why (retried most p) = ground (arith, Same-refl e)
  Failed-Same t e nid why (exhausted most p) =
      let s = Settled-Same (suc t) p in
      record {
        execution_id = s.execution_id;
        workflow_id = s.workflow_id;
        plan_id = s.plan_id;
        created_at = s.created_at;
      }

  pub record_node_failed-Same :
      (t : ℕ) (e : WorkflowExecution) (plan : ExecutionPlan) (definition : WorkflowDefinition)
      (nid why : String) {o : Outcome}
      → record_node_failed clock t e plan definition nid why ≡ ok o
      → Same e o.0
  record_node_failed-Same t e plan definition nid why h =
      Failed-Same t e nid why (record_node_failed-Failed t e plan definition nid why h)
