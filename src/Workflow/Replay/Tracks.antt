-- ===== src/Workflow/Replay/Tracks.antt =====
-- The loop of workflow/replay.py, run over the events that an operation of workflow/executor.py
-- returns, takes the variables of the old execution to those of the new one.
use deterministic_cognition.Prelude.{
  ℕ, zero, suc, String, ◌≡◌, ◌≢◌, refl, ap, ◌∙◌, some, List, [], ◌∷◌, ◌++◌, ok, arith, get_or,
  sorted, set_add, to_set, sorted_id, to_set_id, IsCanonical, eq_iff, Dict, put,
}
use deterministic_cognition.Workflow.State.{
  State, ready, executing, node_completed, node_submitted, WorkflowExecution, LineageEvent,
}
use deterministic_cognition.Workflow.Definition.{ExecutionPlan, WorkflowDefinition}
use deterministic_cognition.Workflow.Executor.{
  Outcome, transition, event, advanced, advance_from, advance_stage_if_needed, mark_completed,
  retry_node, fail_node,
}
use deterministic_cognition.Workflow.History.{Step, start, move, complete, fail, submit}
use deterministic_cognition.Workflow.History.Frame.{
  Settled, stays, moves, Failed, retried, exhausted, start_execution-inv,
  record_node_completed-Settled, record_node_failed-Failed,
}
use deterministic_cognition.Workflow.History.Canonical.{IsCoherent}
use deterministic_cognition.Workflow.Replay.{
  Replayed, note_id, note_attempt, apply_kind, apply_events, of_snapshot,
}

pub apply_events-append :
    (xs ys : List LineageEvent) (r : Replayed)
    → apply_events (xs ++ ys) r ≡ apply_events ys (apply_events xs r)
unfolding apply_events
apply_events-append [] ys r = refl
apply_events-append (x ∷ xs) ys r = apply_events-append xs ys (apply_kind x.event_type x r)

-- The replay of `events` from the variables of one execution ends in those of another.
abbrev pub Tracks : WorkflowExecution → List LineageEvent → WorkflowExecution → Type 0
Tracks e events e' = apply_events events (of_snapshot e) ≡ of_snapshot e'

pub Tracks-trans :
    (a b c : WorkflowExecution) (xs ys : List LineageEvent)
    → Tracks a xs b
    → Tracks b ys c
    → Tracks a (xs ++ ys) c
Tracks-trans a b c xs ys p q =
    apply_events-append xs ys (of_snapshot a) ∙ ap (apply_events ys) p ∙ q

-- `append` and `sort` add to a canonical list what `sorted(set(...) | {...})` adds.
note_id-set_add :
    (nid : String) (ids : List String)
    → nid ≢ ""
    → IsCanonical ids
    → note_id (some nid) ids ≡ sorted (set_add nid (to_set ids))
unfolding note_id set_add
note_id-set_add nid ids h c =
    rw (to_set_id ids c.distinct) (ground (arith, sorted_id ids c.ordered, eq_iff nid ""))

note_attempt-put :
    (nid : String) (attempts : Dict ℕ)
    → nid ≢ ""
    → note_attempt (some nid) attempts ≡ put nid (suc (get_or nid attempts 0)) attempts
unfolding note_attempt
note_attempt-put nid attempts h = ground (arith, eq_iff nid "")

submitted-Tracks :
    (e : WorkflowExecution) (evt : LineageEvent)
    → evt.event_type ≡ node_submitted
    → Tracks e (evt ∷ []) e
unfolding apply_events apply_kind
submitted-Tracks e evt k = ground arith

module _ (clock : ℕ → String) where
  pub transition-Tracks :
      (t : ℕ) (e : WorkflowExecution) (new : State) (why : String) {e' : WorkflowExecution}
      {evt : LineageEvent}
      → transition clock t e new why ≡ ok (e', evt)
      → Tracks e (evt ∷ []) e'
  unfolding transition apply_events
  transition-Tracks t e new why h = ground arith

  advance_from-Tracks :
      (left t : ℕ) (e : WorkflowExecution) (plan : ExecutionPlan)
      → Tracks e (advance_from clock left t e plan).1 (advance_from clock left t e plan).0
  unfolding advance_from apply_events
  advance_from-Tracks zero t e plan = refl
  advance_from-Tracks (suc left) t e plan =
      ground (arith, advance_from-Tracks left (suc t) (advanced clock t e) plan)

  Settled-Tracks :
      (t : ℕ) (e : WorkflowExecution) {o o' : Outcome}
      → Settled clock t o o'
      → Tracks e o.1 o.0
      → Tracks e o'.1 o'.0
  Settled-Tracks t e (stays p) h = cc
  Settled-Tracks t e {o} {o'} (moves new why evt p q) h =
      rw q (Tracks-trans e o.0 o'.0 o.1 (evt ∷ []) h (transition-Tracks t o.0 new why p))

  completed-Tracks :
      (t : ℕ) (e : WorkflowExecution) (nid why : String)
      → nid ≢ ""
      → IsCoherent e
      → let e1 = mark_completed clock t e nid in
        Tracks e (event e1 node_completed (some nid) why (clock t) ∷ []) e1
  unfolding mark_completed apply_events apply_kind
  completed-Tracks t e nid why h c =
      ground (arith, note_id-set_add nid e.completed_node_ids h c.completed)

  Failed-Tracks :
      (t : ℕ) (e : WorkflowExecution) (nid why : String) {o : Outcome}
      → nid ≢ ""
      → IsCoherent e
      → Failed clock t e nid why o
      → Tracks e o.1 o.0
  unfolding retry_node fail_node apply_events apply_kind
  Failed-Tracks t e nid why h c (retried most p) =
      ground (arith, note_attempt-put nid e.node_attempts h)
  Failed-Tracks t e nid why h c (exhausted most p) = Settled-Tracks (suc t) e p (
      ground (
        arith,
        note_attempt-put nid e.node_attempts h,
        note_id-set_add nid e.failed_node_ids h c.failed,
      ))

  module _ (plan : ExecutionPlan) (definition : WorkflowDefinition) where
    pub Step-Tracks :
        {e e' : WorkflowExecution} {events : List LineageEvent}
        → Step clock plan definition e e' events
        → IsCoherent e
        → Tracks e events e'
    unfolding advance_stage_if_needed
    Step-Tracks {e} {e'} (start t p) c =
        let (e1, evt1, evt2, q, r, l) = start_execution-inv clock t e p in
        rw l (
          Tracks-trans e e1 e' (evt1 ∷ []) (evt2 ∷ []) (transition-Tracks t e ready _ q)
            (transition-Tracks (suc t) e1 executing _ r))
    Step-Tracks {e} (move t new why evt p q) c = rw q (transition-Tracks t e new why p)
    Step-Tracks {e} {e'} (complete t nid why h p) c =
        let e1 = mark_completed clock t e nid in
        let o2 = advance_stage_if_needed clock (suc t) e1 plan in
        Settled-Tracks _ e (record_node_completed-Settled clock t e plan nid why p) (
          Tracks-trans e e1 o2.0 (event e1 node_completed (some nid) why (clock t) ∷ []) o2.1
            (completed-Tracks t e nid why h c) (advance_from-Tracks _ (suc t) e1 plan))
    Step-Tracks {e} (fail t nid why h p) c =
        Failed-Tracks t e nid why h c
          (record_node_failed-Failed clock t e plan definition nid why p)
    Step-Tracks {e} (submit evt k i p q) c = rw (q, p) (submitted-Tracks e evt k)
