-- ===== src/Workflow/Lineage/Follows.antt =====
-- The loop of `validate_lineage` over the events that one operation of workflow/executor.py returns.
use deterministic_cognition.Prelude.{
  ℕ, zero, suc, ◌+◌, String, ◌≡◌, refl, ap, ◌∙◌, Bool, true, false, ◌||◌, none, some, List, [], ◌∷◌,
  ◌++◌, ok, arith, ◌==◌, length, contains, to_set, sorted, set_add, contains-sorted,
  contains-set_add, contains-to_set, ℤ, get_or,
}
use deterministic_cognition.Workflow.State.{
  State, ready, executing, state_transition, node_completed, node_submitted, stage_advanced,
  WorkflowExecution, LineageEvent, validate_execution_transition,
}
use deterministic_cognition.Workflow.Definition.{ExecutionPlan, WorkflowDefinition}
use deterministic_cognition.Workflow.Executor.{
  Outcome, transition, event, advanced, advance_event, advance_from, advance_stage_if_needed,
  mark_completed, retry_node, fail_node,
}
use deterministic_cognition.Workflow.History.{Step, start, move, complete, fail, submit, Guarded}
use deterministic_cognition.Workflow.History.Frame.{
  Settled, stays, moves, Failed, retried, exhausted, start_execution-inv,
  record_node_completed-Settled, record_node_failed-Failed,
}
use deterministic_cognition.Workflow.Lineage.{
  Check, opt_contains, permitted, is_terminal, differs, transition_errors, check_event, check_from,
}

-- The loop's variables agree with the execution, and no error was found.
pub record Follows (e : WorkflowExecution) (c : Check) : Type 0 where
  pub current : c.current_state ≡ some e.state
  pub completed :
      (n : String) → opt_contains (some n) c.completed_nodes ≡ contains n e.completed_node_ids
  pub open_end : is_terminal (some e.state) ≡ false → c.terminal_at ≡ none
  pub no_errors : c.errors ≡ []

pub check_from-append :
    (i : ℕ) (xs ys : List LineageEvent) (c : Check)
    → check_from i (xs ++ ys) c ≡ check_from (i + length xs) ys (check_from i xs c)
unfolding check_from
check_from-append i [] ys c = ap (λ (j : ℕ). check_from j ys c) (omega arith)
check_from-append i (x ∷ xs) ys c =
    check_from-append (suc i) xs ys (check_event i x c)
    ∙ ap (λ (j : ℕ). check_from j ys (check_from (suc i) xs (check_event i x c))) (omega arith)

-- Wherever the loop stands, the events take it from the one execution to the other.
abbrev pub Passes : WorkflowExecution → List LineageEvent → WorkflowExecution → Type 0
Passes e events e' = (i : ℕ) (c : Check) → Follows e c → Follows e' (check_from i events c)

pub Passes-trans :
    (a b d : WorkflowExecution) (xs ys : List LineageEvent)
    → Passes a xs b
    → Passes b ys d
    → Passes a (xs ++ ys) d
Passes-trans a b d xs ys p q i c f =
    rw (check_from-append i xs ys c) (q (i + length xs) (check_from i xs c) (p i c f))

validate-permitted :
    (old new : State)
    → validate_execution_transition old new ≡ ok tt
    → (permitted old (some new) ≡ true)
      × (is_terminal (some old) ≡ false)
      × (differs (some old) old ≡ false)
unfolding validate_execution_transition permitted is_terminal differs
validate-permitted (State.other s) new h = absurd (cc)
validate-permitted State.ready new h = ground arith
validate-permitted _ new h = ground arith

-- `old` and `new` are the states of the event.
check_transition-Follows :
    (e : WorkflowExecution) (new : State) (evt : LineageEvent) (i : ℕ) (c : Check)
    → validate_execution_transition e.state new ≡ ok tt
    → evt.event_type ≡ state_transition
    → evt.new_state ≡ some new
    → evt.old_state ≡ some e.state
    → Follows e c
    → let c' = check_event i evt c in
      (c'.current_state ≡ some new)
      × (c'.completed_nodes ≡ c.completed_nodes)
      × (is_terminal (some new) ≡ false → c'.terminal_at ≡ none)
      × (c'.errors ≡ [])
unfolding check_event transition_errors
check_transition-Follows e new evt i c v k n o f =
    let (p, q, d) = validate-permitted e.state new v in
    ground (arith, f.current, f.open_end q, f.no_errors)

-- An execution with the state and the completed nodes of another is followed by the same variables.
Follows-same :
    (e e' : WorkflowExecution) (c : Check)
    → e'.state ≡ e.state
    → e'.completed_node_ids ≡ e.completed_node_ids
    → Follows e c
    → Follows e' c
Follows-same e e' c p q f = record {
  current = rw p f.current;
  completed = λ n. rw q (f.completed n);
  open_end = λ h. f.open_end (rw p at h);
  no_errors = f.no_errors;
}

check_stage-id :
    (i : ℕ) (evt : LineageEvent) (c : Check)
    → c.terminal_at ≡ none
    → evt.event_type ≡ stage_advanced
    → check_event i evt c ≡ c
unfolding check_event
check_stage-id i evt c h k = ground arith

mark-contains :
    (n nid : String) (ids : List String)
    → contains n (sorted (set_add nid (to_set ids))) ≡ (n == nid || contains n ids)
mark-contains n nid ids =
    contains-sorted n (set_add nid (to_set ids))
    ∙ contains-set_add n nid (to_set ids)
    ∙ ap (λ (b : Bool). n == nid || b) (contains-to_set n ids)

submitted-Passes :
    (e : WorkflowExecution) (evt : LineageEvent)
    → evt.event_type ≡ node_submitted
    → is_terminal (some e.state) ≡ false
    → Passes e (evt ∷ []) e
unfolding check_from check_event
submitted-Passes e evt k live i c f = record {
  current = ground (arith, f.open_end live, f.current);
  completed = λ n. ground (arith, f.open_end live, f.completed n);
  open_end = λ h. ground (arith, f.open_end live);
  no_errors = ground (arith, f.open_end live, f.no_errors);
}

module _ (clock : ℕ → String) where
  transition-valid :
      (t : ℕ) (e : WorkflowExecution) (new : State) (why : String) {e' : WorkflowExecution}
      {evt : LineageEvent}
      → transition clock t e new why ≡ ok (e', evt)
      → (validate_execution_transition e.state new ≡ ok tt)
        × (e'.state ≡ new)
        × (e'.completed_node_ids ≡ e.completed_node_ids)
        × (evt.event_type ≡ state_transition)
        × (evt.new_state ≡ some new)
        × (evt.old_state ≡ some e.state)
  unfolding transition
  transition-valid t e new why h = ground arith

  pub transition-Passes :
      (t : ℕ) (e : WorkflowExecution) (new : State) (why : String) {e' : WorkflowExecution}
      {evt : LineageEvent}
      → transition clock t e new why ≡ ok (e', evt)
      → Passes e (evt ∷ []) e'
  unfolding check_from
  transition-Passes t e new why {evt = evt} h i c f =
      let (v, p, q, k, n, o) = transition-valid t e new why h in
      let (a, b, d, x) = check_transition-Follows e new evt i c v k n o f in
      record {
        current = rw p a;
        completed = λ m. rw (q, b) (f.completed m);
        open_end = λ g. d (rw p at g);
        no_errors = x;
      }

  advance_from-state :
      (left t : ℕ) (e : WorkflowExecution) (plan : ExecutionPlan)
      → let e' = (advance_from clock left t e plan).0 in
        (e'.state ≡ e.state) × (e'.completed_node_ids ≡ e.completed_node_ids)
  unfolding advance_from
  advance_from-state zero t e plan = (refl, refl)
  advance_from-state (suc left) t e plan =
      ground (arith, advance_from-state left (suc t) (advanced clock t e) plan)

  advance_from-check :
      (left t : ℕ) (e : WorkflowExecution) (plan : ExecutionPlan) (i : ℕ) (c : Check)
      → c.terminal_at ≡ none
      → check_from i (advance_from clock left t e plan).1 c ≡ c
  unfolding advance_from check_from
  advance_from-check zero t e plan i c h = refl
  advance_from-check (suc left) t e plan i c h = ground (
    arith,
    check_stage-id i (advance_event clock t e) c h,
    advance_from-check left (suc t) (advanced clock t e) plan (suc i) c h,
  )

  advance_from-Passes :
      (left t : ℕ) (e : WorkflowExecution) (plan : ExecutionPlan)
      → is_terminal (some e.state) ≡ false
      → Passes e (advance_from clock left t e plan).1 (advance_from clock left t e plan).0
  advance_from-Passes left t e plan h i c f =
      rw (advance_from-check left t e plan i c (f.open_end h))
        (let (p, q) = advance_from-state left t e plan in Follows-same e _ c p q f)

  Settled-Passes :
      (t : ℕ) (e : WorkflowExecution) {o o' : Outcome}
      → Settled clock t o o'
      → Passes e o.1 o.0
      → Passes e o'.1 o'.0
  Settled-Passes t e (stays p) h = rw p h
  Settled-Passes t e {o} {o'} (moves new why evt p q) h =
      rw q (Passes-trans e o.0 o'.0 o.1 (evt ∷ []) h (transition-Passes t o.0 new why p))

  completed-Passes :
      (t : ℕ) (e : WorkflowExecution) (nid why : String)
      → contains nid e.completed_node_ids ≡ false
      → is_terminal (some e.state) ≡ false
      → let e1 = mark_completed clock t e nid in
        Passes e (event e1 node_completed (some nid) why (clock t) ∷ []) e1
  unfolding mark_completed check_from check_event opt_contains
  completed-Passes t e nid why new live i c f = record {
    current = ground (arith, f.open_end live);
    completed = λ n.
        ground (arith, f.open_end live, f.completed n, mark-contains n nid e.completed_node_ids);
    open_end = λ h. ground (arith, f.open_end live);
    no_errors = ground (arith, f.open_end live, f.completed nid);
  }

  retried-Passes :
      (t : ℕ) (e : WorkflowExecution) (nid why : String) (most : ℤ)
      → is_terminal (some e.state) ≡ false
      → let o = retry_node clock t e nid (suc (get_or nid e.node_attempts 0)) most why in
        Passes e o.1 o.0
  unfolding retry_node check_from check_event
  retried-Passes t e nid why most live i c f = record {
    current = ground (arith, f.open_end live, f.current);
    completed = λ n. ground (arith, f.open_end live, f.completed n);
    open_end = λ h. ground (arith, f.open_end live);
    no_errors = ground (arith, f.open_end live, f.no_errors);
  }

  failed-Passes :
      (t : ℕ) (e : WorkflowExecution) (nid why : String) (most : ℤ)
      → contains nid e.completed_node_ids ≡ false
      → is_terminal (some e.state) ≡ false
      → let o = fail_node clock t e nid (suc (get_or nid e.node_attempts 0)) most why in
        Passes e o.1 o.0
  unfolding fail_node check_from check_event
  failed-Passes t e nid why most new live i c f = record {
    current = ground (arith, f.open_end live, f.current);
    completed = λ n. ground (arith, f.open_end live, f.completed n);
    open_end = λ h. ground (arith, f.open_end live);
    no_errors = ground (arith, f.open_end live, f.no_errors, f.completed nid);
  }

  Failed-Passes :
      (t : ℕ) (e : WorkflowExecution) (nid why : String) {o : Outcome}
      → contains nid e.completed_node_ids ≡ false
      → is_terminal (some e.state) ≡ false
      → Failed clock t e nid why o
      → Passes e o.1 o.0
  Failed-Passes t e nid why new live (retried most p) = rw p (retried-Passes t e nid why most live)
  Failed-Passes t e nid why new live (exhausted most p) =
      Settled-Passes (suc t) e p (failed-Passes t e nid why most new live)

  module _ (plan : ExecutionPlan) (definition : WorkflowDefinition) where
    pub Step-Passes :
        {e e' : WorkflowExecution} {events : List LineageEvent}
        (s : Step clock plan definition e e' events)
        → Guarded clock plan definition s
        → Passes e events e'
    unfolding advance_stage_if_needed
    Step-Passes {e} {e'} (start t p) g =
        let (e1, evt1, evt2, q, r, l) = start_execution-inv clock t e p in
        rw l (
          Passes-trans e e1 e' (evt1 ∷ []) (evt2 ∷ []) (transition-Passes t e ready _ q)
            (transition-Passes (suc t) e1 executing _ r))
    Step-Passes {e} (move t new why evt p q) g = rw q (transition-Passes t e new why p)
    Step-Passes {e} {e'} (complete t nid why h p) g =
        let e1 = mark_completed clock t e nid in
        let o2 = advance_stage_if_needed clock (suc t) e1 plan in
        Settled-Passes _ e (record_node_completed-Settled clock t e plan nid why p) (
          Passes-trans e e1 o2.0 (event e1 node_completed (some nid) why (clock t) ∷ []) o2.1
            (completed-Passes t e nid why g.0 g.1)
            (advance_from-Passes _ (suc t) e1 plan (unfold mark_completed in g.1)))
    Step-Passes {e} (fail t nid why h p) g =
        Failed-Passes t e nid why g.0 g.1
          (record_node_failed-Failed clock t e plan definition nid why p)
    Step-Passes {e} (submit evt k i p q) g = rw (q, p) (submitted-Passes e evt k g)
