-- ===== src/Workflow/Lineage/Accepted.antt =====
-- The lineage of a guarded history passes `validate_lineage`.
use deterministic_cognition.Prelude.{
  ℕ, suc, String, ◌≡◌, refl, ap, ◌∙◌, true, List, [], ◌∷◌, ◌++◌, arith, All-append, contains,
  eq_iff,
}
use deterministic_cognition.Workflow.State.{WorkflowExecution, LineageEvent}
use deterministic_cognition.Workflow.Definition.{ExecutionPlan, WorkflowDefinition}
use deterministic_cognition.Workflow.Executor.{initialize_execution}
use deterministic_cognition.Workflow.History.{Guarded, History, begin, next}
use deterministic_cognition.Workflow.Lineage.{
  LineageError, check_start, check_event, check_from, id_errors, first_errors, validate_lineage,
  opt_contains,
}
use deterministic_cognition.Workflow.Lineage.Follows.{Follows, check_from-append, Step-Passes}
use deterministic_cognition.Workflow.Lineage.Identity.{Names, Step-Names}
use deterministic_cognition.Workflow.Replay.Faithful.{Step-Same}
use deterministic_cognition.Workflow.Replay.{replay_execution}

pub record IsClean (e : WorkflowExecution) (events : List LineageEvent) : Type 0 where
  pub first : LineageEvent
  pub rest : List LineageEvent
  pub split : events ≡ first ∷ rest
  pub opens : first_errors first ≡ []
  pub named : Names e.execution_id events
  pub follows : Follows e (check_from 0 events (check_start []))

id_errors-Names :
    (id : String) (i : ℕ) (events : List LineageEvent)
    → Names id events
    → id_errors id i events ≡ []
unfolding id_errors
id_errors-Names id i [] h = refl
id_errors-Names id i (x ∷ xs) h =
    ground (arith, id_errors-Names id (suc i) xs, eq_iff x.execution_id id)

validate-first :
    (id : String) (first : LineageEvent) (rest : List LineageEvent)
    → first_errors first ≡ []
    → Names id (first ∷ rest)
    → (check_from 0 (first ∷ rest) (check_start [])).errors ≡ []
    → validate_lineage (first ∷ rest) ≡ []
unfolding validate_lineage
validate-first id first rest o (n, ns) h =
    let none_before : first_errors first ++ id_errors first.execution_id 1 rest ≡ [] =
      rw (o, n) (id_errors-Names id 1 rest ns) in
    ap (λ (errors : List LineageError). (check_from 0 (first ∷ rest) (check_start errors)).errors)
      none_before
    ∙ h

validate-IsClean :
    (e : WorkflowExecution) (events : List LineageEvent)
    → IsClean e events
    → validate_lineage events ≡ []
validate-IsClean e events c = rw c.split (
    validate-first e.execution_id c.first c.rest c.opens (rw c.split at c.named)
      (rw c.split at c.follows.no_errors))

module _ (clock : ℕ → String) (plan : ExecutionPlan) (definition : WorkflowDefinition)
    (sha256 : String → String) where
  -- Each step of the history is guarded.
  abbrev pub AllGuarded :
      {e : WorkflowExecution} {events : List LineageEvent}
      → History clock plan definition sha256 e events
      → Type 0
  AllGuarded (begin t p q) = Unit
  AllGuarded (next h s q) = AllGuarded h × Guarded clock plan definition s

  History-IsClean :
      {e : WorkflowExecution} {events : List LineageEvent}
      (h : History clock plan definition sha256 e events)
      → AllGuarded h
      → IsClean e events
  unfolding initialize_execution check_from check_event first_errors contains opt_contains
  History-IsClean {e} {events} (begin t {evt = evt} p q) g = record {
    first = evt;
    rest = [];
    split = q;
    opens = ground arith;
    named = rw q (ground arith, tt);
    follows = rw q (record {
      current = ground arith;
      completed = λ n. ground arith;
      open_end = λ k. ground arith;
      no_errors = ground arith;
    });
  }
  History-IsClean {e} {events} (next {e = e0} {old = old} {new = new} h s q) g =
      let c = History-IsClean h g.0 in
      let same = Step-Same clock plan definition s in
      record {
        first = c.first;
        rest = c.rest ++ new;
        split = q ∙ ap (λ (xs : List LineageEvent). xs ++ new) c.split;
        opens = c.opens;
        named =
            rw (q, same.execution_id)
              (All-append _ old new c.named (Step-Names clock plan definition s));
        follows =
            rw (q, check_from-append 0 old new (check_start []))
              (Step-Passes clock plan definition s g.1 _ _ c.follows);
      }

  -- A caller that reports each node at most once, and only while the execution is not over, gets a
  -- lineage that the replay accepts.
  pub replay-is_valid :
      {e : WorkflowExecution} {events : List LineageEvent}
      (h : History clock plan definition sha256 e events)
      → AllGuarded h
      → ((replay_execution events).is_valid ≡ true)
        × ((replay_execution events).validation_errors ≡ [])
  unfolding replay_execution
  replay-is_valid {e} {events} h g =
      let c = History-IsClean h g in
      let v = validate-IsClean e events c in rw c.split (let w = rw c.split at v in (rw w, w))
