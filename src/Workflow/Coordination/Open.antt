-- ===== src/Workflow/Coordination/Open.antt =====
-- The nodes that workflow/coordination.py passes over: those with a task that is pending, ready or running.
use deterministic_cognition.Prelude.{
  String, ◌==◌, ◌≡◌, refl, ◌∙◌, ap, Bool, true, false, not, ◌&&◌, ◌||◌, none, some, List, [], ◌∷◌,
  get, contains, keep, any, arith,
}
use deterministic_cognition.Orchestration.State.{
  TaskState, pending, ready, running, state_in as task_state_in, state_eq as task_state_eq, Task,
}
use deterministic_cognition.Orchestration.Service.{Store}
use deterministic_cognition.Workflow.Coordination.{
  find_submitted_node_ids, extract_node_id, extract_execution_id, is_of,
}
use deterministic_cognition.Workflow.Coordination.Submitted.{counts, submitted-any}

abbrev pub is_open : TaskState → Bool
is_open pending = true
is_open ready = true
is_open running = true
is_open _ = false

abbrev pub says : String → String → Task → Bool
says key x t = elim (get key t.metadata) [ none ↦ false | some y ↦ y == x ]

-- a row that is pending, ready or running carries the ids of the execution and of the node
abbrev pub has_open_task : String → String → List Task → Bool
has_open_task execution_id n ts =
    any
      (λ (t : Task).
        is_open t.state
        && (says "workflow_execution_id" execution_id t && says "workflow_node_id" n t))
      ts

is_open_lem : (s : TaskState) → task_state_in s (pending ∷ ready ∷ running ∷ []) ≡ is_open s
unfolding task_state_in task_state_eq
is_open_lem s = elim s as (λ k. task_state_in k (pending ∷ ready ∷ running ∷ []) ≡ is_open k) [
  | TaskState.other x ↦ refl
  | _ ↦ refl
]

counts-open :
    (execution_id n : String) (t : Task)
    → counts execution_id n t
      ≡ (is_open t.state
          && (says "workflow_execution_id" execution_id t && says "workflow_node_id" n t))
        && not (n == "")
unfolding is_of extract_node_id extract_execution_id
counts-open execution_id n t = ground (arith, is_open_lem t.state)

or_and : (a b c : Bool) → (a && c) || (b && c) ≡ (a || b) && c
or_and true true c = ground arith
or_and true false c = ground arith
or_and false b c = refl

any-counts-open :
    (execution_id n : String) (ts : List Task)
    → any (counts execution_id n) ts ≡ has_open_task execution_id n ts && not (n == "")
any-counts-open execution_id n [] = refl
any-counts-open execution_id n (t ∷ ts) =
    ap (λ b. b || any (counts execution_id n) ts) (counts-open execution_id n t)
    ∙ ap
        (λ b.
          ((is_open t.state
              && (says "workflow_execution_id" execution_id t && says "workflow_node_id" n t))
            && not (n == ""))
          || b)
        (any-counts-open execution_id n ts)
    ∙ or_and _ (has_open_task execution_id n ts) (not (n == ""))

not_and : (a b : Bool) → not (a && not b) ≡ b || not a
not_and true true = refl
not_and true false = refl
not_and false true = refl
not_and false false = refl

pub passed_over :
    (execution_id n : String) (s : Store)
    → not (contains n (find_submitted_node_ids s execution_id))
      ≡ (n == "") || not (has_open_task execution_id n s.tasks)
unfolding find_submitted_node_ids contains
passed_over execution_id n s =
    ap not (submitted-any execution_id n s.tasks [] ∙ any-counts-open execution_id n s.tasks)
    ∙ not_and (has_open_task execution_id n s.tasks) (n == "")

pub keep-same :
    (p q : String → Bool) (xs : List String) → ((x : String) → p x ≡ q x) → keep p xs ≡ keep q xs
keep-same p q [] same = refl
keep-same p q (x ∷ xs) same = ground (arith, same x, keep-same p q xs same)
