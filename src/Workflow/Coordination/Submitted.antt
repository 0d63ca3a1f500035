-- ===== src/Workflow/Coordination/Submitted.antt =====
-- The nodes that workflow/coordination.py counts as submitted, under the calls of the service.
use deterministic_cognition.Prelude.{
  ℕ, suc, String, ◌==◌, ◌≡◌, refl, ◌∙◌, sym, ap, inl, inr, Bool, true, false, not, ◌&&◌, ◌||◌,
  Option, none, some, List, [], ◌∷◌, ◌++◌, get, put, contains, contains-set_add, any, Bool-cases,
  arith, eq_iff, eq_refl, ok, eqb,
}
use deterministic_cognition.Orchestration.State.{
  ready, state_in as task_state_in, state_eq as task_state_eq, Task,
}
use deterministic_cognition.Orchestration.Service.{
  Store, NewTask, new_row, create_task, transition_task, update_state,
}
use deterministic_cognition.Orchestration.Invariant.{create_task-eq, transition_task-eq}
use deterministic_cognition.Workflow.State.{WorkflowExecution}
use deterministic_cognition.Workflow.Definition.{WorkflowNode}
use deterministic_cognition.Workflow.Coordination.{
  extract_node_id, extract_execution_id, is_text, is_of, add_node, submitted_of, has_payload,
  new_task,
}

-- the row is of an active task of the execution for the node
abbrev pub counts : String → String → Task → Bool
counts execution_id n t = is_of execution_id t && is_text (extract_node_id t) n && not (n == "")

abbrev pub counted : String → String → Store → Bool
counted execution_id n s = any (counts execution_id n) s.tasks

contains-add_node :
    (n : String)
    → (o : Option String) → (acc : List String)
    → contains n (add_node o acc) ≡ contains n acc || (is_text o n && not (n == ""))
contains-add_node n none acc = ground arith
contains-add_node n (some x) acc = elim (Bool-cases (x == "")) [
  | inl empty ↦ ground (arith, eq_iff x n, eq_iff x "", eq_iff n "", eq_refl n)
  | inr given ↦
      ground (arith, contains-set_add n x acc, eq_iff x n, eq_iff n x, eq_iff x "", eq_iff n "")
]

or_middle : (a b c : Bool) → (a || b) || c ≡ a || (b || c)
or_middle true b c = refl
or_middle false b c = refl

pub submitted-any :
    (execution_id n : String)
    → (ts : List Task) → (acc : List String)
    → contains n (submitted_of execution_id ts acc)
      ≡ contains n acc || any (counts execution_id n) ts
unfolding submitted_of
submitted-any execution_id n [] acc = ground arith
submitted-any execution_id n (t ∷ ts) acc = elim (Bool-cases (is_of execution_id t)) [
  | inl active ↦ rw active (
      submitted-any execution_id n ts (add_node (extract_node_id t) acc)
      ∙ ap (λ b. b || any (counts execution_id n) ts) (contains-add_node n (extract_node_id t) acc)
      ∙ or_middle (contains n acc) (is_text (extract_node_id t) n && not (n == ""))
          (any (counts execution_id n) ts))
  | inr passive ↦ rw passive (submitted-any execution_id n ts acc)
]

-- what counts for a node still does
abbrev pub Grows : String → Store → Store → Type 0
Grows execution_id s t =
    (n : String) → counted execution_id n s ≡ true → counted execution_id n t ≡ true

any_more {ℓ} :
    {A : Type ℓ} → (p : A → Bool) → (xs ys : List A) → any p xs ≡ true → any p (xs ++ ys) ≡ true
any_more p [] ys e = ground arith
any_more p (x ∷ xs) ys e = ground (arith, any_more p xs ys)

any_last {ℓ} :
    {A : Type ℓ}
    → (p : A → Bool) → (xs : List A) → (y : A) → p y ≡ true
    → any p (xs ++ y ∷ []) ≡ true
any_last p [] y e = ground arith
any_last p (x ∷ xs) y e = ground (arith, any_last p xs y e)

counts-ready :
    (execution_id n now : String)
    → (v : ℕ) → (t : Task) → counts execution_id n t ≡ true
    → counts execution_id n (record t { state = ready; version = v; updated_at = now }) ≡ true
unfolding is_of extract_node_id extract_execution_id task_state_in task_state_eq
counts-ready execution_id n now v t e = ground arith

or_true : (a : Bool) → {b : Bool} → b ≡ true → a || b ≡ true
or_true true e = refl
or_true false e = e

any-update_state :
    (execution_id n : String)
    → (id v : ℕ) → (now : String) → (ts : List Task) → any (counts execution_id n) ts ≡ true
    → any (counts execution_id n) (update_state id ready v now ts) ≡ true
unfolding update_state
any-update_state execution_id n id v now [] e = e
any-update_state execution_id n id v now (t ∷ ts) e = elim (Bool-cases (eqb id t.id)) [
  | inl here ↦ elim (Bool-cases (counts execution_id n t)) [
    | inl counting ↦ rw here (rw (counts-ready execution_id n now v t counting) refl)
    | inr idle ↦ rw here (
        or_true _ (
          any-update_state execution_id n id v now ts
            (sym (ap (λ b. b || any (counts execution_id n) ts) idle) ∙ e)))
  ]
  | inr there ↦ elim (Bool-cases (counts execution_id n t)) [
    | inl counting ↦ rw there (rw counting refl)
    | inr idle ↦ rw there (
        or_true _ (
          any-update_state execution_id n id v now ts
            (sym (ap (λ b. b || any (counts execution_id n) ts) idle) ∙ e)))
  ]
]

pub create-Grows :
    (execution_id now : String)
    → (m : NewTask) → (s t : Store) → (r : Task) → create_task now m s ≡ ok (t, r)
    → Grows execution_id s t
create-Grows execution_id now m s t r e n counting =
    ap (λ (u : Store). counted execution_id n u) (create_task-eq now m s e)
    ∙ any_more (counts execution_id n) s.tasks (new_row s m now ∷ []) counting

pub ready-Grows :
    (execution_id now reason actor : String)
    → (id : ℕ) → (s t : Store) → (r : Task)
    → transition_task now id ready reason actor [] s ≡ ok (t, r)
    → Grows execution_id s t
ready-Grows execution_id now reason actor id s t r e n counting =
    let (q, found, valid, same, row) = transition_task-eq now id ready reason actor [] s e in
    ap (λ (u : Store). counted execution_id n u) same
    ∙ any-update_state execution_id n id (suc q.version) now s.tasks counting

-- the row of a node that was submitted counts for it
pub create-counts :
    (now actor node_id : String)
    → (e : WorkflowExecution) → (node : WorkflowNode) → (s t : Store) → (r : Task)
    → (node_id == "") ≡ false
    → create_task now (new_task e node node_id actor) s ≡ ok (t, r)
    → counted e.execution_id node_id t ≡ true
unfolding is_of extract_node_id extract_execution_id task_state_in task_state_eq get put
create-counts now actor node_id e node s t r given returned =
    ap (λ (u : Store). counted e.execution_id node_id u)
      (create_task-eq now (new_task e node node_id actor) s returned)
    ∙ any_last (counts e.execution_id node_id) s.tasks
        (new_row s (new_task e node node_id actor) now)
        (elim (Bool-cases (has_payload node.task_payload_json)) [
          | inl full ↦ rw full (rw (eq_refl e.execution_id) (rw (eq_refl node_id) (rw given refl)))
          | inr bare ↦ rw bare (rw (eq_refl e.execution_id) (rw (eq_refl node_id) (rw given refl)))
        ])
