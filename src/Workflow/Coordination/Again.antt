-- ===== src/Workflow/Coordination/Again.antt =====
-- `submit_ready_nodes` of workflow/coordination.py, and a second call of it.
use deterministic_cognition.Prelude.{
  ℕ, suc, String, ◌==◌, ◌≡◌, refl, ◌∙◌, sym, subst, ap, inl, inr, Bool, true, false, ◌||◌, Option,
  none, some, List, [], ◌∷◌, Dict, get, contains, All, All-weaken, Bool-cases, Result-cases, ok,
  err,
}
use deterministic_cognition.Orchestration.State.{ready, Task}
use deterministic_cognition.Orchestration.Service.{Store, create_task, transition_task}
use deterministic_cognition.Workflow.State.{WorkflowExecution, LineageEvent}
use deterministic_cognition.Workflow.Definition.{WorkflowNode, WorkflowDefinition, ExecutionPlan}
use deterministic_cognition.Workflow.Planner.{node_map}
use deterministic_cognition.Workflow.Executor.Progress.{get_ready_node_ids}
use deterministic_cognition.Workflow.Coordination.{
  find_submitted_node_ids, new_task, Submission, before, made_ready, created, submit, submit_each,
  submit_ready_nodes, submission_event,
}
use deterministic_cognition.Workflow.Coordination.Submitted.{
  counted, submitted-any, Grows, create-Grows, ready-Grows, create-counts,
}

-- What a loop that returns leaves: its nodes were submitted before or count now.
abbrev Leaves : String → List String → List String → Store → Store → Type 0
Leaves execution_id submitted ids s t =
    Grows execution_id s t × All (λ n. contains n submitted || counted execution_id n t ≡ true) ids

-- the end of a submission, if it returned
abbrev Returned : (Store → Type 0) → Submission → Type 0
Returned P (s, ok _) = P s
Returned P (s, err _) = Unit

before-Returned :
    (P : Store → Type 0)
    → (t : Task) → (v : LineageEvent) → (m : Submission) → Returned P m
    → Returned P (before t v m)
before-Returned P t v (s, ok (ts, vs)) p = p
before-Returned P t v (s, err x) p = tt

weakened-Returned :
    (P Q : Store → Type 0)
    → (m : Submission) → ((s : Store) → P s → Q s)
    → Returned P m
    → Returned Q m
weakened-Returned P Q (s, ok r) f p = f s p
weakened-Returned P Q (s, err x) f p = tt

or_true : (a b : Bool) → b ≡ true → a || b ≡ true
or_true true b e = refl
or_true false b e = e

either_true : (a b : Bool) → a || b ≡ true → (a ≡ true → b ≡ true) → b ≡ true
either_true true b h f = f refl
either_true false b h f = h

module _ (clock : ℕ → String) (e : WorkflowExecution) (actor : String) where
  -- one node: what counted counts, and the node does, before the rest goes on
  submit-Returned :
      (tick : ℕ)
      → (n : String) → (s : Store) → (node : Option WorkflowNode) → (rest : Store → Submission)
      → (P : Store → Type 0) → (n == "") ≡ false
      → ((t : Store)
          → Grows e.execution_id s t
          → counted e.execution_id n t ≡ true
          → Returned P (rest t))
      → Returned P (submit clock e actor tick n s node rest)
  unfolding submit created made_ready
  submit-Returned tick n s none rest P given k = tt
  submit-Returned tick n s (some node) rest P given k =
      elim (Result-cases (create_task (clock tick) (new_task e node n actor) s)) [
        | inr (x, failed) ↦ rw failed tt
        | inl ((s1, t), made) ↦
            elim (Result-cases (
              transition_task (clock (suc tick)) t.id ready
                "Workflow coordinator: node ready for execution" actor [] s1)) [
                  | inr (x, failed) ↦ rw made (rw failed tt)
                  | inl ((s2, u), moved) ↦ rw made (
                      rw moved (
                        before-Returned P u (submission_event e n u) (rest s2) (
                          k s2
                            (λ m c.
                              ready-Grows e.execution_id (clock (suc tick)) _ actor t.id s1 s2 u
                                moved m
                                (create-Grows e.execution_id (clock tick) (new_task e node n actor)
                                  s s1 t made m c))
                            (ready-Grows e.execution_id (clock (suc tick)) _ actor t.id s1 s2 u
                              moved n
                              (create-counts (clock tick) actor n e node s s1 t given made)))))
                ]
      ]

  submit_each-Leaves :
      (tick : ℕ)
      → (nodes : Dict WorkflowNode) → (submitted ids : List String) → (s : Store)
      → All (λ n. (n == "") ≡ false) ids
      → Returned
          (Leaves e.execution_id submitted ids s)
          (submit_each clock e actor tick nodes submitted ids s)
  unfolding submit_each
  submit_each-Leaves tick nodes submitted [] s given = ((λ m c. c), tt)
  submit_each-Leaves tick nodes submitted (n ∷ ids) s given =
      elim (Bool-cases (contains n submitted)) [
        | inl before_it ↦ rw before_it (
            weakened-Returned (Leaves e.execution_id submitted ids s)
              (Leaves e.execution_id submitted (n ∷ ids) s)
              (submit_each clock e actor tick nodes submitted ids s)
              (λ t l. (l.0, (ap (λ b. b || counted e.execution_id n t) before_it, l.1)))
              (submit_each-Leaves tick nodes submitted ids s given.1))
        | inr fresh ↦ rw fresh (
            submit-Returned tick n s (get n nodes)
              (submit_each clock e actor (suc (suc tick)) nodes submitted ids)
              (Leaves e.execution_id submitted (n ∷ ids) s) given.0
              (λ t grows counting.
                weakened-Returned (Leaves e.execution_id submitted ids t)
                  (Leaves e.execution_id submitted (n ∷ ids) s)
                  (submit_each clock e actor (suc (suc tick)) nodes submitted ids t)
                  (λ u l. ((λ m c. l.0 m (grows m c)), (or_true _ _ (l.0 n counting), l.1)))
                  (submit_each-Leaves (suc (suc tick)) nodes submitted ids t given.1)))
      ]

  -- nodes that are submitted all are passed over
  submit_each-none :
      (tick : ℕ)
      → (nodes : Dict WorkflowNode) → (submitted ids : List String) → (s : Store)
      → All (λ n. contains n submitted ≡ true) ids
      → submit_each clock e actor tick nodes submitted ids s ≡ (s, ok ([], []))
  unfolding submit_each
  submit_each-none tick nodes submitted [] s h = refl
  submit_each-none tick nodes submitted (n ∷ ids) s h =
      rw h.0 (submit_each-none tick nodes submitted ids s h.1)

  submitted-counted :
      (n : String)
      → (s : Store)
      → contains n (find_submitted_node_ids s e.execution_id) ≡ counted e.execution_id n s
  unfolding find_submitted_node_ids contains
  submitted-counted n s = submitted-any e.execution_id n s.tasks []

  -- Where no node that is ready has an empty id, a call of `submit_ready_nodes` that returns leaves a store
  -- in which another call for the same execution submits nothing and writes nothing.
  pub submit_ready_nodes-again :
      (plan : ExecutionPlan)
      → (definition : WorkflowDefinition) → (s t : Store) → (r : List Task × List LineageEvent)
      → All (λ n. (n == "") ≡ false) (get_ready_node_ids e plan)
      → submit_ready_nodes clock e actor plan definition s ≡ (t, ok r)
      → submit_ready_nodes clock e actor plan definition t ≡ (t, ok ([], []))
  unfolding submit_ready_nodes
  submit_ready_nodes-again plan definition s t r given returned =
      let l : Leaves e.execution_id (find_submitted_node_ids s e.execution_id)
          (get_ready_node_ids e plan) s t =
        subst
          (Returned (
            Leaves e.execution_id (find_submitted_node_ids s e.execution_id)
              (get_ready_node_ids e plan) s))
          returned
          (submit_each-Leaves 0 (node_map definition.nodes [])
            (find_submitted_node_ids s e.execution_id) (get_ready_node_ids e plan) s given) in
      submit_each-none 0 (node_map definition.nodes []) (find_submitted_node_ids t e.execution_id)
        (get_ready_node_ids e plan) t
        (All-weaken
          (λ n.
            contains n (find_submitted_node_ids s e.execution_id) || counted e.execution_id n t
            ≡ true)
          (λ n. contains n (find_submitted_node_ids t e.execution_id) ≡ true)
          (λ n h.
            submitted-counted n t
            ∙ either_true _ _ h (λ c. l.0 n (sym (submitted-counted n s) ∙ c)))
          (get_ready_node_ids e plan) l.1)
