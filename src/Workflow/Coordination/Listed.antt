-- ===== src/Workflow/Coordination/Listed.antt =====
-- The events and tasks that `submit_ready_nodes` of workflow/coordination.py returns, and the rows that it
-- leaves.
use deterministic_cognition.Prelude.{
  ℕ, suc, String, ◌==◌, ◌≡◌, refl, sym, subst, inl, inr, not, ◌||◌, Option, none, some, List, [],
  ◌∷◌, Dict, get, contains, keep, Bool-cases, Result-cases, ok,
}
use deterministic_cognition.Orchestration.State.{ready, Task}
use deterministic_cognition.Orchestration.Service.{Store, create_task, transition_task}
use deterministic_cognition.Orchestration.Reach.{create, transition}
use deterministic_cognition.Orchestration.Invariant.{IsConsistent, Step-IsConsistent}
use deterministic_cognition.Workflow.State.{WorkflowExecution, LineageEvent}
use deterministic_cognition.Workflow.Definition.{WorkflowNode, WorkflowDefinition, ExecutionPlan}
use deterministic_cognition.Workflow.Planner.{node_map}
use deterministic_cognition.Workflow.Executor.Progress.{get_ready_node_ids}
use deterministic_cognition.Workflow.Coordination.{
  find_submitted_node_ids, new_task, Submission, made_ready, created, submit, submit_each,
  submit_ready_nodes, submission_event,
}
use deterministic_cognition.Workflow.Coordination.Open.{has_open_task, passed_over, keep-same}
use deterministic_cognition.Workflow.Coordination.Rows.{
  IsSubmission, Matches, Keeps, Lists, made-row, made-stored, made-Keeps, before-Lists,
  made-IsSubmission,
}

module _ (clock : ℕ → String) (e : WorkflowExecution) (actor : String) where
  submit-Lists :
      (tick : ℕ) (nodes : Dict WorkflowNode) (n : String) (ids : List String) (s : Store)
      (o : Option WorkflowNode) (rest : Store → Submission)
      → get n nodes ≡ o
      → IsConsistent s
      → ((t : Store) → IsConsistent t → Lists e actor nodes ids t (rest t))
      → Lists e actor nodes (n ∷ ids) s (submit clock e actor tick n s o rest)
  unfolding submit created made_ready
  submit-Lists tick nodes n ids s none rest known c k = tt
  submit-Lists tick nodes n ids s (some node) rest known c k =
      elim (Result-cases (create_task (clock tick) (new_task e node n actor) s)) [
        | inr (x, failed) ↦ rw failed tt
        | inl ((s1, t), created_it) ↦
            elim (Result-cases (
              transition_task (clock (suc tick)) t.id ready
                "Workflow coordinator: node ready for execution" actor [] s1)) [
                  | inr (x, failed) ↦ rw created_it (rw failed tt)
                  | inl ((s2, u), moved_it) ↦
                      let m = new_task e node n actor in
                      let (tasks, is_made) =
                        made-row (clock tick) (clock (suc tick))
                          "Workflow coordinator: node ready for execution" actor m s c created_it
                          moved_it in
                      let c2 =
                        Step-IsConsistent
                          (transition (clock (suc tick)) t.id ready _ actor [] u moved_it)
                          (Step-IsConsistent (create (clock tick) m t created_it) c) in
                      rw created_it (
                        rw moved_it (
                          before-Lists e actor nodes n ids s s2 u (submission_event e n u) (rest s2)
                            (made-Keeps (clock (suc tick)) s s2 m (clock tick) c tasks)
                            (subst (λ w. IsSubmission e actor nodes s2 n w (submission_event e n w))
                              (sym is_made)
                              (made-IsSubmission e actor nodes n node s s2 (clock tick)
                                (clock (suc tick)) known
                                (made-stored (clock (suc tick)) s m (clock tick) s2.tasks c tasks)))
                            (k s2 c2)))
                ]
      ]

  submit_each-Lists :
      (tick : ℕ) (nodes : Dict WorkflowNode) (submitted ids : List String) (s : Store)
      → IsConsistent s
      → Lists e actor nodes
          (keep (λ n. not (contains n submitted)) ids)
          s
          (submit_each clock e actor tick nodes submitted ids s)
  unfolding submit_each
  submit_each-Lists tick nodes submitted [] s c = ((λ id u found. found), tt)
  submit_each-Lists tick nodes submitted (n ∷ ids) s c = elim (Bool-cases (contains n submitted)) [
    | inl before_it ↦ rw before_it (submit_each-Lists tick nodes submitted ids s c)
    | inr fresh ↦ rw fresh (
        submit-Lists tick nodes n (keep (λ n. not (contains n submitted)) ids) s (get n nodes)
          (submit_each clock e actor (suc (suc tick)) nodes submitted ids) refl c
          (λ t d. submit_each-Lists (suc (suc tick)) nodes submitted ids t d))
  ]

-- the ready nodes for which no task of the execution is pending, ready or running, in the order of the
-- plan; an id that is empty is always among them
abbrev pub to_submit : WorkflowExecution → ExecutionPlan → Store → List String
to_submit e plan s =
    keep (λ n. (n == "") || not (has_open_task e.execution_id n s.tasks))
      (get_ready_node_ids e plan)

-- On a consistent store of tasks, a call of `submit_ready_nodes` that returns has one task and one event
-- for each ready node for which no task of the execution is pending, ready or running (and for an id that
-- is empty), in the order of the plan. The node is in the definition; the task has its type, is titled
-- after workflow and node, is ready, carries the ids of execution and node, and is the row that the store
-- has; the event is of the execution and of the node. The rows that were there are as they were.
pub submit_ready_nodes-Names :
    (clock : ℕ → String) (e : WorkflowExecution) (actor : String) (plan : ExecutionPlan)
    (definition : WorkflowDefinition) (s t : Store) (tasks : List Task) (events : List LineageEvent)
    → IsConsistent s
    → submit_ready_nodes clock e actor plan definition s ≡ (t, ok (tasks, events))
    → Keeps s t
      × Matches
          (IsSubmission e actor (node_map definition.nodes []) t)
          (to_submit e plan s)
          tasks
          events
unfolding submit_ready_nodes
submit_ready_nodes-Names clock e actor plan definition s t tasks events c returned =
    let nodes = node_map definition.nodes [] in
    let ids = get_ready_node_ids e plan in
    subst (λ ns. Keeps s t × Matches (IsSubmission e actor nodes t) ns tasks events)
      (keep-same (λ n. not (contains n (find_submitted_node_ids s e.execution_id)))
        (λ n. (n == "") || not (has_open_task e.execution_id n s.tasks)) ids
        (λ n. passed_over e.execution_id n s))
      (subst
        (Lists e actor nodes
          (keep (λ n. not (contains n (find_submitted_node_ids s e.execution_id))) ids) s)
        returned
        (submit_each-Lists clock e actor 0 nodes (find_submitted_node_ids s e.execution_id) ids s
          c))
