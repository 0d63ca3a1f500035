-- ===== src/Workflow/Coordination/Rows.antt =====
-- The row that `submit_ready_nodes` of workflow/coordination.py leaves for a node, and what is returned with it.
use deterministic_cognition.Prelude.{
  ℕ, suc, String, ◌⧺◌, ◌≡◌, refl, ◌∙◌, ap, inl, inr, some, List, [], ◌∷◌, ◌++◌, Dict, get, put, eqb,
  Bool-cases, ok, err, arith,
}
use deterministic_cognition.Orchestration.State.{ready, Task}
use deterministic_cognition.Orchestration.Service.{
  Store, NewTask, new_row, create_task, transition_task, find_task, update_state,
}
use deterministic_cognition.Orchestration.Recorded.{find_task-append, find_task-update}
use deterministic_cognition.Orchestration.Invariant.{
  IsConsistent, create_task-eq, transition_task-eq,
}
use deterministic_cognition.Workflow.State.{WorkflowExecution, LineageEvent, node_submitted}
use deterministic_cognition.Workflow.Definition.{WorkflowNode}
use deterministic_cognition.Workflow.Coordination.{
  has_payload, new_task, Submission, before, submission_event,
}

-- what the task `u` and the event `v` of a node say, and that the row of the task is in the store
pub record IsSubmission (e : WorkflowExecution) (actor : String) (nodes : Dict WorkflowNode)
    (t : Store) (n : String) (u : Task) (v : LineageEvent) : Type 0 where
  pub node : WorkflowNode
  pub known : get n nodes ≡ some node
  pub stored : find_task u.id t.tasks ≡ some u
  pub title : u.title ≡ "wf:" ⧺ e.workflow_id ⧺ ":" ⧺ n
  pub task_type : u.task_type ≡ node.task_type
  pub state : u.state ≡ ready
  pub task_actor : u.actor ≡ actor
  pub task_execution : get "workflow_execution_id" u.metadata ≡ some e.execution_id
  pub task_node : get "workflow_node_id" u.metadata ≡ some n
  pub event_type : v.event_type ≡ node_submitted
  pub event_execution : v.execution_id ≡ e.execution_id
  pub event_node : v.node_id ≡ some n
  pub event_time : v.created_at ≡ u.updated_at

-- one task and one event for each of the nodes, in their order
abbrev pub Matches :
    (String → Task → LineageEvent → Type 0) → List String → List Task → List LineageEvent → Type 0
Matches R [] [] [] = Unit
Matches R (n ∷ ns) (u ∷ us) (v ∷ vs) = R n u v × Matches R ns us vs
Matches R _ _ _ = ⊥

-- the rows that were there are as they were
abbrev pub Keeps : Store → Store → Type 0
Keeps s t = (id : ℕ) → (u : Task) → find_task id s.tasks ≡ some u → find_task id t.tasks ≡ some u

create_task-row :
    (now : String) (n : NewTask) (s : Store) {s' : Store} {t : Task}
    → create_task now n s ≡ ok (s', t)
    → t ≡ new_row s n now
unfolding create_task
create_task-row now n s h = ground (arith, h)

-- creation and the move to 'ready', for the row that is new
abbrev pub made : Store → NewTask → String → String → Task
made s n now then' = record (new_row s n now) { state = ready; version = 2; updated_at = then' }

is_next :
    (s : Store) (n : NewTask) (now : String)
    → IsConsistent s
    → find_task s.next_task (s.tasks ++ new_row s n now ∷ []) ≡ some (new_row s n now)
is_next s n now c = ground (
  arith,
  find_task-append s.next_task s.tasks (new_row s n now),
  (c.fresh s.next_task (omega arith)).0,
)

pub made-row :
    (now then' reason actor : String) (m : NewTask) (s : Store) {s1 s2 : Store} {r u : Task}
    → IsConsistent s
    → create_task now m s ≡ ok (s1, r)
    → transition_task then' r.id ready reason actor [] s1 ≡ ok (s2, u)
    → (s2.tasks ≡ update_state s.next_task ready 2 then' (s.tasks ++ new_row s m now ∷ []))
      × (u ≡ made s m now then')
made-row now then' reason actor m s {s1} {s2} {r} {u} c created_it moved_it =
    let (q, found, valid, same, row) =
      transition_task-eq then' r.id ready reason actor [] s1 moved_it in
    let is_row = create_task-row now m s created_it in
    let tasks : s1.tasks ≡ s.tasks ++ new_row s m now ∷ [] =
      ap (λ (x : Store). x.tasks) (create_task-eq now m s created_it) in
    let id : r.id ≡ s.next_task = ap (λ (x : Task). x.id) is_row in
    let is_q : q ≡ new_row s m now = ground (arith, found, tasks, id, is_next s m now c) in
    (
      ap (λ (x : Store). x.tasks) same ∙ ground (arith, tasks, id, is_q),
      row
          ∙ ap
              (λ (x : Task). record x {
                state = ready;
                version = suc x.version;
                updated_at = then';
              })
              is_q,
    )

pub made-stored :
    (then' : String) (s : Store) (m : NewTask) (now : String) (ts : List Task)
    → IsConsistent s
    → ts ≡ update_state s.next_task ready 2 then' (s.tasks ++ new_row s m now ∷ [])
    → find_task s.next_task ts ≡ some (made s m now then')
made-stored then' s m now ts c same =
    ap (find_task s.next_task) same
    ∙ ground (
      arith,
      find_task-update s.next_task s.next_task ready 2 then' (s.tasks ++ new_row s m now ∷ []),
      is_next s m now c,
    )

pub made-Keeps :
    (then' : String) (s s2 : Store) (m : NewTask) (now : String)
    → IsConsistent s
    → s2.tasks ≡ update_state s.next_task ready 2 then' (s.tasks ++ new_row s m now ∷ [])
    → Keeps s s2
made-Keeps then' s s2 m now c same k v found = elim (Bool-cases (eqb s.next_task k)) [
  | inl new ↦ absurd (ground (arith, found, (c.fresh k (ground arith)).0))
  | inr old ↦
      ap (find_task k) same
      ∙ ground (
        arith,
        find_task-update k s.next_task ready 2 then' (s.tasks ++ new_row s m now ∷ []),
        find_task-append k s.tasks (new_row s m now),
        found,
        old,
      )
]

-- what a loop over the nodes that returns leaves
abbrev pub Lists :
    WorkflowExecution → String → Dict WorkflowNode → List String → Store → Submission → Type 0
Lists e actor nodes ids s (t, ok (us, vs)) =
    Keeps s t × Matches (IsSubmission e actor nodes t) ids us vs
Lists e actor nodes ids s (t, err x) = Unit

pub before-Lists :
    (e : WorkflowExecution) (actor : String) (nodes : Dict WorkflowNode) (n : String)
    (ids : List String) (s s2 : Store) (u : Task) (v : LineageEvent) (m : Submission)
    → Keeps s s2
    → IsSubmission e actor nodes s2 n u v
    → Lists e actor nodes ids s2 m
    → Lists e actor nodes (n ∷ ids) s (before u v m)
before-Lists e actor nodes n ids s s2 u v (t, ok (us, vs)) k h (k2, r) = (
  λ id w found. k2 id w (k id w found),
  (
    record {
      node = h.node;
      known = h.known;
      stored = k2 u.id u h.stored;
      title = h.title;
      task_type = h.task_type;
      state = h.state;
      task_actor = h.task_actor;
      task_execution = h.task_execution;
      task_node = h.task_node;
      event_type = h.event_type;
      event_execution = h.event_execution;
      event_node = h.event_node;
      event_time = h.event_time;
    },
    r,
  ),
)
before-Lists e actor nodes n ids s s2 u v (t, err x) k h r = tt

-- the metadata of a new task name the execution and the node, with a payload or without
new_task-execution :
    (e : WorkflowExecution) (node : WorkflowNode) (n actor : String)
    → get "workflow_execution_id" (new_task e node n actor).metadata ≡ some e.execution_id
unfolding get put
new_task-execution e node n actor = elim (Bool-cases (has_payload node.task_payload_json)) [
  | inl full ↦ rw full refl
  | inr bare ↦ rw bare refl
]

new_task-node :
    (e : WorkflowExecution) (node : WorkflowNode) (n actor : String)
    → get "workflow_node_id" (new_task e node n actor).metadata ≡ some n
unfolding get put
new_task-node e node n actor = elim (Bool-cases (has_payload node.task_payload_json)) [
  | inl full ↦ rw full refl
  | inr bare ↦ rw bare refl
]

pub made-IsSubmission :
    (e : WorkflowExecution) (actor : String) (nodes : Dict WorkflowNode) (n : String)
    (node : WorkflowNode) (s s2 : Store) (now then' : String)
    → get n nodes ≡ some node
    → find_task s.next_task s2.tasks ≡ some (made s (new_task e node n actor) now then')
    → let u = made s (new_task e node n actor) now then' in
      IsSubmission e actor nodes s2 n u (submission_event e n u)
made-IsSubmission e actor nodes n node s s2 now then' known stored = record {
  node = node;
  known = known;
  stored = stored;
  title = refl;
  task_type = refl;
  state = refl;
  task_actor = refl;
  task_execution = new_task-execution e node n actor;
  task_node = new_task-node e node n actor;
  event_type = refl;
  event_execution = refl;
  event_node = refl;
  event_time = refl;
}
