-- ===== src/Orchestration/Reach.antt =====
-- The stores that the service can reach from an empty one.
use deterministic_cognition.Prelude.{
  ℕ, String, ◌≡◌, Bool, true, false, some, List, [], ◌∷◌, Dict, ok, >>=-eq-ok, arith, inl, inr,
  Option-cases, Bool-cases,
}
use deterministic_cognition.Orchestration.State.{
  TaskState, ready, blocked, state_eq, Task, TaskDependency,
}
use deterministic_cognition.Orchestration.Service.{
  Store, init_db, NewTask, create_task, transition_task, add_dependency, check_and_unblock,
  get_blocking_dependencies, unblock_reason, find_task, unblock_if,
}

-- A call that writes.
pub data Step (s s' : Store) : Type 0 where
  create : (now : String) (n : NewTask) (t : Task) → create_task now n s ≡ ok (s', t) → Step s s'
  transition :
      (now : String) (id : ℕ) (new : TaskState) (reason actor : String) (metadata : Dict String)
      (t : Task)
      → transition_task now id new reason actor metadata s ≡ ok (s', t)
      → Step s s'
  depend :
      (now : String) (id on : ℕ) (kind : String) (d : TaskDependency)
      → add_dependency now id on kind s ≡ ok (s', d)
      → Step s s'
  unblock :
      (now : String) (id : ℕ) (actor : String) (b : Bool)
      → check_and_unblock now id actor s ≡ ok (s', b)
      → Step s s'

pub data Reach : Store → Type 0 where
  start : Reach init_db
  next : {s s' : Store} → Reach s → Step s s' → Reach s'

-- What a call of `check_and_unblock` that returned has done.
pub data Unblock (now : String) (id : ℕ) (actor : String) (s s' : Store) (b : Bool) : Type 0 where
  left_alone : s' ≡ s → b ≡ false → Unblock now id actor s s' b
  made_ready :
      (t t' : Task)
      → find_task id s.tasks ≡ some t
      → state_eq t.state blocked ≡ true
      → get_blocking_dependencies id s ≡ ok []
      → transition_task now id ready unblock_reason actor [] s ≡ ok (s', t')
      → b ≡ true
      → Unblock now id actor s s' b

unblock_if-Unblock :
    (now : String) (id : ℕ) (actor : String) (s : Store) (t : Task) (ds : List TaskDependency)
    {s' : Store} {b : Bool}
    → find_task id s.tasks ≡ some t
    → state_eq t.state blocked ≡ true
    → get_blocking_dependencies id s ≡ ok ds
    → unblock_if now id actor s ds ≡ ok (s', b)
    → Unblock now id actor s s' b
unfolding unblock_if
unblock_if-Unblock now id actor s t (d ∷ ds) found held blocking h =
    left_alone (ground arith) (ground arith)
unblock_if-Unblock now id actor s t [] found held blocking h =
    let (r, p, q) = >>=-eq-ok (transition_task now id ready unblock_reason actor [] s) _ h in
    made_ready t r.1 found held blocking (ground arith) (ground arith)

pub check_and_unblock-Unblock :
    (now : String) (id : ℕ) (actor : String) (s : Store) {s' : Store} {b : Bool}
    → check_and_unblock now id actor s ≡ ok (s', b)
    → Unblock now id actor s s' b
unfolding check_and_unblock
check_and_unblock-Unblock now id actor s {s'} {b} h = elim (Option-cases (find_task id s.tasks)) [
  | inl missing ↦ absurd (ground (arith, missing, h))
  | inr (t, found) ↦ elim (Bool-cases (state_eq t.state blocked)) [
    | inr other ↦ left_alone (ground (arith, found, other, h)) (ground (arith, found, other, h))
    | inl held ↦
        let (ds, p, q) =
          >>=-eq-ok (get_blocking_dependencies id s) (unblock_if now id actor s)
            (ground (arith, found, held, h)) in
        unblock_if-Unblock now id actor s t ds found held p q
  ]
]
