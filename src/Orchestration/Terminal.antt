-- ===== src/Orchestration/Terminal.antt =====
-- A task in a terminal state keeps its row for good, and a task is unblocked only when it may be.
use deterministic_cognition.Prelude.{
  ℕ, suc, String, ◌≡◌, Bool, true, false, none, some, List, [], ◌∷◌, ok, eqb, arith, keep, All,
  Dict, Option-cases, Bool-cases, inl, inr, ◌⊎◌,
}
use deterministic_cognition.Orchestration.State.{
  TaskState, ready, blocked, completed, validate_transition, is_terminal, state_eq, Task,
  TaskDependency,
}
use deterministic_cognition.Orchestration.Service.{
  Store, new_row, transition_task, find_task, dependencies_of, is_blocking,
  get_blocking_dependencies, check_and_unblock, unblock_reason,
}
use deterministic_cognition.Orchestration.Reach.{
  Step, create, transition, depend, unblock, Unblock, left_alone, made_ready,
  check_and_unblock-Unblock,
}
use deterministic_cognition.Orchestration.Recorded.{find_task-append, find_task-update}
use deterministic_cognition.Orchestration.Invariant.{
  transition_task-eq, create_task-eq, add_dependency-frame,
}

terminal-final :
    (old new : TaskState) → is_terminal old ≡ true → validate_transition old new ≡ ok tt → ⊥
unfolding is_terminal validate_transition
terminal-final old new h v = ground arith

-- the row of a task that may not move is the same after a move of any task
transition-keeps :
    (now : String) (id : ℕ) (new : TaskState) (reason actor : String) (metadata : Dict String)
    (s : Store) (j : ℕ) (u : Task) {s' : Store} {t' : Task}
    → transition_task now id new reason actor metadata s ≡ ok (s', t')
    → find_task j s.tasks ≡ some u
    → is_terminal u.state ≡ true
    → find_task j s'.tasks ≡ some u
transition-keeps now id new reason actor metadata s j u h found final =
    let (t, there, legal, e, _) = transition_task-eq now id new reason actor metadata s h in
    elim (Bool-cases (eqb id j)) [
      | inl same ↦
          let is_j : id ≡ j = ground arith in
          let is_t : t ≡ u = ground (arith, there, found, is_j) in
          absurd (terminal-final u.state new final (rw is_t at legal))
      | inr other ↦
          rw e (ground (arith, find_task-update j id new (suc t.version) now s.tasks, found, other))
    ]

-- A call that writes leaves the row of a cancelled or superseded task as it is.
pub Step-terminal :
    {s s' : Store} (j : ℕ) (u : Task)
    → Step s s'
    → find_task j s.tasks ≡ some u
    → is_terminal u.state ≡ true
    → find_task j s'.tasks ≡ some u
Step-terminal {s} {s'} j u (create now n t h) found final =
    rw (create_task-eq now n s h)
      (ground (arith, find_task-append j s.tasks (new_row s n now), found))
Step-terminal {s} j u (transition now id new reason actor metadata t h) found final =
    transition-keeps now id new reason actor metadata s j u h found final
Step-terminal {s} j u (depend now id on kind d h) found final =
    rw (add_dependency-frame now id on kind s h).0 found
Step-terminal {s} j u (unblock now id actor b h) found final =
    go (check_and_unblock-Unblock now id actor s h)
  where
    go : {s' : Store} → Unblock now id actor s s' b → find_task j s'.tasks ≡ some u
    go (left_alone e _) = rw e found
    go (made_ready t t' _ _ _ moves _) =
        transition-keeps now id ready unblock_reason actor [] s j u moves found final

-- The task that `d` waits for is completed, or there is no such task.
abbrev pub IsResolved : Store → TaskDependency → Type 0
IsResolved s d =
    (find_task d.depends_on_id s.tasks ≡ none)
    ⊎ ((t : Task) × (find_task d.depends_on_id s.tasks ≡ some t) × (t.state ≡ completed))

state_eq-completed : (s : TaskState) → state_eq s completed ≡ true → s ≡ completed
unfolding state_eq
state_eq-completed s h = ground arith

not-blocking : (s : Store) (d : TaskDependency) → is_blocking s.tasks d ≡ false → IsResolved s d
unfolding is_blocking
not-blocking s d h = elim (Option-cases (find_task d.depends_on_id s.tasks)) [
  | inl missing ↦ inl missing
  | inr (t, found) ↦ inr (t, found, state_eq-completed t.state (ground (arith, found, h)))
]

keep-nil-All :
    (s : Store) (ds : List TaskDependency)
    → keep (is_blocking s.tasks) ds ≡ []
    → All (IsResolved s) ds
keep-nil-All s [] h = tt
keep-nil-All s (d ∷ ds) h = elim (Bool-cases (is_blocking s.tasks d)) [
  | inl holds ↦ absurd (ground (arith, holds, h))
  | inr free ↦ (not-blocking s d free, keep-nil-All s ds (ground (arith, free, h)))
]

blocking-nil :
    (id : ℕ) (s : Store)
    → get_blocking_dependencies id s ≡ ok []
    → keep (is_blocking s.tasks) (dependencies_of id s.dependencies) ≡ []
unfolding get_blocking_dependencies
blocking-nil id s h = elim (Option-cases (find_task id s.tasks)) [
  | inl missing ↦ absurd (ground (arith, missing, h))
  | inr (t, found) ↦ ground (arith, found, h)
]

made_ready-row :
    (now : String) (id : ℕ) (actor : String) (s s' : Store) (t t' : Task)
    → find_task id s.tasks ≡ some t
    → transition_task now id ready unblock_reason actor [] s ≡ ok (s', t')
    → find_task id s'.tasks
      ≡ some (record t { state = ready; version = suc t.version; updated_at = now })
made_ready-row now id actor s s' t t' found moves =
    let (u, there, legal, e, _) = transition_task-eq now id ready unblock_reason actor [] s moves in
    let same : u ≡ t = ground (arith, there, found) in
    rw e (ground (arith, find_task-update id id ready (suc u.version) now s.tasks, found, same))

state_eq-blocked : (s : TaskState) → state_eq s blocked ≡ true → s ≡ blocked
unfolding state_eq
state_eq-blocked s h = ground arith

-- `check_and_unblock` that returns `True` found the task blocked and every one of its dependencies
-- resolved, and has made it ready; one that returns `False` has written nothing.
pub check_and_unblock_lem :
    (now : String) (id : ℕ) (actor : String) (s s' : Store) (b : Bool)
    → check_and_unblock now id actor s ≡ ok (s', b)
    → (b ≡ true
        → ((t : Task) × (find_task id s.tasks ≡ some t)
            × (t.state ≡ blocked)
            × (find_task id s'.tasks
                ≡ some (record t { state = ready; version = suc t.version; updated_at = now })))
          × All (IsResolved s) (dependencies_of id s.dependencies))
      × (b ≡ false → s' ≡ s)
check_and_unblock_lem now id actor s s' b h = go (check_and_unblock-Unblock now id actor s h)
  where
    go :
        Unblock now id actor s s' b
        → (b ≡ true
            → ((t : Task) × (find_task id s.tasks ≡ some t)
                × (t.state ≡ blocked)
                × (find_task id s'.tasks
                    ≡ some (record t { state = ready; version = suc t.version; updated_at = now })))
              × All (IsResolved s) (dependencies_of id s.dependencies))
          × (b ≡ false → s' ≡ s)
    go (left_alone e n) = (λ y. absurd (cc), λ _. e)
    go (made_ready t t' found held free moves y) = (
      λ _. (
        (
          t,
          found,
          state_eq-blocked t.state held,
          made_ready-row now id actor s s' t t' found moves,
        ),
        keep-nil-All s (dependencies_of id s.dependencies) (blocking-nil id s free),
      ),
      λ n. absurd (cc),
    )
