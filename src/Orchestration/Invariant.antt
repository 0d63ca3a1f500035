-- ===== src/Orchestration/Invariant.antt =====
-- Every store that the service can reach is consistent: the lineage of each task tells its life.
use deterministic_cognition.Prelude.{
  ℕ, suc, ◌≤◌, String, ◌≡◌, refl, true, none, some, [], ◌∷◌, ◌++◌, ok, >>=-eq-ok, eqb, arith, Dict,
  Option-cases, Bool-cases, inl, inr, append-nil,
}
use deterministic_cognition.Orchestration.State.{
  TaskState, pending, ready, can_transition, validate_transition, Task, TaskDependency,
  current_state_from_lineage,
}
use deterministic_cognition.Orchestration.Service.{
  Store, NewTask, new_row, create_task, validate_new_task, moved, insert_event, event_row,
  transition_task, add_dependency, find_task, lineage_of, dep_snapshot, unblock_reason,
}
use deterministic_cognition.Orchestration.Reach.{
  Step, create, transition, depend, unblock, Reach, start, next, Unblock, left_alone, made_ready,
  check_and_unblock-Unblock,
}
use deterministic_cognition.Orchestration.Recorded.{
  IsRecorded, IsRecorded-snoc, find_task-id, find_task-append, find_task-update, lineage_of-snoc,
}

pub record IsConsistent (s : Store) : Type 0 where
  -- ids from the counter on are not in use
  pub fresh :
      (id : ℕ) → s.next_task ≤ id → (find_task id s.tasks ≡ none) × (lineage_of id s.lineage ≡ [])
  pub recorded :
      (id : ℕ) (t : Task) → find_task id s.tasks ≡ some t → IsRecorded t (lineage_of id s.lineage)

pub create_task-eq :
    (now : String) (n : NewTask) (s : Store) {s' : Store} {t : Task}
    → create_task now n s ≡ ok (s', t)
    → s'
      ≡ insert_event s.next_task none pending n.reason n.actor [] [] now
          (record s { tasks = s.tasks ++ new_row s n now ∷ []; next_task = suc s.next_task })
unfolding create_task
create_task-eq now n s h = let (u, p, q) = >>=-eq-ok (validate_new_task n) _ h in ground (arith, q)

pub transition_task-eq :
    (now : String) (id : ℕ) (new : TaskState) (reason actor : String) (metadata : Dict String)
    (s : Store) {s' : Store} {t' : Task}
    → transition_task now id new reason actor metadata s ≡ ok (s', t')
    → (t : Task) × (find_task id s.tasks ≡ some t)
      × (validate_transition t.state new ≡ ok tt)
      × (s' ≡ moved now s id t new reason actor metadata)
      × (t' ≡ record t { state = new; version = suc t.version; updated_at = now })
unfolding transition_task
transition_task-eq now id new reason actor metadata s h =
    elim (Option-cases (find_task id s.tasks)) [
      | inl missing ↦ absurd (ground (arith, missing, h))
      | inr (t, found) ↦
          (t, found, ground (arith, found, h), ground (arith, found, h), ground (arith, found, h))
    ]

validate-can :
    (old new : TaskState) → validate_transition old new ≡ ok tt → can_transition old new ≡ true
unfolding validate_transition
validate-can old new h = ground arith

create-fresh :
    (now : String) (n : NewTask) (s : Store) (id : ℕ)
    → suc s.next_task ≤ id
    → IsConsistent s
    → let ev = event_row s.next_task none pending n.reason n.actor [] [] now s in
      (find_task id (s.tasks ++ new_row s n now ∷ []) ≡ none)
      × (lineage_of id (s.lineage ++ ev ∷ []) ≡ [])
create-fresh now n s id le c =
    let ev = event_row s.next_task none pending n.reason n.actor [] [] now s in
    let (a, b) = c.fresh id (omega arith) in
    (
      ground (arith, find_task-append id s.tasks (new_row s n now), a),
      ground (arith, lineage_of-snoc id s.lineage ev, b),
    )

new_row-IsRecorded :
    (s : Store) (n : NewTask) (now : String)
    → IsRecorded
        (new_row s n now)
        (event_row s.next_task none pending n.reason n.actor [] [] now s ∷ [])
unfolding current_state_from_lineage
new_row-IsRecorded s n now = record { chain = (refl, refl, tt); current = refl; version = refl }

create-IsRecorded :
    (now : String) (n : NewTask) (s : Store) (id : ℕ) (t : Task)
    → find_task id (s.tasks ++ new_row s n now ∷ []) ≡ some t
    → IsConsistent s
    → let ev = event_row s.next_task none pending n.reason n.actor [] [] now s in
      IsRecorded t (lineage_of id (s.lineage ++ ev ∷ []))
create-IsRecorded now n s id t found c =
    let ev = event_row s.next_task none pending n.reason n.actor [] [] now s in
    let row = new_row s n now in
    elim (Bool-cases (eqb id s.next_task)) [
      | inl same ↦
          let is_next : id ≡ s.next_task = ground arith in
          let (a, b) = c.fresh id (omega (arith, is_next)) in
          let is_row : t ≡ row = ground (arith, find_task-append id s.tasks row, a, same) in
          let events : lineage_of id (s.lineage ++ ev ∷ []) ≡ ev ∷ [] =
            ground (arith, lineage_of-snoc id s.lineage ev, b, same) in
          rw (events, is_row) (new_row-IsRecorded s n now)
      | inr other ↦
          let old : find_task id s.tasks ≡ some t =
            ground (arith, find_task-append id s.tasks row, other) in
          let events : lineage_of id (s.lineage ++ ev ∷ []) ≡ lineage_of id s.lineage =
            ground (
              arith,
              lineage_of-snoc id s.lineage ev,
              append-nil (lineage_of id s.lineage),
              other,
            ) in
          rw events (c.recorded id t old)
    ]

create-IsConsistent :
    (now : String) (n : NewTask) (s : Store) {s' : Store} {t : Task}
    → create_task now n s ≡ ok (s', t)
    → IsConsistent s
    → IsConsistent s'
create-IsConsistent now n s h c = rw (create_task-eq now n s h) (record {
  fresh = λ id le. create-fresh now n s id le c;
  recorded = λ id t found. create-IsRecorded now n s id t found c;
})

module _ (now : String) (s : Store) (id : ℕ) (t : Task) (new : TaskState) (reason actor : String)
    (metadata : Dict String) (found : find_task id s.tasks ≡ some t)
    (legal : can_transition t.state new ≡ true) (c : IsConsistent s) where
  abbrev after : Store
  after = moved now s id t new reason actor metadata

  moved-fresh :
      (j : ℕ)
      → s.next_task ≤ j
      → (find_task j after.tasks ≡ none) × (lineage_of j after.lineage ≡ [])
  moved-fresh j le =
      let (a, b) = c.fresh j le in
      let ev = event_row id (some t.state) new reason actor (dep_snapshot s id) metadata now s in
      (
        ground (arith, find_task-update j id new (suc t.version) now s.tasks, a),
        ground (arith, lineage_of-snoc j s.lineage ev, b, found),
      )

  moved-IsRecorded :
      (j : ℕ) (u : Task)
      → find_task j after.tasks ≡ some u
      → IsRecorded u (lineage_of j after.lineage)
  moved-IsRecorded j u h =
      let ev = event_row id (some t.state) new reason actor (dep_snapshot s id) metadata now s in
      let t' : Task = record t { state = new; version = suc t.version; updated_at = now } in
      elim (Bool-cases (eqb id j)) [
        | inl same ↦
            let is_j : j ≡ id = ground arith in
            let is_t : u ≡ t' = ground (
              arith,
              find_task-update j id new (suc t.version) now s.tasks,
              found,
              is_j,
              find_task-id id s.tasks t found,
            ) in
            let events : lineage_of j (s.lineage ++ ev ∷ []) ≡ lineage_of id s.lineage ++ ev ∷ [] =
              ground (arith, lineage_of-snoc j s.lineage ev, same, is_j) in
            rw (events, is_t)
              (IsRecorded-snoc t t' (lineage_of id s.lineage) ev (c.recorded id t found) refl refl
                refl legal)
        | inr other ↦ elim (Option-cases (find_task j s.tasks)) [
          | inl missing ↦
              absurd
                (ground (arith, find_task-update j id new (suc t.version) now s.tasks, missing, h))
          | inr (t0, old) ↦
              let is_t0 : u ≡ t0 = ground (
                arith,
                find_task-update j id new (suc t.version) now s.tasks,
                old,
                find_task-id j s.tasks t0 old,
                other,
                h,
              ) in
              let events : lineage_of j (s.lineage ++ ev ∷ []) ≡ lineage_of j s.lineage = ground (
                arith,
                lineage_of-snoc j s.lineage ev,
                append-nil (lineage_of j s.lineage),
                other,
              ) in
              rw (events, is_t0) (c.recorded j t0 old)
        ]
      ]

  moved-IsConsistent : IsConsistent after
  moved-IsConsistent = record { fresh = moved-fresh; recorded = moved-IsRecorded }

pub add_dependency-frame :
    (now : String) (id on : ℕ) (kind : String) (s : Store) {s' : Store} {d : TaskDependency}
    → add_dependency now id on kind s ≡ ok (s', d)
    → (s'.tasks ≡ s.tasks) × (s'.lineage ≡ s.lineage) × (s'.next_task ≡ s.next_task)
unfolding add_dependency
add_dependency-frame now id on kind s h = ground arith

transition-IsConsistent :
    (now : String) (id : ℕ) (new : TaskState) (reason actor : String) (metadata : Dict String)
    (s : Store) {s' : Store} {t' : Task}
    → transition_task now id new reason actor metadata s ≡ ok (s', t')
    → IsConsistent s
    → IsConsistent s'
transition-IsConsistent now id new reason actor metadata s h c =
    let (t, found, legal, e, _) = transition_task-eq now id new reason actor metadata s h in
    rw e (
      moved-IsConsistent now s id t new reason actor metadata found (validate-can t.state new legal)
        c)

pub Step-IsConsistent : {s s' : Store} → Step s s' → IsConsistent s → IsConsistent s'
Step-IsConsistent {s} (create now n t h) c = create-IsConsistent now n s h c
Step-IsConsistent {s} (transition now id new reason actor metadata t h) c =
    transition-IsConsistent now id new reason actor metadata s h c
Step-IsConsistent {s} (depend now id on kind d h) c =
    let (a, b, e) = add_dependency-frame now id on kind s h in
    record {
      fresh = λ j le. rw (a, b) (c.fresh j (rw e at le));
      recorded = λ j t found. rw b (c.recorded j t (rw a at found));
    }
Step-IsConsistent {s} (unblock now id actor b h) c = go (check_and_unblock-Unblock now id actor s h)
  where
    go : {s' : Store} → Unblock now id actor s s' b → IsConsistent s'
    go (left_alone e _) = rw e c
    go (made_ready t t' _ _ _ moves _) =
        transition-IsConsistent now id ready unblock_reason actor [] s moves c

-- After any calls, the lineage of a task gives its state, has one event for each version, starts
-- with its creation in 'pending', and follows the permitted transitions.
pub Reach-IsConsistent : {s : Store} → Reach s → IsConsistent s
unfolding find_task lineage_of
Reach-IsConsistent start = record {
  fresh = λ id le. (refl, refl);
  recorded = λ id t h. absurd (cc);
}
Reach-IsConsistent (next r st) = Step-IsConsistent st (Reach-IsConsistent r)
