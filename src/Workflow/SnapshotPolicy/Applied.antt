-- ===== src/Workflow/SnapshotPolicy/Applied.antt =====
-- When `apply_snapshot_policy` of workflow/snapshot_policy.py takes a snapshot, and what it leaves.
use deterministic_cognition.Prelude.{
  ℕ, suc, ◌≤◌, String, ◌==◌, ◌≡◌, refl, ◌∙◌, sym, ap, subst, Bool, true, false, ◌&&◌, ◌||◌, ◌⊎◌,
  inl, inr, none, some, List, [], ◌∷◌, get, length, keep, any, ltb, ℤ, pos, negsuc, ltb_ℤ, leb_ℤ,
  All, Any, if◌then◌else◌, arith, Bool-cases, ok, eq_refl,
}
use deterministic_cognition.Workflow.State.{
  LineageEvent, EventType, stage_advanced, state_transition, node_completed, node_failed,
  node_retry, node_submitted, other, WorkflowExecution,
}
use deterministic_cognition.Workflow.Storage.{
  Db, load_execution, load_from, load_execution_events, persist_snapshot, load_latest_snapshot,
  sort_items,
}
use deterministic_cognition.Workflow.Storage.Rows.{get-sort_items}
use deterministic_cognition.Workflow.SnapshotPolicy.{
  SnapshotPolicy, should_snapshot, count_events_since, is_stage_advanced, max_id,
  apply_snapshot_policy,
}

-- an event of the batch advances the stage
abbrev pub Advances : List LineageEvent → Type 0
Advances es = Any (λ (evt : LineageEvent). evt.event_type ≡ stage_advanced) es

-- so many events are in the lineage after the last snapshot as the policy has in one
abbrev pub IsFull : SnapshotPolicy → WorkflowExecution → ℕ → Db → Type 0
IsFull policy e last db =
    (n : ℕ) × (policy.events_per_snapshot ≡ pos n)
    × (1 ≤ n)
    × (n ≤ length (load_execution_events e.execution_id last db))

abbrev pub IsDue : SnapshotPolicy → WorkflowExecution → List LineageEvent → ℕ → Db → Type 0
IsDue policy e es last db =
    ((policy.snapshot_on_stage_advance ≡ true) × Advances es) ⊎ IsFull policy e last db

-- the store has a new snapshot, which is the latest of the execution and covers the events with the ids
pub record IsTaken (e : WorkflowExecution) (ids : List ℕ) (db db' : Db) (row_id : ℕ) : Type 0 where
  pub snapshot : WorkflowExecution
  pub last_event_id : ℕ
  pub latest : load_latest_snapshot e.execution_id db' ≡ some (snapshot, last_event_id)
  pub same : snapshot ≡ record e { node_attempts = snapshot.node_attempts }
  pub attempts : (n : String) → get n snapshot.node_attempts ≡ get n e.node_attempts
  pub covers : All (λ k. k ≤ last_event_id) ids
  pub is_one : Any (λ k. k ≡ last_event_id) ids
  pub row : row_id ≡ length db'.snapshots
  pub older : db'.snapshots ≡ (snapshot, last_event_id) ∷ db.snapshots
  pub executions : db'.executions ≡ db.executions
  pub events : db'.events ≡ db.events

max_id-above : (m : ℕ) (ids : List ℕ) → (m ≤ max_id m ids) × All (λ id. id ≤ max_id m ids) ids
unfolding max_id
max_id-above m [] = (omega arith, tt)
max_id-above m (id ∷ ids) =
    let (p, q) = max_id-above (if ltb m id then id else m) ids in
    (ground (arith, p), (ground (arith, p), q))

max_id-one : (m v : ℕ) (ids : List ℕ) → max_id m ids ≡ v → Any (λ id. id ≡ v) (m ∷ ids)
unfolding max_id
max_id-one m v [] h = inl h
max_id-one m v (id ∷ ids) h = elim (Bool-cases (ltb m id)) [
  | inl more ↦ inr (max_id-one id v ids (sym (ap (λ b. max_id (if b then id else m) ids) more) ∙ h))
  | inr less ↦
      elim (max_id-one m v ids (sym (ap (λ b. max_id (if b then id else m) ids) less) ∙ h)) [
        | inl first ↦ inl first
        | inr later ↦ inr (inr later)
      ]
]

count-load_from :
    (id : String) (after : ℕ) (rows : List (ℕ × LineageEvent))
    → length (keep (λ (row : ℕ × LineageEvent). (row.1.execution_id == id) && ltb after row.0) rows)
      ≡ length (load_from id after rows)
unfolding load_from
count-load_from id after [] = refl
count-load_from id after ((k, evt) ∷ rows) = ground (arith, count-load_from id after rows)

is_stage_advanced-eq : (k : EventType) → is_stage_advanced k ≡ true → k ≡ stage_advanced
is_stage_advanced-eq stage_advanced h = refl
is_stage_advanced-eq state_transition h = absurd (ground arith)
is_stage_advanced-eq node_completed h = absurd (ground arith)
is_stage_advanced-eq node_failed h = absurd (ground arith)
is_stage_advanced-eq node_retry h = absurd (ground arith)
is_stage_advanced-eq node_submitted h = absurd (ground arith)
is_stage_advanced-eq (other x) h = absurd (ground arith)

abbrev advances : List LineageEvent → Bool
advances es = any (λ (evt : LineageEvent). is_stage_advanced evt.event_type) es

advances-Advances : (es : List LineageEvent) → advances es ≡ true → Advances es
advances-Advances [] h = absurd (ground arith)
advances-Advances (evt ∷ es) h = elim (Bool-cases (is_stage_advanced evt.event_type)) [
  | inl here ↦ inl (is_stage_advanced-eq evt.event_type here)
  | inr there ↦ inr (advances-Advances es (sym (ap (λ b. b || advances es) there) ∙ h))
]

Advances-advances : (es : List LineageEvent) → Advances es → advances es ≡ true
Advances-advances [] h = elim h [ ]
Advances-advances (evt ∷ es) (inl here) = rw here refl
Advances-advances (evt ∷ es) (inr there) = ground (arith, Advances-advances es there)

due :
    (f b : Bool) (z : ℤ) (n : ℕ)
    → (if f && b then true else ltb_ℤ (pos 0) z && leb_ℤ z (pos n)) ≡ true
    → ((f ≡ true) × (b ≡ true)) ⊎ ((m : ℕ) × (z ≡ pos m) × (1 ≤ m) × (m ≤ n))
due true true z n h = inl (refl, refl)
due true false (pos m) n h = inr (m, refl, ground (arith, h), ground (arith, h))
due false b (pos m) n h = inr (m, refl, ground (arith, h), ground (arith, h))
due true false (negsuc m) n h = absurd (ground arith)
due false b (negsuc m) n h = absurd (ground arith)

due_full :
    (f b : Bool) (z : ℤ) (n m : ℕ)
    → z ≡ pos m
    → 1 ≤ m
    → m ≤ n
    → (if f && b then true else ltb_ℤ (pos 0) z && leb_ℤ z (pos n)) ≡ true
due_full f b z n m e p q = rw e (ground arith)

clash : (b : Bool) → b ≡ true → b ≡ false → ⊥
clash b h k = absurd (ground arith)

should_snapshot-IsDue :
    (policy : SnapshotPolicy) (e : WorkflowExecution) (es : List LineageEvent) (last : ℕ) (db : Db)
    → should_snapshot policy (count_events_since e.execution_id last db) (advances es) ≡ true
    → IsDue policy e es last db
unfolding should_snapshot count_events_since load_execution_events
should_snapshot-IsDue policy e es last db h =
    elim (due policy.snapshot_on_stage_advance (advances es) policy.events_per_snapshot _ h) [
      | inl (asked, moved) ↦ inl (asked, advances-Advances es moved)
      | inr (m, same, least, full) ↦
          inr (
            m,
            same,
            least,
            subst (λ k. m ≤ k) (count-load_from e.execution_id last db.events) full,
          )
    ]

IsDue-should_snapshot :
    (policy : SnapshotPolicy) (e : WorkflowExecution) (es : List LineageEvent) (last : ℕ) (db : Db)
    → IsDue policy e es last db
    → should_snapshot policy (count_events_since e.execution_id last db) (advances es) ≡ true
unfolding should_snapshot count_events_since load_execution_events
IsDue-should_snapshot policy e es last db (inl (asked, moved)) =
    rw asked (rw (Advances-advances es moved) refl)
IsDue-should_snapshot policy e es last db (inr (m, same, least, full)) =
    due_full policy.snapshot_on_stage_advance (advances es) policy.events_per_snapshot _ m same
      least (subst (λ k. m ≤ k) (sym (count-load_from e.execution_id last db.events)) full)

-- the row of the snapshot that is written
persist_snapshot-IsTaken :
    (e row : WorkflowExecution) (id : ℕ) (ids : List ℕ) (db : Db)
    → load_execution e.execution_id db ≡ some row
    → (db' : Db) × (k : ℕ) × (persist_snapshot e (max_id id ids) db ≡ ok (db', k))
      × IsTaken e (id ∷ ids) db db' k
unfolding persist_snapshot load_latest_snapshot
persist_snapshot-IsTaken e row id ids db found =
    let s : WorkflowExecution = record e { node_attempts = sort_items e.node_attempts } in
    (
      record db { snapshots = (s, max_id id ids) ∷ db.snapshots },
      suc (length db.snapshots),
      rw (found, persist_snapshot) refl,
      record {
        snapshot = s;
        last_event_id = max_id id ids;
        latest = rw (eq_refl e.execution_id) refl;
        same = refl;
        attempts = λ n. get-sort_items n e.node_attempts;
        covers = max_id-above id ids;
        is_one = max_id-one id (max_id id ids) ids refl;
        row = refl;
        older = refl;
        executions = refl;
        events = refl;
      },
    )

-- For an execution that has a row and a batch that is not empty: if the batch advances the stage and the
-- policy asks for a snapshot there, or if the policy has a positive number of events for a snapshot and as
-- many of the execution are stored after the last one, `apply_snapshot_policy` writes a snapshot and
-- returns its row id; the snapshot is then the latest of the execution, has its fields, and is tied to the
-- greatest id of the batch. Otherwise it returns no id and leaves the store as it was.
pub apply_snapshot_policy_lem :
    (policy : SnapshotPolicy) (e row : WorkflowExecution) (id : ℕ) (ids : List ℕ)
    (es : List LineageEvent) (last : ℕ) (db : Db)
    → load_execution e.execution_id db ≡ some row
    → (IsDue policy e es last db
        × ((db' : Db) × (k : ℕ) × (apply_snapshot_policy policy e (id ∷ ids) es last db
              ≡ ok (db', some k))
            × IsTaken e (id ∷ ids) db db' k))
      ⊎ ((¬ IsDue policy e es last db)
          × (apply_snapshot_policy policy e (id ∷ ids) es last db ≡ ok (db, none)))
unfolding apply_snapshot_policy
apply_snapshot_policy_lem policy e row id ids es last db found =
    elim (Bool-cases
      (should_snapshot policy (count_events_since e.execution_id last db) (advances es))) [
        | inl asked ↦
            let (db', k, written, left) = persist_snapshot-IsTaken e row id ids db found in
            inl (
              should_snapshot-IsDue policy e es last db asked,
              (db', k, rw asked (rw written refl), left),
            )
        | inr idle ↦ inr (
          λ is_due. clash _ (IsDue-should_snapshot policy e es last db is_due) idle,
          rw idle refl,
        )
      ]
