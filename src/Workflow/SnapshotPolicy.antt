-- ===== src/Workflow/SnapshotPolicy.antt =====
-- workflow/snapshot_policy.py: when a batch of events is followed by a snapshot, which is written.
pub mod Applied
use deterministic_cognition.Prelude.{
  ℕ, String, ◌==◌, Bool, true, false, ◌&&◌, Option, none, some, List, [], ◌∷◌, length, keep, any,
  ltb, ℤ, pos, ltb_ℤ, leb_ℤ, if◌then◌else◌, Result, ok, err,
}
use deterministic_cognition.Workflow.State.{
  LineageEvent, EventType, stage_advanced, WorkflowExecution,
}
use deterministic_cognition.Workflow.Storage.{Db, DbError, persist_snapshot}

pub record SnapshotPolicy : Type 0 where
  pub events_per_snapshot : ℤ
  pub snapshot_on_stage_advance : Bool

unfoldable pub should_snapshot : SnapshotPolicy → ℕ → Bool → Bool
should_snapshot policy events_since stage_just_advanced =
    if policy.snapshot_on_stage_advance && stage_just_advanced
    then true
    else ltb_ℤ (pos 0) policy.events_per_snapshot
      && leb_ℤ policy.events_per_snapshot (pos events_since)

-- `SELECT COUNT(*)`
unfoldable pub count_events_since : String → ℕ → Db → ℕ
count_events_since id after db =
    length
      (keep (λ (row : ℕ × LineageEvent). (row.1.execution_id == id) && ltb after row.0) db.events)

abbrev pub is_stage_advanced : EventType → Bool
is_stage_advanced stage_advanced = true
is_stage_advanced _ = false

unfoldable pub max_id : ℕ → List ℕ → ℕ
max_id m [] = m
max_id m (id ∷ ids) = max_id (if ltb m id then id else m) ids

abbrev pub taken : Result DbError (Db × ℕ) → Result DbError (Db × Option ℕ)
taken (ok (db, id)) = ok (db, some id)
taken (err x) = err x

-- the id of the snapshot's row, where one is taken
unfoldable pub apply_snapshot_policy :
    SnapshotPolicy
    → WorkflowExecution
    → List ℕ
    → List LineageEvent
    → ℕ
    → Db
    → Result DbError (Db × Option ℕ)
unfolding should_snapshot count_events_since max_id
apply_snapshot_policy policy e [] new_events last db = ok (db, none)
apply_snapshot_policy policy e (id ∷ ids) new_events last db =
    if should_snapshot policy (count_events_since e.execution_id last db)
      (any (λ (evt : LineageEvent). is_stage_advanced evt.event_type) new_events)
    then taken (persist_snapshot e (max_id id ids) db)
    else ok (db, none)
