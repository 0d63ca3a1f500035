-- ===== src/Workflow/Storage.antt =====
-- workflow/storage.py and workflow/persistence.py over the tables of executions, of their events and
-- of snapshots. A row is the record that a load gives back: JSON is written with sorted lists and keys.
pub mod Rows
use deterministic_cognition.Prelude.{
  ℕ, suc, String, ◌==◌, ◌≡◌, ◌&&◌, Option, none, some, List, [], ◌∷◌, ◌++◌, Dict, str_leb, sorted,
  find, length, ltb, if◌then◌else◌, Result, ok, err, ◌>>=◌, arith, eq_refl,
}
use deterministic_cognition.Workflow.State.{WorkflowExecution, LineageEvent}
use deterministic_cognition.Workflow.Replay.{ReplayResult, replay_execution, replay_from_snapshot}

pub record Db : Type 0 where
  pub executions : List WorkflowExecution
  pub events : List (ℕ × LineageEvent)
  pub last_event_id : ℕ
  -- the newest first
  pub snapshots : List (WorkflowExecution × ℕ)

-- FOREIGN KEY constraint failed: an event or a snapshot of an execution that has no row.
pub data DbError : Type 0 where
  no_execution : String → DbError

unfoldable pub insort_item : {V : Type 0} → String → V → Dict V → Dict V
insort_item k v [] = (k, v) ∷ []
insort_item k v ((j, w) ∷ d) =
    let rest = insort_item k v d in if str_leb k j then (k, v) ∷ (j, w) ∷ d else (j, w) ∷ rest

-- `dict(sorted(d.items()))`
unfoldable pub sort_items : {V : Type 0} → Dict V → Dict V
unfolding insort_item
sort_items [] = []
sort_items ((k, v) ∷ d) = insort_item k v (sort_items d)

unfoldable pub row_of : WorkflowExecution → WorkflowExecution
row_of e = record e {
  completed_node_ids = sorted e.completed_node_ids;
  failed_node_ids = sorted e.failed_node_ids;
  node_attempts = sort_items e.node_attempts;
}

-- `ON CONFLICT(execution_id) DO UPDATE SET`
unfoldable pub update_row : WorkflowExecution → WorkflowExecution → WorkflowExecution
update_row row e = record row {
  state = e.state;
  active_stage_index = e.active_stage_index;
  completed_node_ids = e.completed_node_ids;
  failed_node_ids = e.failed_node_ids;
  node_attempts = e.node_attempts;
  updated_at = e.updated_at;
  version = e.version;
}

unfoldable pub upsert : WorkflowExecution → List WorkflowExecution → List WorkflowExecution
upsert e [] = e ∷ []
upsert e (row ∷ rows) =
    if row.execution_id == e.execution_id then update_row row e ∷ rows else row ∷ upsert e rows

unfoldable pub save_execution : WorkflowExecution → Db → Db
save_execution e db = record db { executions = upsert (row_of e) db.executions }

unfoldable pub load_execution : String → Db → Option WorkflowExecution
load_execution id db = find (λ (e : WorkflowExecution). e.execution_id == id) db.executions

abbrev pub stored_event : LineageEvent → LineageEvent
stored_event evt = record evt { metadata = sort_items evt.metadata }

unfoldable pub insert_execution_event : LineageEvent → Db → Result DbError Db
insert_execution_event evt db = elim (load_execution evt.execution_id db) [
  | none ↦ err (no_execution evt.execution_id)
  | some _ ↦ ok (record db {
    events = db.events ++ (suc db.last_event_id, stored_event evt) ∷ [];
    last_event_id = suc db.last_event_id;
  })
]

-- one transaction: an error leaves the store as it was
unfoldable pub append_execution_events : List LineageEvent → Db → Result DbError Db
append_execution_events [] db = ok db
append_execution_events (evt ∷ evts) db =
    insert_execution_event evt db >>= append_execution_events evts

unfoldable pub load_from : String → ℕ → List (ℕ × LineageEvent) → List LineageEvent
load_from id after [] = []
load_from id after ((k, evt) ∷ rows) =
    let rest = load_from id after rows in
    if evt.execution_id == id && ltb after k then evt ∷ rest else rest

unfoldable pub load_execution_events : String → ℕ → Db → List LineageEvent
load_execution_events id after db = load_from id after db.events

-- `json.dumps(execution.to_dict(), sort_keys=True)`, read back
abbrev pub snapshot_of : WorkflowExecution → WorkflowExecution
snapshot_of e = record e { node_attempts = sort_items e.node_attempts }

-- with the id of the new row: no snapshot is ever deleted, so the ids count the rows
unfoldable pub persist_snapshot : WorkflowExecution → ℕ → Db → Result DbError (Db × ℕ)
persist_snapshot e last db = elim (load_execution e.execution_id db) [
  | none ↦ err (no_execution e.execution_id)
  | some _ ↦
      ok (record db { snapshots = (snapshot_of e, last) ∷ db.snapshots }, suc (length db.snapshots))
]

unfoldable pub load_latest_snapshot : String → Db → Option (WorkflowExecution × ℕ)
load_latest_snapshot id db =
    find (λ (s : WorkflowExecution × ℕ). s.0.execution_id == id) db.snapshots

-- the two orders of `persist_execution`; where the second write fails, the error does not give back
-- what the first one left
unfoldable pub persist_execution : WorkflowExecution → List LineageEvent → Db → Result DbError Db
persist_execution e [] db = ok (save_execution e db)
persist_execution e (evt ∷ evts) db = elim (load_execution e.execution_id db) [
  | none ↦ append_execution_events (evt ∷ evts) (save_execution e db)
  | some _ ↦ append_execution_events (evt ∷ evts) db >>= λ db'. ok (save_execution e db')
]

-- the ids of workflow and plan come from the row, where there is one
unfoldable pub with_identity : Option WorkflowExecution → WorkflowExecution → WorkflowExecution
with_identity none e = e
with_identity (some row) e = record e { workflow_id = row.workflow_id; plan_id = row.plan_id }

unfoldable pub patch_identity : Option WorkflowExecution → ReplayResult → ReplayResult
unfolding with_identity
patch_identity row r = record {
  execution = elim r.execution [ none ↦ none | some e ↦ some (with_identity row e) ];
  events_applied = r.events_applied;
  validation_errors = r.validation_errors;
  is_valid = r.is_valid;
}

unfoldable pub replay_execution_from_storage : String → Db → ReplayResult
replay_execution_from_storage id db =
    patch_identity (load_execution id db) (replay_execution (load_execution_events id 0 db))

unfoldable pub replay_execution_from_snapshot : String → Db → ReplayResult
replay_execution_from_snapshot id db = elim (load_latest_snapshot id db) [
  | none ↦ replay_execution_from_storage id db
  | some s ↦ replay_from_snapshot s.0 (load_execution_events id s.1 db)
]

-- The row that a save of `e` leaves, for the row that was there.
unfoldable pub saved_row : Option WorkflowExecution → WorkflowExecution → WorkflowExecution
unfolding row_of update_row
saved_row none e = row_of e
saved_row (some row) e = update_row row (row_of e)

find-upsert :
    (e : WorkflowExecution) (rows : List WorkflowExecution)
    → find (λ (r : WorkflowExecution). r.execution_id == e.execution_id) (upsert (row_of e) rows)
      ≡ some (saved_row (find (λ (r : WorkflowExecution). r.execution_id == e.execution_id) rows) e)
unfolding upsert saved_row row_of update_row
find-upsert e [] = ground (arith, eq_refl e.execution_id)
find-upsert e (row ∷ rows) = ground (arith, find-upsert e rows)

-- A load after a save gives the row of what was saved; the row keeps the identity that it had.
pub load-save :
    (e : WorkflowExecution) (db : Db)
    → load_execution e.execution_id (save_execution e db)
      ≡ some (saved_row (load_execution e.execution_id db) e)
unfolding load_execution save_execution
load-save e db = find-upsert e db.executions
