-- ===== src/Workflow/Recovery/Applied.antt =====
-- What `apply_recovery` of workflow/recovery.py leaves in the store.
use deterministic_cognition.Prelude.{
  ℕ, String, ◌==◌, ◌≡◌, refl, ◌∙◌, sym, ap, true, false, ◌⊎◌, inl, inr, Option, none, some, List,
  [], ◌∷◌, get, sorted, eq_iff, Option-cases, Bool-cases, arith, subst,
}
use deterministic_cognition.Workflow.State.{WorkflowExecution, LineageEvent}
use deterministic_cognition.Workflow.Replay.{ReplayResult, replay_execution, rebuild}
use deterministic_cognition.Workflow.Storage.{
  Db, load_execution, load_execution_events, load_from, save_execution, with_identity,
  patch_identity, replay_execution_from_storage, saved_row, load-save, row_of, update_row,
}
use deterministic_cognition.Workflow.Storage.Rows.{
  get-sort_items, load-save_other, load_execution-id,
}
use deterministic_cognition.Workflow.Recovery.{
  recover_execution, apply_recovery, report_on, save_valid,
}

head-load_from :
    (id : String) (after : ℕ) (rows : List (ℕ × LineageEvent)) (first : LineageEvent)
    (rest : List LineageEvent)
    → load_from id after rows ≡ first ∷ rest
    → first.execution_id ≡ id
unfolding load_from
head-load_from id after [] first rest h = absurd (ground arith)
head-load_from id after ((k, evt) ∷ rows) first rest h =
    ground (arith, h, head-load_from id after rows first rest, eq_iff evt.execution_id id)

replay_execution-id :
    (id : String) (events : List LineageEvent) (e : WorkflowExecution)
    → ((first : LineageEvent) (rest : List LineageEvent)
        → events ≡ first ∷ rest
        → first.execution_id ≡ id)
    → (replay_execution events).execution ≡ some e
    → e.execution_id ≡ id
unfolding replay_execution rebuild
replay_execution-id id [] e h k = absurd (ground arith)
replay_execution-id id (first ∷ rest) e h k = ground (arith, h first rest refl, k)

report_on-recoverable :
    (id : String) (stored : Option WorkflowExecution) (r : ReplayResult)
    → (report_on id stored r r.execution).is_recoverable ≡ true
    → (e : WorkflowExecution) × (r.execution ≡ some e) × (r.is_valid ≡ true)
unfolding report_on
report_on-recoverable id stored r h = elim (Option-cases r.execution) [
  | inl nothing ↦ absurd (ground (arith, nothing, h))
  | inr (e, found) ↦ (e, found, ground (arith, found, h))
]

save_valid-patch_identity :
    (row : Option WorkflowExecution) (r : ReplayResult) (e : WorkflowExecution) (db : Db)
    → r.execution ≡ some e
    → r.is_valid ≡ true
    → save_valid (patch_identity row r).is_valid (patch_identity row r).execution db
      ≡ save_execution (with_identity row e) db
unfolding save_valid patch_identity
save_valid-patch_identity row r e db h k = rw (h, k) refl

-- what the row keeps of the one that was there
abbrev pub KeepsIdentity : Option WorkflowExecution → WorkflowExecution → WorkflowExecution → Type 0
KeepsIdentity none e row =
    (row.workflow_id ≡ e.workflow_id) × (row.plan_id ≡ e.plan_id) × (row.created_at ≡ e.created_at)
KeepsIdentity (some old) e row =
    (row.workflow_id ≡ old.workflow_id)
    × (row.plan_id ≡ old.plan_id)
    × (row.created_at ≡ old.created_at)

-- the row has what the replayed execution says, and keeps the identity of the row that was there
pub record IsRecovered (old : Option WorkflowExecution) (e row : WorkflowExecution) : Type 0 where
  pub execution_id : row.execution_id ≡ e.execution_id
  pub state : row.state ≡ e.state
  pub active_stage_index : row.active_stage_index ≡ e.active_stage_index
  pub completed_node_ids : row.completed_node_ids ≡ sorted e.completed_node_ids
  pub failed_node_ids : row.failed_node_ids ≡ sorted e.failed_node_ids
  pub node_attempts : (n : String) → get n row.node_attempts ≡ get n e.node_attempts
  pub updated_at : row.updated_at ≡ e.updated_at
  pub version : row.version ≡ e.version
  pub identity : KeepsIdentity old e row

with_identity-execution_id :
    (row : Option WorkflowExecution) (e : WorkflowExecution)
    → (with_identity row e).execution_id ≡ e.execution_id
unfolding with_identity
with_identity-execution_id none e = refl
with_identity-execution_id (some row) e = refl

saved-IsRecovered :
    (old : Option WorkflowExecution) (e : WorkflowExecution)
    → (saved_row old (with_identity old e)).execution_id ≡ e.execution_id
    → IsRecovered old e (saved_row old (with_identity old e))
unfolding saved_row row_of update_row with_identity
saved-IsRecovered none e same = record {
  execution_id = same;
  state = refl;
  active_stage_index = refl;
  completed_node_ids = refl;
  failed_node_ids = refl;
  node_attempts = λ n. get-sort_items n e.node_attempts;
  updated_at = refl;
  version = refl;
  identity = (refl, refl, refl);
}
saved-IsRecovered (some old) e same = record {
  execution_id = same;
  state = refl;
  active_stage_index = refl;
  completed_node_ids = refl;
  failed_node_ids = refl;
  node_attempts = λ n. get-sort_items n e.node_attempts;
  updated_at = refl;
  version = refl;
  identity = (refl, refl, refl);
}

load-save-at :
    (id : String) (e : WorkflowExecution) (db : Db)
    → e.execution_id ≡ id
    → load_execution id (save_execution e db) ≡ some (saved_row (load_execution id db) e)
load-save-at id e db h =
    subst (λ i. load_execution i (save_execution e db) ≡ some (saved_row (load_execution i db) e)) h
      (load-save e db)

-- the store after a recovery to the replayed execution
abbrev pub Recovers : String → Db → WorkflowExecution → Db → Type 0
Recovers id db e db' =
    ((row : WorkflowExecution) × (load_execution id db' ≡ some row)
      × IsRecovered (load_execution id db) e row)
    × ((j : String) → (j == id) ≡ false → load_execution j db' ≡ load_execution j db)

save-Recovers :
    (id : String) (db : Db) (e : WorkflowExecution)
    → e.execution_id ≡ id
    → Recovers id db e (save_execution (with_identity (load_execution id db) e) db)
save-Recovers id db e same =
    let old = load_execution id db in
    let saved_id = with_identity-execution_id old e ∙ same in
    let loaded = load-save-at id (with_identity old e) db saved_id in
    (
      (
        saved_row old (with_identity old e),
        loaded,
        saved-IsRecovered old e
            (load_execution-id id (save_execution (with_identity old e) db) _ loaded ∙ sym same),
      ),
      λ j other. load-save_other j (with_identity old e) db (ap (λ k. j == k) saved_id ∙ other),
    )

recovered :
    (id : String) (db : Db)
    → (recover_execution id db).is_recoverable ≡ true
    → (e : WorkflowExecution) × ((replay_execution (load_execution_events id 0 db)).execution
        ≡ some e)
      × ((replay_execution (load_execution_events id 0 db)).is_valid ≡ true)
      × Recovers id db e (apply_recovery id db).0
unfolding apply_recovery recover_execution replay_execution_from_storage load_execution_events
recovered id db h =
    let row = load_execution id db in
    let events = load_from id 0 db.events in
    let (e, found, valid) = report_on-recoverable id row (replay_execution events) h in
    let same = replay_execution-id id events e (head-load_from id 0 db.events) found in
    (
      e,
      found,
      valid,
      rw (h, save_valid-patch_identity row (replay_execution events) e db found valid)
          (save-Recovers id db e same),
    )

-- apply_recovery of an execution whose report says that it is recoverable leaves in its row the
-- state, stage, completed and failed nodes, attempts, time and version of the replay of its lineage,
-- which is valid, under the ids of workflow and plan and the time of creation that the row had, and
-- every other row as it was; otherwise it leaves the store as it was.
pub apply_recovery_lem :
    (id : String) (db : Db)
    → (((recover_execution id db).is_recoverable ≡ true)
        × ((e : WorkflowExecution) × ((replay_execution (load_execution_events id 0 db)).execution
              ≡ some e)
            × ((replay_execution (load_execution_events id 0 db)).is_valid ≡ true)
            × Recovers id db e (apply_recovery id db).0))
      ⊎ (((recover_execution id db).is_recoverable ≡ false) × ((apply_recovery id db).0 ≡ db))
unfolding apply_recovery
apply_recovery_lem id db = elim (Bool-cases (recover_execution id db).is_recoverable) [
  | inr lost ↦ inr (lost, rw lost refl)
  | inl sound ↦ inl (sound, recovered id db sound)
]
