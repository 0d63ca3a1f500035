-- ===== src/Workflow/Recovery.antt =====
-- workflow/recovery.py: an execution's row is compared with the replay of its lineage, and written
-- again from it. A description of a divergence is a constructor with the values that it shows.
pub mod Applied
use deterministic_cognition.Prelude.{
  ℕ, String, ◌==◌, ◌≡◌, refl, Bool, true, false, ◌&&◌, ◌⊎◌, inl, inr, Option, none, some, List, [],
  ◌∷◌, ◌++◌, map, Dict, get, str_leb, sorted, length, all, eqb, if◌then◌else◌, arith, Bool-cases,
  eq_iff, Option-cases, ◌∙◌, subst,
}
use deterministic_cognition.Workflow.State.{
  State, state_eq, state_in, terminal_states, WorkflowExecution, LineageEvent,
}
use deterministic_cognition.Workflow.Lineage.{LineageError}
use deterministic_cognition.Workflow.Replay.{ReplayResult, replay_execution, rebuild}
use deterministic_cognition.Workflow.Storage.{
  Db, load_execution, load_execution_events, load_from, save_execution, with_identity,
  patch_identity, replay_execution_from_storage, saved_row, load-save,
}

pub data Divergence : Type 0 where
  row_absent empty_lineage : Divergence
  state_differs : State → State → Divergence
  stage_differs : ℕ → ℕ → Divergence
  completed_differ failed_differ : List String → List String → Divergence
  attempts_differ : Dict ℕ → Dict ℕ → Divergence
  lineage_error : LineageError → Divergence

pub record RecoveryReport : Type 0 where
  pub execution_id : String
  pub stored_state : Option State
  pub replayed_state : Option State
  pub diverged : Bool
  pub divergence_details : List Divergence
  pub is_recoverable : Bool
  pub events_applied : ℕ
  pub lineage_valid : Bool

abbrev pub ids_eq : List String → List String → Bool
ids_eq [] [] = true
ids_eq (x ∷ xs) (y ∷ ys) = x == y && ids_eq xs ys
ids_eq _ _ = false

abbrev pub is_value : ℕ → Option ℕ → Bool
is_value v none = false
is_value v (some w) = eqb v w

-- `==` on dictionaries, whatever the order of their entries
unfoldable pub attempts_eq : Dict ℕ → Dict ℕ → Bool
attempts_eq d d' =
    eqb (length d) (length d') && all (λ (entry : String × ℕ). is_value entry.1 (get entry.0 d')) d

abbrev pub unless : Bool → Divergence → List Divergence
unless true d = []
unless false d = d ∷ []

unfoldable pub compare_executions : Option WorkflowExecution → WorkflowExecution → List Divergence
compare_executions none r = row_absent ∷ []
compare_executions (some s) r =
    unless (state_eq s.state r.state) (state_differs s.state r.state)
    ++ unless (eqb s.active_stage_index r.active_stage_index)
        (stage_differs s.active_stage_index r.active_stage_index)
    ++ unless (ids_eq (sorted s.completed_node_ids) (sorted r.completed_node_ids))
        (completed_differ (sorted s.completed_node_ids) (sorted r.completed_node_ids))
    ++ unless (ids_eq (sorted s.failed_node_ids) (sorted r.failed_node_ids))
        (failed_differ (sorted s.failed_node_ids) (sorted r.failed_node_ids))
    ++ unless (attempts_eq s.node_attempts r.node_attempts)
        (attempts_differ s.node_attempts r.node_attempts)

abbrev pub state_of : Option WorkflowExecution → Option State
state_of none = none
state_of (some e) = some e.state

abbrev pub is_filled {ℓ} : {A : Type ℓ} → List A → Bool
is_filled [] = false
is_filled (_ ∷ _) = true

unfoldable pub report_on :
    String → Option WorkflowExecution → ReplayResult → Option WorkflowExecution → RecoveryReport
report_on id stored result none = record {
  execution_id = id;
  stored_state = state_of stored;
  replayed_state = none;
  diverged = true;
  divergence_details = empty_lineage ∷ [];
  is_recoverable = false;
  events_applied = 0;
  lineage_valid = false;
}
report_on id stored result (some e) =
    let details =
      (if result.is_valid then [] else map lineage_error result.validation_errors)
      ++ compare_executions stored e in
    record {
      execution_id = id;
      stored_state = state_of stored;
      replayed_state = some e.state;
      diverged = is_filled details;
      divergence_details = details;
      is_recoverable = result.is_valid;
      events_applied = result.events_applied;
      lineage_valid = result.is_valid;
    }

unfoldable pub recover_execution : String → Db → RecoveryReport
unfolding report_on
recover_execution id db =
    let result = replay_execution (load_execution_events id 0 db) in
    report_on id (load_execution id db) result result.execution

-- `save_execution` where there is an execution and its lineage is valid
unfoldable pub save_valid : Bool → Option WorkflowExecution → Db → Db
save_valid true (some e) db = save_execution e db
save_valid _ _ db = db

unfoldable pub apply_recovery : String → Db → Db × RecoveryReport
unfolding save_valid
apply_recovery id db =
    let report = recover_execution id db in
    let result = replay_execution_from_storage id db in
    (if report.is_recoverable then save_valid result.is_valid result.execution db else db, report)

-- `ORDER BY updated_at ASC`; among equal times the rows keep their order
unfoldable pub insort_row : WorkflowExecution → List WorkflowExecution → List WorkflowExecution
insort_row e [] = e ∷ []
insort_row e (r ∷ rows) =
    let rest = insort_row e rows in
    if str_leb e.updated_at r.updated_at then e ∷ r ∷ rows else r ∷ rest

unfoldable pub live_rows : List WorkflowExecution → List WorkflowExecution
unfolding insort_row
live_rows [] = []
live_rows (e ∷ rows) =
    let rest = live_rows rows in
    if state_in e.state terminal_states then rest else insort_row e rest

unfoldable pub find_non_terminal_execution_ids : Db → List String
unfolding live_rows
find_non_terminal_execution_ids db =
    map (λ (e : WorkflowExecution). e.execution_id) (live_rows db.executions)

unfoldable pub recover_each : Bool → List String → Db → Db × List RecoveryReport
recover_each apply [] db = (db, [])
recover_each true (id ∷ ids) db =
    let (db1, report) = apply_recovery id db in
    let (db2, reports) = recover_each true ids db1 in (db2, report ∷ reports)
recover_each false (id ∷ ids) db =
    let (db2, reports) = recover_each false ids db in (db2, recover_execution id db ∷ reports)

unfoldable pub recover_all : Bool → Db → Db × List RecoveryReport
unfolding recover_each
recover_all apply db = recover_each apply (find_non_terminal_execution_ids db) db
