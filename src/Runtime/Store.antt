-- ===== src/Runtime/Store.antt =====
-- runtime/state_store.py and runtime/checkpoints.py over the three tables of runtime/schema.sql. A call
-- returns the new store and its result, or the exception, which leaves the store as it was.
pub mod Moves
pub mod Traced
pub mod Calls
mod Examples
use deterministic_cognition.Prelude.{
  ℕ, suc, String, Bool, true, false, not, Option, none, some, List, [], ◌∷◌, ◌++◌, Dict, Result, ok,
  err, ◌>>=◌, ◌>>◌, guard, eqb, is_blank, keep, if◌then◌else◌,
}
use deterministic_cognition.Runtime.State.{
  RuntimeState, initialized, TransitionError, validate_runtime_transition, RuntimeConfig, Runtime,
  RuntimeLineageEvent, Checkpoint,
}

pub record RuntimeStore : Type 0 where
  pub runtimes : List Runtime
  pub lineage : List RuntimeLineageEvent
  pub checkpoints : List Checkpoint
  pub next_runtime : ℕ
  pub next_event : ℕ
  pub next_checkpoint : ℕ

pub data StoreError : Type 0 where
  empty_field : String → StoreError
  not_found : ℕ → StoreError
  transition_error : TransitionError → StoreError

-- `SELECT * FROM runtimes WHERE id = ?`
unfoldable pub find_runtime : ℕ → List Runtime → Option Runtime
find_runtime id [] = none
find_runtime id (r ∷ rs) = if eqb id r.id then some r else find_runtime id rs

unfoldable pub get_runtime : ℕ → RuntimeStore → Result StoreError Runtime
get_runtime id s = elim (find_runtime id s.runtimes) [ none ↦ err (not_found id) | some r ↦ ok r ]

unfoldable pub list_runtimes : RuntimeStore → List Runtime
list_runtimes s = s.runtimes

-- `INSERT INTO runtime_lineage`
abbrev pub insert_event :
    ℕ
    → Option RuntimeState
    → RuntimeState
    → String
    → ℕ
    → Dict String
    → String
    → RuntimeStore
    → RuntimeStore
insert_event id old new reason iteration metadata now s =
    let row : RuntimeLineageEvent = record {
      id = s.next_event;
      runtime_id = id;
      old_state = old;
      new_state = new;
      reason = reason;
      iteration = iteration;
      metadata = metadata;
      created_at = now;
    } in
    record s { lineage = s.lineage ++ row ∷ []; next_event = suc s.next_event }

unfoldable pub register_runtime :
    String
    → String
    → String
    → RuntimeConfig
    → RuntimeStore
    → Result StoreError (RuntimeStore × Runtime)
register_runtime now name orchestration_db config s = do
  guard (not (is_blank name)) (empty_field "name")
  guard (not (is_blank orchestration_db)) (empty_field "orchestration_db")
  guard (not (is_blank config.actor)) (empty_field "config.actor")
  let row : Runtime = record {
    id = s.next_runtime;
    name = name;
    state = initialized;
    orchestration_db = orchestration_db;
    config = config;
    current_iteration = 0;
    created_at = now;
    updated_at = now;
    version = 1;
  }
  let s1 : RuntimeStore = record s {
    runtimes = s.runtimes ++ row ∷ [];
    next_runtime = suc s.next_runtime;
  }
  ok (insert_event s.next_runtime none initialized "Runtime registered" 0 [] now s1, row)

-- the row that `transition_runtime` writes
abbrev pub moved_row : String → RuntimeState → ℕ → Runtime → Runtime
moved_row now new iteration r = record r {
  state = new;
  current_iteration = iteration;
  version = suc r.version;
  updated_at = now;
}

-- `UPDATE runtimes SET ... WHERE id = ?`
unfoldable pub update_runtime : ℕ → Runtime → List Runtime → List Runtime
update_runtime id row [] = []
update_runtime id row (r ∷ rs) = (if eqb id r.id then row else r) ∷ update_runtime id row rs

unfoldable pub moved :
    String → ℕ → Runtime → RuntimeState → String → ℕ → Dict String → RuntimeStore → RuntimeStore
moved now id r new reason iteration metadata s =
    insert_event id (some r.state) new reason iteration metadata now
      (record s { runtimes = update_runtime id (moved_row now new iteration r) s.runtimes })

unfoldable pub transition_runtime :
    String
    → ℕ
    → RuntimeState
    → String
    → ℕ
    → Dict String
    → RuntimeStore
    → Result StoreError (RuntimeStore × Runtime)
unfolding moved
transition_runtime now id new reason iteration metadata s =
    if is_blank reason then err (empty_field "reason") else elim (find_runtime id s.runtimes) [
      | none ↦ err (not_found id)
      | some r ↦ elim (validate_runtime_transition r.state new) [
        | err x ↦ err (transition_error x)
        | ok _ ↦ ok (moved now id r new reason iteration metadata s, moved_row now new iteration r)
      ]
    ]

unfoldable pub get_runtime_lineage : ℕ → RuntimeStore → Result StoreError (List RuntimeLineageEvent)
get_runtime_lineage id s = elim (find_runtime id s.runtimes) [
  | none ↦ err (not_found id)
  | some _ ↦ ok (keep (λ (ev : RuntimeLineageEvent). eqb ev.runtime_id id) s.lineage)
]

-- `save_checkpoint`, which `create_checkpoint` passes its arguments to
unfoldable pub save_checkpoint :
    String → ℕ → ℕ → Dict ℕ → String → RuntimeStore → Result StoreError (RuntimeStore × Checkpoint)
save_checkpoint now id iteration state reason s =
    if is_blank reason then err (empty_field "reason") else elim (find_runtime id s.runtimes) [
      | none ↦ err (not_found id)
      | some _ ↦
          let row : Checkpoint = record {
            id = s.next_checkpoint;
            runtime_id = id;
            iteration = iteration;
            state = state;
            reason = reason;
            created_at = now;
          } in
          ok (
            record s {
              checkpoints = s.checkpoints ++ row ∷ [];
              next_checkpoint = suc s.next_checkpoint;
            },
            row,
          )
    ]

-- `SELECT * FROM runtime_checkpoints WHERE runtime_id = ? ORDER BY id ASC`
unfoldable pub checkpoints_of : ℕ → List Checkpoint → List Checkpoint
checkpoints_of id cs = keep (λ (c : Checkpoint). eqb c.runtime_id id) cs

unfoldable pub last_of : List Checkpoint → Option Checkpoint
last_of [] = none
last_of (c ∷ []) = some c
last_of (c ∷ d ∷ cs) = last_of (d ∷ cs)

unfoldable pub get_all_checkpoints : ℕ → RuntimeStore → Result StoreError (List Checkpoint)
unfolding checkpoints_of
get_all_checkpoints id s = elim (find_runtime id s.runtimes) [
  | none ↦ err (not_found id)
  | some _ ↦ ok (checkpoints_of id s.checkpoints)
]

unfoldable pub get_latest_checkpoint : ℕ → RuntimeStore → Result StoreError (Option Checkpoint)
unfolding checkpoints_of last_of
get_latest_checkpoint id s = elim (find_runtime id s.runtimes) [
  | none ↦ err (not_found id)
  | some _ ↦ ok (last_of (checkpoints_of id s.checkpoints))
]

-- `restore_from_checkpoint`
unfoldable pub restore_from_checkpoint : Checkpoint → Dict ℕ
restore_from_checkpoint c = c.state
