-- ===== src/Workflow/Replay.antt =====
-- workflow/replay.py, second half: an execution rebuilt from its lineage, or from a snapshot and the
-- events behind it. The two loops have one body in the source, and are one function here.
pub mod Tracks
pub mod Faithful
pub mod Snapshot
use deterministic_cognition.Prelude.{
  ℕ, zero, suc, ◌+◌, String, Bool, true, false, not, ◌&&◌, Option, none, some, List, [], ◌∷◌, ◌++◌,
  Dict, get_or, put, contains, sorted, length, find, ◌==◌, if◌then◌else◌,
}
use deterministic_cognition.Workflow.State.{
  State, initialized, other, EventType, state_transition, node_completed, node_failed, node_retry,
  node_submitted, stage_advanced, WorkflowExecution, LineageEvent,
}
use deterministic_cognition.Workflow.Lineage.{
  LineageError, is_transition, validate_lineage, validate_delta_events,
}

-- The variables of the loop.
pub record Replayed : Type 0 where
  pub state : Option State
  pub active_stage_index : ℕ
  pub completed_node_ids : List String
  pub failed_node_ids : List String
  pub node_attempts : Dict ℕ
  pub updated_at : Option String
  pub version : ℕ

-- `if nid and nid not in ids: ids.append(nid); ids.sort()`
unfoldable pub note_id : Option String → List String → List String
note_id none ids = ids
note_id (some nid) ids =
    if not (nid == "") && not (contains nid ids) then sorted (ids ++ nid ∷ []) else ids

-- `if nid: node_attempts[nid] = node_attempts.get(nid, 0) + 1`
unfoldable pub note_attempt : Option String → Dict ℕ → Dict ℕ
note_attempt none attempts = attempts
note_attempt (some nid) attempts =
    if nid == "" then attempts else put nid (suc (get_or nid attempts 0)) attempts

-- `updated_at = evt.created_at; version += 1`
abbrev pub stamp : LineageEvent → Replayed → Replayed
stamp evt r = record r { updated_at = some evt.created_at; version = suc r.version }

-- the branches on `evt.event_type`
unfoldable pub apply_kind : EventType → LineageEvent → Replayed → Replayed
unfolding note_id note_attempt
apply_kind state_transition evt r = stamp evt (record r { state = evt.new_state })
apply_kind node_completed evt r =
    stamp evt (record r { completed_node_ids = note_id evt.node_id r.completed_node_ids })
apply_kind node_failed evt r = stamp evt (record r {
  failed_node_ids = note_id evt.node_id r.failed_node_ids;
  node_attempts = note_attempt evt.node_id r.node_attempts;
})
apply_kind node_retry evt r =
    stamp evt (record r { node_attempts = note_attempt evt.node_id r.node_attempts })
apply_kind stage_advanced evt r = stamp evt (record r { active_stage_index = suc evt.stage_index })
apply_kind node_submitted evt r = r
apply_kind (other _) evt r = r

unfoldable pub apply_events : List LineageEvent → Replayed → Replayed
unfolding apply_kind
apply_events [] r = r
apply_events (evt ∷ evts) r = apply_events evts (apply_kind evt.event_type evt r)

pub record ReplayResult : Type 0 where
  pub execution : Option WorkflowExecution
  pub events_applied : ℕ
  pub validation_errors : List LineageError
  pub is_valid : Bool

abbrev pub no_errors : List LineageError → Bool
no_errors [] = true
no_errors (_ ∷ _) = false

abbrev pub blank : Replayed
blank = record {
  state = none;
  active_stage_index = 0;
  completed_node_ids = [];
  failed_node_ids = [];
  node_attempts = [];
  updated_at = none;
  version = 0;
}

-- `state or 'initialized'`
unfoldable pub or_initialized : Option State → State
or_initialized none = initialized
or_initialized (some (other s)) = if s == "" then initialized else other s
or_initialized (some s) = s

abbrev pub or_else {ℓ} : {A : Type ℓ} → Option A → A → A
or_else none d = d
or_else (some a) d = a

-- what `replay_execution` reads of the first state transition
abbrev pub identity_of : String → Option LineageEvent → String
identity_of key none = ""
identity_of key (some evt) = get_or key evt.metadata ""

abbrev pub created_of : LineageEvent → Option LineageEvent → String
created_of first none = first.created_at
created_of first (some evt) = evt.created_at

unfoldable pub rebuild : LineageEvent → Option LineageEvent → Replayed → WorkflowExecution
unfolding or_initialized
rebuild first init r = record {
  execution_id = first.execution_id;
  workflow_id = identity_of "workflow_id" init;
  plan_id = identity_of "plan_id" init;
  state = or_initialized r.state;
  active_stage_index = r.active_stage_index;
  completed_node_ids = r.completed_node_ids;
  failed_node_ids = r.failed_node_ids;
  node_attempts = r.node_attempts;
  created_at = created_of first init;
  updated_at = or_else r.updated_at (created_of first init);
  version = r.version;
}

unfoldable pub replay_execution : List LineageEvent → ReplayResult
unfolding rebuild
replay_execution [] = record {
  execution = none;
  events_applied = 0;
  validation_errors = validate_lineage [];
  is_valid = false;
}
replay_execution (first ∷ rest) =
    let events = first ∷ rest in
    let errors = validate_lineage events in
    record {
      execution = some (
          rebuild first (find (λ (evt : LineageEvent). is_transition evt.event_type) events)
            (apply_events events blank));
      events_applied = length events;
      validation_errors = errors;
      is_valid = no_errors errors;
    }

-- the loop's variables at a snapshot
abbrev pub of_snapshot : WorkflowExecution → Replayed
of_snapshot s = record {
  state = some s.state;
  active_stage_index = s.active_stage_index;
  completed_node_ids = s.completed_node_ids;
  failed_node_ids = s.failed_node_ids;
  node_attempts = s.node_attempts;
  updated_at = some s.updated_at;
  version = s.version;
}

-- No event of a valid delta leaves the state `None`, so the default of `or_else` is not seen.
unfoldable pub resume : WorkflowExecution → Replayed → WorkflowExecution
resume s r = record s {
  state = or_else r.state s.state;
  active_stage_index = r.active_stage_index;
  completed_node_ids = r.completed_node_ids;
  failed_node_ids = r.failed_node_ids;
  node_attempts = r.node_attempts;
  updated_at = or_else r.updated_at s.updated_at;
  version = r.version;
}

unfoldable pub replay_delta :
    WorkflowExecution → List LineageEvent → List LineageError → ReplayResult
unfolding resume apply_events
replay_delta s events [] = record {
  execution = some (resume s (apply_events events (of_snapshot s)));
  events_applied = length events;
  validation_errors = [];
  is_valid = true;
}
replay_delta s events (e ∷ errors) = record {
  execution = some s;
  events_applied = 0;
  validation_errors = e ∷ errors;
  is_valid = false;
}

unfoldable pub replay_from_snapshot : WorkflowExecution → List LineageEvent → ReplayResult
unfolding replay_delta
replay_from_snapshot s [] = record {
  execution = some s;
  events_applied = 0;
  validation_errors = [];
  is_valid = true;
}
replay_from_snapshot s (evt ∷ evts) =
    replay_delta s (evt ∷ evts) (validate_delta_events s (evt ∷ evts))
