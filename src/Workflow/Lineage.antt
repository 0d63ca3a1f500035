-- ===== src/Workflow/Lineage.antt =====
-- workflow/replay.py, first half: the validation of a lineage, and of the events behind a snapshot.
-- An error is a constructor with the values that its message shows, in place of the message.
pub mod Follows
pub mod Identity
pub mod Accepted
use deterministic_cognition.Prelude.{
  ℕ, zero, suc, String, Bool, true, false, not, ◌&&◌, ◌||◌, Option, none, some, List, [], ◌∷◌, ◌++◌,
  contains, ltb, ◌==◌, if◌then◌else◌,
}
use deterministic_cognition.Workflow.State.{
  State, initialized, terminal_states, state_eq, state_in, allowed_targets, EventType,
  state_transition, node_completed, node_failed, node_retry, node_submitted, stage_advanced, other,
  WorkflowExecution, LineageEvent,
}

pub data LineageError : Type 0 where
  empty_lineage : LineageError
  bad_first : EventType → Option State → LineageError
  wrong_execution_id : ℕ → String → String → LineageError
  after_terminal : ℕ → EventType → ℕ → LineageError
  first_not_initialized : ℕ → Option State → LineageError
  transition_not_permitted : ℕ → State → Option State → LineageError
  old_state_mismatch : ℕ → Option State → State → LineageError
  duplicate_completed : ℕ → Option String → LineageError
  failed_after_completed : ℕ → Option String → LineageError
  snapshot_terminal : State → LineageError
  completed_in_snapshot : ℕ → Option String → LineageError

-- `a == b` where both may be `None`
abbrev pub opt_eq : Option String → Option String → Bool
opt_eq none none = true
opt_eq (some a) (some b) = a == b
opt_eq _ _ = false

unfoldable pub opt_contains : Option String → List (Option String) → Bool
opt_contains x [] = false
opt_contains x (y ∷ ys) = opt_eq x y || opt_contains x ys

-- `new_state in VALID_WORKFLOW_EXECUTION_TRANSITIONS.get(state, frozenset())`
unfoldable pub permitted : State → Option State → Bool
unfolding state_in allowed_targets
permitted s none = false
permitted s (some n) = state_in n (allowed_targets s)

-- `state in TERMINAL_WORKFLOW_EXECUTION_STATES`
unfoldable pub is_terminal : Option State → Bool
unfolding state_in
is_terminal none = false
is_terminal (some s) = state_in s terminal_states

abbrev pub is_initialized : Option State → Bool
is_initialized (some initialized) = true
is_initialized _ = false

abbrev pub is_transition : EventType → Bool
is_transition state_transition = true
is_transition _ = false

-- `errors.append(e)` if the test holds
abbrev pub report_if : Bool → LineageError → List LineageError
report_if b e = if b then e ∷ [] else []

-- `old_state is not None and old_state != state`
unfoldable pub differs : Option State → State → Bool
unfolding state_eq
differs none s = false
differs (some o) s = not (state_eq o s)

-- The variables of the loop in `validate_lineage`.
pub record Check : Type 0 where
  pub current_state : Option State
  pub completed_nodes : List (Option String)
  pub terminal_at : Option ℕ
  pub errors : List LineageError

unfoldable pub transition_errors : ℕ → LineageEvent → Option State → List LineageError
unfolding permitted differs
transition_errors i evt none =
    report_if (not (is_initialized evt.new_state)) (first_not_initialized i evt.new_state)
transition_errors i evt (some s) =
    report_if (not (permitted s evt.new_state)) (transition_not_permitted i s evt.new_state)
    ++ report_if (differs evt.old_state s) (old_state_mismatch i evt.old_state s)

-- the branches on `evt.event_type`
unfoldable pub check_kind : EventType → ℕ → LineageEvent → Check → Check
unfolding transition_errors is_terminal opt_contains
check_kind state_transition i evt c = record c {
  current_state = evt.new_state;
  terminal_at = if is_terminal evt.new_state then some i else c.terminal_at;
  errors = c.errors ++ transition_errors i evt c.current_state;
}
check_kind node_completed i evt c = record c {
  completed_nodes = evt.node_id ∷ c.completed_nodes;
  errors =
      c.errors
      ++ report_if (opt_contains evt.node_id c.completed_nodes) (duplicate_completed i evt.node_id);
}
check_kind node_failed i evt c = record c {
  errors =
      c.errors
      ++ report_if (opt_contains evt.node_id c.completed_nodes)
          (failed_after_completed i evt.node_id);
}
check_kind _ i evt c = c

-- one round of the loop, with its test on `terminal_at`
unfoldable pub check_at : Option ℕ → ℕ → LineageEvent → Check → Check
unfolding check_kind
check_at none i evt c = check_kind evt.event_type i evt c
check_at (some at) i evt c =
    if ltb at i
    then record c { errors = c.errors ++ after_terminal i evt.event_type at ∷ [] }
    else check_kind evt.event_type i evt c

unfoldable pub check_event : ℕ → LineageEvent → Check → Check
unfolding check_at
check_event i evt c = check_at c.terminal_at i evt c

unfoldable pub check_from : ℕ → List LineageEvent → Check → Check
unfolding check_event
check_from i [] c = c
check_from i (evt ∷ evts) c = check_from (suc i) evts (check_event i evt c)

-- rule 2
unfoldable pub id_errors : String → ℕ → List LineageEvent → List LineageError
id_errors id i [] = []
id_errors id i (evt ∷ evts) =
    report_if (not (evt.execution_id == id)) (wrong_execution_id i evt.execution_id id)
    ++ id_errors id (suc i) evts

-- rule 1
unfoldable pub first_errors : LineageEvent → List LineageError
first_errors first =
    report_if (not (is_transition first.event_type && is_initialized first.new_state))
      (bad_first first.event_type first.new_state)

abbrev pub check_start : List LineageError → Check
check_start errors = record {
  current_state = none;
  completed_nodes = [];
  terminal_at = none;
  errors = errors;
}

unfoldable pub validate_lineage : List LineageEvent → List LineageError
validate_lineage [] = empty_lineage ∷ []
validate_lineage (first ∷ rest) =
    (check_from 0 (first ∷ rest)
      (check_start (first_errors first ++ id_errors first.execution_id 1 rest))).errors

-- `if nid`
abbrev pub truthy : Option String → Bool
truthy none = false
truthy (some s) = not (s == "")

abbrev pub in_ids : Option String → List String → Bool
in_ids none ids = false
in_ids (some s) ids = contains s ids

-- No target is permitted from `None`, which the message shows as a state of that name.
unfoldable pub delta_transition_errors : ℕ → LineageEvent → Option State → List LineageError
unfolding permitted
delta_transition_errors i evt none =
    transition_not_permitted i (State.other "None") evt.new_state ∷ []
delta_transition_errors i evt (some s) =
    report_if (not (permitted s evt.new_state)) (transition_not_permitted i s evt.new_state)

-- the branches on `evt.event_type` in `_validate_delta_events`; `base` is `completed_in_snapshot`
unfoldable pub check_delta_kind : EventType → List String → ℕ → LineageEvent → Check → Check
unfolding delta_transition_errors is_terminal opt_contains
check_delta_kind state_transition base i evt c = record c {
  current_state = evt.new_state;
  terminal_at = if is_terminal evt.new_state then some i else c.terminal_at;
  errors = c.errors ++ delta_transition_errors i evt c.current_state;
}
check_delta_kind node_completed base i evt c = record c {
  completed_nodes =
      if truthy evt.node_id then evt.node_id ∷ c.completed_nodes else c.completed_nodes;
  errors =
      c.errors
      ++ (if in_ids evt.node_id base
          then completed_in_snapshot i evt.node_id ∷ []
          else report_if (opt_contains evt.node_id c.completed_nodes)
              (duplicate_completed i evt.node_id));
}
check_delta_kind node_failed base i evt c = record c {
  errors =
      c.errors
      ++ report_if
          (truthy evt.node_id
            && (in_ids evt.node_id base || opt_contains evt.node_id c.completed_nodes))
          (failed_after_completed i evt.node_id);
}
check_delta_kind _ base i evt c = c

-- the test on `terminal_at`, and what follows it
unfoldable pub check_delta_at : Option ℕ → List String → ℕ → LineageEvent → Check → Check
unfolding check_delta_kind
check_delta_at none base i evt c = check_delta_kind evt.event_type base i evt c
check_delta_at (some at) base i evt c = record c {
  errors = c.errors ++ after_terminal i evt.event_type at ∷ [];
}

abbrev pub check_delta_id : WorkflowExecution → ℕ → LineageEvent → Check → Check
check_delta_id snapshot i evt c = record c {
  errors =
      c.errors
      ++ report_if (not (evt.execution_id == snapshot.execution_id))
          (wrong_execution_id i evt.execution_id snapshot.execution_id);
}

unfoldable pub check_delta_event : WorkflowExecution → ℕ → LineageEvent → Check → Check
unfolding check_delta_at
check_delta_event snapshot i evt c =
    check_delta_at c.terminal_at snapshot.completed_node_ids i evt (check_delta_id snapshot i evt c)

unfoldable pub check_delta_from : WorkflowExecution → ℕ → List LineageEvent → Check → Check
unfolding check_delta_event
check_delta_from snapshot i [] c = c
check_delta_from snapshot i (evt ∷ evts) c =
    check_delta_from snapshot (suc i) evts (check_delta_event snapshot i evt c)

unfoldable pub validate_delta_events : WorkflowExecution → List LineageEvent → List LineageError
unfolding check_delta_from is_terminal
validate_delta_events snapshot [] = []
validate_delta_events snapshot (evt ∷ evts) =
    if is_terminal (some snapshot.state)
    then snapshot_terminal snapshot.state ∷ []
    else (check_delta_from snapshot 0 (evt ∷ evts)
        (record (check_start []) { current_state = some snapshot.state })).errors
