-- ===== src/Workflow/State.antt =====
-- workflow/state.py: the states of a workflow execution and the transitions between them, the
-- execution record and its lineage events.
use deterministic_cognition.Prelude.{
  ℕ, String, ◌⧺◌, Bool, true, false, Option, none, some, List, [], ◌∷◌, Dict, Result, ok, err, ◌==◌,
  eqb, if◌then◌else◌,
}

-- A text that names a state; `other` is any text that is not one of the eight names.
pub data State : Type 0 where
  initialized ready executing blocked paused completed failed cancelled : State
  other : String → State

abbrev rank : State → ℕ
rank initialized = 0
rank ready = 1
rank executing = 2
rank blocked = 3
rank paused = 4
rank completed = 5
rank failed = 6
rank cancelled = 7
rank (other _) = 8

-- `==` on the texts
unfoldable pub state_eq : State → State → Bool
state_eq (other a) (other b) = a == b
state_eq s t = eqb (rank s) (rank t)

unfoldable pub state_in : State → List State → Bool
unfolding state_eq
state_in s [] = false
state_in s (t ∷ ts) = if state_eq s t then true else state_in s ts

-- `VALID_WORKFLOW_EXECUTION_STATES`
abbrev pub valid_states : List State
valid_states =
    initialized ∷ ready ∷ executing ∷ blocked ∷ paused ∷ completed ∷ failed ∷ cancelled ∷ []

-- `TERMINAL_WORKFLOW_EXECUTION_STATES`
abbrev pub terminal_states : List State
terminal_states = completed ∷ cancelled ∷ []

-- `VALID_WORKFLOW_EXECUTION_TRANSITIONS.get(state)`
unfoldable pub valid_transitions : State → Option (List State)
valid_transitions initialized = some (ready ∷ cancelled ∷ [])
valid_transitions ready = some (executing ∷ cancelled ∷ [])
valid_transitions executing = some (completed ∷ failed ∷ blocked ∷ paused ∷ [])
valid_transitions blocked = some (executing ∷ failed ∷ cancelled ∷ [])
valid_transitions paused = some (executing ∷ cancelled ∷ [])
valid_transitions failed = some (cancelled ∷ [])
valid_transitions completed = some []
valid_transitions cancelled = some []
valid_transitions (other _) = none

-- `VALID_WORKFLOW_EXECUTION_TRANSITIONS.get(state, frozenset())`
unfoldable pub allowed_targets : State → List State
unfolding valid_transitions
allowed_targets s = elim (valid_transitions s) [ none ↦ [] | some ts ↦ ts ]

-- `WorkflowExecutionTransitionError`, with the values that its message shows
pub data TransitionError : Type 0 where
  unknown_source : State → TransitionError
  unknown_target : State → TransitionError
  self_transition : State → TransitionError
  not_permitted : State → State → TransitionError

unfoldable pub validate_execution_transition : State → State → Result TransitionError (Unit {0})
unfolding valid_transitions state_in
validate_execution_transition old new = elim (valid_transitions old) [
  | none ↦ err (unknown_source old)
  | some targets ↦
      if state_in new valid_states
      then if state_eq old new
        then err (self_transition old)
        else if state_in new targets
        then ok tt
        else err (not_permitted old new)
      else err (unknown_target new)
]

-- The `EVENT_*` constants; `other` is any other text.
pub data EventType : Type 0 where
  state_transition node_completed node_failed node_retry node_submitted stage_advanced : EventType
  other : String → EventType

-- `make_execution_id`; the hash is hashlib's
unfoldable pub make_execution_id : (String → String) → String → String → String
make_execution_id sha256 plan_id created_at = sha256 (plan_id ⧺ ":" ⧺ created_at)

pub record WorkflowExecution : Type 0 where
  pub execution_id : String
  pub workflow_id : String
  pub plan_id : String
  pub state : State
  pub active_stage_index : ℕ
  pub completed_node_ids : List String
  pub failed_node_ids : List String
  pub node_attempts : Dict ℕ
  pub created_at : String
  pub updated_at : String
  pub version : ℕ

pub record LineageEvent : Type 0 where
  pub execution_id : String
  pub event_type : EventType
  pub old_state : Option State
  pub new_state : Option State
  pub node_id : Option String
  pub stage_index : ℕ
  pub reason : String
  pub created_at : String
  pub metadata : Dict String

pub record StageExecution : Type 0 where
  pub stage_index : ℕ
  pub node_ids : List String
  pub completed_node_ids : List String
  pub failed_node_ids : List String
  pub pending_node_ids : List String
  pub is_complete : Bool
  pub has_failures : Bool
