-- ===== src/Orchestration/State.antt =====
-- orchestration/models.py and orchestration/transitions.py: the states of a task, the transitions
-- between them, and what the lineage of a task says of its state.
use deterministic_cognition.Prelude.{
  ℕ, ℤ, pos, String, Bool, true, false, Option, none, some, List, [], ◌∷◌, Dict, Result, ok, err,
  ◌==◌, eqb, if◌then◌else◌,
}

-- A text that names a state; `other` is any text that is not one of the eight names.
pub data TaskState : Type 0 where
  pending ready running blocked completed failed cancelled superseded : TaskState
  other : String → TaskState

abbrev rank : TaskState → ℕ
rank pending = 0
rank ready = 1
rank running = 2
rank blocked = 3
rank completed = 4
rank failed = 5
rank cancelled = 6
rank superseded = 7
rank (other _) = 8

-- `==` on the texts
unfoldable pub state_eq : TaskState → TaskState → Bool
state_eq (other a) (other b) = a == b
state_eq s t = eqb (rank s) (rank t)

unfoldable pub state_in : TaskState → List TaskState → Bool
unfolding state_eq
state_in s [] = false
state_in s (t ∷ ts) = if state_eq s t then true else state_in s ts

-- `VALID_STATES`
abbrev pub valid_states : List TaskState
valid_states =
    pending ∷ ready ∷ running ∷ blocked ∷ completed ∷ failed ∷ cancelled ∷ superseded ∷ []

-- `TERMINAL_STATES`
abbrev pub terminal_states : List TaskState
terminal_states = cancelled ∷ superseded ∷ []

abbrev pub valid_task_types : List String
valid_task_types =
    "research" ∷ "analysis" ∷ "validation" ∷ "calibration" ∷ "review" ∷ "governance"
    ∷ "implementation" ∷ "report" ∷ "semantic_extraction" ∷ []

abbrev pub valid_dependency_types : List String
valid_dependency_types = "task_completion" ∷ "governance_approval" ∷ "validation_outcome" ∷ []

abbrev pub priority_min : ℤ
priority_min = pos 1

abbrev pub priority_max : ℤ
priority_max = pos 5

-- `VALID_TRANSITIONS.get(state)`
unfoldable pub valid_transitions : TaskState → Option (List TaskState)
valid_transitions pending = some (ready ∷ blocked ∷ cancelled ∷ [])
valid_transitions ready = some (running ∷ blocked ∷ cancelled ∷ [])
valid_transitions running = some (completed ∷ failed ∷ blocked ∷ [])
valid_transitions blocked = some (ready ∷ cancelled ∷ [])
valid_transitions failed = some (ready ∷ cancelled ∷ [])
valid_transitions completed = some (superseded ∷ [])
valid_transitions cancelled = some []
valid_transitions superseded = some []
valid_transitions (other _) = none

-- `get_valid_transitions`
unfoldable pub get_valid_transitions : TaskState → List TaskState
unfolding valid_transitions
get_valid_transitions s = elim (valid_transitions s) [ none ↦ [] | some ts ↦ ts ]

unfoldable pub can_transition : TaskState → TaskState → Bool
unfolding get_valid_transitions state_in
can_transition old new = state_in new (get_valid_transitions old)

unfoldable pub is_terminal : TaskState → Bool
unfolding state_in
is_terminal s = state_in s terminal_states

-- `TransitionError`, with the values that its message shows
pub data TransitionError : Type 0 where
  unknown_source : TaskState → TransitionError
  unknown_target : TaskState → TransitionError
  invalid_transition : TaskState → TaskState → TransitionError

unfoldable pub validate_transition : TaskState → TaskState → Result TransitionError (Unit {0})
unfolding valid_transitions state_in can_transition
validate_transition old new = elim (valid_transitions old) [
  | none ↦ err (unknown_source old)
  | some _ ↦
      if state_in new valid_states
      then if can_transition old new then ok tt else err (invalid_transition old new)
      else err (unknown_target new)
]

-- A row of `tasks`. `metadata` holds texts only, as the workflow coordinator writes it.
pub record Task : Type 0 where
  pub id : ℕ
  pub title : String
  pub description : Option String
  pub task_type : String
  pub state : TaskState
  pub priority : ℤ
  pub actor : String
  pub tags : List String
  pub metadata : Dict String
  pub created_at : String
  pub updated_at : String
  pub version : ℕ

-- A row of `task_lineage`.
pub record TaskLineageEvent : Type 0 where
  pub id : ℕ
  pub task_id : ℕ
  pub old_state : Option TaskState
  pub new_state : TaskState
  pub reason : String
  pub actor : String
  pub dependency_snapshot : List ℕ
  pub metadata : Dict String
  pub created_at : String

-- A row of `task_dependencies`.
pub record TaskDependency : Type 0 where
  pub id : ℕ
  pub task_id : ℕ
  pub depends_on_id : ℕ
  pub dependency_type : String
  pub created_at : String

unfoldable pub replay_state_history : List TaskLineageEvent → List (Option TaskState × TaskState)
replay_state_history [] = []
replay_state_history (ev ∷ evs) = (ev.old_state, ev.new_state) ∷ replay_state_history evs

-- the state of the last event
unfoldable pub current_state_from_lineage : List TaskLineageEvent → Option TaskState
current_state_from_lineage [] = none
current_state_from_lineage (ev ∷ []) = some ev.new_state
current_state_from_lineage (_ ∷ ev ∷ evs) = current_state_from_lineage (ev ∷ evs)
