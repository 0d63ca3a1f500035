-- ===== src/Runtime/State.antt =====
-- runtime/models.py: the states of a runtime, the transitions between them, and its records.
use deterministic_cognition.Prelude.{
  ℕ, ℤ, String, Bool, true, false, Option, none, some, List, [], ◌∷◌, Dict, Result, ok, err, ◌==◌,
  eqb, leb, if◌then◌else◌,
}

-- A text that names a state; `other` is any text that is not one of the ten names.
pub data RuntimeState : Type 0 where
  initialized idle polling executing checkpointing paused : RuntimeState
  interrupted recovering failed stopped : RuntimeState
  other : String → RuntimeState

abbrev rank : RuntimeState → ℕ
rank initialized = 0
rank idle = 1
rank polling = 2
rank executing = 3
rank checkpointing = 4
rank paused = 5
rank interrupted = 6
rank recovering = 7
rank failed = 8
rank stopped = 9
rank (other _) = 10

-- `==` on the texts
unfoldable pub state_eq : RuntimeState → RuntimeState → Bool
state_eq (other a) (other b) = a == b
state_eq s t = eqb (rank s) (rank t)

unfoldable pub state_in : RuntimeState → List RuntimeState → Bool
unfolding state_eq
state_in s [] = false
state_in s (t ∷ ts) = if state_eq s t then true else state_in s ts

-- `VALID_RUNTIME_STATES`
abbrev pub valid_states : List RuntimeState
valid_states =
    initialized ∷ idle ∷ polling ∷ executing ∷ checkpointing ∷ paused ∷ interrupted ∷ recovering
    ∷ failed ∷ stopped ∷ []

-- `VALID_RUNTIME_TRANSITIONS.get(state)`
unfoldable pub valid_transitions : RuntimeState → Option (List RuntimeState)
valid_transitions initialized = some (idle ∷ stopped ∷ [])
valid_transitions idle = some (polling ∷ paused ∷ stopped ∷ interrupted ∷ [])
valid_transitions polling =
    some (executing ∷ idle ∷ checkpointing ∷ interrupted ∷ paused ∷ stopped ∷ [])
valid_transitions executing = some (polling ∷ checkpointing ∷ idle ∷ interrupted ∷ paused ∷ [])
valid_transitions checkpointing = some (idle ∷ polling ∷ interrupted ∷ paused ∷ [])
valid_transitions paused = some (idle ∷ recovering ∷ stopped ∷ [])
valid_transitions interrupted = some (recovering ∷ stopped ∷ [])
valid_transitions recovering = some (idle ∷ failed ∷ [])
valid_transitions failed = some (recovering ∷ stopped ∷ [])
valid_transitions stopped = some []
valid_transitions (other _) = none

unfoldable pub can_transition : RuntimeState → RuntimeState → Bool
unfolding valid_transitions state_in
can_transition old new = elim (valid_transitions old) [ none ↦ false | some ts ↦ state_in new ts ]

-- `TransitionError`, with the values that its message shows
pub data TransitionError : Type 0 where
  unknown_source unknown_target self_transition : RuntimeState → TransitionError
  invalid_transition : RuntimeState → RuntimeState → TransitionError

unfoldable pub validate_runtime_transition :
    RuntimeState → RuntimeState → Result TransitionError (Unit {0})
unfolding valid_transitions state_in state_eq can_transition
validate_runtime_transition old new = elim (valid_transitions old) [
  | none ↦ err (unknown_source old)
  | some _ ↦
      if state_in new valid_states
      then if state_eq old new
        then err (self_transition old)
        else if can_transition old new
        then ok tt
        else err (invalid_transition old new)
      else err (unknown_target new)
]

-- `poll_interval_s` is the length of a sleep, and is left out.
pub record RuntimeConfig : Type 0 where
  pub actor : String
  pub max_iterations : Option ℤ
  pub max_retries : ℤ
  pub checkpoint_every : ℕ
  pub allow_unbounded : Bool

-- `__post_init__`
unfoldable pub is_config : RuntimeConfig → Bool
is_config c = leb 1 c.checkpoint_every

pub record Runtime : Type 0 where
  pub id : ℕ
  pub name : String
  pub state : RuntimeState
  pub orchestration_db : String
  pub config : RuntimeConfig
  pub current_iteration : ℕ
  pub created_at : String
  pub updated_at : String
  pub version : ℕ

pub record RuntimeLineageEvent : Type 0 where
  pub id : ℕ
  pub runtime_id : ℕ
  pub old_state : Option RuntimeState
  pub new_state : RuntimeState
  pub reason : String
  pub iteration : ℕ
  pub metadata : Dict String
  pub created_at : String

-- `state` holds numbers only, as the runner writes it.
pub record Checkpoint : Type 0 where
  pub id : ℕ
  pub runtime_id : ℕ
  pub iteration : ℕ
  pub state : Dict ℕ
  pub reason : String
  pub created_at : String

pub record RunResult : Type 0 where
  pub runtime_id : ℕ
  pub iterations_completed : ℕ
  pub tasks_executed : ℕ
  pub stopped_reason : String
  pub final_state : RuntimeState
