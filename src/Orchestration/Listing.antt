-- ===== src/Orchestration/Listing.antt =====
-- `list_tasks` of orchestration/service.py: the rows that pass the filters, by priority and then by id.
use deterministic_cognition.Prelude.{
  ℕ, zero, suc, ℤ, pos, negsuc, ltb_ℤ, String, ◌==◌, Bool, true, not, ◌&&◌, ◌||◌, Option, none,
  some, List, [], ◌∷◌, Result, ok, ◌>>◌, guard, leb, contains, keep, if◌then◌else◌,
}
use deterministic_cognition.Orchestration.State.{
  TaskState, other, state_eq, state_in, valid_states, valid_task_types, Task,
}
use deterministic_cognition.Orchestration.Service.{Store, ServiceError, invalid_task_type}

pub data ListError : Type 0 where
  invalid_state : TaskState → ListError
  service : ServiceError → ListError

-- `if state:`, for a state that may be absent
unfoldable pub given_state : Option TaskState → Option TaskState
given_state none = none
given_state (some (other s)) = if s == "" then none else some (other s)
given_state (some s) = some s

unfoldable pub given_text : Option String → Option String
given_text none = none
given_text (some s) = if s == "" then none else some s

unfoldable pub has_state : Option TaskState → Task → Bool
has_state none t = true
has_state (some s) t = state_eq t.state s

unfoldable pub has_text : Option String → String → Bool
has_text none s = true
has_text (some x) s = s == x

-- `ORDER BY priority ASC, id ASC`
unfoldable pub comes_before : Task → Task → Bool
comes_before t u =
    ltb_ℤ t.priority u.priority || (not (ltb_ℤ u.priority t.priority) && leb t.id u.id)

unfoldable pub insort_task : Task → List Task → List Task
insort_task t [] = t ∷ []
insort_task t (u ∷ us) =
    let rest = insort_task t us in if comes_before t u then t ∷ u ∷ us else u ∷ rest

unfoldable pub sorted_tasks : List Task → List Task
unfolding insort_task
sorted_tasks [] = []
sorted_tasks (t ∷ ts) = insort_task t (sorted_tasks ts)

unfoldable pub take_tasks : ℕ → List Task → List Task
take_tasks zero ts = []
take_tasks (suc n) [] = []
take_tasks (suc n) (t ∷ ts) = t ∷ take_tasks n ts

-- `LIMIT ?`; a negative limit is none
unfoldable pub limited : ℤ → List Task → List Task
unfolding take_tasks
limited (pos n) ts = take_tasks n ts
limited (negsuc _) ts = ts

abbrev pub known_state : Option TaskState → Result ListError (Unit {0})
known_state none = ok tt
known_state (some s) = guard (state_in s valid_states) (invalid_state s)

abbrev pub known_type : Option String → Result ListError (Unit {0})
known_type none = ok tt
known_type (some s) = guard (contains s valid_task_types) (service (invalid_task_type s))

unfoldable pub list_tasks :
    Option TaskState → Option String → Option String → ℤ → Store → Result ListError (List Task)
unfolding given_state given_text
list_tasks state task_type actor limit s = do
  known_state (given_state state)
  known_type (given_text task_type)
  ok (
      limited limit (
        sorted_tasks (
          keep
            (λ (t : Task).
              has_state (given_state state) t
              && has_text (given_text task_type) t.task_type
              && has_text (given_text actor) t.actor)
            s.tasks)))
