-- ===== src/Runtime/Dispatch.antt =====
-- runtime/handlers.py and runtime/service.py: the registry of handlers, and the execution of one task.
-- A handler is any function of the task and of the task database that it may write to; what it returns
-- is the JSON text of its value, and what it raises is the text of the exception.
use deterministic_cognition.Prelude.{
  ℕ, String, ◌⧺◌, Bool, true, false, not, ◌&&◌, Option, none, some, List, [], Dict, get, put,
  remove, keys, sorted, is_blank, Result, ok, err, length, keep, eqb, pos, if◌then◌else◌,
}
use deterministic_cognition.Orchestration.State.{
  TaskState, ready, running, completed, failed, Task, TaskLineageEvent, state_eq,
}
use deterministic_cognition.Orchestration.Service.{Store, transition_task}
use deterministic_cognition.Orchestration.Listing.{list_tasks}
use deterministic_cognition.Runtime.World.{M, ◌>>=◌, served, listed}

pub data HandlerOutcome : Type 0 where
  returned raised : String → HandlerOutcome

abbrev pub Handler : Type 0
Handler = Task → Store → Store × HandlerOutcome

abbrev pub Registry : Type 0
Registry = Dict Handler

pub data RegistryError : Type 0 where
  empty_task_type : RegistryError
  already_registered not_registered : String → RegistryError

pub record HandlerResult : Type 0 where
  pub task_id : ℕ
  pub task_type : String
  pub success : Bool
  pub result_json : String
  pub error : Option String
  pub metadata_json : String

unfoldable pub has : Registry → String → Bool
has registry task_type = elim (get task_type registry) [ none ↦ false | some _ ↦ true ]

-- that the handler is callable is its type here
unfoldable pub register : String → Handler → Bool → Registry → Result RegistryError Registry
unfolding has
register task_type handler replace registry =
    if is_blank task_type
    then err empty_task_type
    else if has registry task_type && not replace
    then err (already_registered task_type)
    else ok (put task_type handler registry)

unfoldable pub unregister : String → Registry → Result RegistryError Registry
unfolding has
unregister task_type registry =
    if has registry task_type
    then ok (remove task_type registry)
    else err (not_registered task_type)

unfoldable pub list_handlers : Registry → List String
list_handlers registry = sorted (keys registry)

-- what `execute_handler` makes of the handler's end
unfoldable pub handler_result : Task → HandlerOutcome → HandlerResult
handler_result t (returned json) = record {
  task_id = t.id;
  task_type = t.task_type;
  success = true;
  result_json = json;
  error = none;
  metadata_json = "{}";
}
handler_result t (raised message) = record {
  task_id = t.id;
  task_type = t.task_type;
  success = false;
  result_json = "{}";
  error = some message;
  metadata_json = "{}";
}

unfoldable pub execute_handler : Registry → Task → Store → Store × HandlerResult
unfolding handler_result
execute_handler registry t s = elim (get t.task_type registry) [
  | none ↦ (s, handler_result t (raised ("missing_handler:" ⧺ t.task_type)))
  | some handler ↦ let (s', outcome) = handler t s in (s', handler_result t outcome)
]

-- `poll_ready_tasks`
unfoldable pub poll_ready_tasks : M (List Task)
poll_ready_tasks w = listed w (list_tasks (some ready) none none (pos 50) w.tasks)

abbrev error_text : Option String → String
error_text none = "None"
error_text (some e) = e

module _ (clock : ℕ → String) where
  unfoldable pub move_task : ℕ → TaskState → String → String → M Task
  move_task id new reason actor w =
      served w (transition_task (clock w.ticks) id new reason actor [] w.tasks)

  -- the last transition, by the result of the handler
  unfoldable pub settle_task : ℕ → String → Task → HandlerResult → M Task
  unfolding move_task
  settle_task id actor t result =
      if result.success
      then move_task id completed ("Handler succeeded: " ⧺ t.task_type) actor
      else move_task id failed ("Handler failed: " ⧺ error_text result.error) actor

  unfoldable pub dispatch : ℕ → String → Option Registry → Task → M Task
  unfolding move_task settle_task
  dispatch id actor none t w = move_task id failed ("missing_handler:" ⧺ t.task_type) actor w
  dispatch id actor (some registry) t w =
      if has registry t.task_type
      then (let (s, result) = execute_handler registry t w.tasks in
          settle_task id actor t result (record w { tasks = s }))
      else move_task id failed ("missing_handler:" ⧺ t.task_type) actor w

  unfoldable pub execute_task : ℕ → String → Option Registry → M Task
  unfolding move_task dispatch
  execute_task id actor registry =
      move_task id running "Runtime: task execution started" actor >>= dispatch id actor registry

abbrev was_failed : Option TaskState → Bool
was_failed none = false
was_failed (some s) = state_eq s failed

-- `count_task_retries`
unfoldable pub count_task_retries : ℕ → Store → ℕ
count_task_retries id s = length (
    keep
      (λ (ev : TaskLineageEvent).
        eqb ev.task_id id && was_failed ev.old_state && state_eq ev.new_state ready)
      s.lineage)
