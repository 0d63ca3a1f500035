-- ===== src/Orchestration/Service.antt =====
-- orchestration/service.py over the three tables of orchestration/schema.sql. A table is the list of
-- its rows in the order of their ids; `AUTOINCREMENT` is the counter beside it. A call returns the
-- new store and its result, or the exception, which leaves the store as it was: no write stands
-- before a test that raises, and the transaction is rolled back. `now` is the answer of `_now()`.
use deterministic_cognition.Prelude.{
  ℕ, suc, ℤ, leb_ℤ, String, Bool, true, false, not, ◌&&◌, Option, none, some, List, [], ◌∷◌, ◌++◌,
  Dict, Result, ok, err, ◌>>=◌, ◌>>◌, guard, eqb, leb, is_blank, contains, sorted, keep, any, map,
  if◌then◌else◌,
}
use deterministic_cognition.Orchestration.State.{
  TaskState, pending, ready, blocked, completed, TransitionError, validate_transition, state_eq,
  valid_task_types, valid_dependency_types, priority_min, priority_max, Task, TaskLineageEvent,
  TaskDependency,
}

pub record Store : Type 0 where
  pub tasks : List Task
  pub lineage : List TaskLineageEvent
  pub dependencies : List TaskDependency
  pub next_task : ℕ
  pub next_event : ℕ
  pub next_dependency : ℕ

-- the store that `init_db` makes
abbrev pub init_db : Store
init_db = record {
  tasks = [];
  lineage = [];
  dependencies = [];
  next_task = 1;
  next_event = 1;
  next_dependency = 1;
}

pub data ServiceError : Type 0 where
  empty_field : String → ServiceError
  invalid_task_type : String → ServiceError
  invalid_priority : ℤ → ServiceError
  invalid_dependency_type : String → ServiceError
  self_dependency : ServiceError
  duplicate_dependency : ℕ → ℕ → ServiceError
  not_found : ℕ → ServiceError
  transition_error : TransitionError → ServiceError

-- `SELECT * FROM tasks WHERE id = ?`
unfoldable pub find_task : ℕ → List Task → Option Task
find_task id [] = none
find_task id (t ∷ ts) = if eqb id t.id then some t else find_task id ts

-- `SELECT * FROM task_lineage WHERE task_id = ? ORDER BY id ASC`
unfoldable pub lineage_of : ℕ → List TaskLineageEvent → List TaskLineageEvent
lineage_of id evs = keep (λ (ev : TaskLineageEvent). eqb ev.task_id id) evs

unfoldable pub dependencies_of : ℕ → List TaskDependency → List TaskDependency
dependencies_of id ds = keep (λ (d : TaskDependency). eqb d.task_id id) ds

unfoldable pub insort : ℕ → List ℕ → List ℕ
insort x [] = x ∷ []
insort x (y ∷ ys) = let rest = insort x ys in if leb x y then x ∷ y ∷ ys else y ∷ rest

-- `ORDER BY` on numbers
unfoldable pub sorted_ids : List ℕ → List ℕ
unfolding insort
sorted_ids [] = []
sorted_ids (x ∷ xs) = insort x (sorted_ids xs)

-- `_dep_snapshot`
unfoldable pub dep_snapshot : Store → ℕ → List ℕ
unfolding sorted_ids dependencies_of
dep_snapshot s id =
    sorted_ids (map (λ (d : TaskDependency). d.depends_on_id) (dependencies_of id s.dependencies))

-- `UPDATE tasks SET state = ?, version = ?, updated_at = ? WHERE id = ?`
unfoldable pub update_state : ℕ → TaskState → ℕ → String → List Task → List Task
update_state id new version now [] = []
update_state id new version now (t ∷ ts) =
    (if eqb id t.id then record t { state = new; version = version; updated_at = now } else t)
    ∷ update_state id new version now ts

abbrev pub event_row :
    ℕ
    → Option TaskState
    → TaskState
    → String
    → String
    → List ℕ
    → Dict String
    → String
    → Store
    → TaskLineageEvent
event_row id old new reason actor snapshot metadata now s = record {
  id = s.next_event;
  task_id = id;
  old_state = old;
  new_state = new;
  reason = reason;
  actor = actor;
  dependency_snapshot = snapshot;
  metadata = metadata;
  created_at = now;
}

-- `INSERT INTO task_lineage`
abbrev pub insert_event :
    ℕ
    → Option TaskState
    → TaskState
    → String
    → String
    → List ℕ
    → Dict String
    → String
    → Store
    → Store
insert_event id old new reason actor snapshot metadata now s = record s {
  lineage = s.lineage ++ event_row id old new reason actor snapshot metadata now s ∷ [];
  next_event = suc s.next_event;
}

-- `_validate_priority`; that the value is an `int` is its type here
unfoldable pub validate_priority : ℤ → Result ServiceError (Unit {0})
validate_priority p = guard (leb_ℤ priority_min p && leb_ℤ p priority_max) (invalid_priority p)

-- What a caller gives to `create_task`.
pub record NewTask : Type 0 where
  pub title : String
  pub task_type : String
  pub actor : String
  pub description : Option String
  pub priority : ℤ
  pub tags : List String
  pub metadata : Dict String
  pub reason : String

unfoldable pub validate_new_task : NewTask → Result ServiceError (Unit {0})
unfolding validate_priority
validate_new_task n = do
  guard (not (is_blank n.title)) (empty_field "title")
  guard (contains n.task_type valid_task_types) (invalid_task_type n.task_type)
  guard (not (is_blank n.actor)) (empty_field "actor")
  validate_priority n.priority
  guard (not (is_blank n.reason)) (empty_field "reason")

-- the row that `create_task` inserts
abbrev pub new_row : Store → NewTask → String → Task
new_row s n now = record {
  id = s.next_task;
  title = n.title;
  description = n.description;
  task_type = n.task_type;
  state = pending;
  priority = n.priority;
  actor = n.actor;
  tags = sorted n.tags;
  metadata = n.metadata;
  created_at = now;
  updated_at = now;
  version = 1;
}

unfoldable pub create_task : String → NewTask → Store → Result ServiceError (Store × Task)
create_task now n s = do
  validate_new_task n
  let row = new_row s n now
  let s1 : Store = record s { tasks = s.tasks ++ row ∷ []; next_task = suc s.next_task }
  ok (insert_event s.next_task none pending n.reason n.actor [] [] now s1, row)

-- the writes of `transition_task`, for the row that it read
abbrev pub moved : String → Store → ℕ → Task → TaskState → String → String → Dict String → Store
moved now s id t new reason actor metadata =
    insert_event id (some t.state) new reason actor (dep_snapshot s id) metadata now
      (record s { tasks = update_state id new (suc t.version) now s.tasks })

unfoldable pub transition_task :
    String
    → ℕ
    → TaskState
    → String
    → String
    → Dict String
    → Store
    → Result ServiceError (Store × Task)
transition_task now id new reason actor metadata s =
    if is_blank reason
    then err (empty_field "reason")
    else if is_blank actor
    then err (empty_field "actor")
    else elim (find_task id s.tasks) [
      | none ↦ err (not_found id)
      | some t ↦ elim (validate_transition t.state new) [
        | err x ↦ err (transition_error x)
        | ok _ ↦ ok (
          moved now s id t new reason actor metadata,
          record t { state = new; version = suc t.version; updated_at = now },
        )
      ]
    ]

-- `IntegrityError` of the constraint UNIQUE (task_id, depends_on_id)
unfoldable pub has_dependency : ℕ → ℕ → List TaskDependency → Bool
has_dependency id on ds =
    any (λ (d : TaskDependency). eqb d.task_id id && eqb d.depends_on_id on) ds

abbrev pub exists_or : ℕ → Store → Result ServiceError (Unit {0})
exists_or id s = elim (find_task id s.tasks) [ none ↦ err (not_found id) | some _ ↦ ok tt ]

unfoldable pub add_dependency :
    String → ℕ → ℕ → String → Store → Result ServiceError (Store × TaskDependency)
add_dependency now id on kind s = do
  guard (contains kind valid_dependency_types) (invalid_dependency_type kind)
  guard (not (eqb id on)) self_dependency
  exists_or id s
  exists_or on s
  guard (not (has_dependency id on s.dependencies)) (duplicate_dependency id on)
  let row : TaskDependency = record {
    id = s.next_dependency;
    task_id = id;
    depends_on_id = on;
    dependency_type = kind;
    created_at = now;
  }
  ok (
    record s { dependencies = s.dependencies ++ row ∷ []; next_dependency = suc s.next_dependency },
    row,
  )

-- the condition of the join in `get_blocking_dependencies`
unfoldable pub is_blocking : List Task → TaskDependency → Bool
is_blocking tasks d = elim (find_task d.depends_on_id tasks) [
  | none ↦ false
  | some t ↦ not (state_eq t.state completed)
]

unfoldable pub get_blocking_dependencies : ℕ → Store → Result ServiceError (List TaskDependency)
unfolding is_blocking dependencies_of
get_blocking_dependencies id s = elim (find_task id s.tasks) [
  | none ↦ err (not_found id)
  | some _ ↦ ok (keep (is_blocking s.tasks) (dependencies_of id s.dependencies))
]

abbrev pub unblock_reason : String
unblock_reason = "All dependencies resolved — task unblocked"

-- what `check_and_unblock` does with the dependencies that block a task in state 'blocked'
unfoldable pub unblock_if :
    String → ℕ → String → Store → List TaskDependency → Result ServiceError (Store × Bool)
unblock_if now id actor s [] = do
  (s', _) ← transition_task now id ready unblock_reason actor [] s
  ok (s', true)
unblock_if now id actor s (_ ∷ _) = ok (s, false)

unfoldable pub check_and_unblock : String → ℕ → String → Store → Result ServiceError (Store × Bool)
check_and_unblock now id actor s = elim (find_task id s.tasks) [
  | none ↦ err (not_found id)
  | some t ↦
      if state_eq t.state blocked
      then get_blocking_dependencies id s >>= unblock_if now id actor s
      else ok (s, false)
]

-- `get_task`
unfoldable pub get_task :
    ℕ → Store → Result ServiceError (Task × List TaskLineageEvent × List TaskDependency)
unfolding find_task lineage_of dependencies_of
get_task id s = elim (find_task id s.tasks) [
  | none ↦ err (not_found id)
  | some t ↦ ok (t, lineage_of id s.lineage, dependencies_of id s.dependencies)
]

unfoldable pub get_lineage : ℕ → Store → Result ServiceError (List TaskLineageEvent)
unfolding find_task lineage_of
get_lineage id s = elim (find_task id s.tasks) [
  | none ↦ err (not_found id)
  | some _ ↦ ok (lineage_of id s.lineage)
]
