-- ===== src/Lib.antt =====
-- A model of the task orchestration, of the workflow engine, of the runtime supervisor, of the
-- ontology of memory and of the context window of the deterministic cognition repository, with the
-- theorems that make them correct.
--
-- The program and its parts. `orchestration/` keeps tasks with a governed life cycle in SQLite: each
-- change of state is a row of an append-only lineage. `workflow/` turns a graph of nodes into an
-- execution plan, moves an execution over that plan as nodes complete or fail, and writes a lineage
-- event for each change. Lineage is the truth: the state row is a cache, which replay rebuilds.
-- `runtime/` runs the loop that polls the ready tasks of the orchestration, executes them by handlers and
-- writes checkpoints, with a lineage of its own. `session/` puts together what a model is shown, and
-- `session/context_window.py` cuts that to the budgets of a policy. `memory/ontology.py` governs the words
-- that memory events use: terms change their status and are never deleted, and aliases name terms.
--
-- The files.
--   Prelude: numbers, results, lists, and Python's `str`, `set`, `sorted`, `dict`, `int` as used here.
--   Orchestration.State: orchestration/models.py and orchestration/transitions.py.
--   Orchestration.Service: orchestration/service.py over its three tables, as functions of a store.
--   Orchestration.Listing: `list_tasks` of orchestration/service.py.
--   Orchestration.Reach, Recorded, Invariant, Terminal: the calls as steps, and what they keep.
--   Workflow.State, Workflow.Definition: workflow/state.py and workflow/models.py.
--   Workflow.Downstream: `_compute_downstream_blocked` of workflow/executor.py; its children give the
--     reachability that it computes.
--   Workflow.Executor: the rest of workflow/executor.py, `Progress` for what only reads.
--   Workflow.Lineage, Workflow.Replay: the two halves of workflow/replay.py.
--   Workflow.History: the calls of the engine as steps, and the histories that they make up.
--   Workflow.Validation: workflow/validation.py, `Graph` for its two searches, `Silent` and `Valid`
--     for what a valid definition satisfies.
--   Workflow.Planner: workflow/planner.py; `Degrees`, `Stages` and `Planned` follow the degrees of the
--     nodes through one stage, all rounds, and from the first graph on, `Accepted` joins both modules.
--   Workflow.SnapshotPolicy: workflow/snapshot_policy.py; `Applied` says when a snapshot is due.
--   Workflow.Storage: workflow/storage.py and workflow/persistence.py over three of their tables; `Rows`
--     follows a row through a save.
--   Workflow.Recovery: workflow/recovery.py; `Applied` says what a recovery leaves.
--   Workflow.Coordination: workflow/coordination.py over the store of the orchestration; `Submitted` has
--     the nodes that count as submitted, `Again` a second call, `Rows` the row for a node, `Open` the nodes
--     that are passed over, `Listed` what a call returns.
--   Runtime.State: runtime/models.py. Runtime.Store: runtime/state_store.py and runtime/checkpoints.py
--     over the three tables of runtime/schema.sql; `Moves` for one transition, `Traced` for the replay of
--     the lineage, `Calls` for sequences of calls.
--   Runtime.World: the state of a run: both databases, the clock and the variables of the loop.
--   Runtime.Dispatch: runtime/handlers.py and runtime/service.py.
--   Runtime.Runner: runtime/runner.py; `Ensures` has the rules for what a call leaves, `Rounds` follows
--     one iteration, `Bounded` the loop, `Ends` a run, `Recovers` the recovery.
--   Session.Models, Session.Window: what session/context_window.py reads of session/models.py, and that
--     file; `Accounts`, `Tiers` and `Bounds` follow the budgets through a tier and through all of them.
--   Session.Activation: the ranks and sections of session/activation.py; `Partition` and `Ranked` compare
--     them with filters and with an order on the fields of the items, `Sorted` has the sort.
--   Memory.Retrieval: memory/retrieval.py without a query vector and without the log, and
--     `activate_memory` of session/activation.py over it; `Passes`, `Complete` and `Distinct` say what both return.
--   Memory.Ontology: memory/ontology.py over its two tables; `Detectors` has the detectors of that file,
--     `Calls` sequences of calls, `Returns` what a call that returns had found, `Sound` what all calls
--     keep, `Resolves` the aliases, `Lifecycle` the status of a term.
--   Examples under these modules: tests, and the theorems at concrete inputs.
--
-- Conventions. A state or an event type is a data type with the names that the source lists and a
-- constructor `other` for any further text. An exception is the error of a `Result`; an error message
-- is a constructor with the values that the message shows, but the errors of workflow/validation.py are
-- texts, since the code sorts and searches them. `_now()` is a parameter `clock`, read once
-- for each event, and hashlib's SHA-256 is a parameter. A table is the list of its rows. JSON
-- metadata is a dictionary of texts, which is what this code stores and reads.
--
-- Fuel. The search for downstream nodes has the length of its first queue and the number of nodes as
-- fuel: each round takes a node from the queue, and no node enters it twice. The loop that advances
-- the stage has the number of stages left. The planner has one round for each node and one more, since
-- a stage is not empty; Kahn's algorithm in the validation has one for each node and one more, since a
-- degree reaches 0 once; `find` of the union-find has one for each node and one more, since a step goes
-- up the tree. Printing a number has the number itself.
-- The loop of a runtime, which has no bound of its own, has as fuel one more than any number that the
-- limit on the iterations does not exceed. An interrupt is a test on the readings of the clock; it comes
-- before a transition or an execution. A handler is any function of the task and of the task database.
--
-- Not modelled: the dispatch and inspection of workflows, the tables of definitions and
-- plans, SQLite itself, JSON encoding, the shells and command lines, model adapters, the rest of memory,
-- ingestion, semantic, continuity and source registry packages, and of session what is not named above.
pub mod Memory
pub mod Orchestration
pub mod Prelude
pub mod Runtime
pub mod Session
pub mod Workflow
