-- ===== src/Workflow/Examples.antt =====
-- Runs of a workflow of two nodes, `b` behind `a`: tests of the engine, and its theorems at work.
use deterministic_cognition.Prelude.{
  ℕ, String, ◌≡◌, ◌≢◌, refl, true, false, some, List, [], ◌∷◌, ◌++◌, Result, ok, err, arith, pos,
  eq_iff, contains, sorted, insort, to_set, set_add, get, get_or, put, length, ◌⊎◌, ◌↔◌, suc,
}
use deterministic_cognition.Workflow.State.{
  executing, blocked, completed, WorkflowExecution, LineageEvent, validate_execution_transition,
  make_execution_id,
}
use deterministic_cognition.Workflow.Definition.{
  ExecutionPlan, WorkflowDefinition, WorkflowNode, all_node_ids,
}
use deterministic_cognition.Workflow.Downstream.{
  compute_downstream_blocked, search_loop, visit_all, visit, reverse_adj,
}
use deterministic_cognition.Workflow.Downstream.Closure.{Downstream}
use deterministic_cognition.Workflow.Downstream.Exact.{mem-Downstream}
use deterministic_cognition.Workflow.Executor.{
  ExecutorError, Outcome, initialize_execution, start_execution, transition, and_transition,
  record_node_completed, record_node_failed, mark_completed, advance_stage_if_needed,
  settle_completed, settle_failed, retry_node, fail_node, node_of,
}
use deterministic_cognition.Workflow.Executor.Progress.{detect_outcome, get_ready_node_ids}
use deterministic_cognition.Workflow.Executor.Progress.Liveness.{
  IsTopological, executing-ready, outcome_means,
}
use deterministic_cognition.Workflow.History.{start, complete, History, begin, next}
use deterministic_cognition.Workflow.History.Canonical.{IsCoherent, History-IsCoherent}
use deterministic_cognition.Workflow.Lineage.{is_terminal, validate_delta_events}
use deterministic_cognition.Workflow.Lineage.Accepted.{AllGuarded, replay-is_valid}
use deterministic_cognition.Workflow.Replay.{replay_execution, replay_from_snapshot}
use deterministic_cognition.Workflow.Replay.Faithful.{replay-History}
use deterministic_cognition.Workflow.Replay.Snapshot.{snapshot-replay}
use deterministic_cognition.Workflow.Storage.{Db, load_execution_events}
use deterministic_cognition.Workflow.Recovery.{recover_execution, apply_recovery}
use deterministic_cognition.Workflow.Recovery.Applied.{Recovers, apply_recovery_lem}

abbrev clock : ℕ → String
clock _ = "2024-01-01T00:00:00Z"

abbrev digest : String → String
digest s = s

abbrev plan : ExecutionPlan
plan = record {
  workflow_id = "w";
  plan_id = "p";
  version = 1;
  stages =
      record { stage_index = 0; node_ids = "a" ∷ [] }
      ∷ record { stage_index = 1; node_ids = "b" ∷ [] }
      ∷ [];
  dependency_snapshot = ("a", []) ∷ ("b", "a" ∷ []) ∷ [];
  generated_at = clock 0;
  planner_version = "1.0.0";
}

abbrev node : String → List String → WorkflowNode
node id deps = record {
  node_id = id;
  task_type = "research";
  task_payload_json = "{}";
  dependency_ids = deps;
  priority = pos 0;
  tags = [];
  retry_policy = record { max_attempts = pos 1 };
  governance_requirements = [];
}

abbrev definition : WorkflowDefinition
definition = record {
  workflow_id = "w";
  name = "w";
  version = 1;
  nodes = node "a" [] ∷ node "b" ("a" ∷ []) ∷ [];
  edges = [];
  metadata_json = "{}";
  created_at = clock 0;
  topology_hash = "";
}

abbrev new : WorkflowExecution
new = (initialize_execution clock digest 0 plan).0

abbrev first : LineageEvent
first = (initialize_execution clock digest 0 plan).1

abbrev returned : Result ExecutorError Outcome → Outcome
returned (ok o) = o
returned (err e) = (new, [])

abbrev started : Outcome
started = returned (start_execution clock 1 new)

abbrev a_done : Outcome
a_done = returned (record_node_completed clock 3 started.0 plan "a" "ok")

abbrev a_lost : Outcome
a_lost = returned (record_node_failed clock 3 started.0 plan definition "a" "lost")

abbrev b_done : Outcome
b_done = returned (record_node_completed clock 5 a_done.0 plan "b" "ok")

-- opens the operations for the runs below
engine : ℕ
unfolding initialize_execution make_execution_id start_execution transition and_transition
    validate_execution_transition record_node_completed record_node_failed mark_completed
    advance_stage_if_needed settle_completed settle_failed retry_node fail_node node_of
    detect_outcome get_ready_node_ids compute_downstream_blocked search_loop visit_all visit
    reverse_adj contains sorted insort to_set set_add get get_or put is_terminal
engine = 0

a_not_empty : ◌≢◌ {A = String} "a" ""
a_not_empty e = absurd (ground (arith, eq_iff "a" ""))

b_not_empty : ◌≢◌ {A = String} "b" ""
b_not_empty e = absurd (ground (arith, eq_iff "b" ""))

run_states :
    (started.0.state ≡ executing)
    × (a_done.0.active_stage_index ≡ 1)
    × (b_done.0.state ≡ completed)
    × (a_lost.0.state ≡ blocked)
    × (length b_done.1 ≡ 3)
unfolding engine
run_states = (refl, refl, refl, refl, refl)

abbrev lineage : List LineageEvent
lineage = ((first ∷ [] ++ started.1) ++ a_done.1) ++ b_done.1

h0 : History clock plan definition digest new (first ∷ [])
unfolding engine
h0 = begin 0 refl refl

h1 : History clock plan definition digest started.0 (first ∷ [] ++ started.1)
unfolding engine
h1 = next h0 (start 1 refl) refl

h2 : History clock plan definition digest a_done.0 ((first ∷ [] ++ started.1) ++ a_done.1)
unfolding engine
h2 = next h1 (complete 3 "a" "ok" a_not_empty refl) refl

finished : History clock plan definition digest b_done.0 lineage
unfolding engine
finished = next h2 (complete 5 "b" "ok" b_not_empty refl) refl

replay-History_example :
    ((replay_execution lineage).execution ≡ some b_done.0)
    × ((replay_execution lineage).events_applied ≡ length lineage)
replay-History_example = replay-History clock plan definition digest finished

History-IsCoherent_example : IsCoherent b_done.0
History-IsCoherent_example = History-IsCoherent clock plan definition digest finished

finished_guarded : AllGuarded clock plan definition digest finished
unfolding engine finished h2 h1 h0
finished_guarded = (((tt, tt), (refl, refl)), (refl, refl))

replay-is_valid_example :
    ((replay_execution lineage).is_valid ≡ true)
    × ((replay_execution lineage).validation_errors ≡ [])
replay-is_valid_example = replay-is_valid clock plan definition digest finished finished_guarded

-- a snapshot after `a`, and the events of `b`
delta_valid : (replay_from_snapshot a_done.0 b_done.1).is_valid ≡ true
unfolding engine replay_from_snapshot validate_delta_events
delta_valid = refl

snapshot-replay_example :
    (replay_from_snapshot a_done.0 b_done.1).execution
    ≡ (replay_execution (first ∷ (started.1 ++ a_done.1) ++ b_done.1)).execution
unfolding engine
snapshot-replay_example =
    snapshot-replay first (started.1 ++ a_done.1) b_done.1 a_done.0 refl
      (replay-History clock plan definition digest h2).0 delta_valid

mem-Downstream_example :
    (contains "b" (compute_downstream_blocked ("a" ∷ []) plan.dependency_snapshot) ≡ true)
    ↔ (Downstream plan.dependency_snapshot ("a" ∷ []) "b" × (contains "b" ("a" ∷ []) ≡ false))
mem-Downstream_example = mem-Downstream plan.dependency_snapshot ("a" ∷ []) "b"

plan_ordered : IsTopological plan.dependency_snapshot [] (all_node_ids plan)
unfolding engine
plan_ordered = (refl, (refl, tt))

executing-ready_example : (n : String) × (contains n (get_ready_node_ids a_done.0 plan) ≡ true)
unfolding engine
executing-ready_example = executing-ready a_done.0 plan refl plan_ordered refl

outcome_means_example :
    (detect_outcome started.0 plan ≡ completed
      → (n : String) → contains n (all_node_ids plan) ≡ true
      → contains n started.0.completed_node_ids ≡ true)
    × (detect_outcome started.0 plan ≡ blocked
        → ((n : String)
            → contains n (all_node_ids plan) ≡ true
            → (contains n started.0.completed_node_ids ≡ true)
              ⊎ (contains n started.0.failed_node_ids ≡ true)
              ⊎ Downstream plan.dependency_snapshot (to_set started.0.failed_node_ids) n)
          × ((m : String) × (contains m (all_node_ids plan) ≡ true)
              × (contains m started.0.completed_node_ids ≡ false)))
outcome_means_example = outcome_means started.0 plan (unfold engine in refl)

abbrev numbered : ℕ → List LineageEvent → List (ℕ × LineageEvent)
numbered k [] = []
numbered k (evt ∷ evts) = (k, evt) ∷ numbered (suc k) evts

-- a row that is behind its lineage
abbrev stale : Db
stale = record {
  executions = new ∷ [];
  events = numbered 1 ((first ∷ [] ++ started.1) ++ a_done.1);
  last_event_id = length ((first ∷ [] ++ started.1) ++ a_done.1);
  snapshots = [];
}

apply_recovery_lem_example :
    (((recover_execution new.execution_id stale).is_recoverable ≡ true)
      × ((e : WorkflowExecution) × ((replay_execution
              (load_execution_events new.execution_id 0 stale)).execution
            ≡ some e)
          × ((replay_execution (load_execution_events new.execution_id 0 stale)).is_valid ≡ true)
          × Recovers new.execution_id stale e (apply_recovery new.execution_id stale).0))
    ⊎ (((recover_execution new.execution_id stale).is_recoverable ≡ false)
        × ((apply_recovery new.execution_id stale).0 ≡ stale))
apply_recovery_lem_example = apply_recovery_lem new.execution_id stale
