-- ===== src/Workflow/Planner/Accepted.antt =====
-- The plan of a definition that the validation of workflow/validation.py accepts.
use deterministic_cognition.Prelude.{ℕ, String, ◌≡◌, refl, Bool, true, [], ok, contains}
use deterministic_cognition.Workflow.Definition.{
  ids_of, WorkflowNode, WorkflowDefinition, ExecutionPlan,
}
use deterministic_cognition.Workflow.Validation.{validate_workflow}
use deterministic_cognition.Workflow.Validation.Valid.{check, validate_workflow_lem}
use deterministic_cognition.Workflow.Planner.{
  build_execution_plan, dependency_snapshot_of, planner_version,
}
use deterministic_cognition.Workflow.Planner.Stages.{Behind}
use deterministic_cognition.Workflow.Planner.Planned.{edges_of, stages_of-Behind}

-- For a definition that validate_workflow accepts, build_execution_plan of it and of the result of the
-- validation returns a plan, and in its stages every node stands behind those that it depends on.
pub build_execution_plan-accepted :
    (negative_backoff : WorkflowNode → Bool) (show_backoff : WorkflowNode → String)
    (loads : String → Bool) (repr : String → String) (plan_id : String → ℕ → String → String)
    (now : String) (d : WorkflowDefinition)
    → check negative_backoff show_backoff loads repr d ≡ true
    → (plan : ExecutionPlan) × (build_execution_plan plan_id now d
          (validate_workflow negative_backoff show_backoff loads repr d).valid
          (validate_workflow negative_backoff show_backoff loads repr d).errors
        ≡ ok plan)
      × Behind (edges_of d.nodes []) (λ n. contains n (ids_of d.nodes)) plan.stages
unfolding build_execution_plan
build_execution_plan-accepted negative_backoff show_backoff loads repr plan_id now d h =
    let valid = (validate_workflow_lem negative_backoff show_backoff loads repr d).0 h in
    let (stages, p, b) = stages_of-Behind d.nodes valid.known in
    (
      record {
        workflow_id = d.workflow_id;
        plan_id = plan_id d.workflow_id d.version planner_version;
        version = d.version;
        stages = stages;
        dependency_snapshot = dependency_snapshot_of d.nodes [];
        generated_at = now;
        planner_version = planner_version;
      },
      rw (h, p) refl,
      b,
    )
