-- ===== src/Workflow/Definition.antt =====
-- workflow/models.py: workflow definitions and execution plans.
use deterministic_cognition.Prelude.{
  ℕ, ℤ, String, List, Dict, gather, map, contains, All, ◌≡◌, true,
}

-- `backoff_seconds` is a float that is only compared with 0; it is left out.
pub record RetryPolicy : Type 0 where
  pub max_attempts : ℤ

pub record WorkflowNode : Type 0 where
  pub node_id : String
  pub task_type : String
  pub task_payload_json : String
  pub dependency_ids : List String
  pub priority : ℤ
  pub tags : List String
  pub retry_policy : RetryPolicy
  pub governance_requirements : List String

pub record WorkflowEdge : Type 0 where
  pub from_node_id : String
  pub to_node_id : String

pub record WorkflowDefinition : Type 0 where
  pub workflow_id : String
  pub name : String
  pub version : ℕ
  pub nodes : List WorkflowNode
  pub edges : List WorkflowEdge
  pub metadata_json : String
  pub created_at : String
  pub topology_hash : String

pub record ExecutionStage : Type 0 where
  pub stage_index : ℕ
  pub node_ids : List String

pub record ExecutionPlan : Type 0 where
  pub workflow_id : String
  pub plan_id : String
  pub version : ℕ
  pub stages : List ExecutionStage
  pub dependency_snapshot : Dict (List String)
  pub generated_at : String
  pub planner_version : String

-- `[n for stage in plan.stages for n in stage.node_ids]`
abbrev pub all_node_ids : ExecutionPlan → List String
all_node_ids plan = gather (λ (s : ExecutionStage). s.node_ids) plan.stages

-- `[n.node_id for n in nodes]`
abbrev pub ids_of : List WorkflowNode → List String
ids_of nodes = map (λ (n : WorkflowNode). n.node_id) nodes

-- Every dependency in a list is one of the ids.
abbrev pub Known : List String → List String → Type 0
Known ids deps = All (λ dep. contains dep ids ≡ true) deps
