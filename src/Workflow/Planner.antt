-- ===== src/Workflow/Planner.antt =====
-- workflow/planner.py: the stages of an execution plan, by Kahn's algorithm. The hash and the clock
-- are parameters.
pub mod Degrees
pub mod Stages
pub mod Planned
pub mod Accepted
use deterministic_cognition.Prelude.{
  ℕ, zero, suc, String, Bool, true, false, ◌&&◌, ◌||◌, none, some, List, [], ◌∷◌, ◌++◌, ℤ, pos,
  ltb_ℤ, Dict, get, get_or, put, keys, contains, str_leb, sorted, length, keep, all, gather,
  if◌then◌else◌, Result, ok, err, ◌>>=◌, not, succ_ℤ, pred_ℤ, is_zero, remove,
}
use deterministic_cognition.Workflow.Definition.{
  WorkflowNode, WorkflowDefinition, ExecutionStage, ExecutionPlan,
}

-- `too_many_rounds` is the end of the fuel of the `while True` loop.
pub data PlanError : Type 0 where
  invalid_workflow : String → List String → PlanError
  key_error : String → PlanError
  too_many_rounds : PlanError

pub record Graph : Type 0 where
  pub adj : Dict (List String)
  pub in_degree : Dict ℤ

-- `{n.node_id: n for n in definition.nodes}`
unfoldable pub node_map : List WorkflowNode → Dict WorkflowNode → Dict WorkflowNode
node_map [] m = m
node_map (n ∷ nodes) m = node_map nodes (put n.node_id n m)

-- `{nid: value for nid in node_map}`
abbrev pub dict_of {ℓ} : {V : Type ℓ} → List String → V → Dict V
dict_of [] v = []
dict_of (k ∷ ks) v = (k, v) ∷ dict_of ks v

-- `d[k]`
abbrev pub lookup : {V : Type 0} → String → Dict V → Result PlanError V
lookup k d = elim (get k d) [ none ↦ err (key_error k) | some v ↦ ok v ]

unfoldable pub add_edge : String → String → Graph → Result PlanError Graph
add_edge nid dep g = lookup dep g.adj >>= λ ns. lookup nid g.in_degree >>= λ deg.
    ok (record {
      adj = put dep (ns ++ nid ∷ []) g.adj;
      in_degree = put nid (succ_ℤ deg) g.in_degree;
    })

unfoldable pub add_node_edges : String → List String → Graph → Result PlanError Graph
unfolding add_edge
add_node_edges nid [] g = ok g
add_node_edges nid (dep ∷ deps) g = add_edge nid dep g >>= add_node_edges nid deps

unfoldable pub add_edges : List WorkflowNode → Graph → Result PlanError Graph
add_edges [] g = ok g
add_edges (n ∷ nodes) g = add_node_edges n.node_id n.dependency_ids g >>= add_edges nodes

-- `[nid for nid, deg in remaining.items() if deg == 0]`
unfoldable pub zero_degree : Dict ℤ → List String
zero_degree [] = []
zero_degree ((k, deg) ∷ d) = let rest = zero_degree d in if is_zero deg then k ∷ rest else rest

-- `(priority, nid)` of one node is at most that of the other
-- `node_map[nid].priority`, where every id that is sorted is a key of the map
unfoldable pub priority_of : Dict WorkflowNode → String → ℤ
priority_of m nid = elim (get nid m) [ none ↦ pos 0 | some n ↦ n.priority ]

unfoldable pub comes_first : Dict WorkflowNode → String → String → Bool
unfolding priority_of
comes_first m x y =
    ltb_ℤ (priority_of m x) (priority_of m y)
    || not (ltb_ℤ (priority_of m y) (priority_of m x)) && str_leb x y

unfoldable pub insort_by : Dict WorkflowNode → String → List String → List String
insort_by m x [] = x ∷ []
insort_by m x (y ∷ ys) =
    let rest = insort_by m x ys in if comes_first m x y then x ∷ y ∷ ys else y ∷ rest

unfoldable pub sort_stage : Dict WorkflowNode → List String → List String
unfolding insort_by
sort_stage m [] = []
sort_stage m (x ∷ xs) = insort_by m x (sort_stage m xs)

-- `remaining[neighbor] -= 1` for each neighbor
unfoldable pub decrement : List String → Dict ℤ → Result PlanError (Dict ℤ)
decrement [] remaining = ok remaining
decrement (n ∷ ns) remaining =
    lookup n remaining >>= λ deg. decrement ns (put n (pred_ℤ deg) remaining)

unfoldable pub take_nodes : Dict (List String) → List String → Dict ℤ → Result PlanError (Dict ℤ)
take_nodes adj [] remaining = ok remaining
take_nodes adj (nid ∷ ready) remaining =
    lookup nid adj >>= λ ns. decrement ns (remove nid remaining) >>= take_nodes adj ready

-- the `while True` loop
unfoldable pub build_stages :
    ℕ → Dict WorkflowNode → Dict (List String) → Dict ℤ → ℕ → Result PlanError (List ExecutionStage)
build_stages zero m adj remaining i = err too_many_rounds
build_stages (suc fuel) m adj remaining i = elim (sorted (zero_degree remaining)) [
  | [] ↦ ok []
  | x ∷ xs ↦ take_nodes adj (x ∷ xs) remaining >>= λ rest.
      build_stages fuel m adj rest (suc i) >>= λ stages.
      ok (record { stage_index = i; node_ids = sort_stage m (x ∷ xs) } ∷ stages)
]

unfoldable pub dependency_snapshot_of : List WorkflowNode → Dict (List String) → Dict (List String)
dependency_snapshot_of [] d = d
dependency_snapshot_of (n ∷ nodes) d =
    dependency_snapshot_of nodes (put n.node_id (sorted n.dependency_ids) d)

unfoldable pub stages_of : List WorkflowNode → Result PlanError (List ExecutionStage)
stages_of nodes =
    let m = node_map nodes [] in
    let g0 : Graph = record { adj = dict_of (keys m) []; in_degree = dict_of (keys m) (pos 0) } in
    add_edges nodes g0 >>= λ g. build_stages (suc (length g.in_degree)) m g.adj g.in_degree 0

abbrev pub planner_version : String
planner_version = "1.0.0"

-- `get_ready_nodes` and `get_blocked_nodes`
unfoldable pub waits_for_none : ExecutionPlan → List String → String → Bool
waits_for_none plan done nid =
    all (λ dep. contains dep done) (get_or nid plan.dependency_snapshot [])

unfoldable pub get_ready_nodes : ExecutionPlan → List String → List String
unfolding waits_for_none
get_ready_nodes plan done =
    gather
      (λ (s : ExecutionStage).
        keep (λ n. not (contains n done) && waits_for_none plan done n) s.node_ids)
      plan.stages

unfoldable pub get_blocked_nodes : ExecutionPlan → List String → List String
unfolding waits_for_none
get_blocked_nodes plan done =
    gather
      (λ (s : ExecutionStage).
        keep (λ n. not (contains n done) && not (waits_for_none plan done n)) s.node_ids)
      plan.stages

module _ (plan_id : String → ℕ → String → String) (now : String) where
  unfoldable pub build_execution_plan :
      WorkflowDefinition → Bool → List String → Result PlanError ExecutionPlan
  build_execution_plan d false errors = err (invalid_workflow d.workflow_id errors)
  build_execution_plan d true errors = stages_of d.nodes >>= λ stages. ok (record {
    workflow_id = d.workflow_id;
    plan_id = plan_id d.workflow_id d.version planner_version;
    version = d.version;
    stages = stages;
    dependency_snapshot = dependency_snapshot_of d.nodes [];
    generated_at = now;
    planner_version = planner_version;
  })
