-- ===== src/Workflow/Validation.antt =====
-- workflow/validation.py: the errors of a workflow definition, as the texts that the code builds.
-- `json.loads`, the back-off (a float that is compared with 0 and printed) and the `repr` of a text
-- are parameters.
pub mod Graph
pub mod Silent
pub mod Valid
pub mod Examples
use deterministic_cognition.Prelude.{
  ℕ, String, ◌⧺◌, Bool, true, false, not, ◌&&◌, ◌||◌, Option, none, some, List, [], ◌∷◌, ◌++◌, map,
  ℤ, pos, ltb_ℤ, show_ℤ, contains, contains_text, sorted, length, any, gather, leb, if◌then◌else◌,
  is_blank,
}
use deterministic_cognition.Workflow.Definition.{WorkflowNode, WorkflowDefinition}
use Graph.{detect_cycles, components}

pub record ValidationResult : Type 0 where
  pub valid : Bool
  pub errors : List String

-- what is not a text in a message: "[" and "]" around the printed elements
unfoldable pub show_list : List String → String
show_list [] = ""
show_list (x ∷ []) = x
show_list (x ∷ y ∷ xs) = x ⧺ ", " ⧺ show_list (y ∷ xs)

-- 1. the loop over `node_ids` with the set `seen`
unfoldable pub duplicate_errors : List String → List String → List String
duplicate_errors seen [] = []
duplicate_errors seen (nid ∷ ids) =
    let rest = duplicate_errors (nid ∷ seen) ids in
    if contains nid seen then ("Duplicate node_id: '" ⧺ nid ⧺ "'") ∷ rest else rest

abbrev pub error_if : Bool → String → List String
error_if true e = e ∷ []
error_if false e = []

-- 2.
unfoldable pub empty_errors : WorkflowNode → List String
empty_errors n =
    error_if (is_blank n.node_id) "Node has empty node_id"
    ++ error_if (is_blank n.task_type) ("Node '" ⧺ n.node_id ⧺ "' has empty task_type")

-- 3. for the dependencies of one node
unfoldable pub missing_errors : List String → String → List String → List String
missing_errors ids nid [] = []
missing_errors ids nid (dep ∷ deps) =
    error_if (not (contains dep ids)) ("Node '" ⧺ nid ⧺ "' depends on unknown node '" ⧺ dep ⧺ "'")
    ++ missing_errors ids nid deps

module _ (negative_backoff : WorkflowNode → Bool) (show_backoff : WorkflowNode → String)
    (loads : String → Bool) (repr : String → String) where
  -- 4.
  unfoldable pub retry_errors : WorkflowNode → List String
  retry_errors n =
      error_if (ltb_ℤ n.retry_policy.max_attempts (pos 1)) (
        "Node '"
        ⧺ n.node_id
        ⧺ "' retry_policy.max_attempts must be >= 1, got "
        ⧺ show_ℤ n.retry_policy.max_attempts)
      ++ error_if (negative_backoff n) (
          "Node '"
          ⧺ n.node_id
          ⧺ "' retry_policy.backoff_seconds must be >= 0, got "
          ⧺ show_backoff n)

  -- 5.
  unfoldable pub payload_errors : WorkflowNode → List String
  payload_errors n =
      error_if (not (loads n.task_payload_json))
        ("Node '" ⧺ n.node_id ⧺ "' has invalid task_payload_json")

  -- 1. to 5.
  unfoldable pub node_errors : List WorkflowNode → List String
  node_errors nodes =
      let ids = map (λ (n : WorkflowNode). n.node_id) nodes in
      duplicate_errors [] ids
      ++ gather empty_errors nodes
      ++ gather (λ (n : WorkflowNode). missing_errors ids n.node_id n.dependency_ids) nodes
      ++ gather retry_errors nodes
      ++ gather payload_errors nodes

  unfoldable pub cycle_errors : Option (List String) → List String
  cycle_errors none = []
  cycle_errors (some ids) =
      ("Circular dependency detected involving nodes: [" ⧺ show_list (map repr ids) ⧺ "]") ∷ []

  unfoldable pub disconnected_errors : List (List String) → List String
  disconnected_errors [] = []
  disconnected_errors (c ∷ []) = []
  disconnected_errors (c ∷ d ∷ cs) =
      ("Workflow graph is disconnected: components ["
        ⧺ show_list (map (λ v. "[" ⧺ show_list (map repr v) ⧺ "]") (c ∷ d ∷ cs))
        ⧺ "]")
      ∷ []

  unfoldable pub graph_errors : List WorkflowNode → List String → List String
  graph_errors nodes errors =
      (if any (contains_text "unknown node") errors then [] else cycle_errors (detect_cycles nodes))
      ++ (if leb (length nodes) 1 then [] else disconnected_errors (components nodes))

  abbrev pub result_of : List String → ValidationResult
  result_of [] = record { valid = true; errors = [] }
  result_of (e ∷ es) = record { valid = false; errors = e ∷ es }

  unfoldable pub validate_workflow : WorkflowDefinition → ValidationResult
  validate_workflow d =
      let errors = node_errors d.nodes in result_of (sorted (errors ++ graph_errors d.nodes errors))
