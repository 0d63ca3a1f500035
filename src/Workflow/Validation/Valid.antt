-- ===== src/Workflow/Validation/Valid.antt =====
-- `validate_workflow` of workflow/validation.py: what a definition satisfies that it accepts.
use deterministic_cognition.Prelude.{
  ◌≤◌, String, ◌≡◌, refl, Bool, true, false, ◌⊎◌, inl, inr, none, List, [], ◌∷◌, ◌++◌, pos, ltb_ℤ,
  sorted, length, gather, leb, All, Nodup, append-eq-nil, Bool-cases, arith, ◌↔◌,
}
use deterministic_cognition.Workflow.Definition.{ids_of, Known, WorkflowNode, WorkflowDefinition}
use deterministic_cognition.Workflow.Validation.{
  duplicate_errors, empty_errors, missing_errors, retry_errors, payload_errors, node_errors,
  cycle_errors, disconnected_errors, graph_errors, result_of, validate_workflow,
}
use deterministic_cognition.Workflow.Validation.Graph.{detect_cycles, components}
use deterministic_cognition.Workflow.Validation.Silent.{
  Named, sorted-eq-nil, gather-eq-nil, gather-nil, duplicate_errors-eq-nil, duplicate_errors-nil,
  missing_errors-eq-nil, missing_errors-nil, empty_errors-eq-nil, empty_errors-nil, five-eq-nil,
  Apart-nil,
}

module _ (negative_backoff : WorkflowNode → Bool) (show_backoff : WorkflowNode → String)
    (loads : String → Bool) (repr : String → String) where
  abbrev pub check : WorkflowDefinition → Bool
  check d = (validate_workflow negative_backoff show_backoff loads repr d).valid

  abbrev Retries : WorkflowNode → Type 0
  Retries n = (ltb_ℤ n.retry_policy.max_attempts (pos 1) ≡ false) × (negative_backoff n ≡ false)

  abbrev Loads : WorkflowNode → Type 0
  Loads n = loads n.task_payload_json ≡ true

  -- The conditions of the seven validators.
  pub record IsValid (nodes : List WorkflowNode) : Type 0 where
    pub distinct : Nodup (ids_of nodes)
    pub named : All Named nodes
    pub known : All (λ (n : WorkflowNode). Known (ids_of nodes) n.dependency_ids) nodes
    pub retries : All Retries nodes
    pub payloads : All Loads nodes
    pub acyclic : detect_cycles nodes ≡ none
    pub connected : (length nodes ≤ 1) ⊎ (length (components nodes) ≤ 1)

  retry_errors-eq-nil :
      (n : WorkflowNode) → retry_errors negative_backoff show_backoff loads repr n ≡ [] → Retries n
  unfolding retry_errors
  retry_errors-eq-nil n h = ground arith

  payload_errors-eq-nil :
      (n : WorkflowNode) → payload_errors negative_backoff show_backoff loads repr n ≡ [] → Loads n
  unfolding payload_errors
  payload_errors-eq-nil n h = ground arith

  cycle_errors-eq-nil :
      (nodes : List WorkflowNode)
      → cycle_errors negative_backoff show_backoff loads repr (detect_cycles nodes) ≡ []
      → detect_cycles nodes ≡ none
  unfolding cycle_errors
  cycle_errors-eq-nil nodes h = ground arith

  disconnected_errors-eq-nil :
      (cs : List (List String))
      → disconnected_errors negative_backoff show_backoff loads repr cs ≡ []
      → length cs ≤ 1
  unfolding disconnected_errors
  disconnected_errors-eq-nil [] h = omega arith
  disconnected_errors-eq-nil (c ∷ []) h = omega arith
  disconnected_errors-eq-nil (c ∷ d ∷ cs) h = absurd (ground arith)

  disconnected_errors-nil :
      (cs : List (List String))
      → length cs ≤ 1
      → disconnected_errors negative_backoff show_backoff loads repr cs ≡ []
  unfolding disconnected_errors
  disconnected_errors-nil [] h = refl
  disconnected_errors-nil (c ∷ []) h = refl
  disconnected_errors-nil (c ∷ d ∷ cs) h = absurd (omega (arith, h))

  abbrev faults : List WorkflowNode → List String
  faults nodes = node_errors negative_backoff show_backoff loads repr nodes

  graph_faults : List WorkflowNode → List String → List String
  graph_faults nodes es = graph_errors negative_backoff show_backoff loads repr nodes es

  faulty_dependencies : List WorkflowNode → List String
  faulty_dependencies nodes =
      gather (λ (n : WorkflowNode). missing_errors (ids_of nodes) n.node_id n.dependency_ids) nodes

  retry_faults : List WorkflowNode → List String
  retry_faults nodes = gather (retry_errors negative_backoff show_backoff loads repr) nodes

  payload_faults : List WorkflowNode → List String
  payload_faults nodes = gather (payload_errors negative_backoff show_backoff loads repr) nodes

  connected-IsValid :
      (nodes : List WorkflowNode)
      → graph_faults nodes [] ≡ []
      → (detect_cycles nodes ≡ none) × ((length nodes ≤ 1) ⊎ (length (components nodes) ≤ 1))
  unfolding graph_errors graph_faults
  connected-IsValid nodes h = elim (Bool-cases (leb (length nodes) 1)) [
    | inl few ↦ (cycle_errors-eq-nil nodes (ground (arith, few, h)), inl (ground (arith, few)))
    | inr many ↦
        let (p, q) =
          append-eq-nil
            (cycle_errors negative_backoff show_backoff loads repr (detect_cycles nodes))
            (disconnected_errors negative_backoff show_backoff loads repr (components nodes))
            (ground (arith, many, h)) in
        (cycle_errors-eq-nil nodes p, inr (disconnected_errors-eq-nil (components nodes) q))
  ]

  IsValid-graph_faults : (nodes : List WorkflowNode) → IsValid nodes → graph_faults nodes [] ≡ []
  unfolding graph_errors graph_faults cycle_errors
  IsValid-graph_faults nodes v =
      ground (arith, v.acyclic, v.connected, disconnected_errors-nil (components nodes))

  errors-IsValid :
      (nodes : List WorkflowNode) → faults nodes ≡ [] → graph_faults nodes [] ≡ [] → IsValid nodes
  unfolding node_errors faulty_dependencies retry_faults payload_faults
  errors-IsValid nodes h k =
      let ids = ids_of nodes in
      let (p1, p2, p3, p4, p5) =
        five-eq-nil (duplicate_errors [] ids) (gather empty_errors nodes)
          (faulty_dependencies nodes) (retry_faults nodes) (payload_faults nodes) h in
      let (acyclic, connected) = connected-IsValid nodes k in
      record {
        distinct = (duplicate_errors-eq-nil [] ids p1).0;
        named = gather-eq-nil empty_errors Named empty_errors-eq-nil nodes p2;
        known =
            gather-eq-nil (λ (n : WorkflowNode). missing_errors ids n.node_id n.dependency_ids)
              (λ (n : WorkflowNode). Known ids n.dependency_ids)
              (λ n. missing_errors-eq-nil ids n.node_id n.dependency_ids) nodes p3;
        retries =
            gather-eq-nil (retry_errors negative_backoff show_backoff loads repr) Retries
              retry_errors-eq-nil nodes p4;
        payloads =
            gather-eq-nil (payload_errors negative_backoff show_backoff loads repr) Loads
              payload_errors-eq-nil nodes p5;
        acyclic = acyclic;
        connected = connected;
      }

  retry_errors-nil :
      (n : WorkflowNode) → Retries n → retry_errors negative_backoff show_backoff loads repr n ≡ []
  unfolding retry_errors
  retry_errors-nil n h = ground arith

  payload_errors-nil :
      (n : WorkflowNode) → Loads n → payload_errors negative_backoff show_backoff loads repr n ≡ []
  unfolding payload_errors
  payload_errors-nil n h = ground arith

  IsValid-faults : (nodes : List WorkflowNode) → IsValid nodes → faults nodes ≡ []
  unfolding node_errors
  IsValid-faults nodes v =
      let ids = ids_of nodes in
      rw
        (
          duplicate_errors-nil [] ids v.distinct (Apart-nil ids),
          gather-nil empty_errors Named empty_errors-nil nodes v.named,
          gather-nil (λ (n : WorkflowNode). missing_errors ids n.node_id n.dependency_ids)
              (λ (n : WorkflowNode). Known ids n.dependency_ids)
              (λ n. missing_errors-nil ids n.node_id n.dependency_ids) nodes v.known,
          gather-nil (retry_errors negative_backoff show_backoff loads repr) Retries
              retry_errors-nil nodes v.retries,
          gather-nil (payload_errors negative_backoff show_backoff loads repr) Loads
              payload_errors-nil nodes v.payloads,
        )
        refl

  result_of-valid :
      (es : List String)
      → (result_of negative_backoff show_backoff loads repr es).valid ≡ true
      → es ≡ []
  result_of-valid [] h = refl
  result_of-valid (e ∷ es) h = absurd (ground arith)

  nil-result :
      (nodes : List WorkflowNode) (es : List String)
      → es ≡ []
      → graph_faults nodes [] ≡ []
      → (result_of negative_backoff show_backoff loads repr
          (sorted (es ++ graph_faults nodes es))).valid
        ≡ true
  unfolding sorted
  nil-result nodes [] h k = rw k refl
  nil-result nodes (e ∷ es) h k = absurd (ground (arith, h))

  -- validate_workflow accepts exactly the definitions whose ids are distinct, ids and task types not
  -- blank, dependencies known, retry policies and payloads sound, in which detect_cycles finds nothing
  -- and which have at most one node or one component.
  pub validate_workflow_lem : (d : WorkflowDefinition) → check d ≡ true ↔ IsValid d.nodes
  unfolding validate_workflow graph_faults
  validate_workflow_lem d = (
    λ h.
        let es = faults d.nodes in
        let (p, q) = append-eq-nil es (graph_faults d.nodes es) (
          sorted-eq-nil (es ++ graph_faults d.nodes es)
            (result_of-valid (sorted (es ++ graph_faults d.nodes es)) h)) in
        errors-IsValid d.nodes p (ground (arith, p, q)),
    λ v.
        nil-result d.nodes (faults d.nodes) (IsValid-faults d.nodes v)
          (IsValid-graph_faults d.nodes v),
  )
