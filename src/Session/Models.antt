-- ===== src/Session/Models.antt =====
-- session/models.py: the policy, and the items of a session with the texts that they print. What
-- Python's `str.upper` and `repr` of a list or a dict give is a parameter.
use deterministic_cognition.Prelude.{
  ℕ, ℤ, String, ◌⧺◌, Bool, true, false, Option, none, some, List, [], ◌∷◌, ◌++◌, map, Dict, show,
  show_ℤ, join, text_take,
}

-- the fields of `ContextActivationPolicy` that the window, the ranks and the sections read
pub record ContextActivationPolicy : Type 0 where
  pub tags : List String
  pub min_confidence : ℤ
  pub include_unresolved : Bool
  pub include_investigations : Bool
  pub include_adaptations : Bool
  pub expand_related : Bool
  pub max_memory_candidates : ℤ
  pub max_chars : ℤ
  pub max_entries : ℤ
  pub max_governance_chars : ℤ
  pub max_investigation_chars : ℤ
  pub max_governance_rule_chars : ℤ
  pub max_architecture_decision_chars : ℤ

pub record ActivatedMemory : Type 0 where
  pub memory_id : ℕ
  pub event_type : String
  pub title : String
  pub summary : String
  pub evidence : Option String
  pub confidence : ℤ
  pub status : String
  pub tags : List String
  pub source : String
  pub related_ids : List ℕ
  pub created_at : String
  pub updated_at : String
  pub is_expanded : Bool
  pub tag_overlap : ℕ
  pub activation_rank : List ℤ
  pub contradiction_ids : List ℕ

pub record ActiveWorkflow : Type 0 where
  pub execution_id : String
  pub workflow_id : String
  pub plan_id : String
  pub state : String
  pub active_stage_index : ℕ
  pub completed_node_ids : List String
  pub failed_node_ids : List String
  pub node_attempts : Dict ℕ
  pub total_lineage_events : ℕ
  pub updated_at : String

-- a row of the lineage of a runtime, as the dict of its `to_dict`
pub record RecentTransition : Type 0 where
  pub old_state : Option String
  pub new_state : String
  pub reason : String

pub record RuntimeSnapshot : Type 0 where
  pub runtime_id : ℕ
  pub name : String
  pub state : String
  pub current_iteration : ℕ
  pub updated_at : String
  pub recent_transitions : List RecentTransition

-- `if xs:` with a line for a list that is not empty
abbrev line_if {ℓ} : {A : Type ℓ} → List A → String → List String
line_if [] line = []
line_if (_ ∷ _) line = line ∷ []

-- `if s:` for a text that may be `None` or empty
abbrev evidence_line : Option String → List String
evidence_line none = []
evidence_line (some String.[]) = []
evidence_line (some (String.◌∷◌ c s)) = ("  Evidence: " ⧺ String.◌∷◌ c s) ∷ []

abbrev flag_line : Bool → String → List String
flag_line true line = line ∷ []
flag_line false line = []

abbrev or_none : Option String → String
or_none none = "None"
or_none (some s) = s

-- `upper`, and the printed forms of lists and dicts
pub record Printer : Type 0 where
  pub upper : String → String
  pub ids : List ℕ → String
  pub texts : List String → String
  pub attempts : Dict ℕ → String

module _ (p : Printer) where
  unfoldable pub render_memory : ActivatedMemory → String
  render_memory m = join "\n" (
      ("[mem:"
        ⧺ show m.memory_id
        ⧺ "] "
        ⧺ p.upper m.event_type
        ⧺ " | confidence="
        ⧺ show_ℤ m.confidence
        ⧺ " | status="
        ⧺ m.status)
      ∷ ("  Title   : " ⧺ m.title)
      ∷ ("  Summary : " ⧺ m.summary)
      ∷ (evidence_line m.evidence
          ++ (line_if m.tags ("  Tags    : " ⧺ join ", " m.tags)
              ++ (line_if m.related_ids ("  Related : " ⧺ p.ids m.related_ids)
                  ++ (line_if m.contradiction_ids (
                        "  Conflicts: "
                        ⧺ join ", " (map (λ id. "[mem:" ⧺ show id ⧺ "]") m.contradiction_ids))
                      ++ flag_line m.is_expanded "  [related-expanded]")))))

  unfoldable pub render_workflow : ActiveWorkflow → String
  render_workflow w = join "\n" (
      ("[wf:" ⧺ text_take 16 w.execution_id ⧺ "] " ⧺ w.workflow_id ⧺ " | state=" ⧺ w.state)
      ∷ ("  plan_id         : " ⧺ text_take 16 w.plan_id)
      ∷ ("  active_stage    : " ⧺ show w.active_stage_index)
      ∷ ("  completed_nodes : " ⧺ p.texts w.completed_node_ids)
      ∷ ("  failed_nodes    : " ⧺ p.texts w.failed_node_ids)
      ∷ ("  lineage_events  : " ⧺ show w.total_lineage_events)
      ∷ ("  updated_at      : " ⧺ w.updated_at)
      ∷ line_if w.node_attempts ("  node_attempts   : " ⧺ p.attempts w.node_attempts))

unfoldable pub render_runtime : RuntimeSnapshot → String
render_runtime r = join "\n" (
    ("[rt:" ⧺ show r.runtime_id ⧺ "] " ⧺ r.name ⧺ " | state=" ⧺ r.state)
    ∷ ("  iteration  : " ⧺ show r.current_iteration)
    ∷ ("  updated_at : " ⧺ r.updated_at)
    ∷ map
        (λ (t : RecentTransition).
          "  → " ⧺ or_none t.old_state ⧺ " → " ⧺ t.new_state ⧺ "  (" ⧺ t.reason ⧺ ")")
        r.recent_transitions)
