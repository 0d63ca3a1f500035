-- ===== src/Session/Window/Examples.antt =====
-- A context with a small budget: tests, and the theorems about the window at work.
use deterministic_cognition.Prelude.{
  ℕ, String, ◌≡◌, refl, true, false, none, [], ◌∷◌, pos, ◌↔◌, show, show_ℤ, join, text_length,
}
use deterministic_cognition.Session.Models.{
  ContextActivationPolicy, ActivatedMemory, Printer, render_memory,
}
use deterministic_cognition.Session.Window.{
  Candidates, apply_context_budget, all_included_ids, fill, governance_fits, accept_governance,
  investigation_fits, accept_investigation,
}
use deterministic_cognition.Session.Window.Bounds.{
  IsWithinBudgets, apply_context_budget-IsWithinBudgets, IsSelection, IsWhole,
  apply_context_budget-IsSelection,
}

abbrev printer : Printer
printer = record { upper = λ s. s; ids = λ _. "[]"; texts = λ _. "[]"; attempts = λ _. "{}" }

abbrev policy : ContextActivationPolicy
policy = record {
  tags = [];
  min_confidence = pos 1;
  include_unresolved = true;
  include_investigations = true;
  include_adaptations = true;
  expand_related = true;
  max_memory_candidates = pos 50;
  max_chars = pos 200;
  max_entries = pos 2;
  max_governance_chars = pos 100;
  max_investigation_chars = pos 0;
  max_governance_rule_chars = pos 90;
  max_architecture_decision_chars = pos 90;
}

abbrev memory : ℕ → String → ActivatedMemory
memory id kind = record {
  memory_id = id;
  event_type = kind;
  title = "t";
  summary = "s";
  evidence = none;
  confidence = pos 3;
  status = "active";
  tags = [];
  source = "";
  related_ids = [];
  created_at = "";
  updated_at = "";
  is_expanded = false;
  tag_overlap = 0;
  activation_rank = [];
  contradiction_ids = [];
}

abbrev candidates : Candidates
candidates = record {
  governance_context = memory 1 "governance_rule" ∷ memory 2 "governance_rule" ∷ [];
  unresolved_items = memory 3 "hypothesis" ∷ [];
  active_workflows = [];
  active_investigations = memory 4 "hypothesis" ∷ [];
  relevant_memory = [];
  execution_lineage = [];
  runtime_snapshots = [];
}

-- The second rule is over the budget of the rules, and the investigation over that of the entries.
included : all_included_ids (apply_context_budget printer policy candidates) ≡ 1 ∷ 3 ∷ []
unfolding apply_context_budget all_included_ids fill governance_fits accept_governance
    investigation_fits accept_investigation render_memory join show show_ℤ text_length
included = refl

apply_context_budget-IsWithinBudgets_example :
    IsWithinBudgets printer policy (apply_context_budget printer policy candidates)
apply_context_budget-IsWithinBudgets_example =
    apply_context_budget-IsWithinBudgets printer policy candidates

apply_context_budget-IsSelection_example :
    IsSelection printer policy candidates (apply_context_budget printer policy candidates)
    × ((apply_context_budget printer policy candidates).truncated ≡ false
        ↔ IsWhole printer policy candidates (apply_context_budget printer policy candidates))
apply_context_budget-IsSelection_example =
    apply_context_budget-IsSelection printer policy candidates
