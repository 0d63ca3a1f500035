-- ===== src/Session/Window.antt =====
-- session/context_window.py: the items of a session that fit its budgets.
pub mod Accounts
pub mod Tiers
pub mod Bounds
pub mod Examples
use deterministic_cognition.Prelude.{
  ℕ, suc, ◌+◌, ℤ, pos, negsuc, ltb_ℤ, leb, ltb, String, ◌==◌, Bool, true, false, ◌&&◌, List, [],
  ◌∷◌, ◌++◌, map, length, text_length, if◌then◌else◌,
}
use deterministic_cognition.Session.Models.{
  ContextActivationPolicy, ActivatedMemory, ActiveWorkflow, RuntimeSnapshot, Printer, render_memory,
  render_workflow, render_runtime,
}

pub record BudgetedContext : Type 0 where
  pub governance_context : List ActivatedMemory
  pub unresolved_items : List ActivatedMemory
  pub active_workflows : List ActiveWorkflow
  pub active_investigations : List ActivatedMemory
  pub relevant_memory : List ActivatedMemory
  pub execution_lineage : List ActiveWorkflow
  pub runtime_snapshots : List RuntimeSnapshot
  pub char_budget : ℤ
  pub chars_used : ℕ
  pub total_candidates : ℕ
  pub included_entries : ℕ
  pub truncated : Bool

unfoldable pub all_included_ids : BudgetedContext → List ℕ
all_included_ids c =
    let ids = map (λ (m : ActivatedMemory). m.memory_id) in
    ids c.governance_context
    ++ (ids c.unresolved_items ++ (ids c.active_investigations ++ ids c.relevant_memory))

-- `_char_count`
abbrev pub char_count : String → ℕ
char_count text = text_length text + 4

-- the variables that the nested functions of `apply_context_budget` change
pub record Usage : Type 0 where
  pub chars : ℕ
  pub entries : ℕ
  pub governance : ℕ
  pub investigation : ℕ
  pub rules : ℕ
  pub decisions : ℕ

abbrev pub unused : Usage
unused = record {
  chars = 0;
  entries = 0;
  governance = 0;
  investigation = 0;
  rules = 0;
  decisions = 0;
}

-- `n <= limit`, for a limit that may be negative
abbrev pub within : ℕ → ℤ → Bool
within n (pos k) = leb n k
within n (negsuc k) = false

abbrev pub is_positive : ℤ → Bool
is_positive limit = ltb_ℤ (pos 0) limit

-- `_sub_budget_mode`
abbrev pub sub_budget_mode : ContextActivationPolicy → Bool
sub_budget_mode policy =
    is_positive policy.max_governance_rule_chars
    && is_positive policy.max_architecture_decision_chars

-- `_fits`: the number of entries so far is below the limit, so one more is within it
unfoldable pub fits : ContextActivationPolicy → String → Usage → Bool
fits policy text u =
    within (u.chars + char_count text) policy.max_chars && within (suc u.entries) policy.max_entries

unfoldable pub accept : String → Usage → Usage
accept text u = record u { chars = u.chars + char_count text; entries = suc u.entries }

abbrev pub is_rule : String → Bool
is_rule event_type = event_type == "governance_rule"

unfoldable pub governance_fits : ContextActivationPolicy → String → String → Usage → Bool
unfolding fits
governance_fits policy text event_type u =
    fits policy text u
    && (if sub_budget_mode policy
        then if is_rule event_type
          then within (u.rules + char_count text) policy.max_governance_rule_chars
          else within (u.decisions + char_count text) policy.max_architecture_decision_chars
        else if is_positive policy.max_governance_chars
        then within (u.governance + char_count text) policy.max_governance_chars
        else true)

unfoldable pub accept_governance : ContextActivationPolicy → String → String → Usage → Usage
unfolding accept
accept_governance policy text event_type u =
    let n = char_count text in
    let charged : Usage = record u { governance = u.governance + n } in
    accept text (
      if sub_budget_mode policy
      then if is_rule event_type
        then record charged { rules = u.rules + n }
        else record charged { decisions = u.decisions + n }
      else charged)

unfoldable pub investigation_fits : ContextActivationPolicy → String → Usage → Bool
unfolding fits
investigation_fits policy text u =
    fits policy text u
    && (if is_positive policy.max_investigation_chars
        then within (u.investigation + char_count text) policy.max_investigation_chars
        else true)

unfoldable pub accept_investigation : String → Usage → Usage
unfolding accept
accept_investigation text u =
    accept text (record u { investigation = u.investigation + char_count text })

-- the loop over one tier: the items that it takes, and the usage after it
unfoldable pub fill {ℓ} :
    {A : Type ℓ} → (A → Usage → Bool) → (A → Usage → Usage) → List A → Usage → List A × Usage
fill test take [] u = ([], u)
fill test take (x ∷ xs) u =
    let taken = fill test take xs (take x u) in
    let skipped = fill test take xs u in if test x u then (x ∷ taken.0, taken.1) else skipped

-- the candidates of the seven tiers
pub record Candidates : Type 0 where
  pub governance_context : List ActivatedMemory
  pub unresolved_items : List ActivatedMemory
  pub active_workflows : List ActiveWorkflow
  pub active_investigations : List ActivatedMemory
  pub relevant_memory : List ActivatedMemory
  pub execution_lineage : List ActiveWorkflow
  pub runtime_snapshots : List RuntimeSnapshot

-- a tier with no budget of its own
abbrev pub fill_plain {ℓ} :
    {A : Type ℓ} → ContextActivationPolicy → (A → String) → List A → Usage → List A × Usage
fill_plain policy render = fill (λ x u. fits policy (render x) u) (λ x u. accept (render x) u)

module _ (p : Printer) (policy : ContextActivationPolicy) where
  abbrev pub fill_governance : List ActivatedMemory → Usage → List ActivatedMemory × Usage
  fill_governance =
      fill (λ m u. governance_fits policy (render_memory p m) m.event_type u)
        (λ m u. accept_governance policy (render_memory p m) m.event_type u)

  abbrev pub fill_investigations : List ActivatedMemory → Usage → List ActivatedMemory × Usage
  fill_investigations =
      fill (λ m u. investigation_fits policy (render_memory p m) u)
        (λ m u. accept_investigation (render_memory p m) u)

  unfoldable pub apply_context_budget : Candidates → BudgetedContext
  apply_context_budget c =
      let (gov, u1) = fill_governance c.governance_context unused in
      let (unres, u2) = fill_plain policy (render_memory p) c.unresolved_items u1 in
      let (wf, u3) = fill_plain policy (render_workflow p) c.active_workflows u2 in
      let (inv, u4) = fill_investigations c.active_investigations u3 in
      let (mem, u5) = fill_plain policy (render_memory p) c.relevant_memory u4 in
      let (lin, u6) = fill_plain policy (render_workflow p) c.execution_lineage u5 in
      let (rt, u7) = fill_plain policy render_runtime c.runtime_snapshots u6 in
      let total =
        length c.governance_context
        + length c.unresolved_items
        + length c.active_workflows
        + length c.active_investigations
        + length c.relevant_memory
        + length c.execution_lineage
        + length c.runtime_snapshots in
      let included =
        length gov + length unres + length wf + length inv + length mem + length lin + length rt in
      record {
        governance_context = gov;
        unresolved_items = unres;
        active_workflows = wf;
        active_investigations = inv;
        relevant_memory = mem;
        execution_lineage = lin;
        runtime_snapshots = rt;
        char_budget = policy.max_chars;
        chars_used = u7.chars;
        total_candidates = total;
        included_entries = included;
        truncated = ltb included total;
      }
