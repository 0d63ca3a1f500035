-- ===== src/Session/Window/Bounds.antt =====
-- The budgets of session/context_window.py: what is included stays within each of them, in the order
-- of the candidates, and the accounts of the result are those of what is included.
use deterministic_cognition.Prelude.{
  ℕ, ◌+◌, ◌≤◌, ◌≡◌, refl, true, false, ◌⊎◌, inr, length, arith, ◌∙◌, subst, ap, ◌↔◌,
}
use deterministic_cognition.Session.Models.{
  ContextActivationPolicy, ActivatedMemory, ActiveWorkflow, RuntimeSnapshot, Printer, render_memory,
  render_workflow, render_runtime,
}
use deterministic_cognition.Session.Window.{
  BudgetedContext, Candidates, Usage, unused, char_count, is_positive, sub_budget_mode,
  fill_governance, fill_investigations, fill_plain, apply_context_budget,
}
use deterministic_cognition.Session.Window.Accounts.{
  Subsequence, length-Subsequence, Subsequence-full, total, fill-Subsequence,
}
use deterministic_cognition.Session.Window.Tiers

module _ (p : Printer) (policy : ContextActivationPolicy) where
  abbrev pub memory_cost : ActivatedMemory → ℕ
  memory_cost m = char_count (render_memory p m)

  abbrev pub workflow_cost : ActiveWorkflow → ℕ
  workflow_cost w = char_count (render_workflow p w)

  abbrev pub runtime_cost : RuntimeSnapshot → ℕ
  runtime_cost r = char_count (render_runtime r)

  -- The characters of all that a context includes, four for each separator.
  abbrev pub total_cost : BudgetedContext → ℕ
  total_cost r =
      total memory_cost r.governance_context
      + total memory_cost r.unresolved_items
      + total workflow_cost r.active_workflows
      + total memory_cost r.active_investigations
      + total memory_cost r.relevant_memory
      + total workflow_cost r.execution_lineage
      + total runtime_cost r.runtime_snapshots

  -- Every limit that is in force is kept: an overall one by the accounts, one of a tier by its items.
  pub record IsWithinBudgets (r : BudgetedContext) : Type 0 where
    pub chars : Tiers.WithinOrNone r.chars_used policy.max_chars
    pub entries : Tiers.WithinOrNone r.included_entries policy.max_entries
    pub spent : r.chars_used ≡ total_cost r
    pub governance :
        (sub_budget_mode policy ≡ true)
        ⊎ (is_positive policy.max_governance_chars ≡ false)
        ⊎ Tiers.WithinOrNone (total memory_cost r.governance_context) policy.max_governance_chars
    pub rules :
        (sub_budget_mode policy ≡ false)
        ⊎ Tiers.WithinOrNone
            (total (Tiers.rule_cost p policy) r.governance_context)
            policy.max_governance_rule_chars
    pub decisions :
        (sub_budget_mode policy ≡ false)
        ⊎ Tiers.WithinOrNone
            (total (Tiers.decision_cost p policy) r.governance_context)
            policy.max_architecture_decision_chars
    pub investigation :
        (is_positive policy.max_investigation_chars ≡ false)
        ⊎ Tiers.WithinOrNone
            (total memory_cost r.active_investigations)
            policy.max_investigation_chars

  -- What is included are candidates of the same tier in their order.
  pub record IsSelection (c : Candidates) (r : BudgetedContext) : Type 0 where
    pub governance : Subsequence r.governance_context c.governance_context
    pub unresolved : Subsequence r.unresolved_items c.unresolved_items
    pub workflows : Subsequence r.active_workflows c.active_workflows
    pub investigations : Subsequence r.active_investigations c.active_investigations
    pub relevant : Subsequence r.relevant_memory c.relevant_memory
    pub lineage : Subsequence r.execution_lineage c.execution_lineage
    pub runtimes : Subsequence r.runtime_snapshots c.runtime_snapshots

  -- Nothing was left out.
  pub record IsWhole (c : Candidates) (r : BudgetedContext) : Type 0 where
    pub governance : r.governance_context ≡ c.governance_context
    pub unresolved : r.unresolved_items ≡ c.unresolved_items
    pub workflows : r.active_workflows ≡ c.active_workflows
    pub investigations : r.active_investigations ≡ c.active_investigations
    pub relevant : r.relevant_memory ≡ c.relevant_memory
    pub lineage : r.execution_lineage ≡ c.execution_lineage
    pub runtimes : r.runtime_snapshots ≡ c.runtime_snapshots

  module _ (c : Candidates) where
    abbrev r : BudgetedContext
    r = apply_context_budget p policy c

    abbrev u1 : Usage
    u1 = (fill_governance p policy c.governance_context unused).1

    abbrev u2 : Usage
    u2 = (fill_plain policy (render_memory p) c.unresolved_items u1).1

    abbrev u3 : Usage
    u3 = (fill_plain policy (render_workflow p) c.active_workflows u2).1

    abbrev u4 : Usage
    u4 = (fill_investigations p policy c.active_investigations u3).1

    abbrev u5 : Usage
    u5 = (fill_plain policy (render_memory p) c.relevant_memory u4).1

    abbrev u6 : Usage
    u6 = (fill_plain policy (render_workflow p) c.execution_lineage u5).1

    abbrev u7 : Usage
    u7 = (fill_plain policy render_runtime c.runtime_snapshots u6).1

    end-InBudget : Tiers.InBudget policy u7
    end-InBudget = Tiers.plain-InBudget policy render_runtime c.runtime_snapshots u6 (
        Tiers.plain-InBudget policy (render_workflow p) c.execution_lineage u5 (
          Tiers.plain-InBudget policy (render_memory p) c.relevant_memory u4 (
            Tiers.investigation-InBudget p policy c.active_investigations u3 (
              Tiers.plain-InBudget policy (render_workflow p) c.active_workflows u2 (
                Tiers.plain-InBudget policy (render_memory p) c.unresolved_items u1 (
                  Tiers.governance-InBudget p policy c.governance_context unused
                    (inr refl, inr refl)))))))

    end-entries : u7.entries ≡ r.included_entries
    unfolding apply_context_budget
    end-entries = omega (
      arith,
      Tiers.governance-entries p policy c.governance_context unused,
      Tiers.plain-entries policy (render_memory p) c.unresolved_items u1,
      Tiers.plain-entries policy (render_workflow p) c.active_workflows u2,
      Tiers.investigation-entries p policy c.active_investigations u3,
      Tiers.plain-entries policy (render_memory p) c.relevant_memory u4,
      Tiers.plain-entries policy (render_workflow p) c.execution_lineage u5,
      Tiers.plain-entries policy render_runtime c.runtime_snapshots u6,
    )

    end-chars : u7.chars ≡ total_cost r
    unfolding apply_context_budget
    end-chars = omega (
      arith,
      Tiers.governance-chars p policy c.governance_context unused,
      Tiers.plain-chars policy (render_memory p) c.unresolved_items u1,
      Tiers.plain-chars policy (render_workflow p) c.active_workflows u2,
      Tiers.investigation-chars p policy c.active_investigations u3,
      Tiers.plain-chars policy (render_memory p) c.relevant_memory u4,
      Tiers.plain-chars policy (render_workflow p) c.execution_lineage u5,
      Tiers.plain-chars policy render_runtime c.runtime_snapshots u6,
    )

    no_investigation : u3.investigation ≡ 0
    no_investigation =
        Tiers.plain-investigation policy (render_workflow p) c.active_workflows u2
        ∙ Tiers.plain-investigation policy (render_memory p) c.unresolved_items u1
        ∙ Tiers.governance-investigation p policy c.governance_context unused

    -- The context keeps every limit that the policy sets, in whichever budget mode it is: characters
    -- and entries overall, and the characters of the governance items and of the investigations; the
    -- characters it says are used are those of what it includes.
    pub apply_context_budget-IsWithinBudgets : IsWithinBudgets (apply_context_budget p policy c)
    unfolding apply_context_budget
    apply_context_budget-IsWithinBudgets = record {
      chars = end-InBudget.0;
      entries = subst (λ n. Tiers.WithinOrNone n policy.max_entries) end-entries end-InBudget.1;
      spent = end-chars;
      governance = Tiers.governance-capped p policy c.governance_context unused refl;
      rules = Tiers.rules-capped p policy c.governance_context unused refl;
      decisions = Tiers.decisions-capped p policy c.governance_context unused refl;
      investigation =
          Tiers.investigation-capped p policy c.active_investigations u3 no_investigation;
    }

    selection : IsSelection c (apply_context_budget p policy c)
    unfolding apply_context_budget
    selection = record {
      governance = fill-Subsequence _ _ c.governance_context unused;
      unresolved = fill-Subsequence _ _ c.unresolved_items u1;
      workflows = fill-Subsequence _ _ c.active_workflows u2;
      investigations = fill-Subsequence _ _ c.active_investigations u3;
      relevant = fill-Subsequence _ _ c.relevant_memory u4;
      lineage = fill-Subsequence _ _ c.execution_lineage u5;
      runtimes = fill-Subsequence _ _ c.runtime_snapshots u6;
    }

    selection-IsWhole : IsSelection c r → r.truncated ≡ false → IsWhole c r
    unfolding apply_context_budget
    selection-IsWhole s h =
        let a = length-Subsequence s.governance in
        let b = length-Subsequence s.unresolved in
        let d = length-Subsequence s.workflows in
        let e = length-Subsequence s.investigations in
        let f = length-Subsequence s.relevant in
        let g = length-Subsequence s.lineage in
        let k = length-Subsequence s.runtimes in
        let all : r.total_candidates ≤ r.included_entries = ground (arith, h) in
        record {
          governance = Subsequence-full s.governance (omega (arith, all, b, d, e, f, g, k));
          unresolved = Subsequence-full s.unresolved (omega (arith, all, a, d, e, f, g, k));
          workflows = Subsequence-full s.workflows (omega (arith, all, a, b, e, f, g, k));
          investigations = Subsequence-full s.investigations (omega (arith, all, a, b, d, f, g, k));
          relevant = Subsequence-full s.relevant (omega (arith, all, a, b, d, e, g, k));
          lineage = Subsequence-full s.lineage (omega (arith, all, a, b, d, e, f, k));
          runtimes = Subsequence-full s.runtimes (omega (arith, all, a, b, d, e, f, g));
        }

    IsWhole-untruncated : IsWhole c r → r.truncated ≡ false
    unfolding apply_context_budget
    IsWhole-untruncated w =
        let a = ap length w.governance in
        let b = ap length w.unresolved in
        let d = ap length w.workflows in
        let e = ap length w.investigations in
        let f = ap length w.relevant in
        let g = ap length w.lineage in
        let k = ap length w.runtimes in ground (arith, a, b, d, e, f, g, k)

    -- Each section of the context has items of its own candidates, in their order, and the context
    -- says that it is truncated exactly if it leaves one out.
    pub apply_context_budget-IsSelection :
        IsSelection c (apply_context_budget p policy c)
        × ((apply_context_budget p policy c).truncated ≡ false
            ↔ IsWhole c (apply_context_budget p policy c))
    apply_context_budget-IsSelection =
        (selection, (selection-IsWhole selection, IsWhole-untruncated))
