-- ===== src/Session/Window/Tiers.antt =====
-- The counters of session/context_window.py after one tier, and the limits that they keep.
use deterministic_cognition.Prelude.{
  ℕ, suc, ◌+◌, ℤ, String, ◌≡◌, refl, Bool, true, false, ◌⊎◌, inl, inr, List, [], ◌∷◌, length, arith,
  if◌then◌else◌, Bool-cases,
}
use deterministic_cognition.Session.Models.{
  ContextActivationPolicy, ActivatedMemory, Printer, render_memory,
}
use deterministic_cognition.Session.Window.{
  Usage, char_count, within, is_positive, sub_budget_mode, is_rule, fits, accept, governance_fits,
  accept_governance, investigation_fits, accept_investigation, fill_governance, fill_investigations,
  fill_plain,
}
use deterministic_cognition.Session.Window.Accounts.{total, fill-total, fill-keeps}

-- A number is within its limit, or nothing was taken.
abbrev pub WithinOrNone : ℕ → ℤ → Type 0
WithinOrNone n limit = (within n limit ≡ true) ⊎ (n ≡ 0)

abbrev pub InBudget : ContextActivationPolicy → Usage → Type 0
InBudget policy u =
    WithinOrNone u.chars policy.max_chars × WithinOrNone u.entries policy.max_entries

total_ones {ℓ} : {A : Type ℓ} (xs : List A) → total (λ _. 1) xs ≡ length xs
unfolding total
total_ones [] = refl
total_ones (x ∷ xs) = omega (arith, total_ones xs)

total_none {ℓ} :
    {A : Type ℓ} (weight : A → ℕ) (xs : List A) → ((x : A) → weight x ≡ 0) → total weight xs ≡ 0
unfolding total
total_none weight [] h = refl
total_none weight (x ∷ xs) h = omega (arith, h x, total_none weight xs h)

fits-InBudget :
    (policy : ContextActivationPolicy) (text : String) (u : Usage)
    → fits policy text u ≡ true
    → (within (u.chars + char_count text) policy.max_chars ≡ true)
      × (within (suc u.entries) policy.max_entries ≡ true)
unfolding fits
fits-InBudget policy text u h = ground arith

-- The counters of a tier with no budget of its own.
module _ {ℓ} {A : Type ℓ} (policy : ContextActivationPolicy) (render : A → String) (xs : List A)
    (u : Usage) where
  pub plain-chars :
      (fill_plain policy render xs u).1.chars
      ≡ u.chars + total (λ x. char_count (render x)) (fill_plain policy render xs u).0
  unfolding accept
  plain-chars =
      fill-total (λ x v. fits policy (render x) v) (λ x v. accept (render x) v) (λ v. v.chars)
        (λ x. char_count (render x)) (λ x v. refl) xs u

  pub plain-entries :
      (fill_plain policy render xs u).1.entries
      ≡ u.entries + length (fill_plain policy render xs u).0
  unfolding accept
  plain-entries = omega (
    arith,
    fill-total (λ x v. fits policy (render x) v) (λ x v. accept (render x) v) (λ v. v.entries)
        (λ x. 1) (λ x v. omega arith) xs u,
    total_ones (fill_plain policy render xs u).0,
  )

  pub plain-investigation : (fill_plain policy render xs u).1.investigation ≡ u.investigation
  unfolding accept
  plain-investigation =
      fill-keeps (λ x v. fits policy (render x) v) (λ x v. accept (render x) v)
        (λ v. v.investigation ≡ u.investigation) (λ x v _ h. h) xs u refl

  pub plain-InBudget : InBudget policy u → InBudget policy (fill_plain policy render xs u).1
  unfolding accept
  plain-InBudget h =
      fill-keeps (λ x v. fits policy (render x) v) (λ x v. accept (render x) v) (InBudget policy)
        (λ x v fit _. let (a, b) = fits-InBudget policy (render x) v fit in (inl a, inl b)) xs u h

module _ (p : Printer) (policy : ContextActivationPolicy) where
  abbrev pub memory_cost : ActivatedMemory → ℕ
  memory_cost m = char_count (render_memory p m)

  -- what an item counts against the budget of the rules, or of the decisions
  abbrev pub rule_cost : ActivatedMemory → ℕ
  rule_cost m = if is_rule m.event_type then memory_cost m else 0

  abbrev pub decision_cost : ActivatedMemory → ℕ
  decision_cost m = if is_rule m.event_type then 0 else memory_cost m

  abbrev g_test : ActivatedMemory → Usage → Bool
  g_test m u = governance_fits policy (render_memory p m) m.event_type u

  abbrev g_take : ActivatedMemory → Usage → Usage
  g_take m u = accept_governance policy (render_memory p m) m.event_type u

  abbrev i_test : ActivatedMemory → Usage → Bool
  i_test m u = investigation_fits policy (render_memory p m) u

  abbrev i_take : ActivatedMemory → Usage → Usage
  i_take m u = accept_investigation (render_memory p m) u

  module _ (xs : List ActivatedMemory) (u : Usage) where
    pub governance-chars :
        (fill_governance p policy xs u).1.chars
        ≡ u.chars + total memory_cost (fill_governance p policy xs u).0
    unfolding accept_governance
    governance-chars =
        fill-total g_test g_take (λ v. v.chars) memory_cost (λ x v. ground arith) xs u

    pub governance-entries :
        (fill_governance p policy xs u).1.entries
        ≡ u.entries + length (fill_governance p policy xs u).0
    unfolding accept_governance
    governance-entries = omega (
      arith,
      fill-total g_test g_take (λ v. v.entries) (λ x. 1) (λ x v. ground arith) xs u,
      total_ones (fill_governance p policy xs u).0,
    )

    governance-total :
        (fill_governance p policy xs u).1.governance
        ≡ u.governance + total memory_cost (fill_governance p policy xs u).0
    unfolding accept_governance
    governance-total =
        fill-total g_test g_take (λ v. v.governance) memory_cost (λ x v. ground arith) xs u

    governance-rules :
        sub_budget_mode policy ≡ true
        → (fill_governance p policy xs u).1.rules
          ≡ u.rules + total rule_cost (fill_governance p policy xs u).0
    unfolding accept_governance
    governance-rules mode =
        fill-total g_test g_take (λ v. v.rules) rule_cost (λ x v. ground (arith, mode)) xs u

    governance-decisions :
        sub_budget_mode policy ≡ true
        → (fill_governance p policy xs u).1.decisions
          ≡ u.decisions + total decision_cost (fill_governance p policy xs u).0
    unfolding accept_governance
    governance-decisions mode =
        fill-total g_test g_take (λ v. v.decisions) decision_cost (λ x v. ground (arith, mode)) xs u

    pub governance-investigation : (fill_governance p policy xs u).1.investigation ≡ u.investigation
    unfolding accept_governance
    governance-investigation =
        fill-keeps g_test g_take (λ v. v.investigation ≡ u.investigation)
          (λ x v _ h. ground (arith, h)) xs u refl

    pub investigation-chars :
        (fill_investigations p policy xs u).1.chars
        ≡ u.chars + total memory_cost (fill_investigations p policy xs u).0
    unfolding accept_investigation
    investigation-chars = fill-total i_test i_take (λ v. v.chars) memory_cost (λ x v. refl) xs u

    pub investigation-entries :
        (fill_investigations p policy xs u).1.entries
        ≡ u.entries + length (fill_investigations p policy xs u).0
    unfolding accept_investigation
    investigation-entries = omega (
      arith,
      fill-total i_test i_take (λ v. v.entries) (λ x. 1) (λ x v. omega arith) xs u,
      total_ones (fill_investigations p policy xs u).0,
    )

    investigation-total :
        (fill_investigations p policy xs u).1.investigation
        ≡ u.investigation + total memory_cost (fill_investigations p policy xs u).0
    unfolding accept_investigation
    investigation-total =
        fill-total i_test i_take (λ v. v.investigation) memory_cost (λ x v. refl) xs u

    pub governance-InBudget : InBudget policy u → InBudget policy (fill_governance p policy xs u).1
    unfolding accept_governance governance_fits
    governance-InBudget h =
        fill-keeps g_test g_take (InBudget policy)
          (λ x v fit _.
            let (a, b) = fits-InBudget policy (render_memory p x) v (ground (arith, fit)) in
            (inl (ground (arith, a)), inl (ground (arith, b))))
          xs u h

    pub investigation-InBudget :
        InBudget policy u → InBudget policy (fill_investigations p policy xs u).1
    unfolding accept_investigation investigation_fits
    investigation-InBudget h =
        fill-keeps i_test i_take (InBudget policy)
          (λ x v fit _.
            let (a, b) = fits-InBudget policy (render_memory p x) v (ground (arith, fit)) in
            (inl a, inl b))
          xs u h

    -- The governance tier keeps the budget of its mode.
    pub governance-capped :
        u.governance ≡ 0
        → (sub_budget_mode policy ≡ true)
          ⊎ (is_positive policy.max_governance_chars ≡ false)
          ⊎ WithinOrNone
              (total memory_cost (fill_governance p policy xs u).0)
              policy.max_governance_chars
    unfolding accept_governance governance_fits
    governance-capped e = elim (Bool-cases (sub_budget_mode policy)) [
      | inl mode ↦ inl mode
      | inr legacy ↦ elim (Bool-cases (is_positive policy.max_governance_chars)) [
        | inr uncapped ↦ inr (inl uncapped)
        | inl capped ↦
            let spent : (fill_governance p policy xs u).1.governance
                ≡ total memory_cost (fill_governance p policy xs u).0 =
              omega (arith, governance-total, e) in
            inr (
              inr (
                rw spent at (
                  fill-keeps g_test g_take
                    (λ v. WithinOrNone v.governance policy.max_governance_chars)
                    (λ x v fit _. inl (ground (arith, fit, legacy, capped))) xs u (inr e))))
      ]
    ]

    pub rules-capped :
        u.rules ≡ 0
        → (sub_budget_mode policy ≡ false)
          ⊎ WithinOrNone
              (total rule_cost (fill_governance p policy xs u).0)
              policy.max_governance_rule_chars
    unfolding accept_governance governance_fits
    rules-capped e = elim (Bool-cases (sub_budget_mode policy)) [
      | inr legacy ↦ inl legacy
      | inl mode ↦
          let spent : (fill_governance p policy xs u).1.rules
              ≡ total rule_cost (fill_governance p policy xs u).0 =
            omega (arith, governance-rules mode, e) in
          inr (
            rw spent at (
              fill-keeps g_test g_take (λ v. WithinOrNone v.rules policy.max_governance_rule_chars)
                (λ x v fit old. ground (arith, fit, mode, old)) xs u (inr e)))
    ]

    pub decisions-capped :
        u.decisions ≡ 0
        → (sub_budget_mode policy ≡ false)
          ⊎ WithinOrNone
              (total decision_cost (fill_governance p policy xs u).0)
              policy.max_architecture_decision_chars
    unfolding accept_governance governance_fits
    decisions-capped e = elim (Bool-cases (sub_budget_mode policy)) [
      | inr legacy ↦ inl legacy
      | inl mode ↦
          let spent : (fill_governance p policy xs u).1.decisions
              ≡ total decision_cost (fill_governance p policy xs u).0 =
            omega (arith, governance-decisions mode, e) in
          inr (
            rw spent at (
              fill-keeps g_test g_take
                (λ v. WithinOrNone v.decisions policy.max_architecture_decision_chars)
                (λ x v fit old. ground (arith, fit, mode, old)) xs u (inr e)))
    ]

    pub investigation-capped :
        u.investigation ≡ 0
        → (is_positive policy.max_investigation_chars ≡ false)
          ⊎ WithinOrNone
              (total memory_cost (fill_investigations p policy xs u).0)
              policy.max_investigation_chars
    unfolding accept_investigation investigation_fits
    investigation-capped e = elim (Bool-cases (is_positive policy.max_investigation_chars)) [
      | inr uncapped ↦ inl uncapped
      | inl capped ↦
          let spent : (fill_investigations p policy xs u).1.investigation
              ≡ total memory_cost (fill_investigations p policy xs u).0 =
            omega (arith, investigation-total, e) in
          inr (
            rw spent at (
              fill-keeps i_test i_take
                (λ v. WithinOrNone v.investigation policy.max_investigation_chars)
                (λ x v fit _. inl (ground (arith, fit, capped))) xs u (inr e)))
    ]
