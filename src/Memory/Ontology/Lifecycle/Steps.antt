-- ===== src/Memory/Ontology/Lifecycle/Steps.antt =====
-- The life of a term under every writing call of memory/ontology.py.
use deterministic_cognition.Prelude.{
  ℕ, suc, String, ◌==◌, ◌≡◌, refl, ◌∙◌, sym, subst, ap, false, not, none, some, Option, ◌&&◌, arith,
  List, [], ◌∷◌, ◌++◌,
}
use deterministic_cognition.Memory.Ontology.{
  deprecated, superseded, forbidden, OntologyTerm, OntologyAlias, Ontology, is_term, is_none,
  get_term, retired, register_term, deprecate_term, supersede_term, forbid_term, add_alias,
}
use deterministic_cognition.Memory.Ontology.Returns.{
  register_term-returns, deprecate_term-returns, supersede_term-returns, forbid_term-returns,
  add_alias-returns,
}
use deterministic_cognition.Memory.Ontology.Calls.{Call, perform, perform_all, empty_tables}
use deterministic_cognition.Memory.Ontology.Sound.{
  is_superseded, known, NamesOther, IsReplaceable, find-any,
}
use deterministic_cognition.Memory.Ontology.Sound.Kept.{
  kept-cases, is_term-eq, perform_all-IsSound, empty-IsSound,
}
use deterministic_cognition.Memory.Ontology.Resolves.{found-All}
use deterministic_cognition.Memory.Ontology.Lifecycle.{
  Follows, Continues, unchanged, update-Continues, deprecate_term-active, supersede_term-active,
  same-active, find-append, may_become_forbidden, active_may_become,
}

register-Continues :
    (v x : String)
    → (s : Ontology) → (t r : OntologyTerm) → (n : ℕ) → get_term v x s ≡ some t
    → Continues v x t (record s { terms = s.terms ++ r ∷ []; next_term = n })
unfolding get_term
register-Continues v x s t r n e =
    unchanged v x t (record s { terms = s.terms ++ r ∷ []; next_term = n })
      (find-append (is_term v x) s.terms r t e)

same_terms :
    (v x : String)
    → (s : Ontology) → (t : OntologyTerm) → (as' : List OntologyAlias) → (n : ℕ)
    → get_term v x s ≡ some t
    → Continues v x t (record s { aliases = as'; next_alias = n })
unfolding get_term
same_terms v x s t as' n e = unchanged v x t (record s { aliases = as'; next_alias = n }) e

-- Every call keeps the row of a term with its id, vocabulary, text, label and origin; its status stays
-- as it is, or goes from 'active' to 'deprecated' or 'superseded', or from any status to 'forbidden'.
pub perform-Follows :
    (c : Call)
    → (s : Ontology) → (v x : String) → (t : OntologyTerm) → get_term v x s ≡ some t
    → (u : OntologyTerm) × (get_term v x (perform c s) ≡ some u) × Follows t u
unfolding perform
perform-Follows (Call.register now n) s v x t e =
    kept-cases (Continues v x t) s (register_term now n s) (unchanged v x t s e) (λ s' r returned.
      subst (Continues v x t) (sym (register_term-returns now n s s' r returned).0)
        (register-Continues v x s t r (suc s.next_term) e))
perform-Follows (Call.deprecate now w y actor reason) s v x t e =
    kept-cases (Continues v x t) s (deprecate_term now w y actor reason s) (unchanged v x t s e)
      (λ s' r returned.
        let (q, found, live) = deprecate_term-active now w y actor reason s s' r returned in
        subst (Continues v x t) (sym (deprecate_term-returns now w y actor reason s s' r returned))
          (update-Continues v x w y
            (λ (t : OntologyTerm). retired now deprecated t.superseded_by actor reason t)
            (λ t. (refl, refl)) s t e
            (λ here. (
              refl,
              refl,
              refl,
              refl,
              refl,
              refl,
              active_may_become t.status deprecated (same-active v x w y s t q e found live here),
            ))))
perform-Follows (Call.supersede now w y z actor reason) s v x t e =
    kept-cases (Continues v x t) s (supersede_term now w y z actor reason s) (unchanged v x t s e)
      (λ s' r returned.
        let (q, found, live) = supersede_term-active now w y z actor reason s s' r returned in
        subst (Continues v x t)
          (sym (supersede_term-returns now w y z actor reason s s' r returned).0)
          (update-Continues v x w y (retired now superseded (some z) actor reason)
            (λ t. (refl, refl)) s t e
            (λ here. (
              refl,
              refl,
              refl,
              refl,
              refl,
              refl,
              active_may_become t.status superseded (same-active v x w y s t q e found live here),
            ))))
perform-Follows (Call.forbid now w y actor reason) s v x t e =
    kept-cases (Continues v x t) s (forbid_term now w y actor reason s) (unchanged v x t s e)
      (λ s' r returned.
        subst (Continues v x t) (sym (forbid_term-returns now w y actor reason s s' r returned)) (
          update-Continues v x w y
            (λ (t : OntologyTerm). retired now forbidden t.superseded_by actor reason t)
            (λ t. (refl, refl)) s t e
            (λ here. (refl, refl, refl, refl, refl, refl, may_become_forbidden t.status))))
perform-Follows (Call.alias now w y b actor reason) s v x t e =
    kept-cases (Continues v x t) s (add_alias now w y b actor reason s) (unchanged v x t s e)
      (λ s' r returned.
        subst (Continues v x t) (sym (add_alias-returns now w y b actor reason s s' r returned).0)
          (same_terms v x s t (s.aliases ++ r ∷ []) (suc s.next_alias) e))

replaced_by : (o : Option String) → is_none o ≡ false → (y : String) × (o ≡ some y)
replaced_by none e = absurd (ground arith)
replaced_by (some y) e = (y, refl)

-- After any calls on the empty tables, a term whose status is 'superseded' names its replacement, which
-- is another term of the same vocabulary.
pub perform_all-replaced :
    (cs : List Call)
    → (v x : String) → (t : OntologyTerm) → get_term v x (perform_all cs empty_tables) ≡ some t
    → t.status ≡ superseded
    → (y : String) × (t.superseded_by ≡ some y)
      × (is_none (get_term v y (perform_all cs empty_tables)) ≡ false)
      × ((y == x) ≡ false)
unfolding get_term
perform_all-replaced cs v x t e gone =
    let h = perform_all-IsSound cs empty_tables empty-IsSound in
    let s = perform_all cs empty_tables in
    let (replaced, key) =
      found-All (is_term v x) (IsReplaceable s.terms) s.terms t e h.replacements in
    let (voc, own) = is_term-eq v x t key in
    let (y, by) =
      replaced_by t.superseded_by
        (sym (ap (λ k. is_superseded k && is_none t.superseded_by) gone) ∙ replaced.1) in
    let (there, differs) = subst (NamesOther s.terms t.vocabulary_name t.term) by replaced.0 in
    (
      y,
      by,
      find-any (is_term v y) s.terms ∙ ap (λ k. not (known k y s.terms)) (sym voc) ∙ ap not there,
      ap (λ k. y == k) (sym own) ∙ differs,
    )
