-- ===== src/Memory/Ontology/Sound/Kept.antt =====
-- Each writing call of memory/ontology.py keeps `IsSound`.
use deterministic_cognition.Prelude.{
  All-weaken, ℕ, suc, String, ◌==◌, ◌≡◌, refl, ◌∙◌, sym, subst, ap, inl, inr, Bool, true, false,
  not, ◌&&◌, ◌||◌, Option, none, some, List, [], ◌∷◌, ◌++◌, All, All-append, Bool-cases, arith,
  eq_iff, Result, ok, err,
}
use deterministic_cognition.Memory.Ontology.{
  OntologyTerm, OntologyAlias, Ontology, OntologyError, is_term, is_alias, is_none, update_term,
  active, retired, deprecated, superseded, forbidden, get_term, find_alias, register_term,
  deprecate_term, supersede_term, forbid_term, add_alias,
}
use deterministic_cognition.Memory.Ontology.Returns.{
  register_term-returns, register_term-active, deprecate_term-returns, supersede_term-returns,
  forbid_term-returns, add_alias-returns,
}
use deterministic_cognition.Memory.Ontology.Calls.{Call, perform, perform_all, kept, empty_tables}
use deterministic_cognition.Memory.Ontology.Sound.{
  is_superseded, known, alias_known, NamesOther, IsTargeted, IsReplaceable, IsSound, find-any,
  any-append, KeepsKey, known-update,
}

-- more terms leave the replacements and the targets known
weakened-NamesOther :
    (ts us : List OntologyTerm)
    → ((v x : String) → known v x ts ≡ true → known v x us ≡ true)
    → (v x : String) → (o : Option String) → NamesOther ts v x o
    → NamesOther us v x o
weakened-NamesOther ts us more v x none h = tt
weakened-NamesOther ts us more v x (some y) h = (more v y h.0, h.1)

All-update :
    (v x : String)
    → (f : OntologyTerm → OntologyTerm) → (P : OntologyTerm → Type 0)
    → ((t : OntologyTerm) → is_term v x t ≡ true → P t → P (f t))
    → (ts : List OntologyTerm) → All P ts
    → All P (update_term v x f ts)
unfolding update_term
All-update v x f P step [] h = tt
All-update v x f P step (t ∷ ts) h = elim (Bool-cases (is_term v x t)) [
  | inl here ↦ rw here (step t here h.0, All-update v x f P step ts h.1)
  | inr there ↦ rw there (h.0, All-update v x f P step ts h.1)
]

update-IsSound :
    (v x : String)
    → (f : OntologyTerm → OntologyTerm) → KeepsKey f
    → (s : Ontology)
    → ((t : OntologyTerm)
        → is_term v x t ≡ true
        → IsReplaceable s.terms t
        → IsReplaceable s.terms (f t))
    → IsSound s
    → IsSound (record s { terms = update_term v x f s.terms })
update-IsSound v x f same s step h =
    let us = update_term v x f s.terms in
    let more : (w y : String) → known w y s.terms ≡ true → known w y us ≡ true =
      λ w y e. known-update w y v x f same s.terms ∙ e in
    record {
      apart = λ w y.
          ap (λ b. b && alias_known w y s.aliases) (known-update w y v x f same s.terms)
          ∙ h.apart w y;
      targets =
          All-weaken (IsTargeted s.terms) (IsTargeted us) (λ a e. more a.vocabulary_name a.term e)
            s.aliases h.targets;
      replacements =
          All-weaken (IsReplaceable s.terms) (IsReplaceable us)
            (λ t r. (
              weakened-NamesOther s.terms us more t.vocabulary_name t.term t.superseded_by r.0,
              r.1,
            ))
            us (All-update v x f (IsReplaceable s.terms) step s.terms h.replacements);
    }

and_false : (b : Bool) → b && false ≡ false
and_false true = refl
and_false false = refl

one_more : (a c : Bool) → a && c ≡ false → (a || (false || false)) && c ≡ false
one_more true c e = e
one_more false c e = refl

more_aliases : (a c : Bool) → a && c ≡ false → a && (c || (false || false)) ≡ false
more_aliases a true e = e
more_aliases a false e = e

pub is_term-eq :
    (w y : String)
    → (t : OntologyTerm) → is_term w y t ≡ true
    → (t.vocabulary_name ≡ w) × (t.term ≡ y)
is_term-eq w y t e = ground (arith, eq_iff t.vocabulary_name w, eq_iff t.term y)

pub is_alias-eq :
    (w y : String)
    → (a : OntologyAlias) → is_alias w y a ≡ true
    → (a.vocabulary_name ≡ w) × (a.alias ≡ y)
is_alias-eq w y a e = ground (arith, eq_iff a.vocabulary_name w, eq_iff a.alias y)

pub is_false : (b : Bool) → not b ≡ true → b ≡ false
is_false false e = refl
is_false true e = sym e

no_alias :
    (t : OntologyTerm)
    → (w y : String) → (s : Ontology) → is_none (find_alias t.vocabulary_name t.term s) ≡ true
    → is_term w y t ≡ true
    → alias_known w y s.aliases ≡ false
unfolding find_alias
no_alias t w y s free here =
    let (v, x) = is_term-eq w y t here in
    subst (λ k. alias_known k y s.aliases ≡ false) v
      (subst (λ k. alias_known t.vocabulary_name k s.aliases ≡ false) x
        (is_false _ (sym (find-any (is_alias t.vocabulary_name t.term) s.aliases) ∙ free)))

no_term :
    (a : OntologyAlias)
    → (w y : String) → (s : Ontology) → is_none (get_term a.vocabulary_name a.alias s) ≡ true
    → is_alias w y a ≡ true
    → known w y s.terms ≡ false
unfolding get_term
no_term a w y s free here =
    let (v, x) = is_alias-eq w y a here in
    subst (λ k. known k y s.terms ≡ false) v
      (subst (λ k. known a.vocabulary_name k s.terms ≡ false) x
        (is_false _ (sym (find-any (is_term a.vocabulary_name a.alias) s.terms) ∙ free)))

is_true : (b : Bool) → not b ≡ false → b ≡ true
is_true true e = refl
is_true false e = sym e

is_known :
    (v x : String)
    → (s : Ontology) → (r : OntologyTerm) → get_term v x s ≡ some r
    → known v x s.terms ≡ true
unfolding get_term
is_known v x s r found = is_true _ (sym (find-any (is_term v x) s.terms) ∙ ap is_none found)

append-IsSound :
    (t : OntologyTerm)
    → (n : ℕ) → (s : Ontology) → t.superseded_by ≡ none
    → t.status ≡ active
    → is_none (find_alias t.vocabulary_name t.term s) ≡ true
    → IsSound s
    → IsSound (record s { terms = s.terms ++ t ∷ []; next_term = n })
append-IsSound t n s fresh live free h =
    let us = s.terms ++ t ∷ [] in
    let more : (w y : String) → known w y s.terms ≡ true → known w y us ≡ true = λ w y e.
      any-append (is_term w y) s.terms (t ∷ []) ∙ ap (λ b. b || (is_term w y t || false)) e in
    record {
      apart = λ w y.
          ap (λ b. b && alias_known w y s.aliases) (any-append (is_term w y) s.terms (t ∷ []))
          ∙ elim (Bool-cases (is_term w y t)) [
            | inl here ↦ rw (no_alias t w y s free here) (and_false _)
            | inr there ↦
                rw there (one_more (known w y s.terms) (alias_known w y s.aliases) (h.apart w y))
          ];
      targets =
          All-weaken (IsTargeted s.terms) (IsTargeted us) (λ a e. more a.vocabulary_name a.term e)
            s.aliases h.targets;
      replacements =
          All-append (IsReplaceable us) s.terms (t ∷ [])
            (All-weaken (IsReplaceable s.terms) (IsReplaceable us)
              (λ r q. (
                weakened-NamesOther s.terms us more r.vocabulary_name r.term r.superseded_by q.0,
                q.1,
              ))
              s.terms h.replacements)
            (
              (
                subst (NamesOther us t.vocabulary_name t.term) (sym fresh) tt,
                ap (λ k. is_superseded k && is_none t.superseded_by) live,
              ),
              tt,
            );
    }

alias-IsSound :
    (a : OntologyAlias)
    → (n : ℕ) → (s : Ontology) → (r : OntologyTerm) → get_term a.vocabulary_name a.term s ≡ some r
    → is_none (get_term a.vocabulary_name a.alias s) ≡ true
    → IsSound s
    → IsSound (record s { aliases = s.aliases ++ a ∷ []; next_alias = n })
alias-IsSound a n s r found free h = record {
  apart = λ w y.
      ap (λ b. known w y s.terms && b) (any-append (is_alias w y) s.aliases (a ∷ []))
      ∙ elim (Bool-cases (is_alias w y a)) [
        | inl here ↦ rw (no_term a w y s free here) refl
        | inr there ↦
            rw there (more_aliases (known w y s.terms) (alias_known w y s.aliases) (h.apart w y))
      ];
  targets =
      All-append (IsTargeted s.terms) s.aliases (a ∷ []) h.targets
        (is_known a.vocabulary_name a.term s r found, tt);
  replacements = h.replacements;
}

pub kept-cases :
    {A : Type 0}
    → (P : Ontology → Type 0) → (s : Ontology) → (m : Result OntologyError (Ontology × A)) → P s
    → ((t : Ontology) → (a : A) → m ≡ ok (t, a) → P t)
    → P (kept s m)
kept-cases P s (ok (t, a)) p f = f t a refl
kept-cases P s (err e) p f = p

pub perform-IsSound : (c : Call) → (s : Ontology) → IsSound s → IsSound (perform c s)
unfolding perform
perform-IsSound (Call.register now n) s h = kept-cases IsSound s (register_term now n s) h (λ t r e.
    let (same, v, x, fresh, free) = register_term-returns now n s t r e in
    subst IsSound (sym same) (
      append-IsSound r (suc s.next_term) s fresh (register_term-active now n s t r e)
        (subst (λ k. is_none (find_alias k r.term s) ≡ true) (sym v)
          (subst (λ k. is_none (find_alias n.vocabulary_name k s) ≡ true) (sym x) free))
        h))
perform-IsSound (Call.deprecate now v x actor reason) s h =
    kept-cases IsSound s (deprecate_term now v x actor reason s) h (λ t r e.
      subst IsSound (sym (deprecate_term-returns now v x actor reason s t r e)) (
        update-IsSound v x
          (λ (t : OntologyTerm). retired now deprecated t.superseded_by actor reason t)
          (λ t. (refl, refl)) s (λ t here q. (q.0, refl)) h))
perform-IsSound (Call.supersede now v x y actor reason) s h =
    kept-cases IsSound s (supersede_term now v x y actor reason s) h (λ t r e.
      let (same, differs, (q, replaced)) = supersede_term-returns now v x y actor reason s t r e in
      subst IsSound (sym same) (
        update-IsSound v x (retired now superseded (some y) actor reason) (λ t. (refl, refl)) s
          (λ t here q'.
            let (a, b) = is_term-eq v x t here in
            (
              (
                ap (λ k. known k y s.terms) a ∙ is_known v y s q replaced,
                ap (λ k. y == k) b ∙ is_false _ differs,
              ),
              refl,
            ))
          h))
perform-IsSound (Call.forbid now v x actor reason) s h =
    kept-cases IsSound s (forbid_term now v x actor reason s) h (λ t r e.
      subst IsSound (sym (forbid_term-returns now v x actor reason s t r e)) (
        update-IsSound v x
          (λ (t : OntologyTerm). retired now forbidden t.superseded_by actor reason t)
          (λ t. (refl, refl)) s (λ t here q. (q.0, refl)) h))
perform-IsSound (Call.alias now v x a actor reason) s h =
    kept-cases IsSound s (add_alias now v x a actor reason s) h (λ t r e.
      let (same, vr, xr, ar, free, (q, found)) = add_alias-returns now v x a actor reason s t r e in
      subst IsSound (sym same) (
        alias-IsSound r (suc s.next_alias) s q
          (ap (λ k. get_term k r.term s) vr ∙ ap (λ k. get_term v k s) xr ∙ found)
          (ap (λ k. is_none (get_term k r.alias s)) vr
            ∙ ap (λ k. is_none (get_term v k s)) ar
            ∙ free)
          h))

pub perform_all-IsSound : (cs : List Call) → (s : Ontology) → IsSound s → IsSound (perform_all cs s)
unfolding perform_all
perform_all-IsSound [] s h = h
perform_all-IsSound (c ∷ cs) s h = perform_all-IsSound cs (perform c s) (perform-IsSound c s h)

pub empty-IsSound : IsSound empty_tables
empty-IsSound = record { apart = λ v x. refl; targets = tt; replacements = tt }
