-- ===== src/Memory/Ontology/Sound.antt =====
-- What every call of memory/ontology.py keeps: no alias is a term, and each alias and each replacement
-- names a term of its vocabulary.
pub mod Kept
use deterministic_cognition.Prelude.{
  ℕ, String, ◌==◌, ◌≡◌, ◌≢◌, refl, ◌∙◌, sym, subst, ap, inl, inr, Bool, true, false, not, ◌&&◌,
  ◌||◌, Option, none, some, List, [], ◌∷◌, ◌++◌, All, All-append, any, find, Bool-cases,
  Option-cases, arith, eq_iff, if◌then◌else◌,
}
use deterministic_cognition.Memory.Ontology.{
  TermStatus, superseded, OntologyTerm, OntologyAlias, Ontology, is_term, is_alias, is_none,
  update_term,
}

abbrev pub known : String → String → List OntologyTerm → Bool
known v x terms = any (is_term v x) terms

abbrev pub alias_known : String → String → List OntologyAlias → Bool
alias_known v x aliases = any (is_alias v x) aliases

-- the text of the target is a term of the vocabulary of the alias
abbrev pub IsTargeted : List OntologyTerm → OntologyAlias → Type 0
IsTargeted terms a = known a.vocabulary_name a.term terms ≡ true

abbrev pub NamesOther : List OntologyTerm → String → String → Option String → Type 0
NamesOther terms v x none = Unit
NamesOther terms v x (some y) = (known v y terms ≡ true) × ((y == x) ≡ false)

abbrev pub is_superseded : TermStatus → Bool
is_superseded superseded = true
is_superseded _ = false

-- the replacement, if there is one, is another term of the same vocabulary; a superseded term has one
abbrev pub IsReplaceable : List OntologyTerm → OntologyTerm → Type 0
IsReplaceable terms t =
    NamesOther terms t.vocabulary_name t.term t.superseded_by
    × (is_superseded t.status && is_none t.superseded_by ≡ false)

pub record IsSound (s : Ontology) : Type 0 where
  pub apart : (v x : String) → known v x s.terms && alias_known v x s.aliases ≡ false
  pub targets : All (IsTargeted s.terms) s.aliases
  pub replacements : All (IsReplaceable s.terms) s.terms

pub find-any {ℓ} :
    {A : Type ℓ} → (p : A → Bool) → (xs : List A) → is_none (find p xs) ≡ not (any p xs)
find-any p [] = refl
find-any p (x ∷ xs) = elim (Bool-cases (p x)) [
  | inl holds ↦ rw holds refl
  | inr fails ↦ rw fails (find-any p xs)
]

pub any-append {ℓ} :
    {A : Type ℓ} → (p : A → Bool) → (xs ys : List A) → any p (xs ++ ys) ≡ any p xs || any p ys
any-append p [] ys = refl
any-append p (x ∷ xs) ys = ground (arith, any-append p xs ys)

-- an update that leaves the key
abbrev pub KeepsKey : (OntologyTerm → OntologyTerm) → Type 0
KeepsKey f =
    (t : OntologyTerm) → ((f t).vocabulary_name ≡ t.vocabulary_name) × ((f t).term ≡ t.term)

pub known-update :
    (v x w y : String)
    → (f : OntologyTerm → OntologyTerm) → KeepsKey f
    → (ts : List OntologyTerm) → known v x (update_term w y f ts) ≡ known v x ts
unfolding update_term
known-update v x w y f same [] = refl
known-update v x w y f same (t ∷ ts) = elim (Bool-cases (is_term w y t)) [
  | inl here ↦ rw here (
      rw (same t).0 (rw (same t).1 (ap (λ b. is_term v x t || b) (known-update v x w y f same ts))))
  | inr there ↦ rw there (ap (λ b. is_term v x t || b) (known-update v x w y f same ts))
]
