-- ===== src/Memory/Ontology/Returns.antt =====
-- What the calls of memory/ontology.py that return had found, and the tables that they leave.
use deterministic_cognition.Prelude.{
  suc, String, ◌==◌, ◌≡◌, inl, inr, true, not, none, some, [], ◌∷◌, ◌++◌, Option-cases, arith, ok,
}
use deterministic_cognition.Memory.Ontology.{
  active, OntologyTerm, OntologyAlias, Ontology, NewTerm, is_none, update_term, retired, deprecated,
  superseded, forbidden, get_term, find_alias, register_term, deprecate_term, supersede_term,
  forbid_term, add_alias,
}

-- what a call that returns had found
pub supersede_term-returns :
    (now v x y actor reason : String)
    → (s t : Ontology) → (r : OntologyTerm) → supersede_term now v x y actor reason s ≡ ok (t, r)
    → (t ≡ record s {
      terms = update_term v x (retired now superseded (some y) actor reason) s.terms;
    })
      × (not (y == x) ≡ true)
      × ((q : OntologyTerm) × (get_term v y s ≡ some q))
unfolding supersede_term
supersede_term-returns now v x y actor reason s t r e = elim (Option-cases (get_term v y s)) [
  | inl missing ↦ ground arith
  | inr (q, found) ↦
      let f : t ≡ record s {
        terms = update_term v x (retired now superseded (some y) actor reason) s.terms;
      } =
        ground arith in
      let g : not (y == x) ≡ true = ground arith in (f, g, (q, found))
]

pub add_alias-returns :
    (now v x a actor reason : String)
    → (s t : Ontology) → (r : OntologyAlias) → add_alias now v x a actor reason s ≡ ok (t, r)
    → (t ≡ record s { aliases = s.aliases ++ r ∷ []; next_alias = suc s.next_alias })
      × (r.vocabulary_name ≡ v)
      × (r.term ≡ x)
      × (r.alias ≡ a)
      × (is_none (get_term v a s) ≡ true)
      × ((q : OntologyTerm) × (get_term v x s ≡ some q))
unfolding add_alias
add_alias-returns now v x a actor reason s t r e = elim (Option-cases (get_term v x s)) [
  | inl missing ↦ ground arith
  | inr (q, found) ↦
      let f : t ≡ record s { aliases = s.aliases ++ r ∷ []; next_alias = suc s.next_alias } =
        ground arith in
      (f, ground arith, ground arith, ground arith, ground arith, (q, found))
]

pub register_term-returns :
    (now : String)
    → (n : NewTerm) → (s t : Ontology) → (r : OntologyTerm) → register_term now n s ≡ ok (t, r)
    → (t ≡ record s { terms = s.terms ++ r ∷ []; next_term = suc s.next_term })
      × (r.vocabulary_name ≡ n.vocabulary_name)
      × (r.term ≡ n.term)
      × (r.superseded_by ≡ none)
      × (is_none (find_alias n.vocabulary_name n.term s) ≡ true)
unfolding register_term
register_term-returns now n s t r e = ground arith

pub register_term-active :
    (now : String)
    → (n : NewTerm) → (s t : Ontology) → (r : OntologyTerm) → register_term now n s ≡ ok (t, r)
    → r.status ≡ active
unfolding register_term
register_term-active now n s t r e = ground arith

pub deprecate_term-returns :
    (now v x actor reason : String)
    → (s t : Ontology) → (r : OntologyTerm) → deprecate_term now v x actor reason s ≡ ok (t, r)
    → t ≡ record s {
      terms =
          update_term v x
            (λ (t : OntologyTerm). retired now deprecated t.superseded_by actor reason t)
            s.terms;
    }
unfolding deprecate_term
deprecate_term-returns now v x actor reason s t r e = ground arith

pub forbid_term-returns :
    (now v x actor reason : String)
    → (s t : Ontology) → (r : OntologyTerm) → forbid_term now v x actor reason s ≡ ok (t, r)
    → t ≡ record s {
      terms =
          update_term v x
            (λ (t : OntologyTerm). retired now forbidden t.superseded_by actor reason t)
            s.terms;
    }
unfolding forbid_term
forbid_term-returns now v x actor reason s t r e = ground arith
