-- ===== src/Memory/Ontology/Resolves.antt =====
-- `resolve_alias` and `detect_alias_conflicts` of memory/ontology.py after any calls.
use deterministic_cognition.Prelude.{
  sort_by, String, ◌≡◌, refl, ◌∙◌, sym, subst, ap, inl, inr, Bool, true, false, not, ◌&&◌, ◌||◌,
  none, some, List, [], ◌∷◌, ◌++◌, All, any, find, keep, gather, map, Bool-cases, Option-cases,
  arith, eq_refl,
}
use deterministic_cognition.Memory.Ontology.{
  OntologyTerm, OntologyAlias, Ontology, is_term, is_alias, is_none, get_term, find_alias,
  alias_target, resolve_alias, register_term, deprecate_term, supersede_term, forbid_term,
  add_alias,
}
use deterministic_cognition.Memory.Ontology.Returns.{
  register_term-returns, deprecate_term-returns, supersede_term-returns, forbid_term-returns,
  add_alias-returns,
}
use deterministic_cognition.Memory.Ontology.Calls.{Call, perform, perform_all, empty_tables}
use deterministic_cognition.Memory.Ontology.Detectors.{conflicts, detect_alias_conflicts}
use mathlib.Core.Option.{some-injective, none-ne-some}
use deterministic_cognition.Memory.Ontology.Sound.{known, alias_known, IsTargeted, find-any}
use deterministic_cognition.Memory.Ontology.Sound.Kept.{
  kept-cases, is_alias-eq, perform_all-IsSound, empty-IsSound,
}

-- what the search finds passes its test and has what all have
pub found-All {ℓ} :
    {A : Type ℓ}
    → (p : A → Bool) → (P : A → Type 0) → (xs : List A) → (a : A) → find p xs ≡ some a
    → All P xs
    → P a × (p a ≡ true)
found-All p P [] a e h = ground arith
found-All p P (x ∷ xs) a e h = elim (Bool-cases (p x)) [
  | inl holds ↦
      subst (λ y. P y × (p y ≡ true)) (some-injective _ _ (sym (rw holds refl) ∙ e)) (h.0, holds)
  | inr fails ↦ found-All p P xs a (sym (rw fails refl) ∙ e) h.1
]

tail_apart : (a h c : Bool) → a && (h || c) ≡ false → a && c ≡ false
tail_apart true true c e = absurd cc
tail_apart true false c e = e
tail_apart false h c e = refl

head_apart : (a h c : Bool) → h ≡ true → a && (h || c) ≡ false → a ≡ false
head_apart true true c t e = absurd cc
head_apart true false c t e = absurd cc
head_apart false h c t e = refl

own_alias : (a : OntologyAlias) → is_alias a.vocabulary_name a.alias a ≡ true
own_alias a = ground (arith, eq_refl a.vocabulary_name, eq_refl a.alias)

keep_none : (p : OntologyTerm → Bool) → (ts : List OntologyTerm) → any p ts ≡ false → keep p ts ≡ []
keep_none p [] e = refl
keep_none p (t ∷ ts) e = ground (arith, keep_none p ts)

gather-apart :
    (terms : List OntologyTerm)
    → (aliases : List OntologyAlias)
    → ((v x : String) → known v x terms && alias_known v x aliases ≡ false)
    → gather {B = OntologyAlias × OntologyTerm}
        (λ (a : OntologyAlias).
          map (λ (t : OntologyTerm). (a, t)) (keep (is_term a.vocabulary_name a.alias) terms))
        aliases
      ≡ []
gather-apart terms [] apart = refl
gather-apart terms (a ∷ aliases) apart =
    rw
      (keep_none (is_term a.vocabulary_name a.alias) terms (
        head_apart _ (is_alias a.vocabulary_name a.alias a) _ (own_alias a)
          (apart a.vocabulary_name a.alias)))
      (gather-apart terms aliases (λ v x. tail_apart _ (is_alias v x a) _ (apart v x)))

-- After any calls on the empty tables, those that raise included, the detector finds no alias that
-- shadows a term.
pub perform_all-no_conflicts :
    (repr : String → String)
    → (cs : List Call) → detect_alias_conflicts repr (perform_all cs empty_tables) ≡ []
unfolding detect_alias_conflicts conflicts sort_by
perform_all-no_conflicts repr cs =
    let h = perform_all-IsSound cs empty_tables empty-IsSound in
    let s = perform_all cs empty_tables in rw (gather-apart s.terms s.aliases h.apart) refl

resolves :
    (v a x : String)
    → (s : Ontology) → resolve_alias v a s ≡ some x
    → (r : OntologyAlias) × (find_alias v a s ≡ some r) × (r.term ≡ x)
unfolding resolve_alias
resolves v a x s e = elim (Option-cases (find_alias v a s)) [
  | inl missing ↦ absurd (none-ne-some x (sym (ap alias_target missing) ∙ e))
  | inr (r, found) ↦ (r, found, some-injective _ _ (sym (ap alias_target found) ∙ e))
]

clash : (b : Bool) → b ≡ true → b ≡ false → ⊥
clash true p q = absurd cc
clash false p q = absurd cc

unresolved :
    (v x : String) → (s : Ontology) → alias_known v x s.aliases ≡ false → resolve_alias v x s ≡ none
unfolding resolve_alias find_alias
unresolved v x s e = elim (Option-cases (find (is_alias v x) s.aliases)) [
  | inl missing ↦ ap alias_target missing
  | inr (r, found) ↦
      absurd (clash _ (find-any (is_alias v x) s.aliases ∙ ap not e) (ap is_none found))
]

left_false : (a c : Bool) → c ≡ true → a && c ≡ false → a ≡ false
left_false true c t e = sym t ∙ e
left_false false c t e = refl

right_false : (a c : Bool) → a ≡ true → a && c ≡ false → c ≡ false
right_false true c t e = e
right_false false c t e = absurd cc

is_true : (b : Bool) → not b ≡ false → b ≡ true
is_true true e = refl
is_true false e = sym e

-- After any calls on the empty tables, an alias that resolves gives a term of its vocabulary; it is no
-- term itself, and the term that it gives is no alias, so that one step is all there is to resolve.
pub perform_all-resolves :
    (cs : List Call)
    → (v a x : String) → resolve_alias v a (perform_all cs empty_tables) ≡ some x
    → (is_none (get_term v x (perform_all cs empty_tables)) ≡ false)
      × (is_none (get_term v a (perform_all cs empty_tables)) ≡ true)
      × (resolve_alias v x (perform_all cs empty_tables) ≡ none)
unfolding get_term find_alias
perform_all-resolves cs v a x e =
    let h = perform_all-IsSound cs empty_tables empty-IsSound in
    let s = perform_all cs empty_tables in
    let (r, found, same) = resolves v a x s e in
    let (target, key) = found-All (is_alias v a) (IsTargeted s.terms) s.aliases r found h.targets in
    let (voc, own) = is_alias-eq v a r key in
    let term : known v x s.terms ≡ true =
      ap (λ k. known k x s.terms) (sym voc)
      ∙ ap (λ k. known r.vocabulary_name k s.terms) (sym same)
      ∙ target in
    let alias : alias_known v a s.aliases ≡ true =
      is_true _ (sym (find-any (is_alias v a) s.aliases) ∙ ap is_none found) in
    (
      find-any (is_term v x) s.terms ∙ ap not term,
      find-any (is_term v a) s.terms ∙ ap not (left_false _ _ alias (h.apart v a)),
      unresolved v x s (right_false _ _ term (h.apart v x)),
    )

find-append :
    (p : OntologyAlias → Bool)
    → (xs ys : List OntologyAlias) → (a : OntologyAlias) → find p xs ≡ some a
    → find p (xs ++ ys) ≡ some a
find-append p [] ys a e = absurd (none-ne-some a e)
find-append p (x ∷ xs) ys a e = elim (Bool-cases (p x)) [
  | inl holds ↦ ground arith
  | inr fails ↦ ground (arith, find-append p xs ys a)
]

same_aliases :
    (v a x : String)
    → (s t : Ontology) → t.aliases ≡ s.aliases
    → resolve_alias v a s ≡ some x
    → resolve_alias v a t ≡ some x
unfolding resolve_alias find_alias
same_aliases v a x s t same e = ap (λ as'. alias_target (find (is_alias v a) as')) same ∙ e

more_aliases :
    (v a x : String)
    → (s t : Ontology) → (r : OntologyAlias) → t.aliases ≡ s.aliases ++ r ∷ []
    → resolve_alias v a s ≡ some x
    → resolve_alias v a t ≡ some x
unfolding resolve_alias find_alias
more_aliases v a x s t r same e =
    let (q, found, own) = resolves v a x s e in
    ap (λ as'. alias_target (find (is_alias v a) as')) same
    ∙ ap alias_target (find-append (is_alias v a) s.aliases (r ∷ []) q found)
    ∙ ap some own

-- An alias that resolves does so to the same term after any further call, also after one that forbids
-- that term.
pub perform-resolve_alias :
    (c : Call)
    → (s : Ontology) → (v a x : String) → resolve_alias v a s ≡ some x
    → resolve_alias v a (perform c s) ≡ some x
unfolding perform
perform-resolve_alias (Call.register now n) s v a x e =
    kept-cases (λ t. resolve_alias v a t ≡ some x) s (register_term now n s) e
      (λ t r returned.
        same_aliases v a x s t
          (ap (λ (u : Ontology). u.aliases) (register_term-returns now n s t r returned).0) e)
perform-resolve_alias (Call.deprecate now w y actor reason) s v a x e =
    kept-cases (λ t. resolve_alias v a t ≡ some x) s (deprecate_term now w y actor reason s) e
      (λ t r returned.
        same_aliases v a x s t
          (ap (λ (u : Ontology). u.aliases)
            (deprecate_term-returns now w y actor reason s t r returned))
          e)
perform-resolve_alias (Call.supersede now w y z actor reason) s v a x e =
    kept-cases (λ t. resolve_alias v a t ≡ some x) s (supersede_term now w y z actor reason s) e
      (λ t r returned.
        same_aliases v a x s t
          (ap (λ (u : Ontology). u.aliases)
            (supersede_term-returns now w y z actor reason s t r returned).0)
          e)
perform-resolve_alias (Call.forbid now w y actor reason) s v a x e =
    kept-cases (λ t. resolve_alias v a t ≡ some x) s (forbid_term now w y actor reason s) e
      (λ t r returned.
        same_aliases v a x s t
          (ap (λ (u : Ontology). u.aliases)
            (forbid_term-returns now w y actor reason s t r returned))
          e)
perform-resolve_alias (Call.alias now w y b actor reason) s v a x e =
    kept-cases (λ t. resolve_alias v a t ≡ some x) s (add_alias now w y b actor reason s) e
      (λ t r returned.
        more_aliases v a x s t r
          (ap (λ (u : Ontology). u.aliases)
            (add_alias-returns now w y b actor reason s t r returned).0)
          e)
