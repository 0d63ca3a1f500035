-- ===== src/Memory/Ontology/Lifecycle.antt =====
-- The life of a term under the calls of memory/ontology.py: what an update and an insertion leave of a row.
pub mod Steps
use deterministic_cognition.Prelude.{
  ℕ, suc, String, ◌==◌, ◌≡◌, refl, ◌∙◌, sym, subst, ap, inl, inr, Bool, true, false, not, ◌&&◌,
  ◌||◌, Option, none, some, List, [], ◌∷◌, ◌++◌, All, any, find, Bool-cases, Option-cases, arith,
  Result, ok, err, if◌then◌else◌,
}
use deterministic_cognition.Memory.Ontology.{
  TermStatus, active, deprecated, superseded, forbidden, is_active, OntologyTerm, Ontology, is_term,
  is_none, get_term, update_term, retired, register_term, deprecate_term, supersede_term,
  forbid_term, add_alias,
}
use deterministic_cognition.Memory.Ontology.Returns.{
  register_term-returns, deprecate_term-returns, supersede_term-returns, forbid_term-returns,
  add_alias-returns,
}
use deterministic_cognition.Memory.Ontology.Calls.{Call, perform, perform_all, empty_tables}
use deterministic_cognition.Memory.Ontology.Sound.{
  known, IsReplaceable, IsSound, find-any, KeepsKey,
}
use deterministic_cognition.Memory.Ontology.Sound.Kept.{
  kept-cases, is_term-eq, perform_all-IsSound, empty-IsSound,
}
use mathlib.Core.Option.{some-injective, none-ne-some}
use deterministic_cognition.Memory.Ontology.Resolves.{found-All}

-- the statuses that a status can have after a call
abbrev pub may_become : TermStatus → TermStatus → Bool
may_become active _ = true
may_become _ forbidden = true
may_become deprecated deprecated = true
may_become superseded superseded = true
may_become _ _ = false

-- The row keeps its identity, and its status moves on.
abbrev pub Follows : OntologyTerm → OntologyTerm → Type 0
Follows t u =
    (u.id ≡ t.id)
    × (u.vocabulary_name ≡ t.vocabulary_name)
    × (u.term ≡ t.term)
    × (u.label ≡ t.label)
    × (u.introduced_at ≡ t.introduced_at)
    × (u.introduced_by ≡ t.introduced_by)
    × (may_become t.status u.status ≡ true)

is_term-kept :
    (v x w y : String)
    → (f : OntologyTerm → OntologyTerm) → KeepsKey f
    → (u : OntologyTerm) → is_term v x (if is_term w y u then f u else u) ≡ is_term v x u
is_term-kept v x w y f same u = elim (Bool-cases (is_term w y u)) [
  | inl here ↦ rw here (rw (same u).0 (rw (same u).1 refl))
  | inr there ↦ rw there refl
]

find-update :
    (v x w y : String)
    → (f : OntologyTerm → OntologyTerm) → KeepsKey f
    → (ts : List OntologyTerm) → (t : OntologyTerm) → find (is_term v x) ts ≡ some t
    → find (is_term v x) (update_term w y f ts) ≡ some (if is_term w y t then f t else t)
unfolding update_term
find-update v x w y f same [] t e = ground arith
find-update v x w y f same (u ∷ us) t e = elim (Bool-cases (is_term v x u)) [
  | inl here ↦
      let same_row : u ≡ t =
        some-injective _ _ (sym (ap (λ b. if b then some u else find (is_term v x) us) here) ∙ e) in
      ap
        (λ b.
          if b
          then some (if is_term w y u then f u else u)
          else find (is_term v x) (update_term w y f us))
        (is_term-kept v x w y f same u ∙ here)
      ∙ ap (λ r. some (if is_term w y r then f r else r)) same_row
  | inr there ↦
      ap
        (λ b.
          if b
          then some (if is_term w y u then f u else u)
          else find (is_term v x) (update_term w y f us))
        (is_term-kept v x w y f same u ∙ there)
      ∙ find-update v x w y f same us t
          (sym (ap (λ b. if b then some u else find (is_term v x) us) there) ∙ e)
]

pub find-append :
    (p : OntologyTerm → Bool)
    → (ts : List OntologyTerm) → (r t : OntologyTerm) → find p ts ≡ some t
    → find p (ts ++ r ∷ []) ≡ some t
find-append p [] r t e = absurd (none-ne-some t e)
find-append p (u ∷ us) r t e = elim (Bool-cases (p u)) [
  | inl holds ↦ ground arith
  | inr fails ↦ ground (arith, find-append p us r t)
]

may_become_same : (s : TermStatus) → may_become s s ≡ true
may_become_same active = refl
may_become_same deprecated = refl
may_become_same superseded = refl
may_become_same forbidden = refl

pub may_become_forbidden : (s : TermStatus) → may_become s forbidden ≡ true
may_become_forbidden active = refl
may_become_forbidden deprecated = refl
may_become_forbidden superseded = refl
may_become_forbidden forbidden = refl

pub active_may_become : (s u : TermStatus) → is_active s ≡ true → may_become s u ≡ true
active_may_become active u e = refl
active_may_become deprecated u e = absurd cc
active_may_become superseded u e = absurd cc
active_may_become forbidden u e = absurd cc

-- the row of a term, and one that follows it
abbrev pub Continues : String → String → OntologyTerm → Ontology → Type 0
Continues v x t s = (u : OntologyTerm) × (get_term v x s ≡ some u) × Follows t u

pub unchanged :
    (v x : String)
    → (t : OntologyTerm) → (s : Ontology) → get_term v x s ≡ some t
    → Continues v x t s
unchanged v x t s e = (t, e, (refl, refl, refl, refl, refl, refl, may_become_same t.status))

-- an update whose status the rows with its key can have
pub update-Continues :
    (v x w y : String)
    → (f : OntologyTerm → OntologyTerm) → KeepsKey f
    → (s : Ontology) → (t : OntologyTerm) → get_term v x s ≡ some t
    → (is_term w y t ≡ true → Follows t (f t))
    → Continues v x t (record s { terms = update_term w y f s.terms })
unfolding get_term
update-Continues v x w y f same s t e follows = elim (Bool-cases (is_term w y t)) [
  | inl here ↦ (
    f t,
    find-update v x w y f same s.terms t e ∙ ap (λ b. some (if b then f t else t)) here,
    follows here,
  )
  | inr there ↦
      unchanged v x t (record s { terms = update_term w y f s.terms })
        (find-update v x w y f same s.terms t e ∙ ap (λ b. some (if b then f t else t)) there)
]

pub deprecate_term-active :
    (now v x actor reason : String)
    → (s t : Ontology) → (r : OntologyTerm) → deprecate_term now v x actor reason s ≡ ok (t, r)
    → (q : OntologyTerm) × (get_term v x s ≡ some q) × (is_active q.status ≡ true)
unfolding deprecate_term
deprecate_term-active now v x actor reason s t r e = elim (Option-cases (get_term v x s)) [
  | inl missing ↦ ground arith
  | inr (q, found) ↦ let live : is_active q.status ≡ true = ground arith in (q, found, live)
]

pub supersede_term-active :
    (now v x y actor reason : String)
    → (s t : Ontology) → (r : OntologyTerm) → supersede_term now v x y actor reason s ≡ ok (t, r)
    → (q : OntologyTerm) × (get_term v x s ≡ some q) × (is_active q.status ≡ true)
unfolding supersede_term
supersede_term-active now v x y actor reason s t r e = elim (Option-cases (get_term v x s)) [
  | inl missing ↦ ground arith
  | inr (q, found) ↦ let live : is_active q.status ≡ true = ground arith in (q, found, live)
]

all_unit : (ts : List OntologyTerm) → All (λ r. Unit {0}) ts
all_unit [] = tt
all_unit (t ∷ ts) = (tt, all_unit ts)

-- a row with the key of an active one is active
pub same-active :
    (v x w y : String)
    → (s : Ontology) → (t q : OntologyTerm) → get_term v x s ≡ some t
    → get_term w y s ≡ some q
    → is_active q.status ≡ true
    → is_term w y t ≡ true
    → is_active t.status ≡ true
unfolding get_term
same-active v x w y s t q e found live here =
    let (a, b) = is_term-eq w y t here in
    let (_, key) = found-All (is_term v x) (λ r. Unit {0}) s.terms t e (all_unit s.terms) in
    let (c, d) = is_term-eq v x t key in
    let same : q ≡ t = some-injective q t (
      sym found
      ∙ ap (λ k. find (is_term k y) s.terms) (sym a ∙ c)
      ∙ ap (λ k. find (is_term v k) s.terms) (sym b ∙ d)
      ∙ e) in
    ap (λ (r : OntologyTerm). is_active r.status) (sym same) ∙ live
