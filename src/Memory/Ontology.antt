-- ===== src/Memory/Ontology.antt =====
-- memory/ontology.py over the tables ontology_terms and ontology_aliases of memory/schema.sql. A table is
-- the list of its rows in the order of their ids. A call returns the new tables and its row, or the
-- exception, which leaves the tables as they were. `now` is the answer of `_now()`.
pub mod Detectors
pub mod Calls
pub mod Returns
pub mod Sound
pub mod Resolves
pub mod Lifecycle
pub mod Examples
use deterministic_cognition.Prelude.{
  ℕ, suc, String, ◌==◌, Bool, true, false, not, ◌&&◌, ◌||◌, Option, none, some, List, [], ◌∷◌, ◌++◌,
  Result, ok, err, ◌>>=◌, ◌>>◌, guard, str_leb, is_blank, contains, keep, find, sort_by,
  if◌then◌else◌,
}

-- `VALID_TERM_STATUSES`
pub data TermStatus : Type 0 where
  active deprecated superseded forbidden : TermStatus

abbrev pub is_active : TermStatus → Bool
is_active active = true
is_active _ = false

abbrev pub is_forbidden : TermStatus → Bool
is_forbidden forbidden = true
is_forbidden _ = false

abbrev pub valid_vocabulary_names : List String
valid_vocabulary_names = "event_type" ∷ "relationship" ∷ "trigger_class" ∷ "compression_method" ∷ []

-- `provenance` is the JSON text that the row holds.
pub record OntologyTerm : Type 0 where
  pub id : ℕ
  pub vocabulary_name : String
  pub term : String
  pub label : String
  pub description : Option String
  pub status : TermStatus
  pub superseded_by : Option String
  pub introduced_at : String
  pub introduced_by : String
  pub deprecated_at : Option String
  pub deprecated_by : Option String
  pub deprecation_reason : Option String
  pub provenance : Option String

pub record OntologyAlias : Type 0 where
  pub id : ℕ
  pub vocabulary_name : String
  pub term : String
  pub alias : String
  pub created_at : String
  pub created_by : String
  pub reason : String

pub record Ontology : Type 0 where
  pub terms : List OntologyTerm
  pub aliases : List OntologyAlias
  pub next_term : ℕ
  pub next_alias : ℕ

-- `ValueError`, with the values that its message shows
pub data OntologyError : Type 0 where
  empty_field unknown_vocabulary self_supersession self_alias : String → OntologyError
  already_alias already_term not_found not_active : String → String → OntologyError
  replacement_not_found replacement_not_active : String → String → OntologyError
  target_not_found target_forbidden shadows_term alias_exists : String → String → OntologyError

-- `WHERE vocabulary_name = ? AND term = ?`
abbrev pub is_term : String → String → OntologyTerm → Bool
is_term vocabulary term r = (r.vocabulary_name == vocabulary) && (r.term == term)

abbrev pub is_alias : String → String → OntologyAlias → Bool
is_alias vocabulary alias r = (r.vocabulary_name == vocabulary) && (r.alias == alias)

unfoldable pub get_term : String → String → Ontology → Option OntologyTerm
get_term vocabulary term s = find (is_term vocabulary term) s.terms

unfoldable pub find_alias : String → String → Ontology → Option OntologyAlias
find_alias vocabulary alias s = find (is_alias vocabulary alias) s.aliases

abbrev pub is_none {ℓ} : {A : Type ℓ} → Option A → Bool
is_none none = true
is_none (some _) = false

-- a row that the query did not find raises
abbrev pub the : {A : Type 0} → OntologyError → Option A → Result OntologyError A
the error none = err error
the error (some a) = ok a

abbrev pub alias_target : Option OntologyAlias → Option String
alias_target none = none
alias_target (some a) = some a.term

unfoldable pub resolve_alias : String → String → Ontology → Option String
resolve_alias vocabulary alias s = alias_target (find_alias vocabulary alias s)

-- What a caller gives to `register_term`.
pub record NewTerm : Type 0 where
  pub vocabulary_name : String
  pub term : String
  pub label : String
  pub introduced_by : String
  pub description : Option String
  pub provenance : Option String

unfoldable pub register_term :
    String → NewTerm → Ontology → Result OntologyError (Ontology × OntologyTerm)
unfolding get_term find_alias
register_term now n s = do
  guard (not (is_blank n.vocabulary_name)) (empty_field "vocabulary_name")
  guard (contains n.vocabulary_name valid_vocabulary_names) (unknown_vocabulary n.vocabulary_name)
  guard (not (is_blank n.term)) (empty_field "term")
  guard (not (is_blank n.label)) (empty_field "label")
  guard (not (is_blank n.introduced_by)) (empty_field "introduced_by")
  guard (is_none (find_alias n.vocabulary_name n.term s)) (already_alias n.term n.vocabulary_name)
  guard (is_none (get_term n.vocabulary_name n.term s)) (already_term n.term n.vocabulary_name)
  let row : OntologyTerm = record {
    id = s.next_term;
    vocabulary_name = n.vocabulary_name;
    term = n.term;
    label = n.label;
    description = n.description;
    status = active;
    superseded_by = none;
    introduced_at = now;
    introduced_by = n.introduced_by;
    deprecated_at = none;
    deprecated_by = none;
    deprecation_reason = none;
    provenance = n.provenance;
  }
  ok (record s { terms = s.terms ++ row ∷ []; next_term = suc s.next_term }, row)

-- the columns that the three `UPDATE` statements set
abbrev pub retired :
    String → TermStatus → Option String → String → String → OntologyTerm → OntologyTerm
retired now status replacement actor reason r = record r {
  status = status;
  superseded_by = replacement;
  deprecated_at = some now;
  deprecated_by = some actor;
  deprecation_reason = some reason;
}

-- `UPDATE ontology_terms SET ... WHERE vocabulary_name = ? AND term = ?`
unfoldable pub update_term :
    String → String → (OntologyTerm → OntologyTerm) → List OntologyTerm → List OntologyTerm
update_term vocabulary term f [] = []
update_term vocabulary term f (r ∷ rs) =
    (if is_term vocabulary term r then f r else r) ∷ update_term vocabulary term f rs

abbrev pub updated :
    String
    → String
    → (OntologyTerm → OntologyTerm)
    → OntologyTerm
    → Ontology
    → Result OntologyError (Ontology × OntologyTerm)
updated vocabulary term f r s = ok (record s { terms = update_term vocabulary term f s.terms }, f r)

unfoldable pub deprecate_term :
    String
    → String
    → String
    → String
    → String
    → Ontology
    → Result OntologyError (Ontology × OntologyTerm)
unfolding get_term
deprecate_term now vocabulary term deprecated_by reason s = do
  guard (not (is_blank deprecated_by)) (empty_field "deprecated_by")
  guard (not (is_blank reason)) (empty_field "deprecation_reason")
  r ← the (not_found term vocabulary) (get_term vocabulary term s)
  guard (is_active r.status) (not_active term vocabulary)
  updated vocabulary term
      (λ (t : OntologyTerm). retired now deprecated t.superseded_by deprecated_by reason t) r s

unfoldable pub supersede_term :
    String
    → String
    → String
    → String
    → String
    → String
    → Ontology
    → Result OntologyError (Ontology × OntologyTerm)
unfolding get_term
supersede_term now vocabulary term superseded_by deprecated_by reason s = do
  guard (not (is_blank deprecated_by)) (empty_field "deprecated_by")
  guard (not (is_blank reason)) (empty_field "deprecation_reason")
  guard (not (is_blank superseded_by)) (empty_field "superseded_by")
  guard (not (superseded_by == term)) (self_supersession term)
  r ← the (not_found term vocabulary) (get_term vocabulary term s)
  guard (is_active r.status) (not_active term vocabulary)
  q ← the (replacement_not_found superseded_by vocabulary) (get_term vocabulary superseded_by s)
  guard (is_active q.status) (replacement_not_active superseded_by vocabulary)
  updated vocabulary term (retired now superseded (some superseded_by) deprecated_by reason) r s

unfoldable pub forbid_term :
    String
    → String
    → String
    → String
    → String
    → Ontology
    → Result OntologyError (Ontology × OntologyTerm)
unfolding get_term
forbid_term now vocabulary term forbidden_by reason s = do
  guard (not (is_blank forbidden_by)) (empty_field "forbidden_by")
  guard (not (is_blank reason)) (empty_field "reason")
  r ← the (not_found term vocabulary) (get_term vocabulary term s)
  updated vocabulary term
      (λ (t : OntologyTerm). retired now forbidden t.superseded_by forbidden_by reason t) r s

unfoldable pub add_alias :
    String
    → String
    → String
    → String
    → String
    → String
    → Ontology
    → Result OntologyError (Ontology × OntologyAlias)
unfolding get_term find_alias
add_alias now vocabulary term alias created_by reason s = do
  guard (not (is_blank created_by)) (empty_field "created_by")
  guard (not (is_blank reason)) (empty_field "reason")
  guard (not (is_blank alias)) (empty_field "alias")
  guard (not (alias == term)) (self_alias term)
  target ← the (target_not_found term vocabulary) (get_term vocabulary term s)
  guard (not (is_forbidden target.status)) (target_forbidden term vocabulary)
  guard (is_none (get_term vocabulary alias s)) (shadows_term alias vocabulary)
  guard (is_none (find_alias vocabulary alias s)) (alias_exists alias vocabulary)
  let row : OntologyAlias = record {
    id = s.next_alias;
    vocabulary_name = vocabulary;
    term = term;
    alias = alias;
    created_at = now;
    created_by = created_by;
    reason = reason;
  }
  ok (record s { aliases = s.aliases ++ row ∷ []; next_alias = suc s.next_alias }, row)

-- `ORDER BY` on two columns
abbrev pub comes_before : String → String → String → String → Bool
comes_before v x w y = not (str_leb w v) || ((v == w) && str_leb x y)

abbrev given : Option String → String → Bool
given none x = true
given (some v) x = x == v

abbrev status_text : TermStatus → String
status_text active = "active"
status_text deprecated = "deprecated"
status_text superseded = "superseded"
status_text forbidden = "forbidden"

unfoldable pub list_terms : Option String → Option String → Ontology → List OntologyTerm
unfolding sort_by
list_terms vocabulary status s =
    sort_by (λ (a b : OntologyTerm). comes_before a.vocabulary_name a.term b.vocabulary_name b.term)
      (keep
        (λ (r : OntologyTerm).
          given vocabulary r.vocabulary_name && given status (status_text r.status))
        s.terms)

unfoldable pub list_aliases : Option String → Ontology → List OntologyAlias
unfolding sort_by
list_aliases vocabulary s =
    sort_by
      (λ (a b : OntologyAlias). comes_before a.vocabulary_name a.alias b.vocabulary_name b.alias)
      (keep (λ (r : OntologyAlias). given vocabulary r.vocabulary_name) s.aliases)
