-- ===== src/Memory/Ontology/Detectors.antt =====
-- The detectors of memory/ontology.py, over the rows that they join with the terms. `repr` of a text is a
-- parameter; that a table is absent is a database of an older schema, which is not modelled.
use deterministic_cognition.Prelude.{
  sort_by, ℕ, String, ◌⧺◌, ◌==◌, show, Bool, true, false, not, ◌&&◌, Option, none, some, List, [],
  ◌∷◌, Dict, map, keep, gather, sorted, to_set, str_leb, if◌then◌else◌,
}
use deterministic_cognition.Memory.Ontology.{
  TermStatus, deprecated, superseded, is_active, OntologyTerm, OntologyAlias, Ontology, is_term,
  get_term, comes_before, status_text,
}

-- a value of the metadata of an issue
pub data Datum : Type 0 where
  number : ℕ → Datum
  text : String → Datum
  null : Datum

-- memory/governance.py: `GovernanceIssue`
pub record GovernanceIssue : Type 0 where
  pub issue_type : String
  pub severity : String
  pub memory_id : ℕ
  pub title : String
  pub rationale : String
  pub recommended_action : String
  pub metadata : Dict Datum

-- the columns that the queries read of memory_events, memory_links and activation_policies
pub record EventRow : Type 0 where
  pub id : ℕ
  pub title : String
  pub event_type : String
  pub created_at : String

pub record LinkRow : Type 0 where
  pub id : ℕ
  pub source_id : ℕ
  pub target_id : ℕ
  pub relationship : String
  pub created_at : String

pub record PolicyRow : Type 0 where
  pub id : ℕ
  pub name : String
  pub trigger_class : String
  pub created_at : String

abbrev is_retired : TermStatus → Bool
is_retired deprecated = true
is_retired superseded = true
is_retired _ = false

-- `created_at > deprecated_at`, and the latter is not NULL
abbrev is_after : String → Option String → Bool
is_after created none = false
is_after created (some deprecated_at) = not (str_leb created deprecated_at)

-- the rows of the terms that `JOIN` and `WHERE` leave for a use of a term
unfoldable pub retired_terms : String → String → String → Ontology → List OntologyTerm
retired_terms vocabulary term created s =
    keep
      (λ (t : OntologyTerm).
        is_term vocabulary term t && is_retired t.status && is_after created t.deprecated_at)
      s.terms

abbrev datum : Option String → Datum
datum none = Datum.null
datum (some x) = Datum.text x

abbrev or_none : Option String → String
or_none none = "None"
or_none (some x) = x

-- an alias whose text is a term of its vocabulary, with that term
unfoldable pub conflicts : Ontology → List (OntologyAlias × OntologyTerm)
conflicts s =
    gather
      (λ (a : OntologyAlias).
        map (λ (t : OntologyTerm). (a, t)) (keep (is_term a.vocabulary_name a.alias) s.terms))
      s.aliases

module _ (repr : String → String) where
  abbrev replacement : Option String → String
  replacement none = ""
  replacement (some x) = if x == "" then "" else " Consider using " ⧺ repr x ⧺ " instead."

  abbrev usage_metadata : OntologyTerm → Dict Datum
  usage_metadata t =
      ("term_status", Datum.text (status_text t.status))
      ∷ ("deprecated_at", datum t.deprecated_at)
      ∷ ("superseded_by", datum t.superseded_by)
      ∷ []

  abbrev is_unregistered : Ontology → String → Bool
  is_unregistered s method = elim (get_term "compression_method" method s) [
    | none ↦ true
    | some t ↦ not (is_active t.status)
  ]

  -- `methods` is the column compression_method of compression_artifacts.
  unfoldable pub detect_unregistered_compression_methods :
      List String → Ontology → List GovernanceIssue
  detect_unregistered_compression_methods methods s =
      map
        (λ method. record {
          issue_type = "unregistered_compression_method";
          severity = "warning";
          memory_id = 0;
          title = "Unregistered compression method: " ⧺ repr method;
          rationale =
              "compression_artifacts rows use method="
              ⧺ repr method
              ⧺ " which has no active entry in the ontology registry vocabulary 'compression_method'. "
              ⧺ "Unregistered methods cannot be governed, deprecated, or routed.";
          recommended_action =
              "Register the method via: ontology-register --vocabulary compression_method "
              ⧺ "--term "
              ⧺ repr method
              ⧺ " --label '...' --introduced-by <operator>";
          metadata = ("compression_method", Datum.text method) ∷ [];
        })
        (keep (is_unregistered s) (sorted (to_set methods)))

  abbrev event_issue : EventRow → OntologyTerm → GovernanceIssue
  event_issue e t = record {
    issue_type = "deprecated_event_type_usage";
    severity = "warning";
    memory_id = e.id;
    title = e.title;
    rationale =
        "Memory event ["
        ⧺ show e.id
        ⧺ "] '"
        ⧺ e.title
        ⧺ "' uses event_type="
        ⧺ repr e.event_type
        ⧺ " which was "
        ⧺ status_text t.status
        ⧺ " on "
        ⧺ or_none t.deprecated_at
        ⧺ ". This event was created after the deprecation date."
        ⧺ replacement t.superseded_by;
    recommended_action =
        "Review and update the event_type if a canonical replacement exists, "
        ⧺ "or register a supersession in the ontology registry.";
    metadata =
        ("memory_event_id", Datum.number e.id)
        ∷ ("event_type", Datum.text e.event_type)
        ∷ usage_metadata t;
  }

  unfoldable pub detect_deprecated_event_type_usage :
      List EventRow → Ontology → List GovernanceIssue
  unfolding retired_terms
  detect_deprecated_event_type_usage events s =
      gather
        (λ (e : EventRow).
          map (event_issue e) (retired_terms "event_type" e.event_type e.created_at s))
        events

  abbrev link_issue : LinkRow → OntologyTerm → GovernanceIssue
  link_issue l t = record {
    issue_type = "deprecated_relationship_usage";
    severity = "warning";
    memory_id = l.source_id;
    title = "Link " ⧺ show l.source_id ⧺ " → " ⧺ show l.target_id;
    rationale =
        "Memory link ["
        ⧺ show l.id
        ⧺ "] ("
        ⧺ show l.source_id
        ⧺ " → "
        ⧺ show l.target_id
        ⧺ ") uses relationship="
        ⧺ repr l.relationship
        ⧺ " which was "
        ⧺ status_text t.status
        ⧺ " on "
        ⧺ or_none t.deprecated_at
        ⧺ ". This link was created after the deprecation date."
        ⧺ replacement t.superseded_by;
    recommended_action =
        "Review the link relationship. If a replacement exists, "
        ⧺ "create a new link with the canonical relationship and retract this one.";
    metadata =
        ("link_id", Datum.number l.id)
        ∷ ("source_id", Datum.number l.source_id)
        ∷ ("target_id", Datum.number l.target_id)
        ∷ ("relationship", Datum.text l.relationship)
        ∷ usage_metadata t;
  }

  unfoldable pub detect_deprecated_relationship_usage :
      List LinkRow → Ontology → List GovernanceIssue
  unfolding retired_terms
  detect_deprecated_relationship_usage links s =
      gather
        (λ (l : LinkRow).
          map (link_issue l) (retired_terms "relationship" l.relationship l.created_at s))
        links

  abbrev policy_issue : PolicyRow → OntologyTerm → GovernanceIssue
  policy_issue p t = record {
    issue_type = "deprecated_trigger_class_usage";
    severity = "warning";
    memory_id = 0;
    title = "Policy " ⧺ show p.id ⧺ ": " ⧺ p.name;
    rationale =
        "Activation policy ["
        ⧺ show p.id
        ⧺ "] '"
        ⧺ p.name
        ⧺ "' uses trigger_class="
        ⧺ repr p.trigger_class
        ⧺ " which was "
        ⧺ status_text t.status
        ⧺ " on "
        ⧺ or_none t.deprecated_at
        ⧺ ". This policy was created after the deprecation date."
        ⧺ replacement t.superseded_by;
    recommended_action =
        "Review the activation policy trigger class. Create a new policy with the "
        ⧺ "canonical trigger class and supersede this one.";
    metadata =
        ("policy_id", Datum.number p.id)
        ∷ ("policy_name", Datum.text p.name)
        ∷ ("trigger_class", Datum.text p.trigger_class)
        ∷ usage_metadata t;
  }

  unfoldable pub detect_deprecated_trigger_class_usage :
      List PolicyRow → Ontology → List GovernanceIssue
  unfolding retired_terms
  detect_deprecated_trigger_class_usage policies s =
      gather
        (λ (p : PolicyRow).
          map (policy_issue p) (retired_terms "trigger_class" p.trigger_class p.created_at s))
        policies

  abbrev conflict_issue : OntologyAlias × OntologyTerm → GovernanceIssue
  conflict_issue (a, t) = record {
    issue_type = "alias_shadows_canonical_term";
    severity = "critical";
    memory_id = 0;
    title = "Alias conflict in " ⧺ repr a.vocabulary_name ⧺ ": " ⧺ repr a.alias;
    rationale =
        "Alias "
        ⧺ repr a.alias
        ⧺ " in vocabulary "
        ⧺ repr a.vocabulary_name
        ⧺ " points to "
        ⧺ repr a.term
        ⧺ " but also shadows canonical term "
        ⧺ repr t.term
        ⧺ " (status="
        ⧺ repr (status_text t.status)
        ⧺ "). resolve_alias() and get_term() return different objects for this lookup string.";
    recommended_action =
        "Remove the alias or rename the conflicting canonical term to eliminate the ambiguity.";
    metadata =
        ("alias_id", Datum.number a.id)
        ∷ ("vocabulary_name", Datum.text a.vocabulary_name)
        ∷ ("alias", Datum.text a.alias)
        ∷ ("alias_target", Datum.text a.term)
        ∷ ("shadowed_canonical_term", Datum.text t.term)
        ∷ [];
  }

  unfoldable pub detect_alias_conflicts : Ontology → List GovernanceIssue
  unfolding conflicts sort_by
  detect_alias_conflicts s = map conflict_issue (
      sort_by
        (λ (x y : OntologyAlias × OntologyTerm).
          comes_before x.0.vocabulary_name x.0.alias y.0.vocabulary_name y.0.alias)
        (conflicts s))
