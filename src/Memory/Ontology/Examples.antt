-- ===== src/Memory/Ontology/Examples.antt =====
-- Runs of the calls of memory/ontology.py at fixed inputs, and the theorems about them there.
use deterministic_cognition.Prelude.{
  String, ◌==◌, ◌≡◌, refl, true, false, none, some, List, [], ◌∷◌, is_blank, contains,
}
use deterministic_cognition.Memory.Ontology.{
  superseded, OntologyTerm, NewTerm, is_none, get_term, find_alias, resolve_alias, update_term,
  register_term, supersede_term, add_alias,
}
use deterministic_cognition.Memory.Ontology.Calls.{Call, perform, perform_all, empty_tables}
use deterministic_cognition.Memory.Ontology.Detectors.{detect_alias_conflicts}
use deterministic_cognition.Memory.Ontology.Resolves.{
  perform_all-no_conflicts, perform_all-resolves, perform-resolve_alias,
}
use deterministic_cognition.Memory.Ontology.Lifecycle.{Follows}
use deterministic_cognition.Memory.Ontology.Lifecycle.Steps.{perform-Follows, perform_all-replaced}

abbrev quoted : String → String
quoted s = s

abbrev new_term : String → NewTerm
new_term x = record {
  vocabulary_name = "event_type";
  term = x;
  label = x;
  introduced_by = "operator";
  description = none;
  provenance = none;
}

-- the third call is an alias, the fourth one that raises: its text is a term
abbrev calls : List Call
calls =
    Call.register "t0" (new_term "incident")
    ∷ Call.register "t1" (new_term "event")
    ∷ Call.alias "t2" "event_type" "incident" "outage" "operator" "old name"
    ∷ Call.alias "t3" "event_type" "incident" "event" "operator" "clash"
    ∷ Call.supersede "t4" "event_type" "incident" "event" "operator" "merged"
    ∷ []

abbrev forbids : Call
forbids = Call.forbid "t5" "event_type" "incident" "operator" "never"

abbrev incident : OntologyTerm
incident = record {
  id = 1;
  vocabulary_name = "event_type";
  term = "incident";
  label = "incident";
  description = none;
  status = superseded;
  superseded_by = some "event";
  introduced_at = "t0";
  introduced_by = "operator";
  deprecated_at = some "t4";
  deprecated_by = some "operator";
  deprecation_reason = some "merged";
  provenance = none;
}

outage_resolves :
    resolve_alias "event_type" "outage" (perform_all calls empty_tables) ≡ some "incident"
unfolding resolve_alias find_alias perform_all perform register_term supersede_term add_alias
    get_term update_term is_blank contains
outage_resolves = refl

incident_found : get_term "event_type" "incident" (perform_all calls empty_tables) ≡ some incident
unfolding find_alias perform_all perform register_term supersede_term add_alias get_term update_term
    is_blank contains
incident_found = refl

perform_all-no_conflicts_example :
    detect_alias_conflicts quoted (perform_all calls empty_tables) ≡ []
perform_all-no_conflicts_example = perform_all-no_conflicts quoted calls

perform_all-resolves_example :
    (is_none (get_term "event_type" "incident" (perform_all calls empty_tables)) ≡ false)
    × (is_none (get_term "event_type" "outage" (perform_all calls empty_tables)) ≡ true)
    × (resolve_alias "event_type" "incident" (perform_all calls empty_tables) ≡ none)
perform_all-resolves_example =
    perform_all-resolves calls "event_type" "outage" "incident" outage_resolves

perform-resolve_alias_example :
    resolve_alias "event_type" "outage" (perform forbids (perform_all calls empty_tables))
    ≡ some "incident"
perform-resolve_alias_example =
    perform-resolve_alias forbids (perform_all calls empty_tables) "event_type" "outage" "incident"
      outage_resolves

perform-Follows_example :
    (u : OntologyTerm) × (get_term "event_type" "incident"
        (perform forbids (perform_all calls empty_tables))
      ≡ some u)
    × Follows incident u
perform-Follows_example =
    perform-Follows forbids (perform_all calls empty_tables) "event_type" "incident" incident
      incident_found

perform_all-replaced_example :
    (y : String) × (incident.superseded_by ≡ some y)
    × (is_none (get_term "event_type" y (perform_all calls empty_tables)) ≡ false)
    × ((y == "incident") ≡ false)
perform_all-replaced_example =
    perform_all-replaced calls "event_type" "incident" incident incident_found refl
