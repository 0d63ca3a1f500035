-- ===== src/Memory/Retrieval/Examples.antt =====
-- A retrieval and an activation over three events, one of which two passes find.
use deterministic_cognition.Prelude.{
  ℕ, ◌≤◌, inl, inr, arith, ◌+ℤ◌, negsuc, Any, pos, String, ◌≡◌, refl, true, false, none, List, [],
  ◌∷◌, map, keep, length, eqb, All, sort_by, insort_by, contains, to_set, sorted, insort, get,
  get_or,
}
use deterministic_cognition.Session.Models.{ActivatedMemory, ContextActivationPolicy}
use deterministic_cognition.Session.Activation.{
  ScoredEvent, MemoryEvent, score_and_rank, activation_rank, leb_rank, doctrine_rank, tier_of,
  is_unresolved,
}
use deterministic_cognition.Memory.Retrieval.{
  RetrievalQuery, slice, MemoryDb, query, passes, fetch_candidates, position_of, score_events,
  related_ids_to_fetch, expand_related, composite_key, effective_confidence, take, drop, found,
  retrieve, add_each, add_passes, collected_events, activate_memory,
}
use deterministic_cognition.Memory.Retrieval.Passes.{Answers, retrieve-Passes}
use deterministic_cognition.Memory.Retrieval.Complete.{retrieve_complete}
use deterministic_cognition.Memory.Retrieval.Distinct.{activate_memory-distinct}

abbrev event : ℕ → String → String → List ℕ → MemoryEvent
event id event_type status related = record {
  id = id;
  event_type = event_type;
  title = "title";
  summary = "summary";
  evidence = none;
  source = "test";
  confidence = pos 3;
  status = status;
  tags = [];
  related_ids = related;
  created_by = "operator";
  created_at = "then";
  updated_at = "then";
  version = 1;
}

-- the second event is related to the third, which no pass finds by itself
abbrev db : MemoryDb
db = record {
  events =
      event 1 "governance_rule" "active" []
      ∷ event 2 "hypothesis" "active" (3 ∷ [])
      ∷ event 3 "incident" "archived" []
      ∷ [];
  links = [];
  revisions = [];
}

abbrev policy : ContextActivationPolicy
policy = record {
  tags = [];
  min_confidence = pos 1;
  include_unresolved = true;
  include_investigations = true;
  include_adaptations = true;
  expand_related = true;
  max_memory_candidates = pos 50;
  max_chars = pos 1000;
  max_entries = pos 10;
  max_governance_chars = pos 0;
  max_investigation_chars = pos 0;
  max_governance_rule_chars = pos 0;
  max_architecture_decision_chars = pos 0;
}

activated_ids :
    map (λ (m : ActivatedMemory). m.memory_id) (activate_memory db policy) ≡ 1 ∷ 2 ∷ 3 ∷ []
unfolding activate_memory collected_events add_passes add_each retrieve found expand_related
    related_ids_to_fetch score_events position_of fetch_candidates passes composite_key
    effective_confidence take drop slice ◌+ℤ◌ score_and_rank activation_rank leb_rank doctrine_rank
    tier_of is_unresolved sort_by insort_by contains to_set sorted insort get get_or
activated_ids = refl

abbrev asked : RetrievalQuery
asked = query [] [] ("active" ∷ []) (pos 2) (pos 1) false

retrieve-Passes_example :
    All (Answers db asked) (retrieve db asked) × (length (retrieve db asked) ≤ 1)
retrieve-Passes_example = retrieve-Passes db asked refl 0 1 refl refl

abbrev first_page : RetrievalQuery
first_page = query [] [] ("active" ∷ []) (pos 2) (pos 20) false

retrieve_complete_example :
    Any (λ s. s.event ≡ event 2 "hypothesis" "active" (3 ∷ [])) (retrieve db first_page)
retrieve_complete_example =
    retrieve_complete db first_page refl refl 20 refl (omega arith)
      (event 2 "hypothesis" "active" (3 ∷ [])) (inr (inl refl))
      (record {
        event_type = inl refl;
        status = inr (inl refl);
        confidence = inr refl;
        tags = inl refl;
      })

-- a limit of -1 counts from the end: two items of three
negative_limit :
    map (λ (s : ScoredEvent). s.event.id) (retrieve db (query [] [] [] (pos 1) (negsuc 0) false))
    ≡ 1 ∷ 2 ∷ []
unfolding retrieve found score_events position_of fetch_candidates passes composite_key
    effective_confidence take drop slice ◌+ℤ◌ leb_rank doctrine_rank sort_by insort_by contains
    to_set sorted insort get get_or
negative_limit = refl

activate_memory-distinct_example :
    length (keep (λ (m : ActivatedMemory). eqb m.memory_id 2) (activate_memory db policy)) ≤ 1
activate_memory-distinct_example = activate_memory-distinct db policy 2
