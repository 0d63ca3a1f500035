-- ===== src/Session/Activation/Examples.antt =====
-- The activation of two events: an open question without an answer, and a rule.
use deterministic_cognition.Prelude.{
  ℕ, pos, String, ◌≡◌, refl, Bool, true, none, List, [], ◌∷◌, map, keep, length, sort_by, insort_by,
  contains, get, get_or,
}
use deterministic_cognition.Session.Models.{ActivatedMemory}
use deterministic_cognition.Session.Activation.{
  MemoryEvent, ScoredEvent, activated, score_and_rank, partition_by_section, activation_rank,
  leb_rank, doctrine_rank, tier_of, is_unresolved,
}
use deterministic_cognition.Session.Activation.Partition.{
  Selects, IsPlacedOnce, partition_by_section-Selects,
}
use deterministic_cognition.Session.Activation.Ranked.{
  Chained, ComesBefore, score_and_rank-IsOrdered,
}

abbrev event : ℕ → String → String → MemoryEvent
event id event_type status = record {
  id = id;
  event_type = event_type;
  title = "title";
  summary = "summary";
  evidence = none;
  source = "test";
  confidence = pos 3;
  status = status;
  tags = [];
  related_ids = [];
  created_by = "operator";
  created_at = "then";
  updated_at = "then";
  version = 1;
}

abbrev scored : MemoryEvent → ScoredEvent
scored e = record {
  event = e;
  tag_overlap = 0;
  recency_rank = 0;
  is_expanded = Bool.false;
  semantic_rank = 0;
  effective_confidence = e.confidence;
}

abbrev events : List ScoredEvent
events =
    scored (event 1 "open_question" "unresolved") ∷ scored (event 2 "governance_rule" "active") ∷ []

-- the rule comes first
ranked : map (λ (m : ActivatedMemory). m.memory_id) (score_and_rank true true events) ≡ 2 ∷ 1 ∷ []
unfolding score_and_rank sort_by insort_by leb_rank activation_rank doctrine_rank tier_of
    is_unresolved contains get get_or
ranked = refl

score_and_rank-IsOrdered_example :
    Chained (ComesBefore true true) (score_and_rank true true events)
    × ((p : ActivatedMemory → Bool)
        → length (keep p (score_and_rank true true events))
          ≡ length (keep p (map (activated true true) events)))
score_and_rank-IsOrdered_example = score_and_rank-IsOrdered true true events

partition_by_section-Selects_example :
    Selects
      (map (activated true true) events)
      (partition_by_section (map (activated true true) events))
    × ((m : ActivatedMemory) → IsPlacedOnce m)
partition_by_section-Selects_example =
    partition_by_section-Selects (map (activated true true) events)
