-- ===== src/Session/Activation.antt =====
-- session/activation.py: the rank of a scored event, and the sections of a session. What
-- memory/retrieval.py finds is the list that the functions take.
pub mod Partition
pub mod Sorted
pub mod Ranked
pub mod Examples
use deterministic_cognition.Prelude.{
  ℕ, zero, suc, ℤ, pos, negsuc, ltb_ℤ, String, Bool, true, false, not, ◌&&◌, ◌||◌, Option, List, [],
  ◌∷◌, ◌++◌, map, get_or, Dict, contains, sort_by, if◌then◌else◌,
}
use deterministic_cognition.Session.Models.{ActivatedMemory}

-- memory/models.py
pub record MemoryEvent : Type 0 where
  pub id : ℕ
  pub event_type : String
  pub title : String
  pub summary : String
  pub evidence : Option String
  pub source : String
  pub confidence : ℤ
  pub status : String
  pub tags : List String
  pub related_ids : List ℕ
  pub created_by : String
  pub created_at : String
  pub updated_at : String
  pub version : ℕ

-- memory/retrieval.py
pub record ScoredEvent : Type 0 where
  pub event : MemoryEvent
  pub tag_overlap : ℕ
  pub recency_rank : ℕ
  pub is_expanded : Bool
  pub semantic_rank : ℕ
  pub effective_confidence : ℤ

abbrev pub doctrine_priority : Dict ℕ
doctrine_priority =
    ("governance_rule", 1)
    ∷ ("architecture_decision", 2)
    ∷ ("validation_result", 3)
    ∷ ("adaptation", 4)
    ∷ ("hypothesis", 5)
    ∷ ("implementation_note", 6)
    ∷ []

abbrev pub investigation_event_types : List String
investigation_event_types = "open_question" ∷ "hypothesis" ∷ []

abbrev pub governance_event_types : List String
governance_event_types = "governance_rule" ∷ "architecture_decision" ∷ []

abbrev pub unresolved_statuses : List String
unresolved_statuses = "unresolved" ∷ "proposed" ∷ []

abbrev pub governance_exclude_statuses : List String
governance_exclude_statuses = "rejected" ∷ "superseded" ∷ "archived" ∷ "deprecated" ∷ []

unfoldable pub doctrine_rank : String → ℕ
doctrine_rank event_type = get_or event_type doctrine_priority 7

unfoldable pub is_unresolved : MemoryEvent → Bool
is_unresolved e = contains e.status unresolved_statuses

abbrev pub negated : ℤ → ℤ
negated (pos zero) = pos zero
negated (pos (suc n)) = negsuc n
negated (negsuc n) = pos (suc n)

-- the tier of `_activation_rank`
unfoldable pub tier_of : Bool → Bool → ScoredEvent → ℕ
unfolding is_unresolved
tier_of pin_governance pin_unresolved s =
    if pin_governance && contains s.event.event_type governance_event_types
    then 0
    else if pin_unresolved && is_unresolved s.event
    then 1
    else if not s.is_expanded
    then 2
    else 3

-- the tuple, as the list of its numbers
unfoldable pub activation_rank : Bool → Bool → ScoredEvent → List ℤ
unfolding doctrine_rank tier_of
activation_rank pin_governance pin_unresolved s =
    pos (tier_of pin_governance pin_unresolved s)
    ∷ pos (doctrine_rank s.event.event_type)
    ∷ negated s.effective_confidence
    ∷ pos s.recency_rank
    ∷ negated (pos s.tag_overlap)
    ∷ pos s.event.id
    ∷ []

-- `<=` on tuples
unfoldable pub leb_rank : List ℤ → List ℤ → Bool
leb_rank [] ys = true
leb_rank (x ∷ xs) [] = false
leb_rank (x ∷ xs) (y ∷ ys) = ltb_ℤ x y || (not (ltb_ℤ y x) && leb_rank xs ys)

abbrev pub activated : Bool → Bool → ScoredEvent → ActivatedMemory
activated pin_governance pin_unresolved s = record {
  memory_id = s.event.id;
  event_type = s.event.event_type;
  title = s.event.title;
  summary = s.event.summary;
  evidence = s.event.evidence;
  confidence = s.effective_confidence;
  status = s.event.status;
  tags = s.event.tags;
  source = s.event.source;
  related_ids = s.event.related_ids;
  created_at = s.event.created_at;
  updated_at = s.event.updated_at;
  is_expanded = s.is_expanded;
  tag_overlap = s.tag_overlap;
  activation_rank = activation_rank pin_governance pin_unresolved s;
  contradiction_ids = [];
}

unfoldable pub score_and_rank : Bool → Bool → List ScoredEvent → List ActivatedMemory
unfolding leb_rank
score_and_rank pin_governance pin_unresolved events =
    sort_by (λ (a b : ActivatedMemory). leb_rank a.activation_rank b.activation_rank)
      (map (activated pin_governance pin_unresolved) events)

unfoldable pub is_unresolved_mem : ActivatedMemory → Bool
is_unresolved_mem m = contains m.status unresolved_statuses

pub record Sections : Type 0 where
  pub governance_context : List ActivatedMemory
  pub unresolved_items : List ActivatedMemory
  pub active_investigations : List ActivatedMemory
  pub relevant_memory : List ActivatedMemory

-- the three tests that set `placed`
unfoldable pub is_governance : ActivatedMemory → Bool
is_governance m =
    contains m.event_type governance_event_types
    && not (contains m.status governance_exclude_statuses)

unfoldable pub is_investigation : ActivatedMemory → Bool
unfolding is_unresolved_mem
is_investigation m = contains m.event_type investigation_event_types && not (is_unresolved_mem m)

abbrev add_if : Bool → ActivatedMemory → List ActivatedMemory → List ActivatedMemory
add_if test m section = if test then section ++ m ∷ [] else section

-- one item, with `placed` as it is after the three tests
unfoldable pub place : ActivatedMemory → Sections → Sections
unfolding is_governance is_unresolved_mem is_investigation
place m s =
    let placed = is_governance m || (is_unresolved_mem m || is_investigation m) in
    record {
      governance_context = add_if (is_governance m) m s.governance_context;
      unresolved_items = add_if (is_unresolved_mem m) m s.unresolved_items;
      active_investigations = add_if (is_investigation m) m s.active_investigations;
      relevant_memory =
          add_if (not placed && not (contains m.status governance_exclude_statuses)) m
            s.relevant_memory;
    }

unfoldable pub place_each : List ActivatedMemory → Sections → Sections
unfolding place
place_each [] s = s
place_each (m ∷ ms) s = place_each ms (place m s)

unfoldable pub partition_by_section : List ActivatedMemory → Sections
unfolding place_each
partition_by_section ms = place_each ms (record {
  governance_context = [];
  unresolved_items = [];
  active_investigations = [];
  relevant_memory = [];
})
