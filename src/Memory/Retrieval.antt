-- ===== src/Memory/Retrieval.antt =====
-- memory/retrieval.py without a query vector and without the log: the events that pass a query, scored,
-- expanded by related events, sorted and cut; and the passes that session/activation.py joins.
pub mod Passes
pub mod Complete
pub mod Distinct
pub mod Examples
use deterministic_cognition.Prelude.{
  ℕ, zero, suc, ◌-◌, ℤ, pos, negsuc, ◌+ℤ◌, leb_ℤ, String, ◌==◌, Bool, true, false, not, ◌&&◌, ◌||◌,
  Option, none, some, List, [], ◌∷◌, ◌++◌, map, keep, any, gather, length, eqb, leb, str_leb,
  contains, to_set, sorted, sort_by, if◌then◌else◌,
}
use deterministic_cognition.Session.Models.{ActivatedMemory, ContextActivationPolicy}
use deterministic_cognition.Session.Activation.{
  MemoryEvent, ScoredEvent, doctrine_rank, negated, leb_rank, governance_event_types,
  investigation_event_types, unresolved_statuses, score_and_rank,
}

pub record RetrievalQuery : Type 0 where
  pub tags : List String
  pub event_types : List String
  pub statuses : List String
  pub min_confidence : ℤ
  pub limit : ℤ
  pub offset : ℤ
  pub expand_related : Bool

-- the columns that are read of confidence_revisions
pub record ConfidenceRevision : Type 0 where
  pub memory_event_id : ℕ
  pub confidence_after : ℤ
  pub revision_type : String
  pub status : String

-- the tables memory_events, memory_links (its two ends) and confidence_revisions, by id
pub record MemoryDb : Type 0 where
  pub events : List MemoryEvent
  pub links : List (ℕ × ℕ)
  pub revisions : List ConfidenceRevision

-- memory/service.py: `get_effective_confidence_batch`, for one id; the last of the rows counts
unfoldable pub effective_confidence : ℕ → List ConfidenceRevision → ℤ → ℤ
effective_confidence id [] found = found
effective_confidence id (r ∷ rs) found = effective_confidence id rs (
    if eqb r.memory_event_id id && ((r.revision_type == "operator") && (r.status == "active"))
    then r.confidence_after
    else found)

abbrev pub is_empty {ℓ} : {A : Type ℓ} → List A → Bool
is_empty [] = true
is_empty (_ ∷ _) = false

-- the clauses of `_fetch_candidates`
unfoldable pub passes : RetrievalQuery → MemoryEvent → Bool
passes q e =
    (is_empty q.event_types || contains e.event_type q.event_types)
    && ((is_empty q.statuses || contains e.status q.statuses)
        && ((leb_ℤ q.min_confidence (pos 1) || leb_ℤ q.min_confidence e.confidence)
            && (is_empty q.tags || any (λ tag. contains tag e.tags) q.tags)))

unfoldable pub fetch_candidates : MemoryDb → RetrievalQuery → List MemoryEvent
unfolding passes
fetch_candidates db q = keep (passes q) db.events

-- `reverse=True` on the key (updated_at, id)
abbrev pub is_later : MemoryEvent → MemoryEvent → Bool
is_later a b =
    not (str_leb a.updated_at b.updated_at) || ((a.updated_at == b.updated_at) && leb b.id a.id)

unfoldable pub position_of : ℕ → List MemoryEvent → ℕ
position_of id [] = 0
position_of id (e ∷ es) = let rest = position_of id es in if eqb e.id id then 0 else suc rest

unfoldable pub score_events : List MemoryEvent → List String → Bool → List ScoredEvent
unfolding position_of
score_events events query_tags is_expanded =
    map
      (λ (e : MemoryEvent). record {
        event = e;
        tag_overlap = length (keep (λ tag. contains tag query_tags) (to_set e.tags));
        recency_rank = position_of e.id (sort_by is_later events);
        is_expanded = is_expanded;
        semantic_rank = 0;
        effective_confidence = e.confidence;
      })
      events

abbrev pub is_id : ℕ → List ℕ → Bool
is_id id ids = any (λ j. eqb j id) ids

-- the ids that `_expand_related` fetches: those related to or linked with the events seen
unfoldable pub related_ids_to_fetch : MemoryDb → List ScoredEvent → List ℕ
related_ids_to_fetch db primary =
    let seen = map (λ (s : ScoredEvent). s.event.id) primary in
    keep (λ id. not (is_id id seen))
      (gather (λ (s : ScoredEvent). s.event.related_ids) primary
        ++ gather (λ (l : ℕ × ℕ). if is_id l.0 seen || is_id l.1 seen then l.0 ∷ l.1 ∷ [] else [])
            db.links)

unfoldable pub expand_related : MemoryDb → List ScoredEvent → List String → List ScoredEvent
unfolding related_ids_to_fetch score_events
expand_related db primary query_tags =
    let ids = related_ids_to_fetch db primary in
    if is_empty ids
    then primary
    else primary
      ++ score_events (keep (λ (e : MemoryEvent). is_id e.id ids) db.events) query_tags true

unfoldable pub composite_key : ScoredEvent → List ℤ
composite_key s =
    pos (if s.is_expanded then 1 else 0)
    ∷ pos (doctrine_rank s.event.event_type)
    ∷ negated s.effective_confidence
    ∷ pos s.semantic_rank
    ∷ pos s.recency_rank
    ∷ negated (pos s.tag_overlap)
    ∷ pos s.event.id
    ∷ []

-- `s.effective_confidence = eff_conf.get(...)`
abbrev pub revised : MemoryDb → ScoredEvent → ScoredEvent
revised db s = record s {
  effective_confidence = effective_confidence s.event.id db.revisions s.event.confidence;
}

unfoldable pub take {ℓ} : {A : Type ℓ} → ℕ → List A → List A
take zero xs = []
take (suc n) [] = []
take (suc n) (x ∷ xs) = x ∷ take n xs

unfoldable pub drop {ℓ} : {A : Type ℓ} → ℕ → List A → List A
drop zero xs = xs
drop (suc n) [] = []
drop (suc n) (x ∷ xs) = drop n xs

-- the index that a bound of a slice of `n` elements stands for; a negative one counts from the end
abbrev pub index_of : ℕ → ℤ → ℕ
index_of n (pos i) = i
index_of n (negsuc i) = n - suc i

-- `xs[start:end]`
unfoldable pub slice {ℓ} : {A : Type ℓ} → ℤ → ℤ → List A → List A
unfolding take drop
slice start end xs = drop (index_of (length xs) start) (take (index_of (length xs) end) xs)

unfoldable pub found : MemoryDb → RetrievalQuery → List ScoredEvent
unfolding fetch_candidates score_events expand_related
found db q =
    let scored = score_events (fetch_candidates db q) q.tags false in
    if q.expand_related then expand_related db scored q.tags else scored

unfoldable pub retrieve : MemoryDb → RetrievalQuery → List ScoredEvent
unfolding found composite_key slice
retrieve db q = slice q.offset (q.offset +ℤ q.limit) (
    sort_by (λ (a b : ScoredEvent). leb_rank (composite_key a) (composite_key b))
      (map (revised db) (found db q)))

abbrev pub query : List String → List String → List String → ℤ → ℤ → Bool → RetrievalQuery
query tags event_types statuses min_confidence limit expand = record {
  tags = tags;
  event_types = event_types;
  statuses = statuses;
  min_confidence = min_confidence;
  limit = limit;
  offset = pos 0;
  expand_related = expand;
}

abbrev pub retrieve_unresolved : MemoryDb → ℤ → List ScoredEvent
retrieve_unresolved db limit = retrieve db (query [] [] unresolved_statuses (pos 1) limit false)

abbrev pub retrieve_governance : MemoryDb → ℤ → List ScoredEvent
retrieve_governance db limit =
    retrieve db (query [] governance_event_types ("active" ∷ "accepted" ∷ []) (pos 1) limit false)

abbrev pub retrieve_investigations : MemoryDb → ℤ → ℤ → List ScoredEvent
retrieve_investigations db limit min_confidence =
    retrieve db
      (query [] investigation_event_types ("active" ∷ "accepted" ∷ []) min_confidence limit false)

abbrev pub valid_event_types : List String
valid_event_types =
    "architecture_decision" ∷ "governance_rule" ∷ "hypothesis" ∷ "experiment" ∷ "validation_result"
    ∷ "adaptation" ∷ "regime_observation" ∷ "implementation_note" ∷ "open_question"
    ∷ "rejected_idea" ∷ "incident" ∷ "source_reference" ∷ []

abbrev pub non_governance_event_types : List String
non_governance_event_types =
    sorted (keep (λ t. not (contains t governance_event_types)) valid_event_types)

-- `_add`; the ids seen are those of what is collected
unfoldable pub add_each : List ScoredEvent → List ScoredEvent → List ScoredEvent
add_each [] collected = collected
add_each (e ∷ es) collected = add_each es (
    if any (λ (s : ScoredEvent). eqb s.event.id e.event.id) collected
    then collected
    else collected ++ e ∷ [])

abbrev when : Bool → List ScoredEvent → List ScoredEvent
when true es = es
when false es = []

-- the passes of `activate_memory`, in their order
abbrev pub all_passes : MemoryDb → ContextActivationPolicy → List (List ScoredEvent)
all_passes db policy =
    retrieve_governance db policy.max_memory_candidates
    ∷ when policy.include_unresolved (retrieve_unresolved db policy.max_memory_candidates)
    ∷ when policy.include_investigations
        (retrieve_investigations db policy.max_memory_candidates policy.min_confidence)
    ∷ when policy.include_adaptations (
        retrieve db (
          query policy.tags ("adaptation" ∷ []) [] policy.min_confidence
            policy.max_memory_candidates false))
    ∷ retrieve db (
        query policy.tags non_governance_event_types ("active" ∷ "accepted" ∷ [])
          policy.min_confidence policy.max_memory_candidates policy.expand_related)
    ∷ []

unfoldable pub add_passes : List (List ScoredEvent) → List ScoredEvent → List ScoredEvent
unfolding add_each
add_passes [] collected = collected
add_passes (es ∷ rest) collected = add_passes rest (add_each es collected)

unfoldable pub collected_events : MemoryDb → ContextActivationPolicy → List ScoredEvent
unfolding add_passes
collected_events db policy = add_passes (all_passes db policy) []

unfoldable pub activate_memory : MemoryDb → ContextActivationPolicy → List ActivatedMemory
unfolding collected_events
activate_memory db policy =
    score_and_rank true policy.include_unresolved (collected_events db policy)
