-- ===== src/Session/Activation/Partition.antt =====
-- `partition_by_section` of session/activation.py against the tests of its sections.
use deterministic_cognition.Prelude.{
  String, ◌==◌, ◌≡◌, refl, ◌∙◌, sym, inl, inr, Bool, true, false, not, ◌&&◌, ◌||◌, List, [], ◌∷◌,
  ◌++◌, append_assoc, append-nil, keep, contains, Bool-cases, eq_iff,
}
use deterministic_cognition.Session.Models.{ActivatedMemory}
use deterministic_cognition.Session.Activation.{
  Sections, governance_exclude_statuses, investigation_event_types, governance_event_types,
  unresolved_statuses, is_governance, is_investigation, is_unresolved_mem, add_if, place,
  place_each, partition_by_section,
}

-- no other section takes the item, and its status does not exclude it
abbrev pub is_relevant : ActivatedMemory → Bool
is_relevant m =
    not (is_governance m || (is_unresolved_mem m || is_investigation m))
    && not (contains m.status governance_exclude_statuses)

-- the sections as selections of the items, each in their order
abbrev pub Selects : List ActivatedMemory → Sections → Type 0
Selects ms s =
    (s.governance_context ≡ keep is_governance ms)
    × (s.unresolved_items ≡ keep is_unresolved_mem ms)
    × (s.active_investigations ≡ keep is_investigation ms)
    × (s.relevant_memory ≡ keep is_relevant ms)

-- an investigation is in one of two sections, and an item is in none exactly if its status excludes it and
-- it is no investigation
abbrev pub IsPlacedOnce : ActivatedMemory → Type 0
IsPlacedOnce m =
    (is_unresolved_mem m && is_investigation m ≡ false)
    × (is_governance m || (is_unresolved_mem m || (is_investigation m || is_relevant m))
        ≡ not (contains m.status governance_exclude_statuses) || is_investigation m)

add_if-keep :
    (p : ActivatedMemory → Bool)
    → (m : ActivatedMemory) → (ms acc : List ActivatedMemory)
    → add_if (p m) m acc ++ keep p ms ≡ acc ++ keep p (m ∷ ms)
add_if-keep p m ms acc = elim (Bool-cases (p m)) [
  | inl taken ↦ rw taken (append_assoc acc (m ∷ []) (keep p ms))
  | inr left ↦ rw left refl
]

place_each-keep :
    (ms : List ActivatedMemory)
    → (s : Sections)
    → ((place_each ms s).governance_context ≡ s.governance_context ++ keep is_governance ms)
      × ((place_each ms s).unresolved_items ≡ s.unresolved_items ++ keep is_unresolved_mem ms)
      × ((place_each ms s).active_investigations
          ≡ s.active_investigations ++ keep is_investigation ms)
      × ((place_each ms s).relevant_memory ≡ s.relevant_memory ++ keep is_relevant ms)
unfolding place_each place
place_each-keep [] s =
    (sym (append-nil _), sym (append-nil _), sym (append-nil _), sym (append-nil _))
place_each-keep (m ∷ ms) s =
    let (a, b, c, d) = place_each-keep ms (place m s) in
    (
      a ∙ add_if-keep is_governance m ms s.governance_context,
      b ∙ add_if-keep is_unresolved_mem m ms s.unresolved_items,
      c ∙ add_if-keep is_investigation m ms s.active_investigations,
      d ∙ add_if-keep is_relevant m ms s.relevant_memory,
    )

never_both : (u i : Bool) → u && (i && not u) ≡ false
never_both true true = refl
never_both true false = refl
never_both false i = refl

one_section :
    (g x u i : Bool)
    → u && x ≡ false
    → (g && not x) || (u || ((i && not u) || (not ((g && not x) || (u || (i && not u))) && not x)))
      ≡ not x || (i && not u)
one_section true true true i e = absurd cc
one_section false true true i e = absurd cc
one_section true true false true e = refl
one_section true true false false e = refl
one_section false true false true e = refl
one_section false true false false e = refl
one_section true false u i e = refl
one_section false false true i e = refl
one_section false false false true e = refl
one_section false false false false e = refl

-- no status is both unresolved and excluded
apart_statuses :
    (s : String) → contains s unresolved_statuses && contains s governance_exclude_statuses ≡ false
unfolding contains
apart_statuses s = elim (Bool-cases (s == "unresolved")) [
  | inl open_item ↦ rw ((eq_iff s "unresolved").0 open_item) refl
  | inr other ↦ elim (Bool-cases (s == "proposed")) [
    | inl offered ↦ rw ((eq_iff s "proposed").0 offered) refl
    | inr neither ↦ rw other (rw neither refl)
  ]
]

placed_once : (m : ActivatedMemory) → IsPlacedOnce m
unfolding is_governance is_unresolved_mem is_investigation contains
placed_once m =
    let g = contains m.event_type governance_event_types in
    let x = contains m.status governance_exclude_statuses in
    let u = contains m.status unresolved_statuses in
    let i = contains m.event_type investigation_event_types in
    (never_both u i, one_section g x u i (apart_statuses m.status))

-- The sections are the items that pass the tests for governance, unresolved items, investigations and the
-- rest, in their order. No item is among the unresolved items and the investigations, and it is in no
-- section exactly if its status is one of the excluded ones and it is no investigation.
pub partition_by_section-Selects :
    (ms : List ActivatedMemory)
    → Selects ms (partition_by_section ms) × ((m : ActivatedMemory) → IsPlacedOnce m)
unfolding partition_by_section
partition_by_section-Selects ms = (place_each-keep ms _, placed_once)
