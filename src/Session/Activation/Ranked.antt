-- ===== src/Session/Activation/Ranked.antt =====
-- `score_and_rank` of session/activation.py: its items in the order of their ranks.
use deterministic_cognition.Prelude.{
  ℕ, zero, suc, pos, negsuc, leb_ℤ, String, ◌==◌, ◌<◌, ltb, ◌⊎◌, All, All-sort_by, get, get_or,
  contains, if◌then◌else◌, ℤ, ltb_ℤ, ◌≡◌, refl, ◌∙◌, sym, ap, inl, inr, Bool, true, false, not,
  ◌&&◌, ◌||◌, List, [], ◌∷◌, map, keep, length, sort_by, Bool-cases, arith,
}
use deterministic_cognition.Session.Models.{ActivatedMemory}
use deterministic_cognition.Session.Activation.{
  ScoredEvent, leb_rank, negated, tier_of, is_unresolved, doctrine_rank, activation_rank, activated,
  score_and_rank,
}
use deterministic_cognition.Session.Activation.Sorted.{IsOrdered, sort_by-IsOrdered, sort_by-keep}

ltb_ℤ-total :
    (x y : ℤ)
    → (b c : Bool) → b || c ≡ true
    → (ltb_ℤ x y || (not (ltb_ℤ y x) && b)) || (ltb_ℤ y x || (not (ltb_ℤ x y) && c)) ≡ true
ltb_ℤ-total x y b c e = total (ltb_ℤ x y) (ltb_ℤ y x) b c e
  where
    total : (p q b c : Bool) → b || c ≡ true → (p || (not q && b)) || (q || (not p && c)) ≡ true
    total true q b c e = refl
    total false true b c e = refl
    total false false true c e = refl
    total false false false c e = e

ltb_ℤ-asym : (x y : ℤ) → ltb_ℤ y x ≡ true → ltb_ℤ x y ≡ false
ltb_ℤ-asym (pos a) (pos b) h = ground arith
ltb_ℤ-asym (pos a) (negsuc b) h = refl
ltb_ℤ-asym (negsuc a) (pos b) h = sym h
ltb_ℤ-asym (negsuc a) (negsuc b) h = ground arith

leb_rank-total : (xs ys : List ℤ) → leb_rank xs ys || leb_rank ys xs ≡ true
unfolding leb_rank
leb_rank-total [] ys = refl
leb_rank-total (x ∷ xs) [] = refl
leb_rank-total (x ∷ xs) (y ∷ ys) =
    ltb_ℤ-total x y (leb_rank xs ys) (leb_rank ys xs) (leb_rank-total xs ys)

abbrev by_rank : ActivatedMemory → ActivatedMemory → Bool
by_rank a b = leb_rank a.activation_rank b.activation_rank

-- pinned governance, pinned items that are unresolved, other items of the query, items related to those
abbrev pub tier : Bool → Bool → ActivatedMemory → ℕ
tier pin_governance pin_unresolved m =
    if pin_governance
      && (m.event_type == "governance_rule" || m.event_type == "architecture_decision")
    then 0
    else if pin_unresolved && (m.status == "unresolved" || m.status == "proposed")
    then 1
    else if m.is_expanded
    then 3
    else 2

-- the place of a type of events in the doctrine
abbrev pub doctrine : String → ℕ
doctrine x =
    if x == "governance_rule"
    then 1
    else if x == "architecture_decision"
    then 2
    else if x == "validation_result"
    then 3
    else if x == "adaptation"
    then 4
    else if x == "hypothesis"
    then 5
    else if x == "implementation_note"
    then 6
    else 7

-- a lower tier comes first, in a tier the higher doctrine, and among equal ones the higher confidence
abbrev pub ComesBefore : Bool → Bool → ActivatedMemory → ActivatedMemory → Type 0
ComesBefore g u a b =
    (tier g u a < tier g u b)
    ⊎ ((tier g u a ≡ tier g u b)
        × ((doctrine a.event_type < doctrine b.event_type)
            ⊎ ((doctrine a.event_type ≡ doctrine b.event_type)
                × (leb_ℤ b.confidence a.confidence ≡ true))))

abbrev pub Leads :
    (ActivatedMemory → ActivatedMemory → Type 0) → ActivatedMemory → List ActivatedMemory → Type 0
Leads R a [] = Unit
Leads R a (b ∷ bs) = R a b

-- each item stands in the relation to the next one
abbrev pub Chained : (ActivatedMemory → ActivatedMemory → Type 0) → List ActivatedMemory → Type 0
Chained R [] = Unit
Chained R (a ∷ as') = Leads R a as' × Chained R as'

-- the rank of the item is read off its fields
abbrev IsRanked : Bool → Bool → ActivatedMemory → Type 0
IsRanked g u m =
    (rest : List ℤ) × (m.activation_rank
      ≡ pos (tier g u m) ∷ pos (doctrine m.event_type) ∷ negated m.confidence ∷ rest)

tier_of-tier : (g u : Bool) → (s : ScoredEvent) → tier_of g u s ≡ tier g u (activated g u s)
unfolding tier_of is_unresolved contains
tier_of-tier g u s = ground arith

doctrine_rank-doctrine : (x : String) → doctrine_rank x ≡ doctrine x
unfolding doctrine_rank get_or get
doctrine_rank-doctrine x = ground arith

activated-IsRanked : (g u : Bool) → (s : ScoredEvent) → IsRanked g u (activated g u s)
unfolding activation_rank
activated-IsRanked g u s = (
  pos s.recency_rank ∷ negated (pos s.tag_overlap) ∷ pos s.event.id ∷ [],
  ap
        (λ t.
          pos t
          ∷ pos (doctrine_rank s.event.event_type)
          ∷ negated s.effective_confidence
          ∷ pos s.recency_rank
          ∷ negated (pos s.tag_overlap)
          ∷ pos s.event.id
          ∷ [])
        (tier_of-tier g u s)
      ∙ ap
          (λ d.
            pos (tier g u (activated g u s))
            ∷ pos d
            ∷ negated s.effective_confidence
            ∷ pos s.recency_rank
            ∷ negated (pos s.tag_overlap)
            ∷ pos s.event.id
            ∷ [])
          (doctrine_rank-doctrine s.event.event_type),
)

all_activated-IsRanked :
    (g u : Bool) → (es : List ScoredEvent) → All (IsRanked g u) (map (activated g u) es)
all_activated-IsRanked g u [] = tt
all_activated-IsRanked g u (e ∷ es) = (activated-IsRanked g u e, all_activated-IsRanked g u es)

negated-leb : (c d : ℤ) → ltb_ℤ (negated d) (negated c) ≡ false → leb_ℤ d c ≡ true
negated-leb (pos zero) (pos zero) h = refl
negated-leb (pos zero) (pos (suc d)) h = ground arith
negated-leb (pos zero) (negsuc d) h = refl
negated-leb (pos (suc c)) (pos zero) h = ground arith
negated-leb (pos (suc c)) (pos (suc d)) h = ground arith
negated-leb (pos (suc c)) (negsuc d) h = refl
negated-leb (negsuc c) (pos zero) h = ground arith
negated-leb (negsuc c) (pos (suc d)) h = ground arith
negated-leb (negsuc c) (negsuc d) h = ground arith

lexicographic :
    (t t' d d' : ℕ)
    → (c c' : ℤ) → (rest rest' : List ℤ)
    → leb_rank (pos t ∷ pos d ∷ negated c ∷ rest) (pos t' ∷ pos d' ∷ negated c' ∷ rest') ≡ true
    → (t < t') ⊎ ((t ≡ t') × ((d < d') ⊎ ((d ≡ d') × (leb_ℤ c' c ≡ true))))
unfolding leb_rank
lexicographic t t' d d' c c' rest rest' h = elim (Bool-cases (ltb t t')) [
  | inl lower ↦ inl (ground arith)
  | inr level ↦ elim (Bool-cases (ltb d d')) [
    | inl higher ↦ inr (ground (arith, h), inl (ground arith))
    | inr same ↦ elim (Bool-cases (ltb_ℤ (negated c') (negated c))) [
      | inl worse ↦ absurd (ground (arith, h, ltb_ℤ-asym (negated c) (negated c')))
      | inr better ↦ inr (ground (arith, h), inr (ground (arith, h), negated-leb c c' better))
    ]
  ]
]

rank-ComesBefore :
    (g u : Bool)
    → (a b : ActivatedMemory) → IsRanked g u a
    → IsRanked g u b
    → by_rank a b ≡ true
    → ComesBefore g u a b
rank-ComesBefore g u a b (r, p) (q, k) h =
    lexicographic (tier g u a) (tier g u b) (doctrine a.event_type) (doctrine b.event_type)
      a.confidence b.confidence r q
      (ap
          (λ l.
            leb_rank l (pos (tier g u b) ∷ pos (doctrine b.event_type) ∷ negated b.confidence ∷ q))
          (sym p)
        ∙ ap (λ l. leb_rank a.activation_rank l) (sym k)
        ∙ h)

chained :
    (g u : Bool)
    → (ms : List ActivatedMemory) → All (IsRanked g u) ms
    → IsOrdered by_rank ms
    → Chained (ComesBefore g u) ms
chained g u [] r h = tt
chained g u (a ∷ []) r h = (tt, tt)
chained g u (a ∷ b ∷ ms) r h =
    (rank-ComesBefore g u a b r.0 r.1.0 h.0, chained g u (b ∷ ms) r.1 h.1)

-- Each item that `score_and_rank` returns is of a lower tier than the next one, or of the same tier and of
-- a type that is higher in the doctrine, or of the same tier and place in the doctrine and of at least
-- the confidence. The tiers are governance where it is pinned, unresolved items where they are pinned,
-- other items of the query, and items related to those. For any test as many of the items pass it as of
-- those that the scored events give: none is lost, added or repeated.
pub score_and_rank-IsOrdered :
    (pin_governance pin_unresolved : Bool)
    → (events : List ScoredEvent)
    → Chained
        (ComesBefore pin_governance pin_unresolved)
        (score_and_rank pin_governance pin_unresolved events)
      × ((p : ActivatedMemory → Bool)
          → length (keep p (score_and_rank pin_governance pin_unresolved events))
            ≡ length (keep p (map (activated pin_governance pin_unresolved) events)))
unfolding score_and_rank
score_and_rank-IsOrdered g u events = (
  chained g u (sort_by by_rank (map (activated g u) events))
      (All-sort_by (IsRanked g u) by_rank (map (activated g u) events)
        (all_activated-IsRanked g u events))
      (sort_by-IsOrdered by_rank (λ a b. leb_rank-total a.activation_rank b.activation_rank)
        (map (activated g u) events)),
  λ p. sort_by-keep by_rank p (map (activated g u) events),
)
