-- ===== src/Memory/Retrieval/Passes.antt =====
-- What `retrieve` of memory/retrieval.py returns without the expansion by related events.
use deterministic_cognition.Prelude.{
  ◌+◌, ◌-◌, subst, if◌then◌else◌, ℤ, pos, ◌+ℤ◌, leb_ℤ, ◌==◌, ◌&&◌, ◌||◌, ◌⊎◌, ◌∙◌, sym, ap, refl,
  any, Any, All-map, All-sort_by, All-weaken, contains, eq_iff, ℕ, zero, suc, ◌≤◌, ◌≡◌, inl, inr,
  Bool, true, false, List, [], ◌∷◌, map, keep, length, All, Bool-cases, arith, sort_by, String,
}
use deterministic_cognition.Session.Activation.{MemoryEvent, ScoredEvent, leb_rank}
use deterministic_cognition.Memory.Retrieval.{
  RetrievalQuery, MemoryDb, passes, fetch_candidates, score_events, composite_key, expand_related,
  revised, slice, index_of, is_empty, take, drop, found, retrieve,
}

All-take {ℓ} :
    {A : Type ℓ} → (P : A → Type 0) → (n : ℕ) → (xs : List A) → All P xs → All P (take n xs)
unfolding take
All-take P zero xs h = tt
All-take P (suc n) [] h = tt
All-take P (suc n) (x ∷ xs) h = (h.0, All-take P n xs h.1)

All-drop {ℓ} :
    {A : Type ℓ} → (P : A → Type 0) → (n : ℕ) → (xs : List A) → All P xs → All P (drop n xs)
unfolding drop
All-drop P zero xs h = h
All-drop P (suc n) [] h = tt
All-drop P (suc n) (x ∷ xs) h = All-drop P n xs h.1

length-take {ℓ} : {A : Type ℓ} → (n : ℕ) → (xs : List A) → length (take n xs) ≤ n
unfolding take
length-take zero xs = omega arith
length-take (suc n) [] = omega arith
length-take (suc n) (x ∷ xs) = omega (arith, length-take n xs)

length-drop-take {ℓ} :
    {A : Type ℓ} → (o m : ℕ) → (xs : List A) → length (drop o (take m xs)) ≤ m - o
unfolding take drop
length-drop-take zero m xs = omega (arith, length-take m xs)
length-drop-take (suc o) zero xs = omega arith
length-drop-take (suc o) (suc m) [] = omega arith
length-drop-take (suc o) (suc m) (x ∷ xs) = omega (arith, length-drop-take o m xs)

All-slice {ℓ} :
    {A : Type ℓ} → (P : A → Type 0) → (i j : ℤ) → (xs : List A) → All P xs → All P (slice i j xs)
unfolding slice
All-slice P i j xs h =
    All-drop P (index_of (length xs) i) _ (All-take P (index_of (length xs) j) xs h)

-- what the query asks of an event, in the columns of its row
pub record Satisfies (q : RetrievalQuery) (e : MemoryEvent) : Type 0 where
  pub event_type : (q.event_types ≡ []) ⊎ Any (λ t. t ≡ e.event_type) q.event_types
  pub status : (q.statuses ≡ []) ⊎ Any (λ s. s ≡ e.status) q.statuses
  pub confidence :
      (leb_ℤ q.min_confidence (pos 1) ≡ true) ⊎ (leb_ℤ q.min_confidence e.confidence ≡ true)
  pub tags : (q.tags ≡ []) ⊎ Any (λ tag. Any (λ t. t ≡ tag) e.tags) q.tags

contains-Any : (x : String) → (ys : List String) → contains x ys ≡ true → Any (λ y. y ≡ x) ys
unfolding contains
contains-Any x [] h = absurd (ground arith)
contains-Any x (y ∷ ys) h = elim (Bool-cases (x == y)) [
  | inl here ↦ inl (sym ((eq_iff x y).0 here))
  | inr there ↦ inr (contains-Any x ys (sym (ap (λ b. b || contains x ys) there) ∙ h))
]

any_tag-Any :
    (ts tags : List String)
    → any (λ tag. contains tag ts) tags ≡ true
    → Any (λ tag. Any (λ t. t ≡ tag) ts) tags
any_tag-Any ts [] h = absurd (ground arith)
any_tag-Any ts (tag ∷ tags) h = elim (Bool-cases (contains tag ts)) [
  | inl here ↦ inl (contains-Any tag ts here)
  | inr there ↦
      inr (any_tag-Any ts tags (sym (ap (λ b. b || any (λ tag. contains tag ts) tags) there) ∙ h))
]

empty_or : (xs : List String) → (b : Bool) → is_empty xs || b ≡ true → (xs ≡ []) ⊎ (b ≡ true)
empty_or [] b h = inl refl
empty_or (x ∷ xs) b h = inr h

or_cases : (a b : Bool) → a || b ≡ true → (a ≡ true) ⊎ (b ≡ true)
or_cases true b h = inl refl
or_cases false b h = inr h

or_weaken {ℓ} : {A B C : Type ℓ} → (B → C) → A ⊎ B → A ⊎ C
or_weaken f (inl a) = inl a
or_weaken f (inr b) = inr (f b)

and_cases : (a b : Bool) → a && b ≡ true → (a ≡ true) × (b ≡ true)
and_cases true b h = (refl, h)
and_cases false b h = absurd (ground arith)

passes-Satisfies : (q : RetrievalQuery) → (e : MemoryEvent) → passes q e ≡ true → Satisfies q e
unfolding passes
passes-Satisfies q e h =
    let (typed, h1) = and_cases _ _ h in
    let (live, h2) = and_cases _ _ h1 in
    let (sure, tagged) = and_cases _ _ h2 in
    record {
      event_type =
          or_weaken (contains-Any e.event_type q.event_types) (empty_or q.event_types _ typed);
      status = or_weaken (contains-Any e.status q.statuses) (empty_or q.statuses _ live);
      confidence = or_cases _ _ sure;
      tags = or_weaken (any_tag-Any e.tags q.tags) (empty_or q.tags _ tagged);
    }

-- the event of the item is a row of the table, and is what the query asks for
abbrev pub Answers : MemoryDb → RetrievalQuery → ScoredEvent → Type 0
Answers db q s = Any (λ e. e ≡ s.event) db.events × Satisfies q s.event

kept-rows :
    (db : MemoryDb)
    → (q : RetrievalQuery) → (rows : List MemoryEvent) → All (λ e. Any (λ r. r ≡ e) db.events) rows
    → All (λ e. Any (λ r. r ≡ e) db.events × Satisfies q e) (keep (passes q) rows)
kept-rows db q [] h = tt
kept-rows db q (e ∷ rows) h = elim (Bool-cases (passes q e)) [
  | inl kept ↦ rw kept ((h.0, passes-Satisfies q e kept), kept-rows db q rows h.1)
  | inr left ↦ rw left (kept-rows db q rows h.1)
]

All-own : {A : Type 0} → (xs : List A) → All (λ x. Any (λ y. y ≡ x) xs) xs
All-own [] = tt
All-own (x ∷ xs) = (
  inl refl,
  All-weaken (λ z. Any (λ y. y ≡ z) xs) (λ z. Any (λ y. y ≡ z) (x ∷ xs)) (λ z k. inr k) xs
      (All-own xs),
)

found-Answers :
    (db : MemoryDb)
    → (q : RetrievalQuery) → q.expand_related ≡ false
    → All (Answers db q) (found db q)
unfolding found fetch_candidates score_events
found-Answers db q plain =
    let scored = score_events (keep (passes q) db.events) q.tags false in
    subst (λ b. All (Answers db q) (if b then expand_related db scored q.tags else scored))
      (sym plain)
      (All-map (Answers db q) _ (keep (passes q) db.events)
        (kept-rows db q db.events (All-own db.events)))

slice-length {ℓ} :
    {A : Type ℓ} → (o n : ℕ) → (xs : List A) → length (slice (pos o) (pos o +ℤ pos n) xs) ≤ n
unfolding slice ◌+ℤ◌
slice-length o n xs = omega (arith, length-drop-take o (o + n) xs)

-- Without the expansion, and for an offset and a limit that are not negative, each item that `retrieve`
-- returns is of a row of the table, whose type and status are among those of the query if it names any,
-- whose confidence is at least the least one that the query asks for if that is above 1, and which has one
-- of the tags of the query if it names any; and there are at most as many items as the limit says.
pub retrieve-Passes :
    (db : MemoryDb)
    → (q : RetrievalQuery) → q.expand_related ≡ false
    → (o n : ℕ) → q.offset ≡ pos o
    → q.limit ≡ pos n
    → All (Answers db q) (retrieve db q) × (length (retrieve db q) ≤ n)
unfolding retrieve
retrieve-Passes db q plain o n from most = (
  All-slice (Answers db q) q.offset (q.offset +ℤ q.limit) _ (
      All-sort_by (Answers db q)
        (λ (a b : ScoredEvent). leb_rank (composite_key a) (composite_key b))
        (map (revised db) (found db q))
        (All-map (Answers db q) (revised db) (found db q) (found-Answers db q plain))),
  let xs =
        sort_by (λ (a b : ScoredEvent). leb_rank (composite_key a) (composite_key b))
          (map (revised db) (found db q)) in
      subst (λ i. length (slice i (i +ℤ q.limit) xs) ≤ n) (sym from)
        (subst (λ j. length (slice (pos o) (pos o +ℤ j) xs) ≤ n) (sym most) (slice-length o n xs)),
)
