-- ===== src/Memory/Retrieval/Complete.antt =====
-- `retrieve` of memory/retrieval.py leaves out no event that the query asks for, where the limit allows it.
use deterministic_cognition.Prelude.{
  ℕ, zero, suc, ◌≤◌, ◌+◌, pos, ◌+ℤ◌, String, ◌≡◌, refl, ◌∙◌, sym, ap, subst, Bool, true, false,
  ◌&&◌, ◌||◌, ◌⊎◌, inl, inr, List, [], ◌∷◌, map, keep, length, any, Any, contains, insort_by,
  sort_by, eq_iff, if◌then◌else◌, arith, Bool-cases,
}
use deterministic_cognition.Session.Activation.{MemoryEvent, ScoredEvent, leb_rank}
use deterministic_cognition.Memory.Retrieval.{
  RetrievalQuery, MemoryDb, is_empty, passes, fetch_candidates, score_events, expand_related,
  composite_key, revised, slice, take, drop, found, retrieve,
}
use deterministic_cognition.Memory.Retrieval.Passes.{Satisfies}

Any-contains : (x : String) → (ys : List String) → Any (λ y. y ≡ x) ys → contains x ys ≡ true
unfolding contains
Any-contains x [] h = elim h [ ]
Any-contains x (y ∷ ys) (inl here) = ground (arith, here, eq_iff x y)
Any-contains x (y ∷ ys) (inr there) = ground (arith, Any-contains x ys there)

Any-any_tag :
    (ts tags : List String)
    → Any (λ tag. Any (λ t. t ≡ tag) ts) tags
    → any (λ tag. contains tag ts) tags ≡ true
Any-any_tag ts [] h = elim h [ ]
Any-any_tag ts (tag ∷ tags) (inl here) = rw (Any-contains tag ts here) refl
Any-any_tag ts (tag ∷ tags) (inr there) = ground (arith, Any-any_tag ts tags there)

or_empty : (xs : List String) → (b : Bool) → (xs ≡ []) ⊎ (b ≡ true) → is_empty xs || b ≡ true
or_empty xs b (inl none_asked) = rw none_asked refl
or_empty [] b (inr h) = refl
or_empty (x ∷ xs) b (inr h) = h

either : (a b : Bool) → (a ≡ true) ⊎ (b ≡ true) → a || b ≡ true
either a b (inl h) = rw h refl
either true b (inr h) = refl
either false b (inr h) = h

both : (a b : Bool) → a ≡ true → b ≡ true → a && b ≡ true
both a b h k = rw h k

second : {A B C : Type 0} → (B → C) → A ⊎ B → A ⊎ C
second f (inl a) = inl a
second f (inr b) = inr (f b)

Satisfies-passes : (q : RetrievalQuery) → (e : MemoryEvent) → Satisfies q e → passes q e ≡ true
unfolding passes
Satisfies-passes q e h =
    both _ _
      (or_empty q.event_types _ (second (Any-contains e.event_type q.event_types) h.event_type))
      (both _ _ (or_empty q.statuses _ (second (Any-contains e.status q.statuses) h.status)) (
        both _ _ (either _ _ h.confidence)
          (or_empty q.tags _ (second (Any-any_tag e.tags q.tags) h.tags))))

Any-keep :
    {A : Type 0}
    → (p : A → Bool) → (e : A) → (xs : List A) → p e ≡ true
    → Any (λ x. x ≡ e) xs
    → Any (λ x. x ≡ e) (keep p xs)
Any-keep p e [] k h = h
Any-keep p e (x ∷ xs) k (inl here) = rw (ap p here ∙ k) (inl here)
Any-keep p e (x ∷ xs) k (inr there) = elim (Bool-cases (p x)) [
  | inl kept ↦ rw kept (inr (Any-keep p e xs k there))
  | inr left ↦ rw left (Any-keep p e xs k there)
]

Any-map :
    {A B : Type 0}
    → (P : B → Type 0) → (Q : A → Type 0) → (f : A → B) → ((a : A) → Q a → P (f a))
    → (xs : List A) → Any Q xs
    → Any P (map f xs)
Any-map P Q f k [] h = h
Any-map P Q f k (x ∷ xs) (inl here) = inl (k x here)
Any-map P Q f k (x ∷ xs) (inr there) = inr (Any-map P Q f k xs there)

Any-insort_by :
    {A : Type 0}
    → (P : A → Type 0) → (le : A → A → Bool) → (x : A) → (xs : List A) → P x ⊎ Any P xs
    → Any P (insort_by le x xs)
unfolding insort_by
Any-insort_by P le x [] h = h
Any-insort_by P le x (y ∷ ys) h = elim (Bool-cases (le x y)) [
  | inl here ↦ rw here h
  | inr later ↦ rw later (elim h [
    | inl own ↦ inr (Any-insort_by P le x ys (inl own))
    | inr (inl first) ↦ inl first
    | inr (inr rest) ↦ inr (Any-insort_by P le x ys (inr rest))
  ])
]

Any-sort_by :
    {A : Type 0}
    → (P : A → Type 0) → (le : A → A → Bool) → (xs : List A) → Any P xs
    → Any P (sort_by le xs)
unfolding sort_by
Any-sort_by P le [] h = h
Any-sort_by P le (x ∷ xs) (inl here) = Any-insort_by P le x (sort_by le xs) (inl here)
Any-sort_by P le (x ∷ xs) (inr there) =
    Any-insort_by P le x (sort_by le xs) (inr (Any-sort_by P le xs there))

length-insort_by :
    {A : Type 0}
    → (le : A → A → Bool) → (x : A) → (xs : List A) → length (insort_by le x xs) ≡ suc (length xs)
unfolding insort_by
length-insort_by le x [] = refl
length-insort_by le x (y ∷ ys) = ground (arith, length-insort_by le x ys)

length-sort_by :
    {A : Type 0} → (le : A → A → Bool) → (xs : List A) → length (sort_by le xs) ≡ length xs
unfolding sort_by
length-sort_by le [] = refl
length-sort_by le (x ∷ xs) = length-insort_by le x (sort_by le xs) ∙ ap suc (length-sort_by le xs)

length-map : {A B : Type 0} → (f : A → B) → (xs : List A) → length (map f xs) ≡ length xs
length-map f [] = refl
length-map f (x ∷ xs) = ap suc (length-map f xs)

length-keep : {A : Type 0} → (p : A → Bool) → (xs : List A) → length (keep p xs) ≤ length xs
length-keep p [] = omega arith
length-keep p (x ∷ xs) = ground (arith, length-keep p xs)

take_all : {A : Type 0} → (n : ℕ) → (xs : List A) → length xs ≤ n → take n xs ≡ xs
unfolding take
take_all zero [] h = refl
take_all zero (x ∷ xs) h = absurd (omega arith)
take_all (suc n) [] h = refl
take_all (suc n) (x ∷ xs) h = ap (λ ys. x ∷ ys) (take_all n xs (omega arith))

slice_all :
    {A : Type 0} → (n : ℕ) → (xs : List A) → length xs ≤ n → slice (pos 0) (pos 0 +ℤ pos n) xs ≡ xs
unfolding slice drop ◌+ℤ◌
slice_all n xs h = take_all (0 + n) xs (omega arith)

length-score_events :
    (es : List MemoryEvent)
    → (tags : List String) → (b : Bool) → length (score_events es tags b) ≡ length es
unfolding score_events
length-score_events es tags b = length-map _ es

-- The first page: without the expansion, with offset 0 and a limit that is no less than the number of rows,
-- `retrieve` returns an item for every row of the table that the query asks for.
pub retrieve_complete :
    (db : MemoryDb)
    → (q : RetrievalQuery) → q.expand_related ≡ false
    → q.offset ≡ pos 0
    → (n : ℕ) → q.limit ≡ pos n
    → length db.events ≤ n
    → (e : MemoryEvent) → Any (λ r. r ≡ e) db.events
    → Satisfies q e
    → Any (λ s. s.event ≡ e) (retrieve db q)
unfolding retrieve found fetch_candidates score_events
retrieve_complete db q plain from n most room e stored asked =
    let rows = keep (passes q) db.events in
    let scored = score_events rows q.tags false in
    let le : ScoredEvent → ScoredEvent → Bool =
      λ a b. leb_rank (composite_key a) (composite_key b) in
    let ranked = sort_by le (map (revised db) scored) in
    let few : length ranked ≤ n = omega (
      arith,
      length-sort_by le (map (revised db) scored),
      length-map (revised db) scored,
      length-score_events rows q.tags false,
      length-keep (passes q) db.events,
      room,
    ) in
    let there : Any (λ s. s.event ≡ e) ranked =
      Any-sort_by (λ s. s.event ≡ e) le (map (revised db) scored)
        (Any-map (λ s. s.event ≡ e) (λ s. s.event ≡ e) (revised db) (λ s k. k) scored
          (Any-map (λ s. s.event ≡ e) (λ r. r ≡ e) _ (λ r k. k) rows
            (Any-keep (passes q) e db.events (Satisfies-passes q e asked) stored))) in
    subst
      (λ b.
        Any (λ s. s.event ≡ e)
          (slice q.offset (q.offset +ℤ q.limit) (
            sort_by le (map (revised db) (if b then expand_related db scored q.tags else scored)))))
      (sym plain)
      (subst (λ i. Any (λ s. s.event ≡ e) (slice i (i +ℤ q.limit) ranked)) (sym from)
        (subst (λ j. Any (λ s. s.event ≡ e) (slice (pos 0) (pos 0 +ℤ j) ranked)) (sym most)
          (subst (Any (λ s. s.event ≡ e)) (sym (slice_all n ranked few)) there)))
