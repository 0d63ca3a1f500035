-- ===== src/Workflow/Planner/Stages.antt =====
-- The rounds of `build_execution_plan`: the nodes of a stage, the dict that they leave, and the number
-- of rounds.
use deterministic_cognition.Prelude.{
  ℕ, zero, suc, ◌+◌, ◌≤◌, ◌<◌, String, ◌==◌, ◌≡◌, ◌≢◌, ◌∙◌, refl, sym, Bool, true, false, ◌||◌,
  some, List, [], ◌∷◌, ℤ, pos, negsuc, pred_ℤ, Dict, get, put, remove, keys, length, contains,
  Nodup, ok, >>=-eq-ok, arith, eq_iff, eq_refl, if◌then◌else◌, ap, subst, All, sorted, sorted-Nodup,
  contains-sorted,
}
use deterministic_cognition.Workflow.Planner.{
  lookup, decrement, take_nodes, zero_degree, build_stages, sort_stage, insort_by,
}
use deterministic_cognition.Workflow.Definition.{WorkflowNode, ExecutionStage}
use deterministic_cognition.Workflow.Planner.Degrees.{
  open_edges, has, Counts, take-Counts, open_edges-drop,
}

contains-keys-remove :
    (j k : String) (d : Dict ℤ)
    → contains j (keys (remove k d)) ≡ (if j == k then false else contains j (keys d))
unfolding contains remove
contains-keys-remove j k [] = ground arith
contains-keys-remove j k ((i, v) ∷ d) =
    ground (arith, eq_iff k i, eq_iff j i, eq_iff j k, contains-keys-remove j k d)

keys-put-has : (k : String) (v : ℤ) (d : Dict ℤ) → has d k ≡ true → keys (put k v d) ≡ keys d
unfolding put get
keys-put-has k v [] h = absurd (ground arith)
keys-put-has k v ((i, w) ∷ d) h = ground (arith, eq_iff k i, h, keys-put-has k v d)

remove-Nodup : (k : String) (d : Dict ℤ) → Nodup (keys d) → Nodup (keys (remove k d))
unfolding remove
remove-Nodup k [] h = tt
remove-Nodup k ((i, v) ∷ d) h =
    ground (arith, h.0, remove-Nodup k d h.1, contains-keys-remove i k d)

-- `decrement` leaves the keys as they are.
pub decrement-keys : (ts : List String) (d d' : Dict ℤ) → decrement ts d ≡ ok d' → keys d' ≡ keys d
unfolding decrement
decrement-keys [] d d' h = ground arith
decrement-keys (t ∷ ts) d d' h =
    let (deg, p, q) = >>=-eq-ok (lookup t d) (λ g. decrement ts (put t (pred_ℤ g) d)) h in
    decrement-keys ts (put t (pred_ℤ deg) d) d' q
    ∙ keys-put-has t (pred_ℤ deg) d (lookup-has t d deg p)
  where
    lookup-has : (k : String) (e : Dict ℤ) (v : ℤ) → lookup k e ≡ ok v → has e k ≡ true
    lookup-has k e v r = ground (arith, r)

zero_degree-keys :
    (n : String) (d : Dict ℤ) → contains n (zero_degree d) ≡ true → contains n (keys d) ≡ true
unfolding zero_degree contains
zero_degree-keys n [] h = h
zero_degree-keys n ((k, g) ∷ d) h = ground (arith, h, zero_degree-keys n d)

pub zero_degree-get :
    (n : String) (d : Dict ℤ)
    → Nodup (keys d)
    → contains n (zero_degree d) ≡ true
    → get n d ≡ some (pos 0)
unfolding zero_degree contains get
zero_degree-get n [] u h = absurd (ground arith)
zero_degree-get n ((k, pos zero) ∷ d) u h = ground (arith, h, eq_iff n k, zero_degree-get n d u.1)
zero_degree-get n ((k, pos (suc g)) ∷ d) u h =
    ground (arith, h, u.0, eq_iff n k, zero_degree-keys n d h, zero_degree-get n d u.1 h)
zero_degree-get n ((k, negsuc g) ∷ d) u h =
    ground (arith, h, u.0, eq_iff n k, zero_degree-keys n d h, zero_degree-get n d u.1 h)

pub zero_degree-Nodup : (d : Dict ℤ) → Nodup (keys d) → Nodup (zero_degree d)
unfolding zero_degree
zero_degree-Nodup [] u = tt
zero_degree-Nodup ((k, g) ∷ d) u =
    ground (arith, u.0, zero_degree-Nodup d u.1, zero_degree-keys k d)

length-remove : (k : String) (d : Dict ℤ) → length (remove k d) ≤ length d
unfolding remove
length-remove k [] = omega arith
length-remove k ((i, v) ∷ d) = ground (arith, length-remove k d)

length-remove-has :
    (k : String) (d : Dict ℤ) → has d k ≡ true → suc (length (remove k d)) ≤ length d
unfolding remove get
length-remove-has k [] h = absurd (ground arith)
length-remove-has k ((i, v) ∷ d) h = ground (arith, h, length-remove k d, length-remove-has k d)

length-keys : (d d' : Dict ℤ) → keys d ≡ keys d' → length d ≡ length d'
length-keys [] [] h = refl
length-keys [] ((i, v) ∷ d') h = absurd (cc)
length-keys ((i, v) ∷ d) [] h = absurd (cc)
length-keys ((i, v) ∷ d) ((j, w) ∷ d') h = ap suc (length-keys d d' (cc))

-- The nodes of a stage are taken without an error; the counts hold for what they leave, the keys of
-- which are distinct and fewer.
pub take_nodes-Counts :
    (edges : List (String × String)) (adj : Dict (List String)) (ready : List String) (d : Dict ℤ)
    → Counts edges adj d
    → Nodup ready
    → Nodup (keys d)
    → ((n : String) → contains n ready ≡ true → has d n ≡ true)
    → ((n : String) → contains n ready ≡ true → open_edges (has d) n edges ≡ 0)
    → (d' : Dict ℤ) × (take_nodes adj ready d ≡ ok d')
      × Counts edges adj d'
      × ((n : String) → has d' n ≡ (if contains n ready then false else has d n))
      × Nodup (keys d')
      × (length d' + length ready ≤ length d)
unfolding take_nodes contains
take_nodes-Counts edges adj [] d c u v h k = (d, refl, c, λ n. refl, v, omega arith)
take_nodes-Counts edges adj (n ∷ ready) d c u v h k =
    let held = h n (ground (arith, eq_refl n)) in
    let (d1, (ts, found, p), c1, left) =
      take-Counts edges adj n d c held (k n (ground (arith, eq_refl n))) in
    let same = decrement-keys ts (remove n d) d1 p in
    let (d2, q, c2, left2, v2, fewer) =
      take_nodes-Counts edges adj ready d1 c1 u.1 (subst Nodup (sym same) (remove-Nodup n d v))
        (λ j e. ground (arith, left j, h j, e, u.0, eq_iff j n))
        (λ j e. ground (arith, open_edges-drop (has d) (has d1) n j edges held left, k j, e)) in
    (
      d2,
      ground (arith, found, p, q),
      c2,
      λ j. ground (arith, left j, left2 j, eq_iff j n),
      v2,
      ground (arith, fewer, length-remove-has n d held, length-keys d1 (remove n d) same),
    )

has-keys : (n : String) (d : Dict ℤ) → get n d ≡ some (pos 0) → has d n ≡ true
has-keys n d h = rw h refl

-- The nodes of each stage remain before it, and depend on none that does; a node that remains after
-- the last stage depends on one that does.
abbrev pub Behind : List (String × String) → (String → Bool) → List ExecutionStage → Type 0
Behind edges live [] = (n : String) → live n ≡ true → 1 ≤ open_edges live n edges
Behind edges live (s ∷ stages) =
    All (λ n. (live n ≡ true) × (open_edges live n edges ≡ 0)) s.node_ids
    × Behind edges (λ n. if contains n s.node_ids then false else live n) stages

abbrev pub Planned :
    List (String × String) → Dict WorkflowNode → Dict (List String) → ℕ → Dict ℤ → ℕ → Type 0
Planned edges m adj fuel d i =
    (stages : List ExecutionStage) × (build_stages fuel m adj d i ≡ ok stages)
    × Behind edges (has d) stages

contains-insort_by :
    (m : Dict WorkflowNode) (x y : String) (ys : List String)
    → contains x (insort_by m y ys) ≡ (x == y || contains x ys)
unfolding contains insort_by
contains-insort_by m x y [] = refl
contains-insort_by m x y (z ∷ ys) = ground (arith, contains-insort_by m x y ys)

contains-sort_stage :
    (m : Dict WorkflowNode) (x : String) (xs : List String)
    → contains x (sort_stage m xs) ≡ contains x xs
unfolding contains sort_stage
contains-sort_stage m x [] = refl
contains-sort_stage m x (y ∷ xs) =
    ground (arith, contains-insort_by m x y (sort_stage m xs), contains-sort_stage m x xs)

All-contains :
    (P : String → Type 0) (xs : List String)
    → ((x : String) → contains x xs ≡ true → P x)
    → All P xs
unfolding contains
All-contains P [] h = tt
All-contains P (x ∷ xs) h =
    (h x (ground (arith, eq_refl x)), All-contains P xs (λ y e. h y (ground (arith, e))))

zero_degree-contains :
    (n : String) (d : Dict ℤ) → get n d ≡ some (pos 0) → contains n (zero_degree d) ≡ true
unfolding zero_degree contains get
zero_degree-contains n [] h = absurd (ground arith)
zero_degree-contains n ((k, pos zero) ∷ d) h =
    ground (arith, h, eq_iff n k, zero_degree-contains n d)
zero_degree-contains n ((k, pos (suc g)) ∷ d) h =
    ground (arith, h, eq_iff n k, zero_degree-contains n d)
zero_degree-contains n ((k, negsuc g) ∷ d) h =
    ground (arith, h, eq_iff n k, zero_degree-contains n d)

positive : (k : ℕ) → (k ≢ 0) → 1 ≤ k
positive zero h = absurd (h refl)
positive (suc k) h = omega arith

false-not-true : false ≡ true → ⊥
false-not-true h = ground (arith, h)

-- Where no degree is 0, every node that remains has a dependency that does.
none-free :
    (edges : List (String × String)) (adj : Dict (List String)) (d : Dict ℤ)
    → Counts edges adj d
    → sorted (zero_degree d) ≡ []
    → (n : String) → has d n ≡ true
    → 1 ≤ open_edges (has d) n edges
unfolding contains
none-free edges adj d c e n h =
    let shut : contains n (zero_degree d) ≡ false =
      sym (contains-sorted n (zero_degree d)) ∙ ap (contains n) e in
    positive (open_edges (has d) n edges) (λ zero_open.
      false-not-true
        (sym shut ∙ zero_degree-contains n d (c.degree n h ∙ ap (λ k. some (pos k)) zero_open)))

round-Planned :
    (edges : List (String × String)) (m : Dict WorkflowNode) (adj : Dict (List String)) (fuel : ℕ)
    (d : Dict ℤ) (i : ℕ)
    → length d < suc fuel
    → Counts edges adj d
    → Nodup (keys d)
    → ((d1 : Dict ℤ)
        → length d1 < fuel
        → Counts edges adj d1
        → Nodup (keys d1)
        → Planned edges m adj fuel d1 (suc i))
    → (ready : List String) → sorted (zero_degree d) ≡ ready
    → Planned edges m adj (suc fuel) d i
unfolding build_stages
round-Planned edges m adj fuel d i enough c u rest [] e =
    ([], rw (build_stages, e) refl, none-free edges adj d c e)
round-Planned edges m adj fuel d i enough c u rest (x ∷ xs) e =
    let ready = x ∷ xs in
    let zero_at : (n : String) → contains n ready ≡ true → get n d ≡ some (pos 0) = λ n h.
      zero_degree-get n d u (sym (contains-sorted n (zero_degree d)) ∙ ap (contains n) e ∙ h) in
    let held : (n : String) → contains n ready ≡ true → has d n ≡ true =
      λ n h. has-keys n d (zero_at n h) in
    let free : (n : String) → contains n ready ≡ true → open_edges (has d) n edges ≡ 0 =
      λ n h. ground (arith, zero_at n h, c.degree n (held n h)) in
    let (d1, p, c1, left, u1, fewer) =
      take_nodes-Counts edges adj ready d c
        (subst Nodup e (sorted-Nodup (zero_degree d) (zero_degree-Nodup d u))) u held free in
    let (stages, q, b) = rest d1 (omega (arith, enough, fewer)) c1 u1 in
    (
      record { stage_index = i; node_ids = sort_stage m ready } ∷ stages,
      ground (arith, e, p, q),
      (
        All-contains (λ n. (has d n ≡ true) × (open_edges (has d) n edges ≡ 0)) (sort_stage m ready)
            (λ n h. let h' = sym (contains-sort_stage m n ready) ∙ h in (held n h', free n h')),
        subst (λ (l : String → Bool). Behind edges l stages)
            (λ k n.
              (left n
                  ∙ ap (λ b. if b then false else has d n) (sym (contains-sort_stage m n ready)))
                k)
            b,
      ),
    )

-- Enough rounds give stages, and each node stands behind those that it depends on.
pub build_stages-Behind :
    (edges : List (String × String)) (m : Dict WorkflowNode) (adj : Dict (List String)) (fuel : ℕ)
    (d : Dict ℤ) (i : ℕ)
    → length d < fuel
    → Counts edges adj d
    → Nodup (keys d)
    → Planned edges m adj fuel d i
build_stages-Behind edges m adj zero d i enough c u = absurd (omega (arith, enough))
build_stages-Behind edges m adj (suc fuel) d i enough c u =
    round-Planned edges m adj fuel d i enough c u
      (λ d1 h c1 u1. build_stages-Behind edges m adj fuel d1 (suc i) h c1 u1)
      (sorted (zero_degree d)) refl
