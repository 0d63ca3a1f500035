-- ===== src/Workflow/Downstream/Closure.antt =====
-- The breadth-first search marks what is downstream, and has fuel enough to mark all of it.
use deterministic_cognition.Prelude.{
  ℕ, zero, suc, ◌+◌, ◌≤◌, ◌<◌, String, ◌≡◌, refl, sym, ◌∙◌, ap, true, false, ◌||◌, List, [], ◌∷◌,
  ◌⊎◌, inl, inr, arith, Dict, keys, get_or, contains, contains-append, contains-sorted,
  contains-set_add, sorted, set_add, eq_iff, eq_refl, ◌==◌, if◌then◌else◌, length, length-append,
  Bool-cases,
}
use deterministic_cognition.Workflow.Downstream.{
  Search, visit, visit_all, search_loop, reverse_adj, compute_downstream_blocked,
}
use deterministic_cognition.Workflow.Downstream.Edges.{depends_on, contains-reverse_adj}

-- `x` depends, directly or through other nodes, on a node that failed.
pub data Downstream (snapshot : Dict (List String)) (failed : List String) : String → Type 0 where
  direct :
      (x f : String)
      → contains f failed ≡ true
      → depends_on snapshot x f ≡ true
      → Downstream snapshot failed x
  further :
      (x y : String)
      → Downstream snapshot failed y
      → depends_on snapshot x y ≡ true
      → Downstream snapshot failed x

-- how many of `ks` are not visited
abbrev unvisited : List String → List String → ℕ
unvisited visited [] = 0
unvisited visited (k ∷ ks) =
    let rest = unvisited visited ks in if contains k visited then rest else suc rest

unvisited-le :
    (visited : List String) (d : String) (ks : List String)
    → unvisited (set_add d visited) ks ≤ unvisited visited ks
unvisited-le visited d [] = omega arith
unvisited-le visited d (k ∷ ks) =
    ground (arith, unvisited-le visited d ks, contains-set_add k d visited)

unvisited-lt :
    (visited : List String) (d : String) (ks : List String)
    → contains d ks ≡ true
    → contains d visited ≡ false
    → unvisited (set_add d visited) ks < unvisited visited ks
unfolding contains
unvisited-lt visited d [] h n = absurd (cc)
unvisited-lt visited d (k ∷ ks) h n = ground (
  arith,
  unvisited-lt visited d ks,
  unvisited-le visited d ks,
  contains-set_add k d visited,
  eq_iff d k,
)

abbrev room : Dict (List String) → Search → ℕ
room snapshot s = length s.queue + unvisited s.visited (keys snapshot)

unvisited-keys :
    (visited : List String) (snapshot : Dict (List String))
    → unvisited visited (keys snapshot) ≤ length snapshot
unvisited-keys visited [] = omega arith
unvisited-keys visited ((k, v) ∷ snapshot) = ground (arith, unvisited-keys visited snapshot)

depends_on-key :
    (snapshot : Dict (List String)) (x d : String)
    → depends_on snapshot x d ≡ true
    → contains x (keys snapshot) ≡ true
unfolding depends_on contains
depends_on-key [] x d h = cc
depends_on-key ((nid, deps) ∷ snapshot) x d h = ground (arith, depends_on-key snapshot x d)

module _ (snapshot : Dict (List String)) (failed : List String) where
  -- What holds of the search between two rounds.
  record IsSearch (s : Search) : Type 0 where
    split : (x : String) → contains x s.visited ≡ (contains x failed || contains x s.blocked)
    apart : (x : String) → contains x s.blocked ≡ true → contains x failed ≡ false
    sound : (x : String) → contains x s.blocked ≡ true → Downstream snapshot failed x
    queued : (x : String) → contains x s.queue ≡ true → contains x s.visited ≡ true

  Downstream-visited :
      (y d : String) (s : Search)
      → contains y s.visited ≡ true
      → depends_on snapshot d y ≡ true
      → IsSearch s
      → Downstream snapshot failed d
  Downstream-visited y d s h k v = elim (Bool-cases (contains y failed)) [
    | inl f ↦ direct d y f k
    | inr f ↦ further d y (v.sound y (ground (arith, v.split y))) k
  ]

  -- the part of a round that looks at one node that depends on `y`
  visit-IsSearch :
      (y d : String) (s : Search)
      → contains y s.visited ≡ true
      → depends_on snapshot d y ≡ true
      → IsSearch s
      → IsSearch (visit d s)
  unfolding visit contains
  visit-IsSearch y d s h k v = elim (Bool-cases (contains d s.visited)) [
    | inl old ↦ rw old v
    | inr new ↦ rw new (record {
      split = λ x.
          ground (arith, v.split x, contains-set_add x d s.visited, contains-set_add x d s.blocked);
      apart =
          λ x p. ground (arith, v.apart x, v.split d, contains-set_add x d s.blocked, eq_iff x d);
      sound = λ x p. elim (Bool-cases (x == d)) [
        | inl same ↦ rw ((eq_iff x d).0 same) (Downstream-visited y d s h k v)
        | inr other ↦ v.sound x (ground (arith, contains-set_add x d s.blocked))
      ];
      queued = λ x p.
          ground
            (arith, v.queued x, contains-set_add x d s.visited, contains-append x s.queue (d ∷ []));
    })
  ]

visit-grows :
    (z d : String) (s : Search)
    → (contains z s.visited ≡ true → contains z (visit d s).visited ≡ true)
      × (contains z s.queue ≡ true → contains z (visit d s).queue ≡ true)
      × (contains d (visit d s).visited ≡ true)
      × (contains z (visit d s).visited ≡ true
          → (contains z s.visited ≡ true) ⊎ (contains z (visit d s).queue ≡ true))
unfolding visit contains
visit-grows z d s = ground (
  arith,
  contains-set_add z d s.visited,
  contains-set_add d d s.visited,
  eq_refl d,
  contains-append z s.queue (d ∷ []),
)

visit-room :
    (snapshot : Dict (List String)) (d : String) (s : Search)
    → contains d (keys snapshot) ≡ true
    → room snapshot (visit d s) ≤ room snapshot s
unfolding visit
visit-room snapshot d s h =
    ground (arith, unvisited-lt s.visited d (keys snapshot) h, length-append s.queue (d ∷ []))

module _ (snapshot : Dict (List String)) (failed : List String) where
  -- the nodes that a round looks at
  abbrev AllDepend : String → List String → Type 0
  AllDepend y ds = (d : String) → contains d ds ≡ true → depends_on snapshot d y ≡ true

  visit_all-IsSearch :
      (y : String) (ds : List String) (s : Search)
      → AllDepend y ds
      → contains y s.visited ≡ true
      → IsSearch snapshot failed s
      → IsSearch snapshot failed (visit_all ds s)
  unfolding visit_all contains
  visit_all-IsSearch y [] s k h v = v
  visit_all-IsSearch y (d ∷ ds) s k h v =
      visit_all-IsSearch y ds (visit d s) (λ x p. k x (ground arith)) ((visit-grows y d s).0 h)
        (visit-IsSearch snapshot failed y d s h (k d (ground (arith, eq_refl d))) v)

  visit_all-room :
      (y : String) (ds : List String) (s : Search)
      → AllDepend y ds
      → room snapshot (visit_all ds s) ≤ room snapshot s
  unfolding visit_all contains
  visit_all-room y [] s k = omega arith
  visit_all-room y (d ∷ ds) s k = omega (
    arith,
    visit_all-room y ds (visit d s) (λ x p. k x (ground arith)),
    visit-room snapshot d s (depends_on-key snapshot d y (k d (ground (arith, eq_refl d)))),
  )

visit_all-grows :
    (z : String) (ds : List String) (s : Search)
    → (contains z s.visited ≡ true → contains z (visit_all ds s).visited ≡ true)
      × (contains z s.queue ≡ true → contains z (visit_all ds s).queue ≡ true)
      × (contains z (visit_all ds s).visited ≡ true
          → (contains z s.visited ≡ true) ⊎ (contains z (visit_all ds s).queue ≡ true))
unfolding visit_all
visit_all-grows z [] s = (λ h. h, λ h. h, λ h. inl h)
visit_all-grows z (d ∷ ds) s = ground (arith, visit-grows z d s, visit_all-grows z ds (visit d s))

visit_all-reaches :
    (z : String) (ds : List String) (s : Search)
    → contains z ds ≡ true
    → contains z (visit_all ds s).visited ≡ true
unfolding visit_all contains
visit_all-reaches z [] s h = cc
visit_all-reaches z (d ∷ ds) s h = ground (
  arith,
  visit-grows z d s,
  visit_all-grows z ds (visit d s),
  visit_all-reaches z ds (visit d s),
  eq_iff z d,
)

module _ (snapshot : Dict (List String)) (failed : List String) where
  -- a visited node waits in the queue, or all nodes that depend on it are visited
  abbrev IsPending : Search → Type 0
  IsPending s =
      (z : String)
      → contains z s.visited ≡ true
      → (contains z s.queue ≡ true)
        ⊎ ((x : String) → depends_on snapshot x z ≡ true → contains x s.visited ≡ true)

  abbrev IsClosed : List String → Type 0
  IsClosed blocked =
      (x z : String)
      → (contains z failed || contains z blocked) ≡ true
      → depends_on snapshot x z ≡ true
      → (contains x failed || contains x blocked) ≡ true

  -- What the search returns.
  pub record IsResult (blocked : List String) : Type 0 where
    pub apart : (x : String) → contains x blocked ≡ true → contains x failed ≡ false
    pub sound : (x : String) → contains x blocked ≡ true → Downstream snapshot failed x
    pub closed : IsClosed blocked

  abbrev next_ids : String → List String
  next_ids nid = sorted (get_or nid (reverse_adj snapshot) [])

  next_ids-depends : (nid d : String) → contains d (next_ids nid) ≡ depends_on snapshot d nid
  next_ids-depends nid d =
      contains-sorted d (get_or nid (reverse_adj snapshot) []) ∙ contains-reverse_adj d nid snapshot

  IsResult-end :
      (s : Search) → s.queue ≡ [] → IsSearch snapshot failed s → IsPending s → IsResult s.blocked
  unfolding contains
  IsResult-end s q v p = record {
    apart = v.apart;
    sound = v.sound;
    closed = λ x z h d. elim (p z (v.split z ∙ h)) [
      | inl waits ↦ absurd (cc (rw q at waits))
      | inr done ↦ sym (v.split x) ∙ done x d
    ];
  }

  IsPending-round :
      (nid : String) (rest : List String) (s : Search)
      → s.queue ≡ nid ∷ rest
      → IsPending s
      → IsPending (visit_all (next_ids nid) (record s { queue = rest }))
  unfolding contains
  IsPending-round nid rest s q p z h =
      let s1 : Search = record s { queue = rest } in
      let ds = next_ids nid in
      elim ((visit_all-grows z ds s1).2 h) [
        | inr waits ↦ inl waits
        | inl old ↦ elim (p z old) [
          | inr done ↦ inr (λ x d. (visit_all-grows x ds s1).0 (done x d))
          | inl first ↦ elim (Bool-cases (z == nid)) [
            | inl same ↦ inr (λ x d.
                visit_all-reaches x ds s1
                  (next_ids-depends nid x ∙ (rw ((eq_iff z nid).0 same) at d)))
            | inr other ↦ inl ((visit_all-grows z ds s1).1 (ground (arith, rw q at first)))
          ]
        ]
      ]

  first-queued :
      (nid : String) (rest : List String) (s : Search)
      → s.queue ≡ nid ∷ rest
      → contains nid s.queue ≡ true
  unfolding contains
  first-queued nid rest s q = rw q (ground (arith, eq_refl nid))

  IsSearch-pop :
      (nid : String) (rest : List String) (s : Search)
      → s.queue ≡ nid ∷ rest
      → IsSearch snapshot failed s
      → IsSearch snapshot failed (record s { queue = rest })
  unfolding contains
  IsSearch-pop nid rest s q v = record {
    split = v.split;
    apart = v.apart;
    sound = v.sound;
    queued = λ x p. v.queued x (rw q (ground arith));
  }

  search_loop-IsResult :
      (fuel : ℕ) (queue : List String) (s : Search)
      → s.queue ≡ queue
      → room snapshot s ≤ fuel
      → IsSearch snapshot failed s
      → IsPending s
      → IsResult (search_loop fuel (reverse_adj snapshot) queue s)
  unfolding search_loop
  search_loop-IsResult zero [] s q h v p = IsResult-end s q v p
  search_loop-IsResult zero (nid ∷ rest) s q h v p =
      absurd (omega (arith, ap (length {A = String}) q))
  search_loop-IsResult (suc fuel) [] s q h v p = IsResult-end s q v p
  search_loop-IsResult (suc fuel) (nid ∷ rest) s q h v p =
      let s1 : Search = record s { queue = rest } in
      let ds = next_ids nid in
      let depend : AllDepend snapshot failed nid ds = λ d m. sym (next_ids-depends nid d) ∙ m in
      search_loop-IsResult fuel (visit_all ds s1).queue (visit_all ds s1) refl
        (omega (arith, visit_all-room snapshot failed nid ds s1 depend, ap (length {A = String}) q))
        (visit_all-IsSearch snapshot failed nid ds s1 depend
          (v.queued nid (first-queued nid rest s q)) (IsSearch-pop nid rest s q v))
        (IsPending-round nid rest s q p)

  -- The search returns the nodes that are downstream of a failure: all of them, none that failed
  -- itself, and no other; its fuel is enough.
  pub compute_downstream_blocked-IsResult : IsResult (compute_downstream_blocked failed snapshot)
  unfolding compute_downstream_blocked contains
  compute_downstream_blocked-IsResult =
      search_loop-IsResult _ (sorted failed)
        (record { visited = failed; blocked = []; queue = sorted failed }) refl
        (omega (arith, unvisited-keys failed snapshot))
        (record {
          split = λ x. ground arith;
          apart = λ x p. cc;
          sound = λ x p. absurd (cc);
          queued = λ x p. sym (contains-sorted x failed) ∙ p;
        })
        (λ z h. inl (contains-sorted z failed ∙ h))
