-- ===== src/Workflow/Executor/Progress/Liveness.antt =====
-- What the outcomes of `detect_outcome` mean for the plan.
use deterministic_cognition.Prelude.{
  String, ◌≡◌, refl, ◌∙◌, Bool, true, false, ◌&&◌, List, [], ◌∷◌, Dict, get_or, get, contains,
  to_set, contains-to_set, all, keep, arith, eq_iff, eq_refl, ◌==◌, ◌⊎◌, inl, inr, Bool-cases,
}
use deterministic_cognition.Workflow.State.{executing, blocked, completed, WorkflowExecution}
use deterministic_cognition.Workflow.Definition.{ExecutionPlan, all_node_ids}
use deterministic_cognition.Workflow.Downstream.{compute_downstream_blocked}
use deterministic_cognition.Workflow.Downstream.Edges.{depends_on}
use deterministic_cognition.Workflow.Downstream.Closure.{Downstream, direct, further}
use deterministic_cognition.Workflow.Downstream.Exact.{mem-Downstream}
use deterministic_cognition.Workflow.Executor.Progress.{
  is_settled, is_runnable, is_nil, detect_outcome, is_ready, get_ready_node_ids,
}

-- Every node comes behind the nodes that it depends on.
abbrev pub IsTopological : Dict (List String) → List String → List String → Type 0
IsTopological snapshot seen [] = Unit
IsTopological snapshot seen (n ∷ ns) =
    (all (λ d. contains d seen) (get_or n snapshot []) ≡ true)
    × IsTopological snapshot (n ∷ seen) ns

all-contains :
    (d : String) (p : String → Bool) (ds : List String)
    → all p ds ≡ true
    → contains d ds ≡ true
    → p d ≡ true
unfolding contains
all-contains d p [] h m = cc
all-contains d p (x ∷ ds) h m = elim (Bool-cases (d == x)) [
  | inl same ↦ rw ((eq_iff d x).0 same) (ground arith)
  | inr other ↦ all-contains d p ds (ground arith) (ground arith)
]

all-of :
    (p : String → Bool) (ds : List String)
    → ((d : String) → contains d ds ≡ true → p d ≡ true)
    → all p ds ≡ true
unfolding contains
all-of p [] h = refl
all-of p (x ∷ ds) h = rw (h x (ground (arith, eq_refl x))) (all-of p ds (λ d m. h d (ground arith)))

pub contains-keep :
    (n : String) (p : String → Bool) (ns : List String)
    → contains n (keep p ns) ≡ (contains n ns && p n)
unfolding contains
contains-keep n p [] = refl
contains-keep n p (x ∷ ns) = elim (Bool-cases (n == x)) [
  | inl same ↦ rw ((eq_iff n x).0 same) (ground (arith, eq_refl x, contains-keep x p ns))
  | inr other ↦ ground (arith, contains-keep n p ns)
]

get_or-depends_on :
    (snapshot : Dict (List String)) (n d : String)
    → contains d (get_or n snapshot []) ≡ true
    → depends_on snapshot n d ≡ true
unfolding get_or get depends_on contains
get_or-depends_on [] n d h = cc
get_or-depends_on ((k, deps) ∷ snapshot) n d h = ground (arith, get_or-depends_on snapshot n d)

not-all :
    (p : String → Bool) (ns : List String)
    → all p ns ≡ false
    → (m : String) × (contains m ns ≡ true) × (p m ≡ false)
unfolding contains
not-all p [] h = absurd (cc)
not-all p (n ∷ ns) h = elim (Bool-cases (p n)) [
  | inr no_n ↦ (n, ground (arith, eq_refl n), no_n)
  | inl yes_n ↦ let (m, q, r) = not-all p ns (ground arith) in (m, ground arith, r)
]

some-kept :
    (p : String → Bool) (ns : List String)
    → is_nil (keep p ns) ≡ false
    → (m : String) × (contains m ns ≡ true) × (p m ≡ true)
unfolding contains
some-kept p [] h = absurd (cc)
some-kept p (n ∷ ns) h = elim (Bool-cases (p n)) [
  | inl yes_n ↦ (n, ground (arith, eq_refl n), yes_n)
  | inr no_n ↦ let (m, q, r) = some-kept p ns (ground arith) in (m, ground arith, r)
]

keep-nil : (p : String → Bool) (ns : List String) → is_nil (keep p ns) ≡ true → keep p ns ≡ []
keep-nil p ns h = ground arith

none-kept :
    (p : String → Bool) (ns : List String) (n : String)
    → is_nil (keep p ns) ≡ true
    → contains n ns ≡ true
    → p n ≡ false
unfolding contains
none-kept p ns n h m = ground (arith, contains-keep n p ns, keep-nil p ns h)

-- with no failure nothing is downstream
Downstream-nil : (snapshot : Dict (List String)) {x : String} → Downstream snapshot [] x → ⊥
unfolding contains
Downstream-nil snapshot (direct x f h d) = cc
Downstream-nil snapshot (further x y h d) = Downstream-nil snapshot h

module _ (e : WorkflowExecution) (plan : ExecutionPlan) where
  abbrev downstream : List String
  downstream = compute_downstream_blocked (to_set e.failed_node_ids) plan.dependency_snapshot

  abbrev runnable : String → Bool
  runnable = is_runnable e.completed_node_ids e.failed_node_ids downstream

  abbrev IsDownstream : String → Type 0
  IsDownstream = Downstream plan.dependency_snapshot (to_set e.failed_node_ids)

  not-runnable : (n : String) → runnable n ≡ true → IsDownstream n → ⊥
  not-runnable n r d =
      let m : contains n downstream ≡ true =
        (mem-Downstream plan.dependency_snapshot (to_set e.failed_node_ids) n).1
          (d, ground (arith, contains-to_set n e.failed_node_ids)) in
      ground arith

  -- a dependency of a runnable node that is not runnable itself is completed
  dep-completed :
      (n d : String)
      → runnable n ≡ true
      → runnable d ≡ false
      → contains d (get_or n plan.dependency_snapshot []) ≡ true
      → contains d e.completed_node_ids ≡ true
  dep-completed n d r s m = elim (Bool-cases (contains d e.completed_node_ids)) [
    | inl h ↦ h
    | inr h ↦
        let edge = get_or-depends_on plan.dependency_snapshot n d m in
        elim (Bool-cases (contains d e.failed_node_ids)) [
          | inl f ↦
              absurd (not-runnable n r (direct n d (contains-to_set d e.failed_node_ids ∙ f) edge))
          | inr f ↦
              let lost =
                (mem-Downstream plan.dependency_snapshot (to_set e.failed_node_ids) d).0
                  (ground arith) in
              absurd (not-runnable n r (further n d lost.0 edge))
        ]
  ]

  runnable-is_ready :
      (n : String) (seen : List String)
      → runnable n ≡ true
      → ((d : String) → contains d seen ≡ true → runnable d ≡ false)
      → all (λ d. contains d seen) (get_or n plan.dependency_snapshot []) ≡ true
      → is_ready e plan n ≡ true
  unfolding is_ready
  runnable-is_ready n seen r old deps =
      let ready =
        all-of (λ d. contains d e.completed_node_ids) (get_or n plan.dependency_snapshot [])
          (λ d m. dep-completed n d r (old d (all-contains d (λ x. contains x seen) _ deps m)) m) in
      ground (arith, ready)

  -- the first runnable node of the order is ready
  some-ready :
      (ns seen : List String)
      → IsTopological plan.dependency_snapshot seen ns
      → ((d : String) → contains d seen ≡ true → runnable d ≡ false)
      → (m : String) → contains m ns ≡ true
      → runnable m ≡ true
      → (n : String) × (contains n ns ≡ true) × (is_ready e plan n ≡ true)
  unfolding contains
  some-ready [] seen t old m h r = absurd (cc)
  some-ready (n ∷ ns) seen t old m h r = elim (Bool-cases (runnable n)) [
    | inl go ↦ (n, ground (arith, eq_refl n), runnable-is_ready n seen go old t.0)
    | inr stop ↦
        let (k, p, q) =
          some-ready ns (n ∷ seen) t.1
            (λ d x. elim (Bool-cases (d == n)) [
              | inl same ↦ rw ((eq_iff d n).0 same) stop
              | inr other ↦ old d (ground arith)
            ])
            m (ground (arith, eq_iff m n)) r in
        (k, ground arith, q)
  ]

  abbrev all_done : Bool
  all_done = all (λ n. contains n e.completed_node_ids) (all_node_ids plan)

  no-failure-runnable :
      (m : String)
      → is_nil e.failed_node_ids ≡ true
      → contains m e.completed_node_ids ≡ false
      → runnable m ≡ true
  unfolding contains to_set
  no-failure-runnable m none_failed q = elim (Bool-cases (contains m downstream)) [
    | inl lost ↦
        let nothing : e.failed_node_ids ≡ [] = ground arith in
        let d = ((mem-Downstream plan.dependency_snapshot (to_set e.failed_node_ids) m).0 lost).0 in
        absurd (Downstream-nil plan.dependency_snapshot (rw nothing at d))
    | inr fine ↦ ground arith
  ]

  executing-runnable :
      is_settled e.state ≡ false
      → detect_outcome e plan ≡ executing
      → (m : String) × (contains m (all_node_ids plan) ≡ true) × (runnable m ≡ true)
  unfolding detect_outcome
  executing-runnable live h = elim (Bool-cases all_done) [
    | inl done ↦ absurd (ground (arith, live, done, h))
    | inr missing ↦ elim (Bool-cases (is_nil e.failed_node_ids)) [
      | inl none_failed ↦
          let (m, p, q) = not-all _ (all_node_ids plan) missing in
          (m, p, no-failure-runnable m none_failed q)
      | inr some_failed ↦ some-kept runnable (all_node_ids plan) (ground arith)
    ]
  ]

  -- While `detect_outcome` says 'executing', some node is ready, in a plan whose nodes come behind
  -- their dependencies.
  pub executing-ready :
      is_settled e.state ≡ false
      → IsTopological plan.dependency_snapshot [] (all_node_ids plan)
      → detect_outcome e plan ≡ executing
      → (n : String) × (contains n (get_ready_node_ids e plan) ≡ true)
  unfolding get_ready_node_ids contains
  executing-ready live t h =
      let (m, p, r) = executing-runnable live h in
      let (n, q, g) = some-ready (all_node_ids plan) [] t (λ d x. absurd (cc)) m p r in
      (n, ground (arith, contains-keep n (is_ready e plan) (all_node_ids plan)))

  completed-all : is_settled e.state ≡ false → detect_outcome e plan ≡ completed → all_done ≡ true
  unfolding detect_outcome
  completed-all live h = ground arith

  blocked-tests :
      is_settled e.state ≡ false
      → detect_outcome e plan ≡ blocked
      → (is_nil (keep runnable (all_node_ids plan)) ≡ true) × (all_done ≡ false)
  unfolding detect_outcome
  blocked-tests live h = ground arith

  not-runnable-cases :
      (n : String)
      → runnable n ≡ false
      → (contains n e.completed_node_ids ≡ true)
        ⊎ (contains n e.failed_node_ids ≡ true)
        ⊎ IsDownstream n
  not-runnable-cases n h = elim (Bool-cases (contains n downstream)) [
    | inl lost ↦
        inr (inr ((mem-Downstream plan.dependency_snapshot (to_set e.failed_node_ids) n).0 lost).0)
    | inr fine ↦ elim (Bool-cases (contains n e.failed_node_ids)) [
      | inl f ↦ inr (inl f)
      | inr f ↦ inl (ground arith)
    ]
  ]

  -- 'completed' is said only when every node of the plan is completed, and 'blocked' only when each
  -- is completed, has failed or is downstream of a failure, and some node is not completed.
  pub outcome_means :
      is_settled e.state ≡ false
      → (detect_outcome e plan ≡ completed
          → (n : String) → contains n (all_node_ids plan) ≡ true
          → contains n e.completed_node_ids ≡ true)
        × (detect_outcome e plan ≡ blocked
            → ((n : String)
                → contains n (all_node_ids plan) ≡ true
                → (contains n e.completed_node_ids ≡ true)
                  ⊎ (contains n e.failed_node_ids ≡ true)
                  ⊎ IsDownstream n)
              × ((m : String) × (contains m (all_node_ids plan) ≡ true)
                  × (contains m e.completed_node_ids ≡ false)))
  outcome_means live = (
    λ h n m. all-contains n _ (all_node_ids plan) (completed-all live h) m,
    λ h.
        let (all_stuck, missing) = blocked-tests live h in
        (
          λ n m. not-runnable-cases n (none-kept runnable (all_node_ids plan) n all_stuck m),
          let (k, p, q) = not-all _ (all_node_ids plan) missing in (k, p, q),
        ),
  )
