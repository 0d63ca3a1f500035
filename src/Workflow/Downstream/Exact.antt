-- ===== src/Workflow/Downstream/Exact.antt =====
-- What `_compute_downstream_blocked` returns, in terms of the dependencies of the plan.
use deterministic_cognition.Prelude.{
  String, ◌≡◌, true, false, ◌||◌, List, Dict, contains, arith, ◌↔◌,
}
use deterministic_cognition.Workflow.Downstream.{compute_downstream_blocked}
use deterministic_cognition.Workflow.Downstream.Closure.{
  Downstream, direct, further, compute_downstream_blocked-IsResult,
}

module _ (snapshot : Dict (List String)) (failed : List String) where
  blocked : List String
  blocked = compute_downstream_blocked failed snapshot

  Downstream-covered :
      {x : String} → Downstream snapshot failed x → (contains x failed || contains x blocked) ≡ true
  unfolding blocked
  Downstream-covered (direct x f h d) =
      (compute_downstream_blocked-IsResult snapshot failed).closed x f (ground arith) d
  Downstream-covered (further x y h d) =
      (compute_downstream_blocked-IsResult snapshot failed).closed x y (Downstream-covered h) d

  -- A node is returned exactly when it depends, directly or through other nodes, on a node that
  -- failed, and has not failed itself.
  pub mem-Downstream :
      (x : String)
      → (contains x (compute_downstream_blocked failed snapshot) ≡ true)
        ↔ (Downstream snapshot failed x × (contains x failed ≡ false))
  unfolding blocked
  mem-Downstream x =
      let r = compute_downstream_blocked-IsResult snapshot failed in
      (λ h. (r.sound x h, r.apart x h), λ (d, n). ground (arith, Downstream-covered d))
