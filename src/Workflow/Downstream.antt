-- ===== src/Workflow/Downstream.antt =====
-- `_compute_downstream_blocked` of workflow/executor.py: the nodes that depend, directly or through
-- others, on a node that failed.
pub mod Edges
pub mod Closure
pub mod Exact
use deterministic_cognition.Prelude.{
  ℕ, zero, suc, ◌+◌, String, Bool, List, [], ◌∷◌, ◌++◌, Dict, get_or, put, contains, sorted, to_set,
  set_add, length, if◌then◌else◌,
}
use deterministic_cognition.Workflow.Definition.{ExecutionPlan}

-- `reverse_adj.setdefault(dep_id, []).append(nid)` for each dependency of one node
unfoldable pub add_dependents : String → List String → Dict (List String) → Dict (List String)
add_dependents nid [] adj = adj
add_dependents nid (dep ∷ deps) adj =
    add_dependents nid deps (put dep (get_or dep adj [] ++ nid ∷ []) adj)

unfoldable pub reverse_from : Dict (List String) → Dict (List String) → Dict (List String)
unfolding add_dependents
reverse_from [] adj = adj
reverse_from ((nid, deps) ∷ snapshot) adj = reverse_from snapshot (add_dependents nid deps adj)

unfoldable pub reverse_adj : Dict (List String) → Dict (List String)
unfolding reverse_from
reverse_adj snapshot = reverse_from snapshot []

pub record Search : Type 0 where
  pub visited : List String
  pub blocked : List String
  pub queue : List String

-- the body of the `for` loop over the nodes that depend on the one taken from the queue
unfoldable pub visit : String → Search → Search
visit d s = if contains d s.visited then s else record {
  visited = set_add d s.visited;
  blocked = set_add d s.blocked;
  queue = s.queue ++ d ∷ [];
}

unfoldable pub visit_all : List String → Search → Search
visit_all [] s = s
visit_all (d ∷ ds) s = visit_all ds (visit d s)

-- the `while queue` loop; each round takes one node from the queue, and no node enters it twice
unfoldable pub search_loop : ℕ → Dict (List String) → List String → Search → List String
search_loop zero adj queue s = s.blocked
search_loop (suc fuel) adj [] s = s.blocked
search_loop (suc fuel) adj (nid ∷ rest) s =
    let s' = visit_all (sorted (get_or nid adj [])) (record s { queue = rest }) in
    search_loop fuel adj s'.queue s'

unfoldable pub compute_downstream_blocked : List String → Dict (List String) → List String
compute_downstream_blocked failed snapshot =
    let queue = sorted failed in
    search_loop (length queue + length snapshot) (reverse_adj snapshot) queue
      (record { visited = failed; blocked = []; queue = queue })
