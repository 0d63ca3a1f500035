-- ===== src/Workflow/Validation/Graph.antt =====
-- `_detect_cycles` and `_detect_disconnected` of workflow/validation.py: Kahn's algorithm on the
-- dependencies, and a union-find on them as undirected edges.
use deterministic_cognition.Prelude.{
  ℕ, zero, suc, String, ◌==◌, Bool, true, false, Option, none, some, List, [], ◌∷◌, ◌++◌, ℤ, pos,
  ltb_ℤ, succ_ℤ, pred_ℤ, is_zero, Dict, get, get_or, put, keys, contains, str_leb, insort, sorted,
  length, ltb, if◌then◌else◌,
}
use deterministic_cognition.Workflow.Definition.{WorkflowNode}

pub record Degrees : Type 0 where
  pub adj : Dict (List String)
  pub in_degree : Dict ℤ

unfoldable pub empty_degrees : List WorkflowNode → Degrees → Degrees
empty_degrees [] g = g
empty_degrees (n ∷ nodes) g =
    empty_degrees nodes
      (record { adj = put n.node_id [] g.adj; in_degree = put n.node_id (pos 0) g.in_degree })

-- `if dep_id in adj:`, for the dependencies of one node
unfoldable pub count_dependencies : String → List String → Degrees → Degrees
count_dependencies nid [] g = g
count_dependencies nid (dep ∷ deps) g = count_dependencies nid deps (elim (get dep g.adj) [
  | none ↦ g
  | some ns ↦ record {
    adj = put dep (ns ++ nid ∷ []) g.adj;
    in_degree = put nid (succ_ℤ (get_or nid g.in_degree (pos 0))) g.in_degree;
  }
])

unfoldable pub count_nodes : List WorkflowNode → Degrees → Degrees
unfolding count_dependencies
count_nodes [] g = g
count_nodes (n ∷ nodes) g = count_nodes nodes (count_dependencies n.node_id n.dependency_ids g)

-- the ids whose degree passes a test
unfoldable pub with_degree : (ℤ → Bool) → Dict ℤ → List String
with_degree p [] = []
with_degree p ((k, deg) ∷ d) = let rest = with_degree p d in if p deg then k ∷ rest else rest

pub record Kahn : Type 0 where
  pub degrees : Dict ℤ
  pub queue : List String
  pub processed : ℕ

-- the `for neighbor` loop; the queue is kept sorted
unfoldable pub release : List String → Kahn → Kahn
release [] s = s
release (n ∷ ns) s =
    let deg = pred_ℤ (get_or n s.degrees (pos 0)) in
    release ns (record {
      degrees = put n deg s.degrees;
      queue = if is_zero deg then insort n s.queue else s.queue;
      processed = s.processed;
    })

-- the `while queue` loop; each round takes one node from the queue, and a degree reaches 0 once
unfoldable pub kahn_loop : ℕ → Dict (List String) → List String → Kahn → Kahn
unfolding release
kahn_loop zero adj queue s = s
kahn_loop (suc fuel) adj [] s = s
kahn_loop (suc fuel) adj (nid ∷ rest) s =
    let s' =
      release (sorted (get_or nid adj []))
        (record { degrees = s.degrees; queue = rest; processed = suc s.processed }) in
    kahn_loop fuel adj s'.queue s'

unfoldable pub run_kahn : List WorkflowNode → Kahn
unfolding empty_degrees count_nodes with_degree kahn_loop
run_kahn nodes =
    let g = count_nodes nodes (empty_degrees nodes (record { adj = []; in_degree = [] })) in
    let queue = sorted (with_degree is_zero g.in_degree) in
    kahn_loop (suc (length nodes)) g.adj queue
      (record { degrees = g.in_degree; queue = queue; processed = 0 })

-- the ids that the error names, where there is one
unfoldable pub detect_cycles : List WorkflowNode → Option (List String)
unfolding run_kahn
detect_cycles nodes =
    let s = run_kahn nodes in
    if ltb s.processed (length nodes)
    then some (sorted (with_degree (ltb_ℤ (pos 0)) s.degrees))
    else none

-- `find`, with the path halved on the way; a round per entry of the dict is enough
unfoldable pub find_root : ℕ → String → Dict String → String × Dict String
find_root zero x parent = (x, parent)
find_root (suc fuel) x parent =
    let p = get_or x parent x in
    let g = get_or p parent p in
    let deeper = find_root fuel g (put x g parent) in if p == x then (x, parent) else deeper

unfoldable pub union : ℕ → String → String → Dict String → Dict String
unfolding find_root
union fuel x y parent =
    let (rx, p1) = find_root fuel x parent in
    let (ry, p2) = find_root fuel y p1 in if rx == ry then p2 else put rx ry p2

unfoldable pub union_dependencies : ℕ → String → List String → Dict String → Dict String
unfolding union
union_dependencies fuel nid [] parent = parent
union_dependencies fuel nid (dep ∷ deps) parent =
    union_dependencies fuel nid deps
      (if contains dep (keys parent) then union fuel nid dep parent else parent)

unfoldable pub union_nodes : ℕ → List WorkflowNode → Dict String → Dict String
unfolding union_dependencies
union_nodes fuel [] parent = parent
union_nodes fuel (n ∷ nodes) parent =
    union_nodes fuel nodes (union_dependencies fuel n.node_id n.dependency_ids parent)

-- `components.setdefault(find(n.node_id), []).append(n.node_id)` for each node
unfoldable pub group : ℕ → List WorkflowNode → Dict String → Dict (List String) → Dict (List String)
unfolding find_root
group fuel [] parent groups = groups
group fuel (n ∷ nodes) parent groups =
    let (root, p1) = find_root fuel n.node_id parent in
    group fuel nodes p1 (put root (get_or root groups [] ++ n.node_id ∷ []) groups)

-- `<=` on lists of texts
unfoldable pub list_leb : List String → List String → Bool
list_leb [] ys = true
list_leb (x ∷ xs) [] = false
list_leb (x ∷ xs) (y ∷ ys) = let rest = list_leb xs ys in if x == y then rest else str_leb x y

unfoldable pub insort_list : List String → List (List String) → List (List String)
unfolding list_leb
insort_list x [] = x ∷ []
insort_list x (y ∷ ys) =
    let rest = insort_list x ys in if list_leb x y then x ∷ y ∷ ys else y ∷ rest

unfoldable pub sorted_components : Dict (List String) → List (List String)
unfolding insort_list
sorted_components [] = []
sorted_components ((_, ids) ∷ groups) = insort_list (sorted ids) (sorted_components groups)

unfoldable pub own_parents : List WorkflowNode → Dict String → Dict String
own_parents [] parent = parent
own_parents (n ∷ nodes) parent = own_parents nodes (put n.node_id n.node_id parent)

-- the weakly connected components; the roots are as many as the groups
unfoldable pub components : List WorkflowNode → List (List String)
unfolding own_parents union_nodes group sorted_components
components nodes =
    let fuel = suc (length nodes) in
    sorted_components (group fuel nodes (union_nodes fuel nodes (own_parents nodes [])) [])
