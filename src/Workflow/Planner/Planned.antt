-- ===== src/Workflow/Planner/Planned.antt =====
-- The graph that `build_execution_plan` starts from, and the stages that it ends with.
use deterministic_cognition.Prelude.{
  ℕ, suc, ◌+◌, ◌≤◌, ◌<◌, String, ◌==◌, ◌≡◌, ◌∙◌, refl, sym, ap, Bool, true, ◌||◌, some, List, [],
  ◌∷◌, ◌++◌, ℤ, pos, Dict, get, put, keys, length, contains, Nodup, All, ok, arith, eq_iff, eq_refl,
  get-put, subst, Bool-cases, inl, inr,
}
use deterministic_cognition.Workflow.Definition.{ids_of, Known, WorkflowNode, ExecutionStage}
use deterministic_cognition.Workflow.Planner.{
  Graph, node_map, dict_of, add_edge, add_node_edges, add_edges, stages_of,
}
use deterministic_cognition.Workflow.Planner.Degrees.{
  occurs, edges_between, open_edges, has, one_if, Counts,
}
use deterministic_cognition.Workflow.Planner.Stages.{Behind, build_stages-Behind}

-- the dependencies of the nodes, each with its node, onto those in hand
unfoldable pub node_edges : String → List String → List (String × String) → List (String × String)
node_edges nid [] edges = edges
node_edges nid (dep ∷ deps) edges = node_edges nid deps ((dep, nid) ∷ edges)

unfoldable pub edges_of : List WorkflowNode → List (String × String) → List (String × String)
unfolding node_edges
edges_of [] edges = edges
edges_of (n ∷ nodes) edges = edges_of nodes (node_edges n.node_id n.dependency_ids edges)

abbrev Ends : List String → List (String × String) → Type 0
Ends ids edges =
    All (λ (e : String × String). (contains e.0 ids ≡ true) × (contains e.1 ids ≡ true)) edges

-- The degrees and the dependents that the edges in hand give.
record IsGraphOf (ids : List String) (edges : List (String × String)) (g : Graph) : Type 0 where
  same_keys : keys g.in_degree ≡ ids
  ends : Ends ids edges
  degree :
      (n : String)
      → contains n ids ≡ true
      → get n g.in_degree ≡ some (pos (open_edges (λ _. true) n edges))
  dependents :
      (c : String)
      → contains c ids ≡ true
      → (ts : List String) × (get c g.adj ≡ some ts)
        × ((n : String) → occurs n ts ≡ edges_between c n edges)

occurs-append :
    (n t : String) (ts : List String) → occurs n (ts ++ t ∷ []) ≡ occurs n ts + one_if (n == t)
unfolding occurs
occurs-append n t [] = ground arith
occurs-append n t (s ∷ ts) = ground (arith, occurs-append n t ts)

keys-put-some : (k : String) (v w : ℤ) (d : Dict ℤ) → get k d ≡ some w → keys (put k v d) ≡ keys d
unfolding put get
keys-put-some k v w [] h = absurd (ground arith)
keys-put-some k v w ((i, u) ∷ d) h = ground (arith, eq_iff k i, h, keys-put-some k v w d)

add_edge-IsGraphOf :
    (ids : List String) (edges : List (String × String)) (nid dep : String) (g : Graph)
    → IsGraphOf ids edges g
    → contains dep ids ≡ true
    → contains nid ids ≡ true
    → (g' : Graph) × (add_edge nid dep g ≡ ok g') × IsGraphOf ids ((dep, nid) ∷ edges) g'
unfolding add_edge open_edges edges_between
add_edge-IsGraphOf ids edges nid dep g s p q =
    let (ts, found, occ) = s.dependents dep p in
    let old = open_edges (λ _. true) nid edges in
    let deg = s.degree nid q in
    let ts' = ts ++ nid ∷ [] in
    (
      record { adj = put dep ts' g.adj; in_degree = put nid (pos (suc old)) g.in_degree },
      ground (arith, found, deg),
      record {
        same_keys = keys-put-some nid (pos (suc old)) (pos old) g.in_degree deg ∙ s.same_keys;
        ends = ((p, q), s.ends);
        degree = λ n h.
            ground (arith, get-put n nid (pos (suc old)) g.in_degree, s.degree n h, eq_iff n nid);
        dependents = λ c h. elim (Bool-cases (c == dep)) [
          | inl same ↦ (
            ts',
            ground (arith, get-put c dep ts' g.adj, same),
            λ n. ground (arith, occurs-append n nid ts, occ n, same, eq_iff c dep),
          )
          | inr differs ↦
              let (us, f, o) = s.dependents c h in
              (
                us,
                ground (arith, get-put c dep ts' g.adj, differs, f),
                λ n. ground (arith, o n, differs),
              )
        ];
      },
    )

add_node_edges-IsGraphOf :
    (ids : List String) (edges : List (String × String)) (nid : String) (deps : List String)
    (g : Graph)
    → IsGraphOf ids edges g
    → contains nid ids ≡ true
    → Known ids deps
    → (g' : Graph) × (add_node_edges nid deps g ≡ ok g')
      × IsGraphOf ids (node_edges nid deps edges) g'
unfolding add_node_edges node_edges
add_node_edges-IsGraphOf ids edges nid [] g s q k = (g, refl, s)
add_node_edges-IsGraphOf ids edges nid (dep ∷ deps) g s q k =
    let (g1, p1, s1) = add_edge-IsGraphOf ids edges nid dep g s k.0 q in
    let (g2, p2, s2) = add_node_edges-IsGraphOf ids ((dep, nid) ∷ edges) nid deps g1 s1 q k.1 in
    (g2, rw p1 p2, s2)

abbrev AreKnown : List String → List WorkflowNode → Type 0
AreKnown ids nodes =
    All (λ (n : WorkflowNode). (contains n.node_id ids ≡ true) × Known ids n.dependency_ids) nodes

add_edges-IsGraphOf :
    (ids : List String) (edges : List (String × String)) (nodes : List WorkflowNode) (g : Graph)
    → IsGraphOf ids edges g
    → AreKnown ids nodes
    → (g' : Graph) × (add_edges nodes g ≡ ok g') × IsGraphOf ids (edges_of nodes edges) g'
unfolding add_edges edges_of
add_edges-IsGraphOf ids edges [] g s k = (g, refl, s)
add_edges-IsGraphOf ids edges (n ∷ nodes) g s k =
    let (g1, p1, s1) =
      add_node_edges-IsGraphOf ids edges n.node_id n.dependency_ids g s k.0.0 k.0.1 in
    let (g2, p2, s2) =
      add_edges-IsGraphOf ids (node_edges n.node_id n.dependency_ids edges) nodes g1 s1 k.1 in
    (g2, rw p1 p2, s2)

has-contains : (n : String) (d : Dict ℤ) → has d n ≡ contains n (keys d)
unfolding get contains
has-contains n [] = refl
has-contains n ((k, v) ∷ d) = ground (arith, has-contains n d)

open_edges-Ends :
    (live : String → Bool) (n : String) (ids : List String) (edges : List (String × String))
    → ((c : String) → contains c ids ≡ true → live c ≡ true)
    → Ends ids edges
    → open_edges (λ _. true) n edges ≡ open_edges live n edges
unfolding open_edges
open_edges-Ends live n ids [] h e = refl
open_edges-Ends live n ids ((c, m) ∷ edges) h e =
    ground (arith, h c e.0.0, open_edges-Ends live n ids edges h e.1)

Ends-target :
    (c n : String) (ids : List String) (edges : List (String × String))
    → Ends ids edges
    → 1 ≤ edges_between c n edges
    → contains n ids ≡ true
unfolding edges_between
Ends-target c n ids [] e h = absurd (omega (arith, h))
Ends-target c n ids ((b, m) ∷ edges) e h =
    ground (arith, eq_iff n m, e.0.1, Ends-target c n ids edges e.1, h)

IsGraphOf-Counts :
    (ids : List String) (edges : List (String × String)) (g : Graph)
    → IsGraphOf ids edges g
    → Counts edges g.adj g.in_degree
IsGraphOf-Counts ids edges g s =
    let live : (n : String) → has g.in_degree n ≡ contains n ids =
      λ n. has-contains n g.in_degree ∙ ap (contains n) s.same_keys in
    record {
      degree = λ n h.
          s.degree n (sym (live n) ∙ h)
          ∙ ap (λ k. some (pos k))
              (open_edges-Ends (has g.in_degree) n ids edges (λ c k. live c ∙ k) s.ends);
      upward = λ c n e h. live n ∙ Ends-target c n ids edges s.ends e;
      dependents = λ c h. s.dependents c (sym (live c) ∙ h);
    }

keys-dict_of {ℓ} : {V : Type ℓ} (ks : List String) (v : V) → keys (dict_of ks v) ≡ ks
keys-dict_of [] v = refl
keys-dict_of (k ∷ ks) v = ap (λ js. k ∷ js) (keys-dict_of ks v)

get-dict_of :
    {V : Type 0} (n : String) (ks : List String) (v : V)
    → contains n ks ≡ true
    → get n (dict_of ks v) ≡ some v
unfolding get contains
get-dict_of n [] v h = absurd (ground arith)
get-dict_of n (k ∷ ks) v h = ground (arith, h, get-dict_of n ks v)

empty-IsGraphOf :
    (ids : List String)
    → IsGraphOf ids [] (record { adj = dict_of ids []; in_degree = dict_of ids (pos 0) })
unfolding open_edges edges_between occurs
empty-IsGraphOf ids = record {
  same_keys = keys-dict_of ids (pos 0);
  ends = tt;
  degree = λ n h. get-dict_of n ids (pos 0) h;
  dependents = λ c h. ([], get-dict_of c ids [] h, λ n. refl);
}

contains-keys-put :
    (j k : String) (v : WorkflowNode) (d : Dict WorkflowNode)
    → contains j (keys (put k v d)) ≡ (j == k || contains j (keys d))
unfolding contains put
contains-keys-put j k v [] = refl
contains-keys-put j k v ((i, w) ∷ d) =
    ground (arith, eq_iff k i, eq_iff j k, eq_iff j i, contains-keys-put j k v d)

put-Nodup :
    (k : String) (v : WorkflowNode) (d : Dict WorkflowNode)
    → Nodup (keys d)
    → Nodup (keys (put k v d))
unfolding contains put
put-Nodup k v [] u = (refl, tt)
put-Nodup k v ((i, w) ∷ d) u =
    ground (arith, u.0, put-Nodup k v d u.1, contains-keys-put i k v d, eq_iff k i, eq_iff i k)

node_map-Nodup :
    (nodes : List WorkflowNode) (d : Dict WorkflowNode)
    → Nodup (keys d)
    → Nodup (keys (node_map nodes d))
unfolding node_map
node_map-Nodup [] d u = u
node_map-Nodup (n ∷ nodes) d u =
    node_map-Nodup nodes (put n.node_id n d) (put-Nodup n.node_id n d u)

contains-node_map :
    (j : String) (nodes : List WorkflowNode) (d : Dict WorkflowNode)
    → contains j (keys (node_map nodes d)) ≡ (contains j (ids_of nodes) || contains j (keys d))
unfolding contains node_map
contains-node_map j [] d = refl
contains-node_map j (n ∷ nodes) d =
    ground (arith, contains-node_map j nodes (put n.node_id n d), contains-keys-put j n.node_id n d)

Known-among :
    (ids ids' deps : List String)
    → ((x : String) → contains x ids' ≡ true → contains x ids ≡ true)
    → Known ids' deps
    → Known ids deps
Known-among ids ids' [] h k = tt
Known-among ids ids' (dep ∷ deps) h k = (h dep k.0, Known-among ids ids' deps h k.1)

among-AreKnown :
    (ids ids' : List String) (nodes : List WorkflowNode)
    → ((x : String) → contains x ids' ≡ true → contains x ids ≡ true)
    → ((x : String) → contains x (ids_of nodes) ≡ true → contains x ids ≡ true)
    → All (λ (n : WorkflowNode). Known ids' n.dependency_ids) nodes
    → AreKnown ids nodes
unfolding contains
among-AreKnown ids ids' [] h l k = tt
among-AreKnown ids ids' (n ∷ nodes) h l k = (
  (l n.node_id (ground (arith, eq_refl n.node_id)), Known-among ids ids' n.dependency_ids h k.0),
  among-AreKnown ids ids' nodes h (λ x e. l x (ground (arith, e))) k.1,
)

planned-ids :
    (nodes : List WorkflowNode) (x : String)
    → contains x (keys (node_map nodes [])) ≡ contains x (ids_of nodes)
unfolding contains
planned-ids nodes x = ground (arith, contains-node_map x nodes [])

below_next : (n : ℕ) → n < suc n
below_next n = omega arith

-- If every dependency is a node, the planner builds its stages without an error and within the fuel.
-- The nodes of each stage are nodes that no earlier stage has, and depend on nodes of earlier stages
-- only; a node that no stage has depends on another such node or on itself.
pub stages_of-Behind :
    (nodes : List WorkflowNode)
    → All (λ (n : WorkflowNode). Known (ids_of nodes) n.dependency_ids) nodes
    → (stages : List ExecutionStage) × (stages_of nodes ≡ ok stages)
      × Behind (edges_of nodes []) (λ n. contains n (ids_of nodes)) stages
unfolding stages_of
stages_of-Behind nodes known =
    let m = node_map nodes [] in
    let ids = keys m in
    let same : (x : String) → contains x ids ≡ contains x (ids_of nodes) = planned-ids nodes in
    let (g, p, s) =
      add_edges-IsGraphOf ids [] nodes
        (record { adj = dict_of ids []; in_degree = dict_of ids (pos 0) }) (empty-IsGraphOf ids)
        (among-AreKnown ids (ids_of nodes) nodes (λ x e. same x ∙ e) (λ x e. same x ∙ e) known) in
    let (stages, q, b) =
      build_stages-Behind (edges_of nodes []) m g.adj (suc (length g.in_degree)) g.in_degree 0
        (below_next (length g.in_degree)) (IsGraphOf-Counts ids (edges_of nodes []) g s)
        (subst Nodup (sym s.same_keys) (node_map-Nodup nodes [] tt)) in
    (
      stages,
      rw p q,
      subst (λ (l : String → Bool). Behind (edges_of nodes []) l stages)
          (λ k n. (has-contains n g.in_degree ∙ ap (contains n) s.same_keys ∙ same n) k) b,
    )
