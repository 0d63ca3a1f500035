-- ===== src/Workflow/Downstream/Edges.antt =====
-- The reverse adjacency lists: who depends on a node.
use deterministic_cognition.Prelude.{
  String, ◌≡◌, refl, Bool, false, ◌&&◌, ◌||◌, List, [], ◌∷◌, ◌++◌, arith, Dict, get, get_or, put,
  get-put, contains, contains-append, eq_iff, ◌==◌, if◌then◌else◌,
}
use deterministic_cognition.Workflow.Downstream.{add_dependents, reverse_from, reverse_adj}

-- `x` depends on `d`: some entry of the snapshot lists `d` among the dependencies of `x`.
unfoldable pub depends_on : Dict (List String) → String → String → Bool
depends_on [] x d = false
depends_on ((nid, deps) ∷ snapshot) x d = (x == nid && contains d deps) || depends_on snapshot x d

get_or-put :
    (j k : String) (v : List String) (d : Dict (List String))
    → get_or j (put k v d) [] ≡ (if j == k then v else get_or j d [])
unfolding get_or
get_or-put j k v d = ground (arith, get-put j k v d)

contains-add_dependents :
    (x d nid : String) (deps : List String) (adj : Dict (List String))
    → contains x (get_or d (add_dependents nid deps adj) [])
      ≡ ((x == nid && contains d deps) || contains x (get_or d adj []))
unfolding add_dependents contains
contains-add_dependents x d nid [] adj = ground arith
contains-add_dependents x d nid (y ∷ deps) adj = ground (
  arith,
  contains-add_dependents x d nid deps (put y (get_or y adj [] ++ nid ∷ []) adj),
  get_or-put d y (get_or y adj [] ++ nid ∷ []) adj,
  contains-append x (get_or y adj []) (nid ∷ []),
  eq_iff d y,
)

contains-reverse_from :
    (x d : String) (snapshot adj : Dict (List String))
    → contains x (get_or d (reverse_from snapshot adj) [])
      ≡ (depends_on snapshot x d || contains x (get_or d adj []))
unfolding reverse_from depends_on
contains-reverse_from x d [] adj = refl
contains-reverse_from x d ((nid, deps) ∷ snapshot) adj = ground (
  arith,
  contains-reverse_from x d snapshot (add_dependents nid deps adj),
  contains-add_dependents x d nid deps adj,
)

pub contains-reverse_adj :
    (x d : String) (snapshot : Dict (List String))
    → contains x (get_or d (reverse_adj snapshot) []) ≡ depends_on snapshot x d
unfolding reverse_adj get_or get contains
contains-reverse_adj x d snapshot = ground (arith, contains-reverse_from x d snapshot [])
