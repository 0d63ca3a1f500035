-- ===== src/Workflow/Planner/Degrees.antt =====
-- One stage of `build_execution_plan`: the degree of a node that remains counts its dependencies that
-- remain. An edge is a dependency with the node that has it.
use deterministic_cognition.Prelude.{
  ℕ, suc, ◌+◌, ◌≤◌, String, ◌==◌, ◌≡◌, refl, Bool, true, false, ◌&&◌, Option, none, some, List, [],
  ◌∷◌, ℤ, pos, Dict, get, put, remove, ok, get-put, arith, eq_iff, eq_refl, if◌then◌else◌, ◌≢◌, ◌∙◌,
  sym, ap,
}
use deterministic_cognition.Workflow.Planner.{decrement}

abbrev pub one_if : Bool → ℕ
one_if true = 1
one_if false = 0

unfoldable pub occurs : String → List String → ℕ
occurs n [] = 0
occurs n (t ∷ ts) = one_if (n == t) + occurs n ts

unfoldable pub edges_between : String → String → List (String × String) → ℕ
edges_between d n [] = 0
edges_between d n ((c, m) ∷ edges) = one_if (d == c && n == m) + edges_between d n edges

-- the edges into `n` from the nodes that pass the test
unfoldable pub open_edges : (String → Bool) → String → List (String × String) → ℕ
open_edges live n [] = 0
open_edges live n ((c, m) ∷ edges) = one_if (n == m && live c) + open_edges live n edges

abbrev pub is_some {ℓ} : {A : Type ℓ} → Option A → Bool
is_some none = false
is_some (some _) = true

abbrev pub has : Dict ℤ → String → Bool
has d n = is_some (get n d)

pub get-remove :
    (j k : String) (d : Dict ℤ) → get j (remove k d) ≡ (if j == k then none else get j d)
unfolding get remove
get-remove j k [] = ground arith
get-remove j k ((i, v) ∷ d) = ground (arith, eq_iff k i, eq_iff j i, eq_iff j k, get-remove j k d)

decrement-cons :
    (t : String) (ts : List String) (d : Dict ℤ) (m : ℕ) {d' : Dict ℤ}
    → get t d ≡ some (pos (suc m))
    → decrement ts (put t (pos m) d) ≡ ok d'
    → decrement (t ∷ ts) d ≡ ok d'
unfolding decrement
decrement-cons t ts d m h p = ground (arith, h, p)

-- `decrement` gives back a dict of the same keys, with each degree lowered by the occurrences.
pub decrement-get :
    (ts : List String) (d : Dict ℤ) (f : String → ℕ)
    → ((n : String) → 1 ≤ occurs n ts → has d n ≡ true)
    → ((n : String) → has d n ≡ true → get n d ≡ some (pos (f n + occurs n ts)))
    → (d' : Dict ℤ) × (decrement ts d ≡ ok d')
      × ((n : String) → has d' n ≡ has d n)
      × ((n : String) → has d n ≡ true → get n d' ≡ some (pos (f n)))
unfolding decrement occurs
decrement-get [] d f h k = (d, refl, λ n. refl, λ n l. ground (arith, k n l))
decrement-get (t ∷ ts) d f h k =
    let there = h t (ground (arith, eq_refl t)) in
    let at_t : get t d ≡ some (pos (suc (f t + occurs t ts))) =
      ground (arith, k t there, eq_refl t) in
    let d1 = put t (pos (f t + occurs t ts)) d in
    let (d', p, q, r) =
      decrement-get ts d1 f
        (λ n l. ground (arith, get-put n t (pos (f t + occurs t ts)) d, h n, l, eq_iff n t))
        (λ n l. ground (arith, get-put n t (pos (f t + occurs t ts)) d, k n, l, eq_iff n t)) in
    (
      d',
      decrement-cons t ts d (f t + occurs t ts) at_t p,
      λ n. ground (arith, q n, get-put n t (pos (f t + occurs t ts)) d, eq_iff n t, at_t),
      λ n l. ground (arith, r n, get-put n t (pos (f t + occurs t ts)) d, eq_iff n t, l),
    )

pub open_edges-congr :
    (live live' : String → Bool) (n : String) (edges : List (String × String))
    → ((k : String) → live k ≡ live' k)
    → open_edges live n edges ≡ open_edges live' n edges
unfolding open_edges
open_edges-congr live live' n [] h = refl
open_edges-congr live live' n ((c, m) ∷ edges) h =
    ground (arith, h c, open_edges-congr live live' n edges h)

pub edges_between-le-open :
    (live : String → Bool) (d n : String) (edges : List (String × String))
    → live d ≡ true
    → edges_between d n edges ≤ open_edges live n edges
unfolding open_edges edges_between
edges_between-le-open live d n [] h = omega arith
edges_between-le-open live d n ((c, m) ∷ edges) h =
    ground (arith, h, eq_iff d c, edges_between-le-open live d n edges h)

-- Where `k` no longer passes the test, its edges are counted no more.
pub open_edges-drop :
    (live live' : String → Bool) (k n : String) (edges : List (String × String))
    → live k ≡ true
    → ((j : String) → live' j ≡ (if j == k then false else live j))
    → open_edges live n edges ≡ open_edges live' n edges + edges_between k n edges
unfolding open_edges edges_between
open_edges-drop live live' k n [] h e = omega arith
open_edges-drop live live' k n ((c, m) ∷ edges) h e =
    ground (arith, h, e c, eq_iff c k, eq_iff k c, open_edges-drop live live' k n edges h e)

-- What holds between two rounds: each node that remains has the list of its dependents and the number
-- of its dependencies that remain, and every dependent of a node that remains, remains.
pub record Counts (edges : List (String × String)) (adj : Dict (List String)) (d : Dict ℤ)
    : Type 0 where
  pub degree : (n : String) → has d n ≡ true → get n d ≡ some (pos (open_edges (has d) n edges))
  pub upward : (c n : String) → 1 ≤ edges_between c n edges → has d c ≡ true → has d n ≡ true
  pub dependents :
      (c : String)
      → has d c ≡ true
      → (ts : List String) × (get c adj ≡ some ts)
        × ((n : String) → occurs n ts ≡ edges_between c n edges)

-- A node that depends on none that remains is taken without an error, and the counts hold for the rest.
pub take-Counts :
    (edges : List (String × String)) (adj : Dict (List String)) (k : String) (d : Dict ℤ)
    → Counts edges adj d
    → has d k ≡ true
    → open_edges (has d) k edges ≡ 0
    → (d' : Dict ℤ) × ((ts : List String) × (get k adj ≡ some ts)
        × (decrement ts (remove k d) ≡ ok d'))
      × Counts edges adj d'
      × ((n : String) → has d' n ≡ (if n == k then false else has d n))
take-Counts edges adj k d c held free =
    let (ts, found, occ) = c.dependents k held in
    let gone : (n : String) → has (remove k d) n ≡ (if n == k then false else has d n) =
      λ n. ground (arith, get-remove n k d) in
    let f : String → ℕ = λ n. open_edges (has (remove k d)) n edges in
    let drop : (n : String) → open_edges (has d) n edges ≡ f n + edges_between k n edges =
      λ n. open_edges-drop (has d) (has (remove k d)) k n edges held gone in
    let apart : (b n : String) → has d b ≡ true → 1 ≤ edges_between b n edges → n ≢ k =
      λ b n live e same.
        ground (arith, same, e, edges_between-le-open (has d) b k edges live, free) in
    let (d', p, q, r) =
      decrement-get ts (remove k d) f
        (λ n e.
          let e' : 1 ≤ edges_between k n edges = ground (arith, e, occ n) in
          ground (arith, gone n, c.upward k n e' held, apart k n held e', eq_iff n k))
        (λ n live.
          ground (arith, live, gone n, get-remove n k d, c.degree n, drop n, occ n, eq_iff n k)) in
    let before : (n : String) → has d' n ≡ true → has d n ≡ true =
      λ n live. ground (arith, live, q n, gone n) in
    (
      d',
      (ts, found, p),
      record {
        degree = λ n live.
            r n (sym (q n) ∙ live)
            ∙ ap (λ m. some (pos m))
                (open_edges-congr (has (remove k d)) (has d') n edges (λ j. sym (q j)));
        upward = λ b n e live. ground (
          arith,
          q n,
          gone n,
          c.upward b n e (before b live),
          eq_iff n k,
          apart b n (before b live) e,
        );
        dependents = λ b live. c.dependents b (before b live);
      },
      λ n. q n ∙ gone n,
    )
