-- ===== src/Runtime/Store/Moves.antt =====
-- What the operations on a runtime's row leave, for runtime/state_store.py.
use Prim.Native.Char.{code}
use text.Mathlib.TextLemmas.{cons-append}
use deterministic_cognition.Prelude.{
  inl, inr, is_space, subst, sym, ℕ, String, ◌⧺◌, ◌≡◌, refl, false, some, List, [], ◌∷◌, ok, eqb,
  arith, Bool-cases, is_blank,
}
use deterministic_cognition.Runtime.State.{RuntimeState, validate_runtime_transition, Runtime}
use deterministic_cognition.Runtime.Store.{
  RuntimeStore, find_runtime, update_runtime, moved_row, moved, transition_runtime,
}

pub find_runtime-id :
    (id : ℕ) → (rs : List Runtime) → (r : Runtime) → find_runtime id rs ≡ some r → r.id ≡ id
unfolding find_runtime
find_runtime-id id [] r e = ground arith
find_runtime-id id (x ∷ xs) r e = elim (Bool-cases (eqb id x.id)) [
  | inl same_id ↦ ground (arith, find_runtime-id id xs r)
  | inr other_id ↦ find_runtime-id id xs r (ground arith)
]

pub find-update :
    (id : ℕ)
    → (row : Runtime) → row.id ≡ id
    → (rs : List Runtime) → (r : Runtime) → find_runtime id rs ≡ some r
    → find_runtime id (update_runtime id row rs) ≡ some row
unfolding find_runtime update_runtime
find-update id row same [] r e = ground arith
find-update id row same (x ∷ xs) r e = elim (Bool-cases (eqb id x.id)) [
  | inl same_id ↦ ground arith
  | inr other_id ↦ ground (arith, find-update id row same xs r)
]

-- a text is not blank when its first part is not
pub is_blank-append : (s t : String) → is_blank s ≡ false → is_blank (s ⧺ t) ≡ false
unfolding is_blank
is_blank-append String.[] t e = ground arith
is_blank-append (String.◌∷◌ c s) t e =
    subst (λ x. is_blank x ≡ false) (sym (cons-append c s t))
      (elim (Bool-cases (is_space (code c))) [
        | inl space ↦ ground (arith, is_blank-append s t)
        | inr ink ↦ ground arith
      ])

-- what a transition that the table has leaves
pub transition_runtime-ok :
    (now : String)
    → (id : ℕ) → (new : RuntimeState) → (reason : String) → (iteration : ℕ) → (s : RuntimeStore)
    → (r : Runtime) → is_blank reason ≡ false
    → find_runtime id s.runtimes ≡ some r
    → validate_runtime_transition r.state new ≡ ok tt
    → transition_runtime now id new reason iteration [] s
      ≡ ok (moved now id r new reason iteration [] s, moved_row now new iteration r)
unfolding transition_runtime
transition_runtime-ok now id new reason iteration s r ink found valid =
    rw ink (rw found (rw valid refl))

pub find-moved :
    (now : String)
    → (id : ℕ) → (new : RuntimeState) → (reason : String) → (iteration : ℕ) → (s : RuntimeStore)
    → (r : Runtime) → find_runtime id s.runtimes ≡ some r
    → find_runtime id (moved now id r new reason iteration [] s).runtimes
      ≡ some (moved_row now new iteration r)
unfolding moved
find-moved now id new reason iteration s r found =
    find-update id (moved_row now new iteration r) (find_runtime-id id s.runtimes r found)
      s.runtimes r found
