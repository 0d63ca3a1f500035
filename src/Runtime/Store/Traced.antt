-- ===== src/Runtime/Store/Traced.antt =====
-- The rows of runtime/state_store.py against the lineage: what a replay of the events of a runtime gives.
pub mod Kept
use deterministic_cognition.Prelude.{
  ℕ, suc, ◌+◌, String, ◌≡◌, refl, ◌∙◌, sym, subst, ap, inl, inr, Bool, true, false, ◌&&◌, Option,
  none, some, List, [], ◌∷◌, ◌++◌, Dict, Result, ok, err, eqb, arith, Bool-cases, Option-cases,
  Result-cases, is_blank, if◌then◌else◌, eq_refl,
}
use deterministic_cognition.Runtime.State.{
  RuntimeState, initialized, idle, polling, executing, checkpointing, paused, interrupted,
  recovering, failed, stopped, other, state_eq, validate_runtime_transition, RuntimeConfig, Runtime,
  RuntimeLineageEvent,
}
use deterministic_cognition.Runtime.Store.{
  RuntimeStore, StoreError, find_runtime, update_runtime, moved_row, moved, register_runtime,
  transition_runtime, save_checkpoint,
}
use deterministic_cognition.Runtime.Store.Moves.{find_runtime-id, find-update}

-- what the events of a runtime say of it; `broken` is a link that does not hold
pub data Trace : Type 0 where
  broken absent : Trace
  at : RuntimeState → ℕ → ℕ → Trace

abbrev pub is_ok : {A B : Type 0} → Result A B → Bool
is_ok (ok _) = true
is_ok (err _) = false

-- The link starts at the state that was reached, and the table has it.
abbrev pub links : RuntimeState → RuntimeState → RuntimeState → Bool
links s old new = state_eq old s && is_ok (validate_runtime_transition old new)

abbrev pub step : Option RuntimeState → RuntimeState → ℕ → Trace → Trace
step old new i broken = broken
step none new i absent = at new i 1
step (some old) new i absent = broken
step none new i (at s j n) = broken
step (some old) new i (at s j n) = if links s old new then at new i (suc n) else broken

abbrev pub event_step : ℕ → RuntimeLineageEvent → Trace → Trace
event_step id ev t =
    if eqb ev.runtime_id id then step ev.old_state ev.new_state ev.iteration t else t

-- the replay of the events, in the order of their ids
unfoldable pub replay : ℕ → List RuntimeLineageEvent → Trace → Trace
replay id [] t = t
replay id (ev ∷ evs) t = replay id evs (event_step id ev t)

abbrev pub row_trace : Option Runtime → Trace
row_trace none = absent
row_trace (some r) = at r.state r.current_iteration r.version

-- The events of every id replay to its row, the number of them being the version, and no row has an id
-- that is still to be given.
abbrev pub IsTraced : RuntimeStore → Type 0
IsTraced s =
    ((id : ℕ) → replay id s.lineage absent ≡ row_trace (find_runtime id s.runtimes))
    × ((k : ℕ) → find_runtime (s.next_runtime + k) s.runtimes ≡ none)

-- the store that a call leaves
abbrev pub kept : {A : Type 0} → RuntimeStore → Result StoreError (RuntimeStore × A) → RuntimeStore
kept s (ok (t, a)) = t
kept s (err e) = s

pub replay-append :
    (id : ℕ)
    → (evs : List RuntimeLineageEvent) → (ev : RuntimeLineageEvent) → (t : Trace)
    → replay id (evs ++ ev ∷ []) t ≡ event_step id ev (replay id evs t)
unfolding replay
replay-append id [] ev t = refl
replay-append id (x ∷ evs) ev t = replay-append id evs ev (event_step id x t)

pub find-other :
    (id other_id : ℕ)
    → (row : Runtime) → row.id ≡ id
    → eqb id other_id ≡ false
    → (rs : List Runtime)
    → find_runtime other_id (update_runtime id row rs) ≡ find_runtime other_id rs
unfolding find_runtime update_runtime
find-other id other_id row same apart [] = refl
find-other id other_id row same apart (r ∷ rs) = elim (Bool-cases (eqb id r.id)) [
  | inl here ↦ ground (arith, find-other id other_id row same apart rs)
  | inr there ↦ ground (arith, find-other id other_id row same apart rs)
]

pub find_new :
    (id : ℕ)
    → (rs : List Runtime) → (row : Runtime) → row.id ≡ id
    → find_runtime id rs ≡ none
    → find_runtime id (rs ++ row ∷ []) ≡ some row
unfolding find_runtime
find_new id [] row same e = ground arith
find_new id (r ∷ rs) row same e = elim (Bool-cases (eqb id r.id)) [
  | inl here ↦ ground arith
  | inr there ↦ ground (arith, find_new id rs row same)
]

pub find_old :
    (id : ℕ)
    → (rs : List Runtime) → (row : Runtime) → eqb id row.id ≡ false
    → find_runtime id (rs ++ row ∷ []) ≡ find_runtime id rs
unfolding find_runtime
find_old id [] row apart = rw apart refl
find_old id (r ∷ rs) row apart = elim (Bool-cases (eqb id r.id)) [
  | inl here ↦ rw here refl
  | inr there ↦ rw there (find_old id rs row apart)
]

pub update-none :
    (id k : ℕ)
    → (row : Runtime) → (rs : List Runtime) → row.id ≡ id
    → find_runtime k rs ≡ none
    → find_runtime k (update_runtime id row rs) ≡ none
unfolding find_runtime update_runtime
update-none id k row [] same e = refl
update-none id k row (r ∷ rs) same e = elim (Bool-cases (eqb id r.id)) [
  | inl here ↦ ground (arith, update-none id k row rs same)
  | inr there ↦ ground (arith, update-none id k row rs same)
]

pub state_eq_refl : (s : RuntimeState) → state_eq s s ≡ true
unfolding state_eq
state_eq_refl (other a) = eq_refl a
state_eq_refl initialized = refl
state_eq_refl idle = refl
state_eq_refl polling = refl
state_eq_refl executing = refl
state_eq_refl checkpointing = refl
state_eq_refl paused = refl
state_eq_refl interrupted = refl
state_eq_refl recovering = refl
state_eq_refl failed = refl
state_eq_refl stopped = refl

pub eqb_refl : (a : ℕ) → eqb a a ≡ true
eqb_refl a = ground arith

pub eqb_eq : (a b : ℕ) → eqb a b ≡ true → a ≡ b
eqb_eq a b e = ground arith

-- the event of a transition that the table has
pub link-ok :
    (id : ℕ)
    → (r : Runtime) → (new : RuntimeState) → (i : ℕ)
    → validate_runtime_transition r.state new ≡ ok tt
    → (if eqb id id
        then step (some r.state) new i (at r.state r.current_iteration r.version)
        else at r.state r.current_iteration r.version)
      ≡ at new i (suc r.version)
link-ok id r new i valid = rw (eqb_refl id) (rw (state_eq_refl r.state) (rw valid refl))
