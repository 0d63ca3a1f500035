-- ===== src/Orchestration/Recorded.antt =====
-- The lineage of a task determines its state and its version.
use deterministic_cognition.Prelude.{
  ℕ, suc, String, ◌≡◌, refl, ap, sym, ◌∙◌, Bool, true, false, Option, none, some, List, [], ◌∷◌,
  ◌++◌, eqb, length, length-append, arith, if◌then◌else◌,
}
use deterministic_cognition.Orchestration.State.{
  TaskState, pending, can_transition, Task, TaskLineageEvent, current_state_from_lineage,
}
use deterministic_cognition.Orchestration.Service.{find_task, lineage_of, update_state}

-- from no state to 'pending', or along a permitted transition
abbrev pub legal : Option TaskState → TaskState → Bool
legal none pending = true
legal none _ = false
legal (some old) new = can_transition old new

-- Each event starts where the one before ended, and makes a legal move.
abbrev pub IsChain : Option TaskState → List TaskLineageEvent → Type 0
IsChain p [] = Unit
IsChain p (ev ∷ evs) =
    (ev.old_state ≡ p) × (legal p ev.new_state ≡ true) × IsChain (some ev.new_state) evs

abbrev last_or : Option TaskState → List TaskLineageEvent → Option TaskState
last_or p [] = p
last_or p (ev ∷ evs) = last_or (some ev.new_state) evs

current-last_or :
    (ev : TaskLineageEvent) (evs : List TaskLineageEvent)
    → current_state_from_lineage (ev ∷ evs) ≡ last_or (some ev.new_state) evs
unfolding current_state_from_lineage
current-last_or ev [] = refl
current-last_or ev (x ∷ evs) = current-last_or x evs

current-none : (evs : List TaskLineageEvent) → current_state_from_lineage evs ≡ last_or none evs
unfolding current_state_from_lineage
current-none [] = refl
current-none (ev ∷ evs) = current-last_or ev evs

IsChain-snoc :
    (p : Option TaskState) (evs : List TaskLineageEvent) (ev : TaskLineageEvent)
    → IsChain p evs
    → ev.old_state ≡ last_or p evs
    → legal (last_or p evs) ev.new_state ≡ true
    → IsChain p (evs ++ ev ∷ [])
IsChain-snoc p [] ev c o l = (o, l, tt)
IsChain-snoc p (x ∷ evs) ev c o l = (c.0, c.1, IsChain-snoc (some x.new_state) evs ev c.2 o l)

last_or-snoc :
    (p : Option TaskState) (evs : List TaskLineageEvent) (ev : TaskLineageEvent)
    → last_or p (evs ++ ev ∷ []) ≡ some ev.new_state
last_or-snoc p [] ev = refl
last_or-snoc p (x ∷ evs) ev = last_or-snoc (some x.new_state) evs ev

-- The events tell the life of the task, from its creation to its state now.
pub record IsRecorded (t : Task) (evs : List TaskLineageEvent) : Type 0 where
  pub chain : IsChain none evs
  pub current : current_state_from_lineage evs ≡ some t.state
  pub version : t.version ≡ length evs

pub IsRecorded-snoc :
    (t t' : Task) (evs : List TaskLineageEvent) (ev : TaskLineageEvent)
    → IsRecorded t evs
    → ev.old_state ≡ some t.state
    → ev.new_state ≡ t'.state
    → t'.version ≡ suc t.version
    → can_transition t.state t'.state ≡ true
    → IsRecorded t' (evs ++ ev ∷ [])
IsRecorded-snoc t t' evs ev r o n v c =
    let last : last_or none evs ≡ some t.state = sym (current-none evs) ∙ r.current in
    record {
      chain = IsChain-snoc none evs ev r.chain (o ∙ sym last) (rw (last, n) c);
      current = current-none (evs ++ ev ∷ []) ∙ last_or-snoc none evs ev ∙ ap some n;
      version = omega (arith, v, r.version, length-append evs (ev ∷ []));
    }

pub find_task-id : (id : ℕ) (ts : List Task) (t : Task) → find_task id ts ≡ some t → t.id ≡ id
unfolding find_task
find_task-id id [] t h = absurd (cc)
find_task-id id (x ∷ ts) t h = ground (arith, find_task-id id ts t)

pub find_task-append :
    (id : ℕ) (ts : List Task) (row : Task)
    → find_task id (ts ++ row ∷ [])
      ≡ elim (find_task id ts) [ some t ↦ some t | none ↦ if eqb id row.id then some row else none ]
unfolding find_task
find_task-append id [] row = refl
find_task-append id (x ∷ ts) row = ground (arith, find_task-append id ts row)

pub find_task-update :
    (id on : ℕ) (new : TaskState) (version : ℕ) (now : String) (ts : List Task)
    → find_task id (update_state on new version now ts) ≡ elim (find_task id ts) [
      | none ↦ none
      | some t ↦
          some
            (if eqb on id then record t { state = new; version = version; updated_at = now } else t)
    ]
unfolding find_task update_state
find_task-update id on new version now [] = refl
find_task-update id on new version now (x ∷ ts) =
    ground (arith, find_task-update id on new version now ts)

pub lineage_of-snoc :
    (id : ℕ) (evs : List TaskLineageEvent) (ev : TaskLineageEvent)
    → lineage_of id (evs ++ ev ∷ [])
      ≡ lineage_of id evs ++ (if eqb ev.task_id id then ev ∷ [] else [])
unfolding lineage_of
lineage_of-snoc id [] ev = refl
lineage_of-snoc id (x ∷ evs) ev = ground (arith, lineage_of-snoc id evs ev)
