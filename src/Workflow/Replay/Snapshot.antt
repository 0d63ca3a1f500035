-- ===== src/Workflow/Replay/Snapshot.antt =====
-- `replay_from_snapshot` against `replay_execution`.
use mathlib.Core.Option.{some-injective}
use deterministic_cognition.Prelude.{
  ℕ, suc, String, ◌≡◌, refl, ap, sym, ◌∙◌, true, Option, none, some, List, [], ◌∷◌, ◌++◌, arith,
  append-nil, ◌==◌, append-eq-nil, All, Bool-cases, inl, inr,
}
use deterministic_cognition.Workflow.State.{
  State, EventType, state_transition, node_completed, node_submitted, WorkflowExecution,
  LineageEvent,
}
use deterministic_cognition.Workflow.Lineage.{
  LineageError, Check, check_start, is_terminal, is_transition, permitted, delta_transition_errors,
  check_delta_kind, check_delta_at, check_delta_id, check_delta_event, check_delta_from,
  validate_delta_events,
}
use deterministic_cognition.Workflow.Replay.{
  Replayed, blank, apply_kind, apply_events, of_snapshot, or_initialized, rebuild, resume,
  replay_delta, replay_execution, replay_from_snapshot,
}
use deterministic_cognition.Workflow.Replay.Tracks.{apply_events-append}

-- The same variables, but for states that `state or 'initialized'` does not tell apart.
record Agree (a b : Replayed) : Type 0 where
  state : or_initialized a.state ≡ or_initialized b.state
  active_stage_index : a.active_stage_index ≡ b.active_stage_index
  completed_node_ids : a.completed_node_ids ≡ b.completed_node_ids
  failed_node_ids : a.failed_node_ids ≡ b.failed_node_ids
  node_attempts : a.node_attempts ≡ b.node_attempts
  updated_at : a.updated_at ≡ b.updated_at
  version : a.version ≡ b.version

apply_kind-Agree :
    (k : EventType) (evt : LineageEvent) (a b : Replayed)
    → Agree a b
    → Agree (apply_kind k evt a) (apply_kind k evt b)
unfolding apply_kind
apply_kind-Agree state_transition evt a b h = ground arith
apply_kind-Agree _ evt a b h = ground arith

apply_events-Agree :
    (evts : List LineageEvent) (a b : Replayed)
    → Agree a b
    → Agree (apply_events evts a) (apply_events evts b)
unfolding apply_events
apply_events-Agree [] a b h = h
apply_events-Agree (x ∷ xs) a b h =
    apply_events-Agree xs _ _ (apply_kind-Agree x.event_type x a b h)

-- A state that `state or 'initialized'` keeps.
abbrev IsNormal : Option State → Type 0
IsNormal o = (s : State) × (o ≡ some s) × (or_initialized o ≡ s)

or_initialized-IsNormal : (o : Option State) → IsNormal (some (or_initialized o))
unfolding or_initialized
or_initialized-IsNormal none = (State.initialized, refl, refl)
or_initialized-IsNormal (some (State.other s)) = elim (Bool-cases (s == "")) [
  | inl e ↦ rw e (State.initialized, refl, refl)
  | inr e ↦ rw e (State.other s, refl, rw e)
]
or_initialized-IsNormal (some State.ready) = (State.ready, refl, refl)
or_initialized-IsNormal (some s) = (s, refl, refl)

permitted-IsNormal : (s : State) (o : Option State) → permitted s o ≡ true → IsNormal o
unfolding permitted or_initialized
permitted-IsNormal s none h = cc
permitted-IsNormal s (some (State.other n)) h = absurd (ground arith)
permitted-IsNormal s (some State.ready) h = (State.ready, refl, refl)
permitted-IsNormal s (some n) h = (n, refl, refl)

-- what an event of a valid delta does to the state
abbrev Fine : LineageEvent → Type 0
Fine evt = is_transition evt.event_type ≡ true → (s : State) × (permitted s evt.new_state ≡ true)

delta_transition_errors-Fine :
    (i : ℕ) (evt : LineageEvent) (o : Option State)
    → delta_transition_errors i evt o ≡ []
    → (s : State) × (permitted s evt.new_state ≡ true)
unfolding delta_transition_errors
delta_transition_errors-Fine i evt none h = absurd (cc)
delta_transition_errors-Fine i evt (some s) h = (s, ground arith)

check_delta_kind-Fine :
    (k : EventType) (base : List String) (i : ℕ) (evt : LineageEvent) (c : Check)
    → (check_delta_kind k base i evt c).errors ≡ []
    → (c.errors ≡ []) × (is_transition k ≡ true → (s : State) × (permitted s evt.new_state ≡ true))
unfolding check_delta_kind
check_delta_kind-Fine state_transition base i evt c h =
    let (old, new) = append-eq-nil c.errors (delta_transition_errors i evt c.current_state) h in
    (old, λ _. delta_transition_errors-Fine i evt c.current_state new)
check_delta_kind-Fine node_completed base i evt c h = (ground arith, λ p. absurd (cc))
check_delta_kind-Fine k base i evt c h = (ground arith, λ p. absurd (cc))

check_delta_at-Fine :
    (o : Option ℕ) (base : List String) (i : ℕ) (evt : LineageEvent) (c : Check)
    → (check_delta_at o base i evt c).errors ≡ []
    → (c.errors ≡ []) × Fine evt
unfolding check_delta_at
check_delta_at-Fine none base i evt c h = check_delta_kind-Fine evt.event_type base i evt c h
check_delta_at-Fine (some at) base i evt c h = absurd (cc (append-eq-nil c.errors _ h).1)

check_delta_event-Fine :
    (snapshot : WorkflowExecution) (i : ℕ) (evt : LineageEvent) (c : Check)
    → (check_delta_event snapshot i evt c).errors ≡ []
    → (c.errors ≡ []) × Fine evt
unfolding check_delta_event
check_delta_event-Fine snapshot i evt c h =
    let (errors, now) =
      check_delta_at-Fine c.terminal_at snapshot.completed_node_ids i evt
        (check_delta_id snapshot i evt c) h in
    ((append-eq-nil c.errors _ errors).0, now)

check_delta_from-Fine :
    (snapshot : WorkflowExecution) (i : ℕ) (evts : List LineageEvent) (c : Check)
    → (check_delta_from snapshot i evts c).errors ≡ []
    → (c.errors ≡ []) × All Fine evts
unfolding check_delta_from
check_delta_from-Fine snapshot i [] c h = (h, tt)
check_delta_from-Fine snapshot i (x ∷ xs) c h =
    let (errors, later) =
      check_delta_from-Fine snapshot (suc i) xs (check_delta_event snapshot i x c) h in
    let (old, now) = check_delta_event-Fine snapshot i x c errors in (old, (now, later))

validate_delta_events-Fine :
    (snapshot : WorkflowExecution) (evts : List LineageEvent)
    → validate_delta_events snapshot evts ≡ []
    → All Fine evts
unfolding validate_delta_events
validate_delta_events-Fine snapshot [] h = tt
validate_delta_events-Fine snapshot (x ∷ xs) h =
    elim (Bool-cases (is_terminal (some snapshot.state))) [
      | inl end ↦ absurd (ground arith)
      | inr go ↦
          (check_delta_from-Fine snapshot 0 (x ∷ xs)
            (record (check_start []) { current_state = some snapshot.state }) (ground arith)).1
    ]

-- A valid delta leaves a state that `state or 'initialized'` keeps.
apply_kind-IsNormal :
    (k : EventType) (evt : LineageEvent) (r : Replayed)
    → (is_transition k ≡ true → (s : State) × (permitted s evt.new_state ≡ true))
    → IsNormal r.state
    → IsNormal (apply_kind k evt r).state
unfolding apply_kind
apply_kind-IsNormal state_transition evt r f n =
    let (s, p) = f refl in permitted-IsNormal s evt.new_state p
apply_kind-IsNormal node_completed evt r f n = n
apply_kind-IsNormal _ evt r f n = n

apply_events-IsNormal :
    (evts : List LineageEvent) (r : Replayed)
    → All Fine evts
    → IsNormal r.state
    → IsNormal (apply_events evts r).state
unfolding apply_events
apply_events-IsNormal [] r f n = n
apply_events-IsNormal (x ∷ xs) r f n =
    apply_events-IsNormal xs _ f.1 (apply_kind-IsNormal x.event_type x r f.0 n)

apply_kind-updated :
    (k : EventType) (evt : LineageEvent) (r : Replayed)
    → (a : String) × (r.updated_at ≡ some a)
    → (a : String) × ((apply_kind k evt r).updated_at ≡ some a)
unfolding apply_kind
apply_kind-updated node_submitted evt r h = h
apply_kind-updated (EventType.other s) evt r h = h
apply_kind-updated _ evt r h = (evt.created_at, refl)

apply_events-updated :
    (evts : List LineageEvent) (r : Replayed)
    → (a : String) × (r.updated_at ≡ some a)
    → (a : String) × ((apply_events evts r).updated_at ≡ some a)
unfolding apply_events
apply_events-updated [] r h = h
apply_events-updated (x ∷ xs) r h =
    apply_events-updated xs _ (apply_kind-updated x.event_type x r h)

or_initialized_idem :
    (o : Option State) → or_initialized (some (or_initialized o)) ≡ or_initialized o
or_initialized_idem o = let (s, p, q) = or_initialized-IsNormal o in cc

rebuild-Agree :
    (first : LineageEvent) (r : Replayed)
    → (a : String) × (r.updated_at ≡ some a)
    → Agree (of_snapshot (rebuild first (some first) r)) r
unfolding rebuild
rebuild-Agree first r (a, h) = record {
  state = or_initialized_idem r.state;
  active_stage_index = refl;
  completed_node_ids = refl;
  failed_node_ids = refl;
  node_attempts = refl;
  updated_at = ground arith;
  version = refl;
}

resume-rebuild :
    (first : LineageEvent) (s : WorkflowExecution) (r a b : Replayed)
    → s ≡ rebuild first (some first) r
    → Agree a b
    → IsNormal a.state
    → (u : String) × (a.updated_at ≡ some u)
    → resume s a ≡ rebuild first (some first) b
unfolding resume rebuild
resume-rebuild first s r a b e h (n, p, q) (u, v) = ground (
  arith, h.state, h.updated_at, h.version, h.node_attempts, h.failed_node_ids, h.completed_node_ids,
  h.active_stage_index,
)

valid_delta :
    (s : WorkflowExecution) (evts : List LineageEvent) (errors : List LineageError)
    → (replay_delta s evts errors).is_valid ≡ true
    → errors ≡ []
unfolding replay_delta
valid_delta s evts [] h = refl
valid_delta s evts (e ∷ errors) h = absurd (cc)

replay_execution-first :
    (first : LineageEvent) (rest : List LineageEvent)
    → first.event_type ≡ state_transition
    → (replay_execution (first ∷ rest)).execution
      ≡ some (rebuild first (some first) (apply_events (first ∷ rest) blank))
unfolding replay_execution
replay_execution-first first rest k = ground arith

replay_delta-valid :
    (s : WorkflowExecution) (evts : List LineageEvent)
    → (replay_delta s evts (validate_delta_events s evts)).is_valid ≡ true
    → (replay_delta s evts (validate_delta_events s evts)).execution
      ≡ some (resume s (apply_events evts (of_snapshot s)))
replay_delta-valid s evts h =
    rw (valid_delta s evts (validate_delta_events s evts) h) (unfold replay_delta in refl)

first-updated :
    (first : LineageEvent) (rest : List LineageEvent)
    → first.event_type ≡ state_transition
    → (a : String) × ((apply_events (first ∷ rest) blank).updated_at ≡ some a)
unfolding apply_events apply_kind
first-updated first rest k = apply_events-updated rest _ (first.created_at, ground arith)

resume_delta :
    (first : LineageEvent) (s : WorkflowExecution) (r : Replayed) (delta : List LineageEvent)
    → s ≡ rebuild first (some first) r
    → (a : String) × (r.updated_at ≡ some a)
    → All Fine delta
    → resume s (apply_events delta (of_snapshot s))
      ≡ rebuild first (some first) (apply_events delta r)
resume_delta first s r delta e updated fine =
    let agree : Agree (of_snapshot s) r = rw e (rebuild-Agree first r updated) in
    let normal : IsNormal (of_snapshot s).state =
      rw e (unfold rebuild in or_initialized-IsNormal r.state) in
    resume-rebuild first s r (apply_events delta (of_snapshot s)) (apply_events delta r) e
      (apply_events-Agree delta (of_snapshot s) r agree)
      (apply_events-IsNormal delta (of_snapshot s) fine normal)
      (apply_events-updated delta (of_snapshot s) (s.updated_at, refl))

-- A snapshot that full replay would give, and a delta that passes the validation: the result is that
-- of the full replay of the whole lineage, whose first event is a state transition.
pub snapshot-replay :
    (first : LineageEvent) (rest delta : List LineageEvent) (s : WorkflowExecution)
    → first.event_type ≡ state_transition
    → (replay_execution (first ∷ rest)).execution ≡ some s
    → (replay_from_snapshot s delta).is_valid ≡ true
    → (replay_from_snapshot s delta).execution
      ≡ (replay_execution (first ∷ rest ++ delta)).execution
unfolding replay_from_snapshot
snapshot-replay first rest [] s k full valid = rw append-nil (sym full)
snapshot-replay first rest (x ∷ xs) s k full valid =
    let delta = x ∷ xs in
    let fine =
      validate_delta_events-Fine s delta
        (valid_delta s delta (validate_delta_events s delta) valid) in
    let r = apply_events (first ∷ rest) blank in
    let e : s ≡ rebuild first (some first) r =
      some-injective _ _ (sym full ∙ replay_execution-first first rest k) in
    replay_delta-valid s delta valid
    ∙ ap some (resume_delta first s r delta e (first-updated first rest k) fine)
    ∙ ap (λ (v : Replayed). some (rebuild first (some first) v))
        (sym (apply_events-append (first ∷ rest) delta blank))
    ∙ sym (replay_execution-first first (rest ++ delta) k)
