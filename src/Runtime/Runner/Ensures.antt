-- ===== src/Runtime/Runner/Ensures.antt =====
-- What a call leaves where it returns and where it raises, and the rules that the steps of
-- runtime/runner.py and runtime/service.py share.
use deterministic_cognition.Prelude.{
  ℕ, String, ◌≡◌, refl, sym, inl, inr, subst, ap, Bool, false, Option, none, some, List, [], ◌∷◌,
  Result, ok, err, Bool-cases, Option-cases, arith, is_blank,
}
use deterministic_cognition.Orchestration.State.{Task}
use deterministic_cognition.Orchestration.Service.{Store, ServiceError}
use deterministic_cognition.Runtime.State.{
  RuntimeState, interrupted, Runtime, validate_runtime_transition,
}
use deterministic_cognition.Runtime.Store.{RuntimeStore, find_runtime, moved}
use deterministic_cognition.Runtime.Store.Moves.{transition_runtime-ok, find-moved}
use deterministic_cognition.Runtime.World.{
  World, RunError, keyboard_interrupt, service_error, M, after, served,
}
use deterministic_cognition.Runtime.Dispatch.{
  Registry, has, execute_handler, move_task, settle_task, dispatch, execute_task, HandlerResult,
}
use deterministic_cognition.Runtime.Runner.{move_now, execute_all}

-- `P` of what is returned, and `Q` of what is raised
abbrev pub Ensures :
    {A : Type 0}
    → (World → A → Type 0)
    → (World → RunError → Type 0)
    → World × Result RunError A
    → Type 0
Ensures P Q (w, ok a) = P w a
Ensures P Q (w, err e) = Q w e

pub after-Ensures :
    {A B : Type 0}
    → (P : World → A → Type 0) → (P' : World → B → Type 0) → (Q : World → RunError → Type 0)
    → (m : World × Result RunError A) → (f : A → M B) → Ensures P Q m
    → ((w : World) → (a : A) → P w a → Ensures P' Q (f a w))
    → Ensures P' Q (after m f)
after-Ensures P P' Q (w, ok a) f p k = k w a p
after-Ensures P P' Q (w, err e) f p k = p

pub weakened-Ensures :
    {A : Type 0}
    → (P P' : World → A → Type 0) → (Q Q' : World → RunError → Type 0)
    → (m : World × Result RunError A) → Ensures P Q m
    → ((w : World) → (a : A) → P w a → P' w a)
    → ((w : World) → (e : RunError) → Q w e → Q' w e)
    → Ensures P' Q' m
weakened-Ensures P P' Q Q' (w, ok a) p f g = f w a p
weakened-Ensures P P' Q Q' (w, err e) q f g = g w e q

-- the state and the iteration in the row of a runtime
abbrev pub position : Option Runtime → Option (RuntimeState × ℕ)
position none = none
position (some r) = some (r.state, r.current_iteration)

unfoldable pub where_is : ℕ → World → Option (RuntimeState × ℕ)
where_is id w = position (find_runtime id w.runtimes.runtimes)

pub found-where_is :
    (id : ℕ)
    → (w : World) → (s : RuntimeState) → (i : ℕ) → where_is id w ≡ some (s, i)
    → (r : Runtime) × (find_runtime id w.runtimes.runtimes ≡ some r)
      × (r.state ≡ s)
      × (r.current_iteration ≡ i)
unfolding where_is
found-where_is id w s i e = elim (Option-cases (find_runtime id w.runtimes.runtimes)) [
  | inl missing ↦ ground arith
  | inr (r, found) ↦ (r, found, ground arith, ground arith)
]

-- An error of the loop: an interrupt, or one of the task service.
pub data IsStop : RunError → Type 0 where
  interrupt : IsStop keyboard_interrupt
  service : (x : ServiceError) → IsStop (service_error x)

-- The error is one of those, and the state of the runtime has a transition to 'interrupted'.
abbrev pub Stops : ℕ → World → RunError → Type 0
Stops id w e =
    IsStop e
    × (s : RuntimeState) × (i : ℕ) × (where_is id w ≡ some (s, i))
    × (validate_runtime_transition s interrupted ≡ ok tt)

-- The tables of the runtimes and the iteration are the given ones, and an error is one of the loop's.
abbrev pub Keeps : {A : Type 0} → RuntimeStore → ℕ → World × Result RunError A → Type 0
Keeps R i (w, ok a) = (w.runtimes ≡ R) × (w.iteration ≡ i)
Keeps R i (w, err e) = (w.runtimes ≡ R) × (w.iteration ≡ i) × IsStop e

pub after-Keeps :
    {A B : Type 0}
    → (R : RuntimeStore) → (i : ℕ) → (m : World × Result RunError A) → (f : A → M B) → Keeps R i m
    → ((w : World) → (a : A) → w.runtimes ≡ R → w.iteration ≡ i → Keeps R i (f a w))
    → Keeps R i (after m f)
after-Keeps R i (w, ok a) f (same, at) k = k w a same at
after-Keeps R i (w, err e) f kept k = kept

Keeps-at :
    {A : Type 0}
    → (w : World) → (R : RuntimeStore) → (i : ℕ) → (r : World × Result RunError A) → w.runtimes ≡ R
    → w.iteration ≡ i
    → Keeps w.runtimes w.iteration r
    → Keeps R i r
Keeps-at w R i r same at k = subst (λ j. Keeps R j r) at (subst (λ S. Keeps S w.iteration r) same k)

served-Keeps :
    {A : Type 0}
    → (w : World) → (r : Result ServiceError (Store × A))
    → Keeps w.runtimes w.iteration (served w r)
served-Keeps w (ok (s, a)) = (refl, refl)
served-Keeps w (err e) = (refl, refl, IsStop.service e)

settle_task-Keeps :
    (clock : ℕ → String)
    → (id : ℕ) → (actor : String) → (t : Task) → (result : HandlerResult) → (w : World)
    → Keeps w.runtimes w.iteration (settle_task clock id actor t result w)
unfolding settle_task move_task
settle_task-Keeps clock id actor t result w = elim (Bool-cases result.success) [
  | inl good ↦ rw good (served-Keeps w _)
  | inr bad ↦ rw bad (served-Keeps w _)
]

dispatch-Keeps :
    (clock : ℕ → String)
    → (id : ℕ) → (actor : String) → (registry : Option Registry) → (t : Task) → (w : World)
    → Keeps w.runtimes w.iteration (dispatch clock id actor registry t w)
unfolding dispatch move_task
dispatch-Keeps clock id actor none t w = served-Keeps w _
dispatch-Keeps clock id actor (some registry) t w = elim (Bool-cases (has registry t.task_type)) [
  | inl known ↦ rw known (
      let (s, result) = execute_handler registry t w.tasks in
      settle_task-Keeps clock id actor t result (record w { tasks = s }))
  | inr missing ↦ rw missing (served-Keeps w _)
]

execute_task-Keeps :
    (clock : ℕ → String)
    → (id : ℕ) → (actor : String) → (registry : Option Registry) → (w : World)
    → Keeps w.runtimes w.iteration (execute_task clock id actor registry w)
unfolding execute_task move_task
execute_task-Keeps clock id actor registry w =
    after-Keeps w.runtimes w.iteration _ _ (served-Keeps w _) (λ v t same at.
      Keeps-at v w.runtimes w.iteration (dispatch clock id actor registry t v) same at
        (dispatch-Keeps clock id actor registry t v))

-- the tasks of a round leave the runtimes as they are
pub execute_all-Keeps :
    (clock : ℕ → String)
    → (signal : ℕ → Bool) → (id : ℕ) → (actor : String) → (registry : Option Registry)
    → (ts : List Task) → (w : World) → (R : RuntimeStore) → (i : ℕ) → w.runtimes ≡ R
    → w.iteration ≡ i
    → Keeps R i (execute_all clock signal id actor registry ts w)
unfolding execute_all
execute_all-Keeps clock signal id actor registry [] w R i same at = (same, at)
execute_all-Keeps clock signal id actor registry (t ∷ ts) w R i same at =
    elim (Bool-cases (signal w.ticks)) [
      | inl asked ↦ rw asked (same, at, IsStop.interrupt)
      | inr quiet ↦ rw quiet (
          after-Keeps R i _ _
            (after-Keeps R i _ _
              (Keeps-at w R i (execute_task clock t.id actor registry w) same at
                (execute_task-Keeps clock t.id actor registry w))
              (λ v a same' at'. (same', at')))
            (λ v a same' at'. execute_all-Keeps clock signal id actor registry ts v R i same' at'))
    ]

-- what a transition of the runner leaves, for a transition that the table has
abbrev pub Moved : ℕ → RuntimeState → ℕ → World → World → Runtime → Type 0
Moved id new i w v r =
    (where_is id v ≡ some (new, i))
    × (v.iteration ≡ w.iteration)
    × (v.runtimes.checkpoints ≡ w.runtimes.checkpoints)
    × (r.state ≡ new)
    × (r.current_iteration ≡ i)

pub move_now-ok :
    (clock : ℕ → String)
    → (signal : ℕ → Bool) → (id : ℕ) → (new : RuntimeState) → (reason : String) → (i : ℕ)
    → (w : World) → (s : RuntimeState) → (j : ℕ) → where_is id w ≡ some (s, j)
    → is_blank reason ≡ false
    → validate_runtime_transition s new ≡ ok tt
    → Ensures (Moved id new i w) (λ v e. ⊥) (move_now clock signal id new reason i w)
unfolding move_now where_is moved
move_now-ok clock signal id new reason i w s j at ink valid =
    let (r, found, same, iter) = found-where_is id w s j at in
    rw
      (transition_runtime-ok (clock w.ticks) id new reason i w.runtimes r ink found
        (subst (λ x. validate_runtime_transition x new ≡ ok tt) (sym same) valid))
      (
        ap position (find-moved (clock w.ticks) id new reason i w.runtimes r found),
        refl,
        refl,
        refl,
        refl,
      )
