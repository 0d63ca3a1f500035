-- ===== src/Runtime/Runner/Rounds.antt =====
-- One iteration of `run_iterations` of runtime/runner.py: from 'idle' back to 'idle'.
use deterministic_cognition.Prelude.{
  ℕ, suc, String, ◌⧺◌, ◌≡◌, refl, ◌∙◌, ap, inl, inr, Bool, false, Option, some, List, [], ◌∷◌,
  Result, ok, err, Bool-cases, arith, is_blank, show, length, eqb, ◌++◌, ◌%◌,
}
use deterministic_cognition.Orchestration.State.{
  Task, state_in as task_state_in, state_eq as task_state_eq,
}
use deterministic_cognition.Orchestration.Listing.{list_tasks, given_state, given_text}
use deterministic_cognition.Runtime.State.{
  RuntimeState, idle, polling, executing, checkpointing, interrupted, RuntimeConfig, Checkpoint,
  validate_runtime_transition, valid_transitions, state_in, state_eq, can_transition,
}
use deterministic_cognition.Runtime.Store.{
  RuntimeStore, find_runtime, save_checkpoint, checkpoints_of, last_of,
}
use deterministic_cognition.Runtime.Store.Moves.{is_blank-append}
use deterministic_cognition.Runtime.World.{World, RunError, after}
use deterministic_cognition.Runtime.Dispatch.{Registry, poll_ready_tasks}
use deterministic_cognition.Runtime.Runner.{
  move, move_now, checkpoint, execute_all, checkpoint_phase, work, round,
}
use deterministic_cognition.Runtime.Runner.Ensures.{
  position, Ensures, after-Ensures, where_is, found-where_is, IsStop, Stops, Keeps,
  execute_all-Keeps, move_now-ok, weakened-Ensures, Moved,
}

-- the row has the state and the iteration that the loop is at
abbrev pub Placed : {A : Type 0} → ℕ → RuntimeState → ℕ → World → A → Type 0
Placed id s i w a = (where_is id w ≡ some (s, i)) × (w.iteration ≡ i)

-- what leaves the tables of the runtimes leaves the runtime where it is
lifted-Keeps :
    {A : Type 0}
    → (id : ℕ) → (s : RuntimeState) → (i : ℕ) → (w : World) → where_is id w ≡ some (s, i)
    → validate_runtime_transition s interrupted ≡ ok tt
    → (m : World × Result RunError A) → Keeps w.runtimes i m
    → Ensures (Placed id s i) (Stops id) m
unfolding where_is
lifted-Keeps id s i w at live (v, ok a) (same, iter) =
    (ap (λ (R : RuntimeStore). position (find_runtime id R.runtimes)) same ∙ at, iter)
lifted-Keeps id s i w at live (v, err e) (same, iter, stop) =
    (stop, s, i, ap (λ (R : RuntimeStore). position (find_runtime id R.runtimes)) same ∙ at, live)

-- the runtime stays where it is, and its latest checkpoint is the new one
abbrev pub Checkpointed : ℕ → RuntimeState → ℕ → World → World → Checkpoint → Type 0
Checkpointed id s i w v c =
    (where_is id v ≡ some (s, i))
    × (v.iteration ≡ w.iteration)
    × (last_of (checkpoints_of id v.runtimes.checkpoints) ≡ some c)
    × (c.iteration ≡ w.iteration)

-- an end of the log that was appended
last_of-append : (cs : List Checkpoint) → (c : Checkpoint) → last_of (cs ++ c ∷ []) ≡ some c
unfolding last_of
last_of-append [] c = refl
last_of-append (b ∷ []) c = refl
last_of-append (a ∷ b ∷ cs) c = last_of-append (b ∷ cs) c

checkpoints_of-append :
    (id : ℕ)
    → (cs : List Checkpoint) → (c : Checkpoint) → c.runtime_id ≡ id
    → checkpoints_of id (cs ++ c ∷ []) ≡ checkpoints_of id cs ++ c ∷ []
unfolding checkpoints_of
checkpoints_of-append id [] c e = ground arith
checkpoints_of-append id (b ∷ cs) c e = elim (Bool-cases (eqb b.runtime_id id)) [
  | inl same ↦ ground (arith, checkpoints_of-append id cs c)
  | inr other_id ↦ ground (arith, checkpoints_of-append id cs c)
]

module _ (clock : ℕ → String) (signal : ℕ → Bool) (id : ℕ) where
  -- a checkpoint becomes the latest of its runtime, and the runtime stays where it is
  pub checkpoint-ok :
      (reason : String)
      → (w : World) → (s : RuntimeState) → (i : ℕ) → where_is id w ≡ some (s, i)
      → is_blank reason ≡ false
      → Ensures (Checkpointed id s i w) (λ v e. ⊥) (checkpoint clock signal id reason w)
  unfolding checkpoint save_checkpoint where_is
  checkpoint-ok reason w s i at ink =
      let (r, found, same, iter) = found-where_is id w s i at in
      rw ink (
        rw found (
          at,
          refl,
          ap last_of (checkpoints_of-append id w.runtimes.checkpoints _ refl)
              ∙ last_of-append (checkpoints_of id w.runtimes.checkpoints) _,
          refl,
        ))

  pub move-Stops :
      (new : RuntimeState)
      → (reason : String) → (w : World) → (s : RuntimeState) → (i j : ℕ)
      → where_is id w ≡ some (s, j)
      → w.iteration ≡ i
      → is_blank reason ≡ false
      → validate_runtime_transition s new ≡ ok tt
      → validate_runtime_transition s interrupted ≡ ok tt
      → Ensures (Placed id new i) (Stops id) (move clock signal id new reason w)
  unfolding move
  move-Stops new reason w s i j at iter ink valid live = elim (Bool-cases (signal w.ticks)) [
    | inl asked ↦ rw asked (IsStop.interrupt, s, j, at, live)
    | inr quiet ↦ rw quiet (
        weakened-Ensures (Moved id new w.iteration w) (Placed id new i) (λ v e. ⊥) (Stops id)
          (move_now clock signal id new reason w.iteration w)
          (move_now-ok clock signal id new reason w.iteration w s j at ink valid)
          (λ v r m. let (p, q, _, _, _) = m in (p ∙ ap (λ k. some (new, k)) iter, q ∙ iter))
          (λ v e no. elim no [ ]))
  ]

  checkpoint-Stops :
      (reason : String)
      → (w : World) → (s : RuntimeState) → (i : ℕ) → where_is id w ≡ some (s, i)
      → w.iteration ≡ i
      → is_blank reason ≡ false
      → Ensures (Placed id s i) (Stops id) (checkpoint clock signal id reason w)
  checkpoint-Stops reason w s i at iter ink =
      weakened-Ensures (Checkpointed id s i w) (Placed id s i) (λ v e. ⊥) (Stops id)
        (checkpoint clock signal id reason w) (checkpoint-ok reason w s i at ink)
        (λ v c m. let (p, q, _, _) = m in (p, q ∙ iter)) (λ v e no. elim no [ ])

  checkpoint_phase-Stops :
      (config : RuntimeConfig)
      → (w : World) → (i : ℕ) → where_is id w ≡ some (executing, i)
      → w.iteration ≡ i
      → Ensures (Placed id idle i) (Stops id) (checkpoint_phase clock signal id config w)
  unfolding checkpoint_phase validate_runtime_transition can_transition valid_transitions state_in
      state_eq is_blank
  checkpoint_phase-Stops config w i at iter =
      elim (Bool-cases (eqb (w.iteration % config.checkpoint_every) 0)) [
        | inl due ↦ rw due (
            after-Ensures (Placed id checkpointing i) (Placed id idle i) (Stops id) _ _
              (after-Ensures (Placed id checkpointing i) (Placed id checkpointing i) (Stops id) _ _
                (move-Stops checkpointing _ w executing i i at iter
                  (is_blank-append "Runner: checkpointing after iteration " (show w.iteration) refl)
                  refl refl)
                (λ v r placed.
                  checkpoint-Stops _ v checkpointing i placed.0 placed.1
                    (is_blank-append "Iteration " (show w.iteration ⧺ " checkpoint") refl)))
              (λ v c placed.
                move-Stops idle _ v checkpointing i i placed.0 placed.1 refl refl refl))
        | inr not_due ↦ rw not_due (move-Stops idle _ w executing i i at iter refl refl refl)
      ]

  work-Stops :
      (config : RuntimeConfig)
      → (registry : Option Registry) → (ts : List Task) → (w : World) → (i : ℕ)
      → where_is id w ≡ some (polling, i)
      → w.iteration ≡ i
      → Ensures (Placed id idle i) (Stops id) (work clock signal id config registry ts w)
  unfolding work validate_runtime_transition can_transition valid_transitions state_in state_eq
      is_blank where_is
  work-Stops config registry [] w i at iter = move-Stops idle _ w polling i i at iter refl refl refl
  work-Stops config registry (t ∷ ts) w i at iter =
      after-Ensures (Placed id executing i) (Placed id idle i) (Stops id)
        (after (move clock signal id executing _ w)
          (λ _. execute_all clock signal id config.actor registry (t ∷ ts)))
        _
        (after-Ensures (Placed id executing i) (Placed id executing i) (Stops id) _ _
          (move-Stops executing _ w polling i i at iter
            (is_blank-append "Runner: executing " (show (length (t ∷ ts)) ⧺ " task(s)") refl) refl
            refl)
          (λ v r placed.
            lifted-Keeps id executing i v placed.0 refl
              (execute_all clock signal id config.actor registry (t ∷ ts) v)
              (execute_all-Keeps clock signal id config.actor registry (t ∷ ts) v v.runtimes i refl
                placed.1)))
        (λ v r placed. checkpoint_phase-Stops config v i placed.0 placed.1)

  -- the poll is for the ready tasks, and leaves everything as it is
  poll-ok :
      (w : World)
      → (i : ℕ) → where_is id w ≡ some (polling, i)
      → w.iteration ≡ i
      → Ensures (Placed id polling i) (Stops id) (poll_ready_tasks w)
  unfolding poll_ready_tasks list_tasks given_state given_text task_state_in task_state_eq
  poll-ok w i at iter = (at, iter)

  pub round-Stops :
      (config : RuntimeConfig)
      → (registry : Option Registry) → (w : World) → (j : ℕ) → where_is id w ≡ some (idle, j)
      → Ensures
          (Placed id idle (suc w.iteration))
          (Stops id)
          (round clock signal id config registry w)
  unfolding round where_is validate_runtime_transition can_transition valid_transitions state_in
      state_eq is_blank
  round-Stops config registry w j at =
      let v : World = record w { iteration = suc w.iteration } in
      after-Ensures (Placed id polling (suc w.iteration)) (Placed id idle (suc w.iteration))
        (Stops id) _ _
        (after-Ensures (Placed id polling (suc w.iteration)) (Placed id polling (suc w.iteration))
          (Stops id) _ _
          (move-Stops polling _ v idle (suc w.iteration) j at refl
            (is_blank-append "Runner: polling iteration " (show (suc w.iteration)) refl) refl refl)
          (λ u r placed. poll-ok u (suc w.iteration) placed.0 placed.1))
        (λ u ts placed. work-Stops config registry ts u (suc w.iteration) placed.0 placed.1)
