-- ===== src/Runtime/Runner.antt =====
-- runtime/runner.py: the loop that polls, executes and checkpoints, and the operations of a supervisor.
-- `signal` says at which reading of the clock a KeyboardInterrupt has come; it is raised before the next
-- transition or execution. `should_stop` answers for the iteration at hand.
pub mod Ensures
pub mod Rounds
pub mod Bounded
pub mod Ends
pub mod Recovers
pub mod Examples
use deterministic_cognition.Prelude.{
  ℕ, zero, suc, ◌+◌, ◌%◌, ℤ, pos, leb_ℤ, String, ◌⧺◌, Bool, true, false, not, ◌&&◌, Option, none,
  some, List, [], ◌∷◌, show, show_ℤ, length, eqb, Result, ok, err, if◌then◌else◌,
}
use deterministic_cognition.Orchestration.State.{Task}
use deterministic_cognition.Runtime.State.{
  RuntimeState, initialized, idle, polling, executing, checkpointing, paused, interrupted,
  recovering, stopped, state_eq, RuntimeConfig, Runtime, Checkpoint, RunResult,
}
use deterministic_cognition.Runtime.Store.{
  transition_runtime, get_runtime, save_checkpoint, not_found, StoreError,
}
use deterministic_cognition.Runtime.World.{
  World, RunError, unbounded, keyboard_interrupt, still_running, store_error, M, ◌>>=◌, ◌>>◌, pure,
  raise, stored,
}
use deterministic_cognition.Runtime.Dispatch.{Registry, poll_ready_tasks, execute_task}

-- `config.max_iterations is not None and iteration >= config.max_iterations`
abbrev pub reached : Option ℤ → ℕ → Bool
reached none i = false
reached (some limit) i = leb_ℤ limit (pos i)

abbrev pub asked : Option (ℕ → Bool) → ℕ → Bool
asked none i = false
asked (some should_stop) i = should_stop i

abbrev pub is_none {ℓ} : {A : Type ℓ} → Option A → Bool
is_none none = true
is_none (some _) = false

abbrev pub limit_text : Option ℤ → String
limit_text none = ""
limit_text (some k) = show_ℤ k

-- `rt.current_iteration if iteration is None else iteration`
abbrev pub effective : Option ℕ → ℕ → ℕ
effective none current = current
effective (some i) current = i

-- a read of the row
unfoldable pub read_runtime : ℕ → M Runtime
read_runtime id w = elim (get_runtime id w.runtimes) [
  | err e ↦ (w, err (store_error e))
  | ok r ↦ (w, ok r)
]

module _ (clock : ℕ → String) (signal : ℕ → Bool) (id : ℕ) where
  -- `transition_runtime` with the reason and the iteration of the runner
  unfoldable pub move_now : RuntimeState → String → ℕ → M Runtime
  move_now new reason iteration w =
      stored w (transition_runtime (clock w.ticks) id new reason iteration [] w.runtimes)

  unfoldable pub move : RuntimeState → String → M Runtime
  move new reason w =
      if signal w.ticks then (w, err keyboard_interrupt) else move_now new reason w.iteration w

  -- `create_checkpoint` with the variables of the loop
  unfoldable pub checkpoint : String → M Checkpoint
  checkpoint reason w = stored w (
      save_checkpoint (clock w.ticks) id w.iteration
        (("iteration", w.iteration) ∷ ("tasks_executed", w.executed) ∷ []) reason w.runtimes)

  -- `tasks_executed += 1` after each task
  unfoldable pub execute_all : String → Option Registry → List Task → M (Unit {0})
  execute_all actor registry [] w = (w, ok tt)
  execute_all actor registry (t ∷ ts) w =
      if signal w.ticks
      then (w, err keyboard_interrupt)
      else (execute_task clock t.id actor registry
            >> (λ v. (record v { executed = suc v.executed }, ok tt))
            >> execute_all actor registry ts)
          w

  unfoldable pub checkpoint_phase : RuntimeConfig → M Runtime
  unfolding checkpoint
  checkpoint_phase config w =
      if eqb (w.iteration % config.checkpoint_every) 0
      then (move checkpointing ("Runner: checkpointing after iteration " ⧺ show w.iteration)
            >> checkpoint ("Iteration " ⧺ show w.iteration ⧺ " checkpoint")
            >> move idle "Runner: checkpoint complete")
          w
      else move idle "Runner: execution complete" w

  unfoldable pub work : RuntimeConfig → Option Registry → List Task → M Runtime
  work config registry [] = move idle "Runner: no ready tasks"
  work config registry (t ∷ ts) =
      move executing ("Runner: executing " ⧺ show (length (t ∷ ts)) ⧺ " task(s)")
      >> execute_all config.actor registry (t ∷ ts)
      >> checkpoint_phase config

  -- one iteration
  unfoldable pub round : RuntimeConfig → Option Registry → M Runtime
  unfolding work
  round config registry w =
      let v : World = record w { iteration = suc w.iteration } in
      (move polling ("Runner: polling iteration " ⧺ show v.iteration)
          >> poll_ready_tasks
          >>= work config registry)
        v

  unfoldable pub finish : String → String → M RunResult
  finish reason why w =
      (move paused reason >> (λ v. (
        v,
        ok (record {
          runtime_id = id;
          iterations_completed = v.iteration;
          tasks_executed = v.executed;
          stopped_reason = why;
          final_state = paused;
        }),
      )))
        w

  unfoldable pub run_loop : ℕ → RuntimeConfig → Option (ℕ → Bool) → Option Registry → M RunResult
  run_loop zero config should_stop registry w = (w, err still_running)
  run_loop (suc fuel) config should_stop registry w =
      let rest = (round config registry >> run_loop fuel config should_stop registry) w in
      if reached config.max_iterations w.iteration
      then finish ("Runner: max_iterations (" ⧺ limit_text config.max_iterations ⧺ ") reached")
          ("max_iterations (" ⧺ limit_text config.max_iterations ⧺ ") reached") w
      else if asked should_stop w.iteration
      then finish "Runner: stopped by should_stop signal" "should_stop signal" w
      else rest

  -- `except KeyboardInterrupt`
  unfoldable pub on_interrupt : M RunResult
  unfolding checkpoint
  on_interrupt w =
      (move_now interrupted "Runner: KeyboardInterrupt received" w.iteration
          >> checkpoint "Interrupt checkpoint"
          >> raise keyboard_interrupt)
        w

  unfoldable pub caught : World × Result RunError RunResult → World × Result RunError RunResult
  unfolding on_interrupt
  caught (w, err keyboard_interrupt) = on_interrupt w
  caught (w, r) = (w, r)

  -- the transition to 'idle' before the loop
  unfoldable pub enter : Runtime → M Runtime
  enter r =
      if state_eq r.state paused
      then move_now idle "Runner: resuming from paused" r.current_iteration
      else if state_eq r.state initialized
      then move_now idle "Runner: starting from initialized" 0
      else pure r

  unfoldable pub run_iterations :
      ℕ → RuntimeConfig → Option (ℕ → Bool) → Option Registry → M RunResult
  unfolding read_runtime enter caught
  run_iterations fuel config should_stop registry =
      if is_none config.max_iterations && (is_none should_stop && not config.allow_unbounded)
      then raise unbounded
      else (read_runtime id >>= enter) >>= λ r w. caught (
          run_loop fuel config should_stop registry
            (record w { iteration = r.current_iteration; executed = 0 }))

  -- it delegates
  unfoldable pub resume_runtime :
      ℕ → RuntimeConfig → Option (ℕ → Bool) → Option Registry → M RunResult
  unfolding run_iterations
  resume_runtime fuel config should_stop registry = run_iterations fuel config should_stop registry

  unfoldable pub pause_runtime : String → Option ℕ → M Runtime
  unfolding read_runtime move_now
  pause_runtime reason iteration =
      read_runtime id >>= λ r. move_now paused reason (effective iteration r.current_iteration)

  unfoldable pub stop_runtime : String → Option ℕ → M Runtime
  unfolding read_runtime move_now
  stop_runtime reason iteration =
      read_runtime id >>= λ r. move_now stopped reason (effective iteration r.current_iteration)

  unfoldable pub recover_from : String → Option ℕ → Runtime → M Runtime
  unfolding move_now
  recover_from reason iteration r =
      let back =
        move_now idle ("Recovery complete — " ⧺ reason) (effective iteration r.current_iteration) in
      if state_eq r.state recovering
      then back
      else move_now recovering reason (effective iteration r.current_iteration) >> back

  unfoldable pub recover_runtime : String → Option ℕ → M Runtime
  unfolding read_runtime recover_from
  recover_runtime reason iteration = read_runtime id >>= recover_from reason iteration
