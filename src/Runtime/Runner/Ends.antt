-- ===== src/Runtime/Runner/Ends.antt =====
-- The ends of `run_iterations` and `recover_runtime` of runtime/runner.py.
use deterministic_cognition.Prelude.{
  ℕ, suc, ◌+◌, ℤ, pos, negsuc, leb_ℤ, String, ◌&&◌, ◌≡◌, ◌⊎◌, refl, ◌∙◌, sym, subst, ap, inl, inr,
  Bool, true, not, Option, some, Result, ok, err, arith, is_blank,
}
use deterministic_cognition.Orchestration.Service.{ServiceError}
use deterministic_cognition.Runtime.State.{
  RuntimeState, initialized, idle, polling, executing, checkpointing, paused, interrupted,
  recovering, failed, stopped, other, RuntimeConfig, Runtime, RunResult, Checkpoint,
  validate_runtime_transition, valid_transitions, state_in, state_eq, can_transition,
}
use deterministic_cognition.Runtime.Store.{checkpoints_of, last_of, get_runtime, find_runtime}
use deterministic_cognition.Runtime.World.{
  World, RunError, keyboard_interrupt, service_error, after,
}
use deterministic_cognition.Runtime.Dispatch.{Registry}
use deterministic_cognition.Runtime.Runner.{
  is_none, run_loop, run_iterations, on_interrupt, caught, enter, read_runtime, move_now,
}
use deterministic_cognition.Runtime.Runner.Ensures.{
  Ensures, weakened-Ensures, after-Ensures, where_is, found-where_is, IsStop, Stops, Moved,
  move_now-ok,
}
use deterministic_cognition.Runtime.Runner.Rounds.{Checkpointed, checkpoint-ok}
use deterministic_cognition.Runtime.Runner.Bounded.{Rests, run_loop-Rests}

-- The run was interrupted: the row has the state 'interrupted' and the iteration that was reached, and
-- the latest checkpoint has that iteration.
abbrev pub Interrupted : ℕ → World → Type 0
Interrupted id v =
    (where_is id v ≡ some (interrupted, v.iteration))
    × (c : Checkpoint) × (last_of (checkpoints_of id v.runtimes.checkpoints) ≡ some c)
    × (c.iteration ≡ v.iteration)

-- What a run raises: the interrupt, once it is recorded, or an error of the task service, which leaves
-- a state that can still be interrupted.
abbrev pub Raises : ℕ → World → RunError → Type 0
Raises id v e =
    ((e ≡ keyboard_interrupt) × Interrupted id v)
    ⊎ ((x : ServiceError) × (s : RuntimeState) × (i : ℕ) × (e ≡ service_error x)
        × (where_is id v ≡ some (s, i))
        × (validate_runtime_transition s interrupted ≡ ok tt))

-- the iteration that a run starts at, by the state and the iteration of the row
abbrev pub first_iteration : RuntimeState → ℕ → ℕ
first_iteration initialized i = 0
first_iteration _ i = i

-- the row is 'idle' at the iteration, in the store and in the value returned
abbrev pub Entered : ℕ → ℕ → World → Runtime → Type 0
Entered id k v r = (where_is id v ≡ some (idle, k)) × (r.current_iteration ≡ k)

-- the states that a run starts from
abbrev pub IsStart : RuntimeState → Type 0
IsStart idle = Unit {0}
IsStart paused = Unit {0}
IsStart initialized = Unit {0}
IsStart _ = ⊥

enough_fuel :
    (limit : ℤ) → (fuel n : ℕ) → leb_ℤ limit (pos fuel) ≡ true → leb_ℤ limit (pos (n + fuel)) ≡ true
enough_fuel (pos k) fuel n e = ground arith
enough_fuel (negsuc k) fuel n e = refl

module _ (clock : ℕ → String) (signal : ℕ → Bool) (id : ℕ) where
  on_interrupt-Interrupted :
      (w : World)
      → (s : RuntimeState) → (i : ℕ) → where_is id w ≡ some (s, i)
      → validate_runtime_transition s interrupted ≡ ok tt
      → Ensures
          (λ v (r : RunResult). ⊥)
          (λ v e. (e ≡ keyboard_interrupt) × Interrupted id v)
          (on_interrupt clock signal id w)
  unfolding on_interrupt is_blank
  on_interrupt-Interrupted w s i at live =
      let Q : World → RunError → Type 0 = λ v e. (e ≡ keyboard_interrupt) × Interrupted id v in
      let P : World → Runtime → Type 0 =
        λ v r. (where_is id v ≡ some (interrupted, w.iteration)) × (v.iteration ≡ w.iteration) in
      after-Ensures (λ v c. Interrupted id v) (λ v r. ⊥) Q _ _
        (after-Ensures P (λ v c. Interrupted id v) Q
          (move_now clock signal id interrupted "Runner: KeyboardInterrupt received" w.iteration w)
          _
          (weakened-Ensures (Moved id interrupted w.iteration w) P (λ v e. ⊥) Q _
            (move_now-ok clock signal id interrupted _ w.iteration w s i at refl live)
            (λ v r m. let (p, q, _, _, _) = m in (p, q)) (λ v e no. elim no [ ]))
          (λ v r m.
            weakened-Ensures (Checkpointed id interrupted w.iteration v) (λ u c. Interrupted id u)
              (λ v e. ⊥) Q _
              (checkpoint-ok clock signal id "Interrupt checkpoint" v interrupted w.iteration m.0
                refl)
              (λ u c k.
                let (p, q, last, same) = k in
                (p ∙ ap (λ j. some (interrupted, j)) (sym m.1 ∙ sym q), c, last, same ∙ sym q))
              (λ u e no. elim no [ ])))
        (λ v c stop. (refl, stop))

  caught-Raises :
      (P : World → RunResult → Type 0)
      → (m : World × Result RunError RunResult) → Ensures P (Stops id) m
      → Ensures P (Raises id) (caught clock signal id m)
  unfolding caught
  caught-Raises P (w, ok r) p = p
  caught-Raises P (w, err e) (IsStop.service x, s, i, at, live) = inr (x, s, i, refl, at, live)
  caught-Raises P (w, err e) (IsStop.interrupt, s, i, at, live) =
      weakened-Ensures (λ v (r : RunResult). ⊥) P
        (λ v x. (x ≡ keyboard_interrupt) × Interrupted id v) (Raises id)
        (on_interrupt clock signal id w) (on_interrupt-Interrupted w s i at live)
        (λ v r no. elim no [ ]) (λ v x stop. inl stop)

  pub read_runtime-ok :
      (w : World)
      → (r : Runtime) → find_runtime id w.runtimes.runtimes ≡ some r
      → read_runtime id w ≡ (w, ok r)
  unfolding read_runtime get_runtime
  read_runtime-ok w r found = rw (read_runtime, get_runtime, found) refl

  -- the transition to 'idle' before the loop
  enter-Entered :
      (w : World)
      → (r : Runtime) → (i : ℕ) → (s : RuntimeState) → where_is id w ≡ some (s, i)
      → r.state ≡ s
      → r.current_iteration ≡ i
      → IsStart s
      → Ensures (Entered id (first_iteration s i)) (λ v e. ⊥) (enter clock signal id r w)
  unfolding enter state_eq is_blank validate_runtime_transition can_transition valid_transitions
      state_in
  enter-Entered w r i idle at same iter start = rw same (at, iter)
  enter-Entered w r i paused at same iter start = rw same (
      weakened-Ensures (Moved id idle r.current_iteration w) (Entered id i) (λ v e. ⊥) (λ v e. ⊥) _
        (move_now-ok clock signal id idle "Runner: resuming from paused" r.current_iteration w
          paused i at refl refl)
        (λ v q m. let (p, _, _, _, k) = m in (p ∙ ap (λ j. some (idle, j)) iter, k ∙ iter))
        (λ v x no. no))
  enter-Entered w r i initialized at same iter start = rw same (
      weakened-Ensures (Moved id idle 0 w) (Entered id 0) (λ v e. ⊥) (λ v e. ⊥) _
        (move_now-ok clock signal id idle "Runner: starting from initialized" 0 w initialized i at
          refl refl)
        (λ v q m. let (p, _, _, _, k) = m in (p, k)) (λ v x no. no))
  enter-Entered w r i polling at same iter start = elim start [ ]
  enter-Entered w r i executing at same iter start = elim start [ ]
  enter-Entered w r i checkpointing at same iter start = elim start [ ]
  enter-Entered w r i interrupted at same iter start = elim start [ ]
  enter-Entered w r i recovering at same iter start = elim start [ ]
  enter-Entered w r i failed at same iter start = elim start [ ]
  enter-Entered w r i stopped at same iter start = elim start [ ]
  enter-Entered w r i (other x) at same iter start = elim start [ ]

  -- A run under a limit on the iterations, of a runtime that is idle, paused or initialized, ends, whatever
  -- the tasks, their handlers, `should_stop` and an interrupt do, with more fuel than the limit. Where it
  -- returns, the runtime is paused at the count of iterations that the result states, and that count is
  -- the first one or within the limit. Where it raises, it is the KeyboardInterrupt, with the runtime
  -- 'interrupted' at the iteration that was reached and its latest checkpoint of that iteration, or an
  -- error of the task service, with the runtime in a state that has a transition to 'interrupted': no
  -- error of the runtime's own store or of the poll is raised.
  pub run_iterations-Ends :
      (fuel : ℕ)
      → (config : RuntimeConfig) → (should_stop : Option (ℕ → Bool)) → (registry : Option Registry)
      → (limit : ℤ) → (w : World) → (s : RuntimeState) → (i : ℕ)
      → config.max_iterations ≡ some limit
      → leb_ℤ limit (pos fuel) ≡ true
      → where_is id w ≡ some (s, i)
      → IsStart s
      → Ensures
          (Rests id limit (first_iteration s i))
          (Raises id)
          (run_iterations clock signal id (suc fuel) config should_stop registry w)
  unfolding run_iterations where_is
  run_iterations-Ends fuel config should_stop registry limit w s i bounded enough at start =
      let (r, found, same, iter) = found-where_is id w s i at in
      let k = first_iteration s i in
      rw (ap (λ o. is_none o && (is_none should_stop && not config.allow_unbounded)) bounded) (
        after-Ensures (Entered id k) (Rests id limit k) (Raises id)
          (after (read_runtime id w) (enter clock signal id)) _
          (weakened-Ensures (Entered id k) (Entered id k) (λ v e. ⊥) (Raises id)
            (after (read_runtime id w) (enter clock signal id))
            (subst (λ m. Ensures (Entered id k) (λ v e. ⊥) (after m (enter clock signal id)))
              (sym (read_runtime-ok w r found)) (enter-Entered w r i s at same iter start))
            (λ v q m. m) (λ v e no. elim no [ ]))
          (λ v q entered. caught-Raises (Rests id limit k) _ (
            subst
              (λ j. Ensures (Rests id limit j) (Stops id) (
                run_loop clock signal id (suc fuel) config should_stop registry
                  (record v { iteration = q.current_iteration; executed = 0 })))
              entered.1
              (run_loop-Rests clock signal id fuel config should_stop registry limit
                (record v { iteration = q.current_iteration; executed = 0 }) bounded
                (enough_fuel limit fuel q.current_iteration enough)
                (entered.0 ∙ ap (λ j. some (idle, j)) (sym entered.1))))))
