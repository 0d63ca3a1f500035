-- ===== src/Runtime/Runner/Recovers.antt =====
-- `recover_runtime` of runtime/runner.py: the states that it brings back to 'idle'.
use deterministic_cognition.Prelude.{
  ℕ, String, ◌⧺◌, ◌≡◌, refl, sym, subst, ap, Bool, true, false, Option, some, Result, ok, err,
  is_blank,
}
use deterministic_cognition.Runtime.State.{
  RuntimeState, initialized, idle, polling, executing, checkpointing, paused, interrupted,
  recovering, failed, stopped, other, Runtime, TransitionError, validate_runtime_transition,
  valid_transitions, state_in, state_eq, can_transition,
}
use deterministic_cognition.Runtime.Store.{find_runtime, transition_runtime}
use deterministic_cognition.Runtime.Store.Moves.{is_blank-append}
use deterministic_cognition.Runtime.World.{World, RunError, M, after}
use deterministic_cognition.Runtime.Runner.{effective, move_now, recover_from, recover_runtime}
use deterministic_cognition.Runtime.Runner.Ensures.{
  Ensures, weakened-Ensures, after-Ensures, where_is, found-where_is, Moved, move_now-ok,
}
use deterministic_cognition.Runtime.Runner.Ends.{read_runtime-ok}

-- the states that have a transition to 'recovering', and that one
abbrev pub can_recover : RuntimeState → Bool
can_recover paused = true
can_recover interrupted = true
can_recover failed = true
can_recover recovering = true
can_recover _ = false

-- The runtime is idle at the iteration, or, where the state cannot recover, nothing was written.
abbrev pub Recovered : ℕ → RuntimeState → ℕ → World → Runtime → Type 0
Recovered id s k v r =
    (can_recover s ≡ true) × (where_is id v ≡ some (idle, k)) × (r.current_iteration ≡ k)

abbrev pub Refused : RuntimeState → World → World → RunError → Type 0
Refused s w v e = (can_recover s ≡ false) × (v.runtimes ≡ w.runtimes)

module _ (clock : ℕ → String) (signal : ℕ → Bool) (id : ℕ) where
  -- a transition that the table lacks writes nothing
  move_now-err :
      (new : RuntimeState)
      → (reason : String) → (i : ℕ) → (w : World) → (r : Runtime) → (x : TransitionError)
      → find_runtime id w.runtimes.runtimes ≡ some r
      → is_blank reason ≡ false
      → validate_runtime_transition r.state new ≡ err x
      → Ensures
          (λ v (q : Runtime). ⊥)
          (λ v e. v.runtimes ≡ w.runtimes)
          (move_now clock signal id new reason i w)
  unfolding move_now transition_runtime
  move_now-err new reason i w r x found ink invalid = rw ink (rw found (rw invalid refl))

  cannot-Refused :
      (s : RuntimeState)
      → (w : World) → (k : ℕ) → can_recover s ≡ false
      → (m : World × Result RunError Runtime) → (f : Runtime → M Runtime)
      → Ensures (λ v (q : Runtime). ⊥) (λ v e. v.runtimes ≡ w.runtimes) m
      → Ensures (Recovered id s k) (Refused s w) (after m f)
  cannot-Refused s w k cannot (v, ok r) f p = elim p [ ]
  cannot-Refused s w k cannot (v, err e) f p = (cannot, p)

  -- the second transition
  back-Recovered :
      (reason : String)
      → (k j : ℕ) → (s : RuntimeState) → can_recover s ≡ true
      → (w v : World) → where_is id v ≡ some (recovering, j)
      → Ensures
          (Recovered id s k)
          (Refused s w)
          (move_now clock signal id idle ("Recovery complete — " ⧺ reason) k v)
  unfolding is_blank validate_runtime_transition can_transition valid_transitions state_in state_eq
  back-Recovered reason k j s can w v at =
      weakened-Ensures (Moved id idle k v) (Recovered id s k) (λ u e. ⊥) (Refused s w) _
        (move_now-ok clock signal id idle ("Recovery complete — " ⧺ reason) k v recovering j at
          (is_blank-append "Recovery complete — " reason refl) refl)
        (λ u r m. let (p, _, _, _, q) = m in (can, p, q)) (λ u e no. elim no [ ])

  -- both transitions
  both-Recovered :
      (reason : String)
      → (k i : ℕ) → (s : RuntimeState) → can_recover s ≡ true
      → (w : World) → where_is id w ≡ some (s, i)
      → is_blank reason ≡ false
      → validate_runtime_transition s recovering ≡ ok tt
      → Ensures (Recovered id s k) (Refused s w) (
          after
            (move_now clock signal id recovering reason k w)
            (λ r. move_now clock signal id idle ("Recovery complete — " ⧺ reason) k))
  both-Recovered reason k i s can w at ink valid =
      after-Ensures (Moved id recovering k w) (Recovered id s k) (Refused s w) _ _
        (weakened-Ensures (Moved id recovering k w) (Moved id recovering k w) (λ v e. ⊥)
          (Refused s w) _ (move_now-ok clock signal id recovering reason k w s i at ink valid)
          (λ v r m. m) (λ v e no. elim no [ ]))
        (λ v r m. back-Recovered reason k k s can w v m.0)

  recover_from-outcome :
      (reason : String)
      → (n : Option ℕ) → (w : World) → (r : Runtime) → (s : RuntimeState) → (i : ℕ)
      → where_is id w ≡ some (s, i)
      → find_runtime id w.runtimes.runtimes ≡ some r
      → r.state ≡ s
      → is_blank reason ≡ false
      → Ensures
          (Recovered id s (effective n r.current_iteration))
          (Refused s w)
          (recover_from clock signal id reason n r w)
  unfolding recover_from validate_runtime_transition can_transition valid_transitions state_in
      state_eq
  recover_from-outcome reason n w r recovering i at found same ink =
      rw same (back-Recovered reason _ i recovering refl w w at)
  recover_from-outcome reason n w r paused i at found same ink =
      rw same (both-Recovered reason _ i paused refl w at ink refl)
  recover_from-outcome reason n w r interrupted i at found same ink =
      rw same (both-Recovered reason _ i interrupted refl w at ink refl)
  recover_from-outcome reason n w r failed i at found same ink =
      rw same (both-Recovered reason _ i failed refl w at ink refl)
  recover_from-outcome reason n w r initialized i at found same ink = rw same (
      cannot-Refused initialized w _ refl _ _ (
        move_now-err recovering reason _ w r _ found ink
          (ap (λ x. validate_runtime_transition x recovering) same)))
  recover_from-outcome reason n w r idle i at found same ink = rw same (
      cannot-Refused idle w _ refl _ _ (
        move_now-err recovering reason _ w r _ found ink
          (ap (λ x. validate_runtime_transition x recovering) same)))
  recover_from-outcome reason n w r polling i at found same ink = rw same (
      cannot-Refused polling w _ refl _ _ (
        move_now-err recovering reason _ w r _ found ink
          (ap (λ x. validate_runtime_transition x recovering) same)))
  recover_from-outcome reason n w r executing i at found same ink = rw same (
      cannot-Refused executing w _ refl _ _ (
        move_now-err recovering reason _ w r _ found ink
          (ap (λ x. validate_runtime_transition x recovering) same)))
  recover_from-outcome reason n w r checkpointing i at found same ink = rw same (
      cannot-Refused checkpointing w _ refl _ _ (
        move_now-err recovering reason _ w r _ found ink
          (ap (λ x. validate_runtime_transition x recovering) same)))
  recover_from-outcome reason n w r stopped i at found same ink = rw same (
      cannot-Refused stopped w _ refl _ _ (
        move_now-err recovering reason _ w r _ found ink
          (ap (λ x. validate_runtime_transition x recovering) same)))
  recover_from-outcome reason n w r (other x) i at found same ink = rw same (
      cannot-Refused (other x) w _ refl _ _ (
        move_now-err recovering reason _ w r _ found ink
          (ap (λ x. validate_runtime_transition x recovering) same)))

  -- For a runtime that is stored and a reason that is not blank, `recover_runtime` returns exactly when the
  -- state is 'paused', 'interrupted', 'failed' or 'recovering'; then the runtime is idle at the iteration
  -- that was given, or else at the one in its row. In any other state it raises and writes nothing.
  pub recover_runtime-outcome :
      (reason : String)
      → (n : Option ℕ) → (w : World) → (s : RuntimeState) → (i : ℕ) → where_is id w ≡ some (s, i)
      → is_blank reason ≡ false
      → Ensures
          (Recovered id s (effective n i))
          (Refused s w)
          (recover_runtime clock signal id reason n w)
  unfolding recover_runtime
  recover_runtime-outcome reason n w s i at ink =
      let (r, found, same, iter) = found-where_is id w s i at in
      subst
        (λ m.
          Ensures (Recovered id s (effective n i)) (Refused s w)
            (after m (recover_from clock signal id reason n)))
        (sym (read_runtime-ok clock signal id w r found))
        (subst
          (λ j.
            Ensures (Recovered id s (effective n j)) (Refused s w)
              (recover_from clock signal id reason n r w))
          iter (recover_from-outcome reason n w r s i at found same ink))
