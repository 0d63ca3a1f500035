-- ===== src/Runtime/Runner/Bounded.antt =====
-- `run_iterations` of runtime/runner.py under a limit on the iterations: how it ends.
use deterministic_cognition.Prelude.{
  ℕ, zero, suc, ◌+◌, ℤ, pos, negsuc, leb_ℤ, String, ◌⧺◌, ◌≡◌, ◌⊎◌, refl, ◌∙◌, sym, subst, ap, inl,
  inr, Bool, true, false, Option, some, Bool-cases, arith, is_blank,
}
use deterministic_cognition.Runtime.State.{
  idle, paused, RuntimeConfig, RunResult, validate_runtime_transition, valid_transitions, state_in,
  state_eq, can_transition,
}
use deterministic_cognition.Runtime.Store.Moves.{is_blank-append}
use deterministic_cognition.Runtime.World.{World, after}
use deterministic_cognition.Runtime.Dispatch.{Registry}
use deterministic_cognition.Runtime.Runner.{round, finish, limit_text, reached, asked, run_loop}
use deterministic_cognition.Runtime.Runner.Ensures.{
  Ensures, weakened-Ensures, after-Ensures, where_is, Stops,
}
use deterministic_cognition.Runtime.Runner.Rounds.{Placed, move-Stops, round-Stops}

-- the count is the first one, or it is within the limit
abbrev pub IsWithin : ℤ → ℕ → ℕ → Type 0
IsWithin limit start n = (n ≡ start) ⊎ (leb_ℤ (pos n) limit ≡ true)

-- The runtime is paused, with the count of iterations of the result in its row.
abbrev pub Rests : ℕ → ℤ → ℕ → World → RunResult → Type 0
Rests id limit start v result =
    (result.final_state ≡ paused)
    × (where_is id v ≡ some (paused, result.iterations_completed))
    × IsWithin limit start result.iterations_completed

IsWithin-suc :
    (limit : ℤ)
    → (start n : ℕ) → leb_ℤ limit (pos start) ≡ false
    → IsWithin limit (suc start) n
    → IsWithin limit start n
IsWithin-suc (pos k) start n below (inl e) = inr (ground arith)
IsWithin-suc (negsuc k) start n below (inl e) = ground arith
IsWithin-suc limit start n below (inr e) = inr e

not_past :
    (limit : ℤ) → (n : ℕ) → leb_ℤ limit (pos (n + 0)) ≡ true → leb_ℤ limit (pos n) ≡ false → ⊥
not_past (pos k) n e f = ground arith
not_past (negsuc k) n e f = ground arith

enough_next :
    (limit : ℤ)
    → (n fuel m : ℕ) → m ≡ suc n
    → leb_ℤ limit (pos (n + suc fuel)) ≡ true
    → leb_ℤ limit (pos (m + fuel)) ≡ true
enough_next (pos k) n fuel m e f = ground arith
enough_next (negsuc k) n fuel m e f = refl

module _ (clock : ℕ → String) (signal : ℕ → Bool) (id : ℕ) where
  finish-Rests :
      (limit : ℤ)
      → (reason why : String) → (w : World) → where_is id w ≡ some (idle, w.iteration)
      → is_blank reason ≡ false
      → Ensures (Rests id limit w.iteration) (Stops id) (finish clock signal id reason why w)
  unfolding finish validate_runtime_transition can_transition valid_transitions state_in state_eq
  finish-Rests limit reason why w at ink =
      after-Ensures (Placed id paused w.iteration) (Rests id limit w.iteration) (Stops id) _ _
        (move-Stops clock signal id paused reason w idle w.iteration w.iteration at refl ink refl
          refl)
        (λ v r placed. (refl, placed.0 ∙ ap (λ k. some (paused, k)) (sym placed.1), inl placed.1))

  -- the two ends of the loop, over what the next round leaves
  run_loop-step :
      (fuel : ℕ)
      → (config : RuntimeConfig) → (should_stop : Option (ℕ → Bool)) → (registry : Option Registry)
      → (limit : ℤ) → (w : World) → config.max_iterations ≡ some limit
      → where_is id w ≡ some (idle, w.iteration)
      → (leb_ℤ limit (pos w.iteration) ≡ false
          → Ensures (Rests id limit w.iteration) (Stops id) (
              after
                (round clock signal id config registry w)
                (λ r. run_loop clock signal id fuel config should_stop registry)))
      → Ensures
          (Rests id limit w.iteration)
          (Stops id)
          (run_loop clock signal id (suc fuel) config should_stop registry w)
  unfolding run_loop is_blank
  run_loop-step fuel config should_stop registry limit w bounded at next =
      elim (Bool-cases (leb_ℤ limit (pos w.iteration))) [
        | inl full ↦ rw (ap (λ o. reached o w.iteration) bounded ∙ full) (
            finish-Rests limit _ _ w at (
              is_blank-append "Runner: max_iterations ("
                (limit_text config.max_iterations ⧺ ") reached") refl))
        | inr below ↦
            rw (ap (λ o. reached o w.iteration) bounded ∙ below)
              (elim (Bool-cases (asked should_stop w.iteration)) [
                | inl stop ↦ rw stop (finish-Rests limit _ _ w at refl)
                | inr proceed ↦ rw proceed (next below)
              ])
      ]

  -- enough fuel: the limit is reached before the fuel is used up
  pub run_loop-Rests :
      (fuel : ℕ)
      → (config : RuntimeConfig) → (should_stop : Option (ℕ → Bool)) → (registry : Option Registry)
      → (limit : ℤ) → (w : World) → config.max_iterations ≡ some limit
      → leb_ℤ limit (pos (w.iteration + fuel)) ≡ true
      → where_is id w ≡ some (idle, w.iteration)
      → Ensures
          (Rests id limit w.iteration)
          (Stops id)
          (run_loop clock signal id (suc fuel) config should_stop registry w)
  run_loop-Rests zero config should_stop registry limit w bounded enough at =
      run_loop-step zero config should_stop registry limit w bounded at
        (λ below. elim (not_past limit w.iteration enough below) [ ])
  run_loop-Rests (suc fuel) config should_stop registry limit w bounded enough at =
      run_loop-step (suc fuel) config should_stop registry limit w bounded at (λ below.
        after-Ensures (Placed id idle (suc w.iteration)) (Rests id limit w.iteration) (Stops id) _ _
          (round-Stops clock signal id config registry w w.iteration at)
          (λ v r placed.
            weakened-Ensures (Rests id limit v.iteration) (Rests id limit w.iteration) (Stops id)
              (Stops id) (run_loop clock signal id (suc fuel) config should_stop registry v)
              (run_loop-Rests fuel config should_stop registry limit v bounded
                (enough_next limit w.iteration fuel v.iteration placed.1 enough)
                (placed.0 ∙ ap (λ k. some (idle, k)) (sym placed.1)))
              (λ u result rests.
                let (p, q, m) = rests in
                (
                  p,
                  q,
                  IsWithin-suc limit w.iteration result.iterations_completed below
                      (subst (λ k. IsWithin limit k result.iterations_completed) placed.1 m),
                ))
              (λ u e stops. stops)))
