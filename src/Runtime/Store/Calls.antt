-- ===== src/Runtime/Store/Calls.antt =====
-- The writing calls of runtime/state_store.py in any order, from the empty tables of runtime/schema.sql.
use deterministic_cognition.Prelude.{ℕ, String, refl, List, [], ◌∷◌, Dict}
use deterministic_cognition.Runtime.State.{RuntimeState, RuntimeConfig}
use deterministic_cognition.Runtime.Store.{
  RuntimeStore, find_runtime, register_runtime, transition_runtime, save_checkpoint,
}
use deterministic_cognition.Runtime.Store.Traced.{IsTraced, replay, kept}
use deterministic_cognition.Runtime.Store.Traced.Kept.{
  register_runtime-IsTraced, transition_runtime-IsTraced, save_checkpoint-IsTraced,
}

abbrev pub empty_store : RuntimeStore
empty_store = record {
  runtimes = [];
  lineage = [];
  checkpoints = [];
  next_runtime = 1;
  next_event = 1;
  next_checkpoint = 1;
}

pub data Call : Type 0 where
  register : (now name orchestration_db : String) → RuntimeConfig → Call
  transition : (now : String) → ℕ → RuntimeState → (reason : String) → ℕ → Dict String → Call
  checkpoint : (now : String) → ℕ → ℕ → Dict ℕ → (reason : String) → Call

-- a call that raises leaves the store as it was
unfoldable pub perform : Call → RuntimeStore → RuntimeStore
perform (Call.register now name db config) s = kept s (register_runtime now name db config s)
perform (Call.transition now id new reason i meta) s =
    kept s (transition_runtime now id new reason i meta s)
perform (Call.checkpoint now id i state reason) s = kept s (save_checkpoint now id i state reason s)

unfoldable pub perform_all : List Call → RuntimeStore → RuntimeStore
perform_all [] s = s
perform_all (c ∷ cs) s = perform_all cs (perform c s)

perform-IsTraced : (c : Call) → (s : RuntimeStore) → IsTraced s → IsTraced (perform c s)
unfolding perform
perform-IsTraced (Call.register now name db config) s t =
    register_runtime-IsTraced now name db config s t
perform-IsTraced (Call.transition now id new reason i meta) s t =
    transition_runtime-IsTraced now id new reason i meta s t
perform-IsTraced (Call.checkpoint now id i state reason) s t =
    save_checkpoint-IsTraced now id i state reason s t

kept-IsTraced : (cs : List Call) → (s : RuntimeStore) → IsTraced s → IsTraced (perform_all cs s)
unfolding perform_all
kept-IsTraced [] s t = t
kept-IsTraced (c ∷ cs) s t = kept-IsTraced cs (perform c s) (perform-IsTraced c s t)

empty-IsTraced : IsTraced empty_store
unfolding find_runtime replay
empty-IsTraced = (λ id. refl, λ k. refl)

-- After any calls on the empty tables, those that raise included: replaying the lineage events of an id,
-- where each starts at the state that was reached and is in the transition table, gives the state, the
-- iteration and the version of its row (the version being the number of events), and no event stands for
-- an id without a row. No row has an id that the counter is still to give.
pub perform_all-IsTraced : (cs : List Call) → IsTraced (perform_all cs empty_store)
perform_all-IsTraced cs = kept-IsTraced cs empty_store empty-IsTraced
