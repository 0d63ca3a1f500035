-- ===== src/Runtime/Store/Traced/Kept.antt =====
-- Each writing call of runtime/state_store.py keeps the lineage and the rows in agreement.
use deterministic_cognition.Prelude.{
  ℕ, suc, ◌+◌, String, ◌≡◌, refl, ◌∙◌, sym, subst, ap, inl, inr, false, none, some, [], ◌∷◌, ◌++◌,
  Dict, ok, eqb, arith, Bool-cases, Option-cases, Result-cases, is_blank,
}
use deterministic_cognition.Runtime.State.{
  RuntimeState, validate_runtime_transition, RuntimeConfig, Runtime, RuntimeLineageEvent,
}
use deterministic_cognition.Runtime.Store.{
  RuntimeStore, find_runtime, update_runtime, moved_row, moved, register_runtime,
  transition_runtime, save_checkpoint,
}
use deterministic_cognition.Runtime.Store.Moves.{find_runtime-id, find-update}
use deterministic_cognition.Runtime.Store.Traced.{
  absent, event_step, row_trace, IsTraced, kept, replay-append, find-other, find_new, find_old,
  update-none, eqb_refl, eqb_eq, link-ok,
}

moved-IsTraced :
    (now : String)
    → (id : ℕ) → (r : Runtime) → (new : RuntimeState) → (reason : String) → (i : ℕ)
    → (meta : Dict String) → (s : RuntimeStore) → IsTraced s
    → find_runtime id s.runtimes ≡ some r
    → validate_runtime_transition r.state new ≡ ok tt
    → IsTraced (moved now id r new reason i meta s)
unfolding moved
moved-IsTraced now id r new reason i meta s (traced, fresh) found valid =
    let row = moved_row now new i r in
    let same = find_runtime-id id s.runtimes r found in
    let ev : RuntimeLineageEvent = record {
      id = s.next_event;
      runtime_id = id;
      old_state = some r.state;
      new_state = new;
      reason = reason;
      iteration = i;
      metadata = meta;
      created_at = now;
    } in
    (
      λ k.
          replay-append k s.lineage ev absent
          ∙ ap (event_step k ev) (traced k)
          ∙ elim (Bool-cases (eqb id k)) [
            | inl here ↦
                subst
                  (λ k'.
                    event_step k' ev (row_trace (find_runtime k' s.runtimes))
                    ≡ row_trace (find_runtime k' (update_runtime id row s.runtimes)))
                  (eqb_eq id k here)
                  (ap (λ o. event_step id ev (row_trace o)) found
                    ∙ link-ok id r new i valid
                    ∙ sym (ap row_trace (find-update id row same s.runtimes r found)))
            | inr there ↦ rw there (sym (ap row_trace (find-other id k row same there s.runtimes)))
          ],
      λ k. update-none id (s.next_runtime + k) row s.runtimes same (fresh k),
    )

pub transition_runtime-IsTraced :
    (now : String)
    → (id : ℕ) → (new : RuntimeState) → (reason : String) → (i : ℕ) → (meta : Dict String)
    → (s : RuntimeStore) → IsTraced s
    → IsTraced (kept s (transition_runtime now id new reason i meta s))
unfolding transition_runtime
transition_runtime-IsTraced now id new reason i meta s t = elim (Bool-cases (is_blank reason)) [
  | inl blank ↦ rw blank t
  | inr ink ↦ elim (Option-cases (find_runtime id s.runtimes)) [
    | inl missing ↦ rw ink (rw missing t)
    | inr (r, found) ↦ elim (Result-cases (validate_runtime_transition r.state new)) [
      | inl (x, valid) ↦
          rw ink (rw found (rw valid (moved-IsTraced now id r new reason i meta s t found valid)))
      | inr (x, invalid) ↦ rw ink (rw found (rw invalid t))
    ]
  ]
]

pub save_checkpoint-IsTraced :
    (now : String)
    → (id i : ℕ) → (state : Dict ℕ) → (reason : String) → (s : RuntimeStore) → IsTraced s
    → IsTraced (kept s (save_checkpoint now id i state reason s))
unfolding save_checkpoint
save_checkpoint-IsTraced now id i state reason s t = elim (Bool-cases (is_blank reason)) [
  | inl blank ↦ rw blank t
  | inr ink ↦ elim (Option-cases (find_runtime id s.runtimes)) [
    | inl missing ↦ rw ink (rw missing t)
    | inr (r, found) ↦ rw ink (rw found t)
  ]
]

fresh_now :
    (s : RuntimeStore)
    → ((k : ℕ) → find_runtime (s.next_runtime + k) s.runtimes ≡ none)
    → find_runtime s.next_runtime s.runtimes ≡ none
fresh_now s fresh = ap (λ j. find_runtime j s.runtimes) (omega arith) ∙ fresh 0

apart : (k a b : ℕ) → a ≡ b → eqb a k ≡ false → eqb k b ≡ false
apart k a b e f = ground arith

later : (k n id : ℕ) → id ≡ n → eqb (suc n + k) id ≡ false
later k n id e = ground arith

registered-IsTraced :
    (row : Runtime)
    → (ev : RuntimeLineageEvent) → (s : RuntimeStore) → row.id ≡ s.next_runtime
    → ev.runtime_id ≡ s.next_runtime
    → event_step s.next_runtime ev absent ≡ row_trace (some row)
    → IsTraced s
    → IsTraced (record s {
      runtimes = s.runtimes ++ row ∷ [];
      next_runtime = suc s.next_runtime;
      lineage = s.lineage ++ ev ∷ [];
      next_event = suc s.next_event;
    })
registered-IsTraced row ev s same same' first (traced, fresh) = (
  λ k.
      replay-append k s.lineage ev absent
      ∙ ap (event_step k ev) (traced k)
      ∙ elim (Bool-cases (eqb ev.runtime_id k)) [
        | inl here ↦
            subst
              (λ j.
                event_step j ev (row_trace (find_runtime j s.runtimes))
                ≡ row_trace (find_runtime j (s.runtimes ++ row ∷ [])))
              (sym same' ∙ eqb_eq ev.runtime_id k here)
              (ap (λ o. event_step s.next_runtime ev (row_trace o)) (fresh_now s fresh)
                ∙ first
                ∙ sym (
                    ap row_trace (find_new s.next_runtime s.runtimes row same (fresh_now s fresh))))
        | inr there ↦ rw there (
            sym (
              ap row_trace (
                find_old k s.runtimes row (apart k ev.runtime_id row.id (same' ∙ sym same) there))))
      ],
  λ k.
      find_old (suc s.next_runtime + k) s.runtimes row (later k s.next_runtime row.id same)
      ∙ ap (λ j. find_runtime j s.runtimes) (omega arith)
      ∙ fresh (suc k),
)

pub register_runtime-IsTraced :
    (now name db : String)
    → (config : RuntimeConfig) → (s : RuntimeStore) → IsTraced s
    → IsTraced (kept s (register_runtime now name db config s))
unfolding register_runtime
register_runtime-IsTraced now name db config s t = elim (Bool-cases (is_blank name)) [
  | inl blank ↦ rw blank t
  | inr named ↦ elim (Bool-cases (is_blank db)) [
    | inl blank ↦ rw named (rw blank t)
    | inr given ↦ elim (Bool-cases (is_blank config.actor)) [
      | inl blank ↦ rw named (rw given (rw blank t))
      | inr acted ↦ rw named (
          rw given
            (rw acted (registered-IsTraced _ _ s refl refl (rw (eqb_refl s.next_runtime) refl) t)))
    ]
  ]
]
