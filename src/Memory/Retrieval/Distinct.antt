-- ===== src/Memory/Retrieval/Distinct.antt =====
-- `activate_memory` of session/activation.py returns no event twice.
use deterministic_cognition.Prelude.{
  ℕ, ◌≤◌, ◌+◌, ◌≡◌, refl, ◌∙◌, sym, ap, subst, inl, inr, Bool, true, false, List, [], ◌∷◌, ◌++◌,
  map, keep, any, length, eqb, Bool-cases, arith, if◌then◌else◌,
}
use deterministic_cognition.Session.Models.{ActivatedMemory, ContextActivationPolicy}
use deterministic_cognition.Session.Activation.{ScoredEvent, activated}
use deterministic_cognition.Session.Activation.Ranked.{score_and_rank-IsOrdered}
use deterministic_cognition.Memory.Retrieval.{
  MemoryDb, add_each, all_passes, add_passes, collected_events, activate_memory,
}

abbrev has_id : ℕ → ScoredEvent → Bool
has_id id s = eqb s.event.id id

abbrev count : ℕ → List ScoredEvent → ℕ
count id es = length (keep (has_id id) es)

count-append :
    (id : ℕ)
    → (es : List ScoredEvent) → (e : ScoredEvent)
    → count id (es ++ e ∷ []) ≡ count id es + (if eqb e.event.id id then 1 else 0)
count-append id [] e = ground arith
count-append id (x ∷ es) e = ground (arith, count-append id es e)

count-none : (id : ℕ) → (es : List ScoredEvent) → any (has_id id) es ≡ false → count id es ≡ 0
count-none id [] e = refl
count-none id (x ∷ es) e = ground (arith, count-none id es)

any-id : (a b : ℕ) → (es : List ScoredEvent) → a ≡ b → any (has_id a) es ≡ any (has_id b) es
any-id a b es e = ap (λ k. any (has_id k) es) e

eqb_eq : (a b : ℕ) → eqb a b ≡ true → a ≡ b
eqb_eq a b e = ground arith

add_one :
    (id : ℕ)
    → (e : ScoredEvent) → (acc : List ScoredEvent) → count id acc ≤ 1
    → any (has_id e.event.id) acc ≡ false
    → count id (acc ++ e ∷ []) ≤ 1
add_one id e acc h fresh = elim (Bool-cases (eqb e.event.id id)) [
  | inl same ↦
      let none_yet : count id acc ≡ 0 =
        count-none id acc (sym (any-id e.event.id id acc (eqb_eq e.event.id id same)) ∙ fresh) in
      ground (arith, count-append id acc e)
  | inr apart ↦ ground (arith, count-append id acc e)
]

add_each-count :
    (id : ℕ) → (es acc : List ScoredEvent) → count id acc ≤ 1 → count id (add_each es acc) ≤ 1
unfolding add_each
add_each-count id [] acc h = h
add_each-count id (e ∷ es) acc h = elim (Bool-cases (any (has_id e.event.id) acc)) [
  | inl seen ↦ rw seen (add_each-count id es acc h)
  | inr fresh ↦ rw fresh (add_each-count id es (acc ++ e ∷ []) (add_one id e acc h fresh))
]

keep-activated :
    (g u : Bool)
    → (id : ℕ) → (es : List ScoredEvent)
    → length (keep (λ (m : ActivatedMemory). eqb m.memory_id id) (map (activated g u) es))
      ≡ count id es
keep-activated g u id [] = refl
keep-activated g u id (e ∷ es) = ground (arith, keep-activated g u id es)

add_passes-count :
    (id : ℕ)
    → (ps : List (List ScoredEvent)) → (acc : List ScoredEvent) → count id acc ≤ 1
    → count id (add_passes ps acc) ≤ 1
unfolding add_passes
add_passes-count id [] acc h = h
add_passes-count id (es ∷ ps) acc h =
    add_passes-count id ps (add_each es acc) (add_each-count id es acc h)

collected-count :
    (db : MemoryDb)
    → (policy : ContextActivationPolicy) → (id : ℕ) → count id (collected_events db policy) ≤ 1
unfolding collected_events
collected-count db policy id = add_passes-count id (all_passes db policy) [] (omega arith)

-- Whatever the tables hold and the policy asks for, `activate_memory` returns at most one item with a
-- given id, although its five passes overlap.
pub activate_memory-distinct :
    (db : MemoryDb)
    → (policy : ContextActivationPolicy) → (id : ℕ)
    → length (keep (λ (m : ActivatedMemory). eqb m.memory_id id) (activate_memory db policy)) ≤ 1
unfolding activate_memory
activate_memory-distinct db policy id =
    let same =
      (score_and_rank-IsOrdered true policy.include_unresolved (collected_events db policy)).1
        (λ (m : ActivatedMemory). eqb m.memory_id id) in
    subst (λ k. k ≤ 1)
      (sym (same ∙ keep-activated true policy.include_unresolved id (collected_events db policy)))
      (collected-count db policy id)
