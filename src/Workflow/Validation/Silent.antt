-- ===== src/Workflow/Validation/Silent.antt =====
-- When the first three validators of workflow/validation.py are silent.
use deterministic_cognition.Prelude.{
  String, ◌≡◌, refl, false, inl, inr, List, [], ◌∷◌, ◌++◌, contains, sorted, insort, gather, All,
  Nodup, is_blank, append-eq-nil, Bool-cases, arith, eq_iff,
}
use deterministic_cognition.Workflow.Definition.{Known, WorkflowNode}
use deterministic_cognition.Workflow.Validation.{duplicate_errors, empty_errors, missing_errors}

abbrev pub Named : WorkflowNode → Type 0
Named n = (is_blank n.node_id ≡ false) × (is_blank n.task_type ≡ false)

insort-filled : (x : String) (ys : List String) → insort x ys ≡ [] → ⊥
unfolding insort
insort-filled x [] h = ground arith
insort-filled x (y ∷ ys) h = ground arith

pub sorted-eq-nil : (xs : List String) → sorted xs ≡ [] → xs ≡ []
unfolding sorted
sorted-eq-nil [] h = refl
sorted-eq-nil (x ∷ xs) h = absurd (insort-filled x (sorted xs) h)

pub gather-eq-nil {ℓ} :
    {A : Type ℓ} (f : A → List String) (P : A → Type 0)
    → ((x : A) → f x ≡ [] → P x)
    → (xs : List A) → gather f xs ≡ []
    → All P xs
gather-eq-nil f P give [] h = tt
gather-eq-nil f P give (x ∷ xs) h =
    let (here, rest) = append-eq-nil (f x) (gather f xs) h in
    (give x here, gather-eq-nil f P give xs rest)

pub gather-nil {ℓ} :
    {A : Type ℓ} (f : A → List String) (P : A → Type 0)
    → ((x : A) → P x → f x ≡ [])
    → (xs : List A) → All P xs
    → gather f xs ≡ []
gather-nil f P give [] h = refl
gather-nil f P give (x ∷ xs) h = rw (give x h.0) (gather-nil f P give xs h.1)

-- Nothing that was seen before comes again.
unfoldable pub Apart : List String → List String → Type 0
Apart seen ids = All (λ x. contains x seen ≡ false) ids

Apart-seen :
    (x : String) (seen ids : List String)
    → Apart (x ∷ seen) ids
    → (contains x ids ≡ false) × Apart seen ids
unfolding contains Apart
Apart-seen x seen [] h = (refl, tt)
Apart-seen x seen (y ∷ ids) h =
    let (p, q) = Apart-seen x seen ids h.1 in
    (ground (arith, p, h.0, eq_iff x y, eq_iff y x), (ground (arith, h.0), q))

seen-Apart :
    (x : String) (seen ids : List String)
    → contains x ids ≡ false
    → Apart seen ids
    → Apart (x ∷ seen) ids
unfolding contains Apart
seen-Apart x seen [] h k = tt
seen-Apart x seen (y ∷ ids) h k =
    (ground (arith, h, k.0, eq_iff x y, eq_iff y x), seen-Apart x seen ids (ground arith) k.1)

pub duplicate_errors-eq-nil :
    (seen ids : List String) → duplicate_errors seen ids ≡ [] → Nodup ids × Apart seen ids
unfolding duplicate_errors Apart
duplicate_errors-eq-nil seen [] h = (tt, tt)
duplicate_errors-eq-nil seen (x ∷ ids) h = elim (Bool-cases (contains x seen)) [
  | inl again ↦ absurd (ground (arith, again, h))
  | inr fresh ↦
      let (p, q) = duplicate_errors-eq-nil (x ∷ seen) ids (ground (arith, fresh, h)) in
      let (r, s) = Apart-seen x seen ids q in ((r, p), (fresh, s))
]

pub duplicate_errors-nil :
    (seen ids : List String) → Nodup ids → Apart seen ids → duplicate_errors seen ids ≡ []
unfolding duplicate_errors Apart
duplicate_errors-nil seen [] h k = refl
duplicate_errors-nil seen (x ∷ ids) h k =
    rw (k.0) (duplicate_errors-nil (x ∷ seen) ids h.1 (seen-Apart x seen ids h.0 k.1))

pub missing_errors-eq-nil :
    (ids : List String) (nid : String) (deps : List String)
    → missing_errors ids nid deps ≡ []
    → Known ids deps
unfolding missing_errors
missing_errors-eq-nil ids nid [] h = tt
missing_errors-eq-nil ids nid (dep ∷ deps) h = elim (Bool-cases (contains dep ids)) [
  | inl there ↦ (there, missing_errors-eq-nil ids nid deps (ground (arith, there, h)))
  | inr missing ↦ absurd (ground (arith, missing, h))
]

pub missing_errors-nil :
    (ids : List String) (nid : String) (deps : List String)
    → Known ids deps
    → missing_errors ids nid deps ≡ []
unfolding missing_errors
missing_errors-nil ids nid [] h = refl
missing_errors-nil ids nid (dep ∷ deps) h = rw (h.0) (missing_errors-nil ids nid deps h.1)

pub empty_errors-eq-nil : (n : WorkflowNode) → empty_errors n ≡ [] → Named n
unfolding empty_errors
empty_errors-eq-nil n h = ground arith

pub empty_errors-nil : (n : WorkflowNode) → Named n → empty_errors n ≡ []
unfolding empty_errors
empty_errors-nil n h = ground arith

pub five-eq-nil :
    (zs bs cs ds es : List String)
    → (zs ++ bs ++ cs ++ ds ++ es) ≡ []
    → (zs ≡ []) × (bs ≡ []) × (cs ≡ []) × (ds ≡ []) × (es ≡ [])
five-eq-nil zs bs cs ds es h =
    let (h1, t) = append-eq-nil (zs ++ bs ++ cs ++ ds) es h in
    let (h2, r) = append-eq-nil (zs ++ bs ++ cs) ds h1 in
    let (h3, q) = append-eq-nil (zs ++ bs) cs h2 in
    let (o, p) = append-eq-nil zs bs h3 in (o, p, q, r, t)

pub Apart-nil : (ids : List String) → Apart [] ids
unfolding Apart contains
Apart-nil [] = tt
Apart-nil (x ∷ ids) = (refl, Apart-nil ids)
