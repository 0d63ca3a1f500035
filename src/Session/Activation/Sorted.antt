-- ===== src/Session/Activation/Sorted.antt =====
-- `list.sort` of session/activation.py: its result is in order, and a test counts as many elements.
use deterministic_cognition.Prelude.{
  ◌≡◌, refl, ◌∙◌, sym, ap, inl, inr, Bool, true, ◌||◌, List, [], ◌∷◌, keep, length, insort_by,
  sort_by, Bool-cases, arith,
}

abbrev pub comes_first {ℓ} : {A : Type ℓ} → (A → A → Bool) → A → List A → Bool
comes_first le x [] = true
comes_first le x (y ∷ ys) = le x y

-- each element comes before the next one
abbrev pub IsOrdered {ℓ} : {A : Type ℓ} → (A → A → Bool) → List A → Type 0
IsOrdered le [] = Unit
IsOrdered le (x ∷ xs) = (comes_first le x xs ≡ true) × IsOrdered le xs

comes_first-insort_by {ℓ} :
    {A : Type ℓ}
    → (le : A → A → Bool) → (x y : A) → (ys : List A) → le y x ≡ true
    → comes_first le y ys ≡ true
    → comes_first le y (insort_by le x ys) ≡ true
unfolding insort_by
comes_first-insort_by le x y [] e h = e
comes_first-insort_by le x y (z ∷ zs) e h = elim (Bool-cases (le x z)) [
  | inl here ↦ rw here e
  | inr later ↦ rw later h
]

insort_by-IsOrdered {ℓ} :
    {A : Type ℓ}
    → (le : A → A → Bool) → ((a b : A) → le a b || le b a ≡ true)
    → (x : A) → (xs : List A) → IsOrdered le xs
    → IsOrdered le (insort_by le x xs)
unfolding insort_by
insort_by-IsOrdered le total x [] h = (refl, tt)
insort_by-IsOrdered le total x (y ∷ ys) h = elim (Bool-cases (le x y)) [
  | inl here ↦ rw here (here, h)
  | inr later ↦ rw later (
    comes_first-insort_by le x y ys (sym (ap (λ b. b || le y x) later) ∙ total x y) h.0,
    insort_by-IsOrdered le total x ys h.1,
  )
]

pub sort_by-IsOrdered {ℓ} :
    {A : Type ℓ}
    → (le : A → A → Bool) → ((a b : A) → le a b || le b a ≡ true)
    → (xs : List A) → IsOrdered le (sort_by le xs)
unfolding sort_by
sort_by-IsOrdered le total [] = tt
sort_by-IsOrdered le total (x ∷ xs) =
    insort_by-IsOrdered le total x (sort_by le xs) (sort_by-IsOrdered le total xs)

insort_by-keep {ℓ} :
    {A : Type ℓ}
    → (le : A → A → Bool) → (p : A → Bool) → (x : A) → (xs : List A)
    → length (keep p (insort_by le x xs)) ≡ length (keep p (x ∷ xs))
unfolding insort_by
insort_by-keep le p x [] = refl
insort_by-keep le p x (y ∷ ys) = elim (Bool-cases (le x y)) [
  | inl here ↦ rw here refl
  | inr later ↦ rw later (ground (arith, insort_by-keep le p x ys))
]

pub sort_by-keep {ℓ} :
    {A : Type ℓ}
    → (le : A → A → Bool) → (p : A → Bool) → (xs : List A)
    → length (keep p (sort_by le xs)) ≡ length (keep p xs)
unfolding sort_by
sort_by-keep le p [] = refl
sort_by-keep le p (x ∷ xs) =
    insort_by-keep le p x (sort_by le xs) ∙ ground (arith, sort_by-keep le p xs)
