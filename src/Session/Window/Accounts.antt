-- ===== src/Session/Window/Accounts.antt =====
-- What the loop over one tier of session/context_window.py takes, and what it charges for it.
use deterministic_cognition.Prelude.{
  ℕ, ◌+◌, ◌≤◌, ◌≡◌, refl, ap, Bool, true, inl, inr, List, [], ◌∷◌, length, arith, Bool-cases,
}
use deterministic_cognition.Session.Window.{Usage, fill}

-- `xs` is `ys` with some elements left out.
pub data Subsequence {ℓ} {A : Type ℓ} : List A → List A → Type ℓ where
  done : Subsequence [] []
  keep : {x : A} {xs ys : List A} → Subsequence xs ys → Subsequence (x ∷ xs) (x ∷ ys)
  drop : {y : A} {xs ys : List A} → Subsequence xs ys → Subsequence xs (y ∷ ys)

pub length-Subsequence {ℓ} :
    {A : Type ℓ} {xs ys : List A} → Subsequence xs ys → length xs ≤ length ys
length-Subsequence done = omega arith
length-Subsequence (keep s) = omega (arith, length-Subsequence s)
length-Subsequence (drop s) = omega (arith, length-Subsequence s)

pub Subsequence-full {ℓ} :
    {A : Type ℓ} {xs ys : List A} → Subsequence xs ys → length ys ≤ length xs → xs ≡ ys
Subsequence-full done h = refl
Subsequence-full (keep {x} s) h = ap (λ zs. x ∷ zs) (Subsequence-full s (omega (arith, h)))
Subsequence-full (drop s) h = absurd (omega (arith, h, length-Subsequence s))

unfoldable pub total {ℓ} : {A : Type ℓ} → (A → ℕ) → List A → ℕ
total weight [] = 0
total weight (x ∷ xs) = weight x + total weight xs

module _ {ℓ} {A : Type ℓ} (test : A → Usage → Bool) (take : A → Usage → Usage) where
  pub fill-Subsequence : (xs : List A) (u : Usage) → Subsequence (fill test take xs u).0 xs
  unfolding fill
  fill-Subsequence [] u = done
  fill-Subsequence (x ∷ xs) u = elim (Bool-cases (test x u)) [
    | inl fit ↦ rw fit (keep (fill-Subsequence xs (take x u)))
    | inr full ↦ rw full (drop (fill-Subsequence xs u))
  ]

  -- A counter that each item adds its weight to has in the end the weight of what was taken more.
  pub fill-total :
      (counter : Usage → ℕ) (weight : A → ℕ)
      → ((x : A) (u : Usage) → counter (take x u) ≡ counter u + weight x)
      → (xs : List A) (u : Usage)
      → counter (fill test take xs u).1 ≡ counter u + total weight (fill test take xs u).0
  unfolding fill total
  fill-total counter weight adds [] u = omega arith
  fill-total counter weight adds (x ∷ xs) u = elim (Bool-cases (test x u)) [
    | inl fit ↦ rw fit (omega (arith, fill-total counter weight adds xs (take x u), adds x u))
    | inr full ↦ rw full (fill-total counter weight adds xs u)
  ]

  -- What the test gives for the usage after an item holds in the end.
  pub fill-keeps {κ} :
      (P : Usage → Type κ)
      → ((x : A) (u : Usage) → test x u ≡ true → P u → P (take x u))
      → (xs : List A) (u : Usage) → P u
      → P (fill test take xs u).1
  unfolding fill
  fill-keeps P kept [] u h = h
  fill-keeps P kept (x ∷ xs) u h = elim (Bool-cases (test x u)) [
    | inl fit ↦ rw fit (fill-keeps P kept xs (take x u) (kept x u fit h))
    | inr full ↦ rw full (fill-keeps P kept xs u h)
  ]
