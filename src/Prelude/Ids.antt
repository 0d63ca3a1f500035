-- ===== src/Prelude/Ids.antt =====
-- Texts as identifiers: Python's order on `str` (by code points), `in`, `set` and `sorted`.
mod Order
use Order.{le_total}
use Prim.Native.Nat.{Ordering}
use Prim.Native.String.{String, compare}
use mathlib.Core.Path.{◌≡◌, refl, ap, sym, ◌∙◌}
use mathlib.Core.Logic.{◌≢◌, ◌⊎◌, inl, inr, ◌↔◌}
use mathlib.Core.Bool.{Bool, true, false, ◌&&◌, ◌||◌}
use mathlib.Core.List.{List, [], ◌∷◌, ◌++◌}
use native.Mathlib.Omega.{arith}
use text.Mathlib.Text.{◌==◌}
use text.Mathlib.TextEquality.{eq_iff}
use text.Mathlib.TextPositions.{eq_refl}
use deterministic_cognition.Prelude.Tests.{if◌then◌else◌, Bool-cases}

-- `x <= y` on `str`
abbrev pub str_leb : String → String → Bool
str_leb x y = elim (compare x y) [ Ordering.gt ↦ false | _ ↦ true ]

pub str_leb_refl : (x : String) → str_leb x x ≡ true
str_leb_refl x = elim (Bool-cases (str_leb x x)) [ inl h ↦ h | inr h ↦ le_total x x h ]

-- `x in xs`
unfoldable pub contains : String → List String → Bool
contains x [] = false
contains x (y ∷ ys) = x == y || contains x ys

unfoldable pub insort : String → List String → List String
insort x [] = x ∷ []
insort x (y ∷ ys) = let rest = insort x ys in if str_leb x y then x ∷ y ∷ ys else y ∷ rest

-- `sorted(xs)`, by insertion
unfoldable pub sorted : List String → List String
unfolding insort
sorted [] = []
sorted (x ∷ xs) = insort x (sorted xs)

-- `set(xs)`, the elements in the order of their first occurrences from the right
unfoldable pub to_set : List String → List String
unfolding contains
to_set [] = []
to_set (x ∷ xs) = let rest = to_set xs in if contains x rest then rest else x ∷ rest

-- `s | {x}` on a set
unfoldable pub set_add : String → List String → List String
unfolding contains
set_add x s = if contains x s then s else s ++ x ∷ []

abbrev pub Nodup : List String → Type 0
Nodup [] = Unit
Nodup (x ∷ xs) = (contains x xs ≡ false) × Nodup xs

abbrev pub below_head : String → List String → Bool
below_head x [] = true
below_head x (y ∷ _) = str_leb x y

abbrev pub IsSorted : List String → Type 0
IsSorted [] = Unit
IsSorted (x ∷ xs) = (below_head x xs ≡ true) × IsSorted xs

-- A list that `sorted(set(...))` returns: increasing, and with no element twice.
pub record IsCanonical (xs : List String) : Type 0 where
  pub distinct : Nodup xs
  pub ordered : IsSorted xs

pub contains-append :
    (x : String) (xs ys : List String) → contains x (xs ++ ys) ≡ (contains x xs || contains x ys)
unfolding contains
contains-append x [] ys = refl
contains-append x (y ∷ xs) ys = ground (arith, contains-append x xs ys)

pub contains-insort :
    (x y : String) (ys : List String) → contains x (insort y ys) ≡ (x == y || contains x ys)
unfolding contains insort
contains-insort x y [] = refl
contains-insort x y (z ∷ ys) = ground (arith, contains-insort x y ys)

pub contains-sorted : (x : String) (xs : List String) → contains x (sorted xs) ≡ contains x xs
unfolding sorted contains
contains-sorted x [] = refl
contains-sorted x (y ∷ xs) = ground (arith, contains-insort x y (sorted xs), contains-sorted x xs)

pub contains-to_set : (x : String) (xs : List String) → contains x (to_set xs) ≡ contains x xs
unfolding to_set contains
contains-to_set x [] = refl
contains-to_set x (y ∷ xs) = ground (arith, contains-to_set x xs, eq_iff x y)

pub contains-set_add :
    (x y : String) (s : List String) → contains x (set_add y s) ≡ (x == y || contains x s)
unfolding set_add contains
contains-set_add x y s = ground (arith, contains-append x s (y ∷ []), eq_iff x y)

below_head-insort :
    (x y : String) (ys : List String)
    → str_leb y x ≡ true
    → below_head y ys ≡ true
    → below_head y (insort x ys) ≡ true
unfolding insort
below_head-insort x y [] h k = h
below_head-insort x y (z ∷ ys) h k = ground arith

insort-IsSorted : (x : String) (ys : List String) → IsSorted ys → IsSorted (insort x ys)
unfolding insort
insort-IsSorted x [] s = (refl, tt)
insort-IsSorted x (y ∷ ys) s = elim (Bool-cases (str_leb x y)) [
  | inl le ↦ rw le (le, s)
  | inr gt ↦ rw gt (below_head-insort x y ys (le_total x y gt) s.0, insort-IsSorted x ys s.1)
]

pub sorted-IsSorted : (xs : List String) → IsSorted (sorted xs)
unfolding sorted
sorted-IsSorted [] = tt
sorted-IsSorted (x ∷ xs) = insort-IsSorted x (sorted xs) (sorted-IsSorted xs)

insort-Nodup :
    (x : String) (ys : List String) → contains x ys ≡ false → Nodup ys → Nodup (insort x ys)
unfolding insort contains
insort-Nodup x [] h n = (refl, tt)
insort-Nodup x (y ∷ ys) h n =
    ground (arith, insort-Nodup x ys, contains-insort y x ys, eq_iff x y, eq_iff y x)

pub sorted-Nodup : (xs : List String) → Nodup xs → Nodup (sorted xs)
unfolding sorted
sorted-Nodup [] n = tt
sorted-Nodup (x ∷ xs) n =
    insort-Nodup x (sorted xs) (contains-sorted x xs ∙ n.0) (sorted-Nodup xs n.1)

pub to_set-Nodup : (xs : List String) → Nodup (to_set xs)
unfolding to_set
to_set-Nodup [] = tt
to_set-Nodup (x ∷ xs) = ground (arith, to_set-Nodup xs)

snoc-Nodup :
    (x : String) (xs : List String) → contains x xs ≡ false → Nodup xs → Nodup (xs ++ x ∷ [])
unfolding contains
snoc-Nodup x [] h n = (refl, tt)
snoc-Nodup x (y ∷ xs) h n =
    ground (arith, snoc-Nodup x xs, contains-append y xs (x ∷ []), eq_iff x y, eq_iff y x)

pub set_add-Nodup : (x : String) (s : List String) → Nodup s → Nodup (set_add x s)
unfolding set_add
set_add-Nodup x s n = elim (Bool-cases (contains x s)) [
  | inl old ↦ rw old n
  | inr new ↦ rw new (snoc-Nodup x s new n)
]

-- A sorted list is left alone by `sorted`, a list with no element twice by `set`.
pub sorted_id : (xs : List String) → IsSorted xs → sorted xs ≡ xs
unfolding sorted insort
sorted_id [] s = refl
sorted_id (x ∷ []) s = refl
sorted_id (x ∷ y ∷ ys) s = rw (sorted_id (y ∷ ys) s.1, insort, s.0)

pub to_set_id : (xs : List String) → Nodup xs → to_set xs ≡ xs
unfolding to_set
to_set_id [] n = refl
to_set_id (x ∷ xs) n = rw (to_set_id xs n.1, n.0)

pub sorted_set-IsCanonical :
    (x : String) (xs : List String) → IsCanonical (sorted (set_add x (to_set xs)))
sorted_set-IsCanonical x xs = record {
  distinct = sorted-Nodup _ (set_add-Nodup x _ (to_set-Nodup xs));
  ordered = sorted-IsSorted _;
}
