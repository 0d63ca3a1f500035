-- ===== src/Prelude/Ids/Order.antt =====
-- The order on texts is total.
use Prim.Native.Nat.{Ordering, compare as compare_ℕ}
use Prim.Native.Char.{code}
use Prim.Native.String.{String, [], ◌∷◌, then, compare}
use Prim.Native.String.compare
use mathlib.Core.Path.{◌≡◌}
use mathlib.Core.Bool.{Bool, true, false}
use native.Mathlib.Omega.{arith}

flip : Ordering → Ordering
flip Ordering.lt = Ordering.gt
flip Ordering.eq = Ordering.eq
flip Ordering.gt = Ordering.lt

compare_ℕ-flip : (a b : _) → compare_ℕ a b ≡ flip (compare_ℕ b a)
unfolding flip
compare_ℕ-flip a b = ground arith

then-flip : (o p : Ordering) → flip (then o p) ≡ then (flip o) (flip p)
unfolding flip
then-flip o p = ground arith

compare-flip : (s t : String) → compare s t ≡ flip (compare t s)
unfolding flip
compare-flip [] [] = ground (arith, compare.nil-nil)
compare-flip [] (d ∷ t) = ground (arith, compare.nil-cons d t, compare.cons-nil d t)
compare-flip (c ∷ s) [] = ground (arith, compare.nil-cons c s, compare.cons-nil c s)
compare-flip (c ∷ s) (d ∷ t) = ground (
  arith,
  compare.cons-cons c d s t,
  compare.cons-cons d c t s,
  compare-flip s t,
  compare_ℕ-flip (code c) (code d),
)

pub le_total :
    (x y : String)
    → (elim (compare x y) as (λ _. Bool) [ Ordering.gt ↦ false | _ ↦ true ]) ≡ false
    → (elim (compare y x) as (λ _. Bool) [ Ordering.gt ↦ false | _ ↦ true ]) ≡ true
unfolding flip
le_total x y h = ground (arith, compare-flip x y)
