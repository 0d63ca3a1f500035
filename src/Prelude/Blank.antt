-- ===== src/Prelude/Blank.antt =====
-- Tests on a text: `not s or not s.strip()`, that it is white space only, and `t in s`.
use Prim.Native.Nat.{ℕ, zero, suc}
use Prim.Native.Char.{code}
use Prim.Native.String.{String, ◌++◌}
use mathlib.Core.List.{List, [], ◌∷◌}
use mathlib.Core.Bool.{Bool, true, false, ◌&&◌, ◌||◌}
use deterministic_cognition.Prelude.Tests.{leb, eqb}

-- the code points that `str.isspace` accepts
abbrev pub is_space : ℕ → Bool
is_space c =
    (leb 9 c && leb c 13)
    || (leb 28 c && leb c 32)
    || eqb c 133
    || eqb c 160
    || eqb c 5760
    || (leb 8192 c && leb c 8202)
    || eqb c 8232
    || eqb c 8233
    || eqb c 8239
    || eqb c 8287
    || eqb c 12288

unfoldable pub is_blank : String → Bool
is_blank String.[] = true
is_blank (String.◌∷◌ c s) = is_space (code c) && is_blank s

unfoldable pub starts_with : String → String → Bool
starts_with String.[] s = true
starts_with (String.◌∷◌ c t) String.[] = false
starts_with (String.◌∷◌ c t) (String.◌∷◌ d s) = eqb (code c) (code d) && starts_with t s

-- `t in s` on texts
unfoldable pub contains_text : String → String → Bool
unfolding starts_with
contains_text t String.[] = starts_with t String.[]
contains_text t (String.◌∷◌ c s) = starts_with t (String.◌∷◌ c s) || contains_text t s

-- `len(s)`
unfoldable pub text_length : String → ℕ
text_length String.[] = 0
text_length (String.◌∷◌ c s) = suc (text_length s)

-- `s[:n]`
unfoldable pub text_take : ℕ → String → String
text_take zero s = String.[]
text_take (suc n) String.[] = String.[]
text_take (suc n) (String.◌∷◌ c s) = String.◌∷◌ c (text_take n s)

-- `sep.join(xs)`
unfoldable pub join : String → List String → String
join sep [] = ""
join sep (x ∷ []) = x
join sep (x ∷ y ∷ xs) = x ++ sep ++ join sep (y ∷ xs)

-- `s.lstrip()`
unfoldable pub lstrip : String → String
lstrip String.[] = String.[]
lstrip (String.◌∷◌ c s) =
    let rest = lstrip s in elim (is_space (code c)) [ true ↦ rest | false ↦ String.◌∷◌ c s ]

-- `s.rstrip()`: what is left before the white space at the end
unfoldable pub rstrip : String → String
unfolding is_blank
rstrip String.[] = String.[]
rstrip (String.◌∷◌ c s) =
    let rest = rstrip s in
    elim (is_blank (String.◌∷◌ c s)) [ true ↦ String.[] | false ↦ String.◌∷◌ c rest ]

-- `s.strip()`
unfoldable pub strip : String → String
strip s = lstrip (rstrip s)
