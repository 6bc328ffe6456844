-- ===== src/Base/Text.antt =====
-- Python's `==` and `<` on `str`: `<` compares by code points, a proper prefix being smaller.
use Prim.Native.Char.{code}
use Prim.Native.String.{String}
use mathlib.Core.Path.{◌≡◌, refl, ap₂}
use mathlib.Core.Logic.{◌⊎◌, inl, inr}
use mathlib.Core.Bool.{Bool, true, false}
use native.Mathlib.Omega.{arith}
use text.Mathlib.TextEquality.{codes_equal}
use specsmither.Base.Tests.{ltb, if◌then◌else◌, Bool-cases}
pub use text.Mathlib.Text.{◌==◌}

unfoldable pub str_lt : String → String → Bool
str_lt s String.[] = false
str_lt String.[] (String.◌∷◌ d t) = true
str_lt (String.◌∷◌ c s) (String.◌∷◌ d t) =
    let rest = str_lt s t in
    if ltb (code c) (code d) then true else if ltb (code d) (code c) then false else rest

pub str_lt_irrefl : (s : String) → str_lt s s ≡ false
unfolding str_lt
str_lt_irrefl String.[] = refl
str_lt_irrefl (String.◌∷◌ c s) = ground (arith, str_lt_irrefl s)

pub str_lt_trans : (s t u : String) → str_lt s t ≡ true → str_lt t u ≡ true → str_lt s u ≡ true
unfolding str_lt
str_lt_trans s t String.[] h k = cc
str_lt_trans s String.[] (String.◌∷◌ e u) h k = cc
str_lt_trans String.[] (String.◌∷◌ d t) (String.◌∷◌ e u) h k = refl
str_lt_trans (String.◌∷◌ c s) (String.◌∷◌ d t) (String.◌∷◌ e u) h k =
    ground (arith, str_lt_trans s t u)

pub str_lt_asymm : (s t : String) → str_lt s t ≡ true → str_lt t s ≡ false
unfolding str_lt
str_lt_asymm s String.[] h = cc
str_lt_asymm String.[] (String.◌∷◌ d t) h = refl
str_lt_asymm (String.◌∷◌ c s) (String.◌∷◌ d t) h = ground (arith, str_lt_asymm s t)

-- Two texts of which neither is smaller are equal.
pub str_lt_antisymm : (s t : String) → str_lt s t ≡ false → str_lt t s ≡ false → s ≡ t
unfolding str_lt
str_lt_antisymm String.[] String.[] h k = refl
str_lt_antisymm String.[] (String.◌∷◌ d t) h k = cc
str_lt_antisymm (String.◌∷◌ c s) String.[] h k = cc
str_lt_antisymm (String.◌∷◌ c s) (String.◌∷◌ d t) h k =
    ap₂ String.◌∷◌ (codes_equal c d (ground arith))
      (str_lt_antisymm s t (ground arith) (ground arith))

pub str_lt_cases : (s t : String) → (str_lt s t ≡ true) ⊎ ((s ≡ t) ⊎ (str_lt t s ≡ true))
str_lt_cases s t = elim (Bool-cases (str_lt s t)) [
  | inl h ↦ inl h
  | inr h ↦ elim (Bool-cases (str_lt t s)) [
    | inl k ↦ inr (inr k)
    | inr k ↦ inr (inl (str_lt_antisymm s t h k))
  ]
]
