-- ===== src/Base/Sets.antt =====
-- A Python `set` of texts, as far as the program uses it: membership, and removal of duplicates.
use mathlib.Core.Logic.{inl, inr}
use specsmither.Base.Tests.{Bool-cases}
use Prim.Native.String.{String}
use mathlib.Core.Path.{◌≡◌, refl}
use mathlib.Core.Bool.{Bool, true, false, ◌&&◌, ◌||◌}
use mathlib.Core.List.{List, [], ◌∷◌, ◌++◌}
use native.Mathlib.Omega.{arith}
use text.Mathlib.TextEquality.{eq_iff}
use specsmither.Base.Lists.{filter, all}
use specsmither.Base.Text.{◌==◌}

-- `a in xs`
unfoldable pub mem : String → List String → Bool
mem a [] = false
mem a (x ∷ xs) = x == a || mem a xs

-- No text stands twice.
abbrev pub IsDistinct : List String → Type 0
IsDistinct [] = Unit
IsDistinct (x ∷ xs) = (mem x xs ≡ false) × IsDistinct xs

pub mem-append : (a : String) (xs ys : List String) → mem a (xs ++ ys) ≡ (mem a xs || mem a ys)
unfolding mem
mem-append a [] ys = refl
mem-append a (x ∷ xs) ys = ground (arith, mem-append a xs ys)

-- `eq_iff` in the form in which a test decides membership.
pub mem-cons_self : (a : String) (xs : List String) → mem a (a ∷ xs) ≡ true
unfolding mem
mem-cons_self a xs = ground (arith, eq_iff a a)

pub mem-filter :
    (p : String → Bool) (a : String) (xs : List String) → mem a (filter p xs) ≡ (mem a xs && p a)
unfolding mem filter
mem-filter p a [] = refl
mem-filter p a (x ∷ xs) = ground (arith, mem-filter p a xs, eq_iff x a)

pub filter-IsDistinct :
    (p : String → Bool) (xs : List String) → IsDistinct xs → IsDistinct (filter p xs)
unfolding filter
filter-IsDistinct p [] h = tt
filter-IsDistinct p (x ∷ xs) h = ground (arith, filter-IsDistinct p xs, mem-filter p x xs)

pub all-mem :
    (p : String → Bool) (x : String) (xs : List String)
    → all p xs ≡ true
    → mem x xs ≡ true
    → p x ≡ true
unfolding all mem
all-mem p x [] h m = cc
all-mem p x (y ∷ xs) h m = elim (Bool-cases (y == x)) [
  | inl e ↦ let same : y ≡ x = (eq_iff y x).0 e in ground arith
  | inr e ↦ all-mem p x xs (ground arith) (ground arith)
]
