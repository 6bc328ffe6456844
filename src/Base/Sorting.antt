-- ===== src/Base/Sorting.antt =====
-- Python's `sorted` on texts and `sorted(set(xs))`. Texts that compare equal are equal, so an
-- insertion sort gives the list that any stable sort gives.
use Prim.Native.String.{String}
use mathlib.Core.Path.{◌≡◌, refl, ap₂}
use mathlib.Core.Bool.{true, false, ◌||◌}
use mathlib.Core.List.{List, [], ◌∷◌}
use native.Mathlib.Omega.{arith}
use text.Mathlib.TextEquality.{eq_iff}
use specsmither.Base.Tests.{if◌then◌else◌}
use specsmither.Base.Text.{
  ◌==◌, str_lt, str_lt_irrefl, str_lt_trans, str_lt_antisymm, str_lt_asymm, str_lt_cases,
}
use specsmither.Base.Sets.{mem, IsDistinct}

unfoldable pub insert : String → List String → List String
insert a [] = a ∷ []
insert a (x ∷ xs) = let rest = insert a xs in if str_lt x a then x ∷ rest else a ∷ x ∷ xs

-- `sorted(xs)`
unfoldable pub sorted : List String → List String
unfolding insert
sorted [] = []
sorted (x ∷ xs) = insert x (sorted xs)

-- `set(xs)`, with the last of equal texts kept
unfoldable pub distinct : List String → List String
unfolding mem
distinct [] = []
distinct (x ∷ xs) = let rest = distinct xs in if mem x xs then rest else x ∷ rest

-- `sorted(set(xs))`
unfoldable pub sorted_set : List String → List String
unfolding sorted distinct
sorted_set xs = sorted (distinct xs)

-- Each text is smaller than all that follow it.
abbrev pub IsBelow : String → List String → Type 0
IsBelow a [] = Unit
IsBelow a (x ∷ xs) = (str_lt a x ≡ true) × IsBelow a xs

abbrev pub IsAscending : List String → Type 0
IsAscending [] = Unit
IsAscending (x ∷ xs) = IsBelow x xs × IsAscending xs

pub mem-insert : (b a : String) (xs : List String) → mem b (insert a xs) ≡ (a == b || mem b xs)
unfolding insert mem
mem-insert b a [] = refl
mem-insert b a (x ∷ xs) = ground (arith, mem-insert b a xs)

pub mem-sorted : (b : String) (xs : List String) → mem b (sorted xs) ≡ mem b xs
unfolding sorted mem
mem-sorted b [] = refl
mem-sorted b (x ∷ xs) = ground (arith, mem-insert b x (sorted xs), mem-sorted b xs)

pub mem-distinct : (b : String) (xs : List String) → mem b (distinct xs) ≡ mem b xs
unfolding distinct mem
mem-distinct b [] = refl
mem-distinct b (x ∷ xs) = ground (arith, mem-distinct b xs, eq_iff x b)

pub mem-sorted_set : (b : String) (xs : List String) → mem b (sorted_set xs) ≡ mem b xs
mem-sorted_set b xs = unfold sorted_set in rw (mem-sorted, mem-distinct)

pub distinct-IsDistinct : (xs : List String) → IsDistinct (distinct xs)
unfolding distinct
distinct-IsDistinct [] = tt
distinct-IsDistinct (x ∷ xs) = ground (arith, distinct-IsDistinct xs, mem-distinct x xs)

IsBelow-trans : (a b : String) (xs : List String) → str_lt a b ≡ true → IsBelow b xs → IsBelow a xs
IsBelow-trans a b [] h k = tt
IsBelow-trans a b (x ∷ xs) h k = (str_lt_trans a b x h k.0, IsBelow-trans a b xs h k.1)

IsBelow-insert :
    (a b : String) (xs : List String) → str_lt a b ≡ true → IsBelow a xs → IsBelow a (insert b xs)
unfolding insert
IsBelow-insert a b [] h k = (h, tt)
IsBelow-insert a b (x ∷ xs) h k = ground (arith, IsBelow-insert a b xs)

insert-IsAscending :
    (a : String) (xs : List String) → mem a xs ≡ false → IsAscending xs → IsAscending (insert a xs)
unfolding insert mem
insert-IsAscending a [] h k = (tt, tt)
insert-IsAscending a (x ∷ xs) h k = ground (
  arith,
  insert-IsAscending a xs,
  IsBelow-insert x a xs,
  str_lt_antisymm x a,
  eq_iff x a,
  IsBelow-trans a x xs,
)

sorted-IsAscending : (xs : List String) → IsDistinct xs → IsAscending (sorted xs)
unfolding sorted
sorted-IsAscending [] h = tt
sorted-IsAscending (x ∷ xs) h =
    ground (arith, insert-IsAscending x (sorted xs), sorted-IsAscending xs, mem-sorted x xs)

pub sorted_set-IsAscending : (xs : List String) → IsAscending (sorted_set xs)
unfolding sorted_set
sorted_set-IsAscending xs = sorted-IsAscending (distinct xs) (distinct-IsDistinct xs)

pub not-mem_of_below :
    (a b : String) (xs : List String) → IsBelow b xs → str_lt b a ≡ false → mem a xs ≡ false
unfolding mem
not-mem_of_below a b [] h k = refl
not-mem_of_below a b (x ∷ xs) h k = ground (arith, not-mem_of_below a b xs, eq_iff x a)

pub IsAscending-IsDistinct : (xs : List String) → IsAscending xs → IsDistinct xs
IsAscending-IsDistinct [] h = tt
IsAscending-IsDistinct (x ∷ xs) h =
    (not-mem_of_below x x xs h.0 (str_lt_irrefl x), IsAscending-IsDistinct xs h.1)

-- An ascending list is determined by its members.
pub IsAscending-ext :
    (xs ys : List String)
    → IsAscending xs
    → IsAscending ys
    → ((a : String) → mem a xs ≡ mem a ys)
    → xs ≡ ys
IsAscending-ext [] [] h k e = refl
IsAscending-ext [] (y ∷ ys) h k e = absurd (unfold mem in ground (arith, e y, eq_iff y y))
IsAscending-ext (x ∷ xs) [] h k e = absurd (unfold mem in ground (arith, e x, eq_iff x x))
IsAscending-ext (x ∷ xs) (y ∷ ys) h k e = ap₂ ◌∷◌ heads (IsAscending-ext xs ys h.1 k.1 tails)
  where
    heads : x ≡ y
    heads =
        unfold mem in
        ground (
          arith,
          e x,
          e y,
          eq_iff x x,
          eq_iff y y,
          eq_iff x y,
          eq_iff y x,
          str_lt_cases x y,
          not-mem_of_below x y ys k.0,
          not-mem_of_below y x xs h.0,
          str_lt_asymm x y,
          str_lt_asymm y x,
        )

    tails : (a : String) → mem a xs ≡ mem a ys
    tails a =
        unfold mem in
        ground (
          arith,
          e a,
          heads,
          eq_iff x a,
          eq_iff y a,
          not-mem_of_below a x xs h.0,
          not-mem_of_below a y ys k.0,
          str_lt_irrefl a,
        )
