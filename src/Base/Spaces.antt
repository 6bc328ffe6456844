-- ===== src/Base/Spaces.antt =====
-- Two texts put together with a space between them, taken apart at the first space.
use native.Mathlib.Omega.{arith}
use mathlib.Core.Bool.{Bool, true, not, ◌&&◌}
use specsmither.Base.Tests.{nat_eq}
use Prim.Native.Char.{code}
use Prim.Native.String.{String, ◌++◌}
use specsmither.Base.Decimal.{concat}
use text.Mathlib.TextLemmas.{
  nil-append, cons-append, append-nil, head-eq_of_cons-eq, tail-eq_of_cons-eq,
}
use mathlib.Core.List.{[], ◌∷◌}
use mathlib.Core.Path.{◌≡◌, refl, sym, ap, ◌∙◌, ap₂}

-- The text has no space in it.
unfoldable pub is_spaceless : String → Bool
is_spaceless String.[] = true
is_spaceless (String.◌∷◌ c s) = not (nat_eq (code c) 32) && is_spaceless s

space_cons : (s : String) → " " ++ s ≡ String.◌∷◌ " " s
space_cons s = cons-append " " String.[] s ∙ ap (λ k. String.◌∷◌ " " k) (nil-append s)

split_key :
    (a b s t : String)
    → is_spaceless a ≡ true
    → is_spaceless b ≡ true
    → a ++ (" " ++ s) ≡ b ++ (" " ++ t)
    → (a ≡ b) × (s ≡ t)
unfolding is_spaceless
split_key String.[] String.[] s t h k e =
    let whole : String.◌∷◌ " " s ≡ String.◌∷◌ " " t =
      sym (nil-append (" " ++ s) ∙ space_cons s) ∙ e ∙ nil-append (" " ++ t) ∙ space_cons t in
    (refl, tail-eq_of_cons-eq whole)
split_key String.[] (String.◌∷◌ d b) s t h k e =
    let whole : String.◌∷◌ " " s ≡ String.◌∷◌ d (b ++ (" " ++ t)) =
      sym (nil-append (" " ++ s) ∙ space_cons s) ∙ e ∙ cons-append d b (" " ++ t) in
    let first : 32 ≡ code d = ap code (head-eq_of_cons-eq whole) in
    absurd (ground (arith, first, k))
split_key (String.◌∷◌ c a) String.[] s t h k e =
    let whole : String.◌∷◌ c (a ++ (" " ++ s)) ≡ String.◌∷◌ " " t =
      sym (cons-append c a (" " ++ s)) ∙ e ∙ nil-append (" " ++ t) ∙ space_cons t in
    let first : code c ≡ 32 = ap code (head-eq_of_cons-eq whole) in
    absurd (ground (arith, first, h))
split_key (String.◌∷◌ c a) (String.◌∷◌ d b) s t h k e =
    let whole : String.◌∷◌ c (a ++ (" " ++ s)) ≡ String.◌∷◌ d (b ++ (" " ++ t)) =
      sym (cons-append c a (" " ++ s)) ∙ e ∙ cons-append d b (" " ++ t) in
    let (p, q) =
      split_key a b s t (ground (arith, h)) (ground (arith, k)) (tail-eq_of_cons-eq whole) in
    (ap₂ String.◌∷◌ (head-eq_of_cons-eq whole) p, q)

-- The first text ends at the first space.
pub concat-space :
    (a b s t : String)
    → is_spaceless a ≡ true
    → is_spaceless b ≡ true
    → concat (a ∷ " " ∷ s ∷ []) ≡ concat (b ∷ " " ∷ t ∷ [])
    → (a ≡ b) × (s ≡ t)
unfolding concat
concat-space a b s t h k e =
    let (p, q) = split_key a b (s ++ "") (t ++ "") h k e in
    (p, sym (append-nil s) ∙ q ∙ append-nil t)
