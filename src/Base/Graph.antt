-- ===== src/Base/Graph.antt =====
-- Directed graphs given by the successors of each node: reachability by one edge or more.
use native.Mathlib.Omega.{arith}
use Prim.Native.Nat.{ℕ, ◌<◌}
use mathlib.Core.List.{List}
use mathlib.Core.Bool.{Bool, true}
use mathlib.Core.Path.{◌≡◌, sym, ◌∙◌, subst}
use Prim.Native.String.{String}
use specsmither.Base.Sets.{mem}
use mathlib.Core.Logic.{◌⊎◌, inl, inr, ◌≢◌}

abbrev pub Graph : Type 0
Graph = String → List String

-- There is a path of at least one edge.
pub data Reaches (g : Graph) : String → String → Type 0 where
  one : {a c : String} → mem c (g a) ≡ true → Reaches g a c
  more : {a c : String} (b : String) → mem b (g a) ≡ true → Reaches g b c → Reaches g a c

abbrev pub IsAcyclic : Graph → Type 0
IsAcyclic g = (n : String) → Reaches g n n → ⊥

pub Reaches-trans : {g : Graph} {a b c : String} → Reaches g a b → Reaches g b c → Reaches g a c
Reaches-trans {b = b} (one h) r = more b h r
Reaches-trans (more d h s) r = more d h (Reaches-trans s r)

-- A set of nodes that no edge leaves holds all that a member reaches; `goal` is no target.
pub Reaches-closed :
    (g : Graph) (inside : String → Bool) (goal : String)
    → ((v w : String) → inside v ≡ true → mem w (g v) ≡ true → (inside w ≡ true) × (w ≢ goal))
    → {a c : String} → Reaches g a c
    → inside a ≡ true
    → c ≢ goal
Reaches-closed g inside goal shut {a} {c} (one h) m = (shut a c m h).1
Reaches-closed g inside goal shut {a} (more b h r) m =
    Reaches-closed g inside goal shut r (shut a b m h).0

-- `b` follows `a` in `after` besides all that follows in `before`.
pub record IsExtended (before after : Graph) (a b : String) : Type 0 where
  pub added : mem b (after a) ≡ true
  pub old :
      (v w : String) → mem w (after v) ≡ true → (mem w (before v) ≡ true) ⊎ ((v ≡ a) × (w ≡ b))

-- A path after the extension is an old one, or leads to `a` and goes on from `b`.
pub Reaches-extended :
    {before after : Graph} {a b : String}
    → IsExtended before after a b
    → {x y : String} → Reaches after x y
    → Reaches before x y ⊎ (((x ≡ a) ⊎ Reaches before x a) × ((b ≡ y) ⊎ Reaches before b y))
Reaches-extended ext {x} {y} (one h) = elim (ext.old x y h) [
  | inl o ↦ inl (one o)
  | inr (p, q) ↦ inr (inl p, inl (sym q))
]
Reaches-extended {before} {after} {a} {b} ext {x} {y} (more z h r) = elim (ext.old x z h) [
  | inl o ↦ elim (Reaches-extended ext r) [
    | inl s ↦ inl (more z o s)
    | inr (inl p, q) ↦ inr (inr (one (subst (λ k. mem k (before x) ≡ true) p o)), q)
    | inr (inr p, q) ↦ inr (inr (more z o p), q)
  ]
  | inr (p, q) ↦ elim (Reaches-extended ext r) [
    | inl s ↦ inr (inl p, inr (subst (λ k. Reaches before k y) q s))
    | inr (_, t) ↦ inr (inl p, t)
  ]
]

-- An edge from `a` to another node `b` that does not reach `a` closes no cycle.
pub IsAcyclic-extended :
    {before after : Graph} {a b : String}
    → IsExtended before after a b
    → IsAcyclic before
    → a ≢ b
    → (Reaches before b a → ⊥)
    → IsAcyclic after
IsAcyclic-extended {before} {after} {a} {b} ext acyclic apart unreached n r =
    elim (Reaches-extended ext r) [
      | inl s ↦ acyclic n s
      | inr (inl p, inl q) ↦ apart (sym p ∙ sym q)
      | inr (inl p, inr q) ↦ unreached (subst (λ k. Reaches before b k) p q)
      | inr (inr p, inl q) ↦ unreached (subst (λ k. Reaches before k a) (sym q) p)
      | inr (inr p, inr q) ↦ unreached (Reaches-trans q p)
    ]

-- Edges that only lead to a greater rank close no cycle.
Reaches-ranked :
    {g : Graph} (rank : String → ℕ)
    → ((v w : String) → mem w (g v) ≡ true → rank v < rank w)
    → {a c : String} → Reaches g a c
    → rank a < rank c
Reaches-ranked rank up {a} {c} (one h) = up a c h
Reaches-ranked rank up {a} {c} (more b h r) = omega (arith, up a b h, Reaches-ranked rank up r)

pub IsAcyclic-ranked :
    (g : Graph) (rank : String → ℕ)
    → ((v w : String) → mem w (g v) ≡ true → rank v < rank w)
    → IsAcyclic g
IsAcyclic-ranked g rank up n r =
    let below : rank n < rank n = Reaches-ranked rank up r in absurd (omega (arith, below))
