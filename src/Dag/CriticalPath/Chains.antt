-- ===== src/Dag/CriticalPath/Chains.antt =====
-- Paths through the graph, and that the candidate of a node is a heaviest one that ends there.
use mathlib.Core.Path.{subst}
use specsmither.Base.Text.{◌==◌}
use specsmither.Dag.CriticalPath.Longest.{choose, IsAcyclic, best, best_step}
use specsmither.Dag.CriticalPath.{Candidate, is_nil, improves, extend, no_path}
use specsmither.Base.Sets.{mem, mem-cons_self}
use specsmither.Base.{
  if◌then◌else◌, Bool-cases, ℕ, zero, suc, ◌+◌, ◌≤◌, ◌<◌, String, ◌≡◌, refl, ◌∙◌, ◌⊎◌, inl, inr,
  Bool, true, false, List, [], ◌∷◌, ◌++◌, arith, eq_iff, ap,
}
use specsmither.Base.Dict.{Dict, get_or}

-- `p` is a path of dependencies, first one first, that ends at `n` and weighs `m`.
pub data Chain (minutes : Dict ℕ) (deps : String → List String)
    : List String → String → ℕ → Type 0 where
  first :
      {p : List String} {n : String} {m : ℕ}
      → p ≡ n ∷ []
      → m ≡ get_or minutes n 1
      → Chain minutes deps p n m
  next :
      {p q : List String} {n d : String} {m k : ℕ}
      → Chain minutes deps q d k
      → mem d (deps n) ≡ true
      → p ≡ q ++ n ∷ []
      → m ≡ k + get_or minutes n 1
      → Chain minutes deps p n m

-- An empty path weighs nothing.
abbrev pub IsWeighed : Candidate → Type 0
IsWeighed c = is_nil c.path ≡ true → c.minutes ≡ 0

is_nil-append : (xs : List String) (x : String) → is_nil (xs ++ x ∷ []) ≡ false
unfolding is_nil
is_nil-append [] x = refl
is_nil-append (y ∷ xs) x = refl

pub extend-IsWeighed :
    (minutes : Dict ℕ) (n : String) (c : Candidate) → IsWeighed (extend minutes n c)
unfolding extend
extend-IsWeighed minutes n c h = ground (arith, is_nil-append c.path n)

improves_le :
    (sub best : Candidate)
    → IsWeighed best
    → (best.minutes ≤ (if improves sub best then sub else best).minutes)
      × (sub.minutes ≤ (if improves sub best then sub else best).minutes)
unfolding improves
improves_le sub best h = (ground arith, ground arith)

if-IsWeighed :
    (b : Bool) (c d : Candidate) → IsWeighed c → IsWeighed d → IsWeighed (if b then c else d)
if-IsWeighed true c d h k = h
if-IsWeighed false c d h k = k

-- The choice is at least as heavy as each of the candidates.
pub choose_bounds :
    (f : String → Candidate) (ds : List String) (b : Candidate)
    → ((d : String) → IsWeighed (f d))
    → IsWeighed b
    → (b.minutes ≤ (choose f ds b).minutes)
      × ((d : String) → mem d ds ≡ true → (f d).minutes ≤ (choose f ds b).minutes)
unfolding choose
choose_bounds f [] b h k = (omega arith, λ d m. unfold mem in cc)
choose_bounds f (e ∷ ds) b h k =
    let next_best = if improves (f e) b then f e else b in
    let (above, each) =
      choose_bounds f ds next_best h (if-IsWeighed (improves (f e) b) (f e) b (h e) k) in
    let (old, new) = improves_le (f e) b k in
    (
      omega (arith, above, old),
      λ d m. elim (Bool-cases (e == d)) [
        | inl same ↦
            let eq : e ≡ d = (eq_iff e d).0 same in
            subst (λ x. (f x).minutes ≤ (choose f ds next_best).minutes) eq
              (omega (arith, above, new))
        | inr other ↦ each d (unfold mem in ground arith)
      ],
    )

-- The choice is the candidate that it began with, or that of one of the nodes.
pub choose_cases :
    (f : String → Candidate) (ds : List String) (b : Candidate)
    → (choose f ds b ≡ b) ⊎ ((d : String) × (mem d ds ≡ true) × (choose f ds b ≡ f d))
unfolding choose
choose_cases f [] b = inl refl
choose_cases f (e ∷ ds) b = elim (choose_cases f ds (if improves (f e) b then f e else b)) [
  | inr (d, m, same) ↦ inr (d, unfold mem in ground arith, same)
  | inl same ↦ elim (Bool-cases (improves (f e) b)) [
    | inl better ↦ inr (e, mem-cons_self e ds, same ∙ rw better)
    | inr worse ↦ inl (same ∙ rw worse)
  ]
]

module _ (minutes : Dict ℕ) (deps : String → List String) (rank : String → ℕ)
    (acyclic : IsAcyclic deps rank) where
  abbrev candidate : String → Candidate
  candidate = best minutes deps rank acyclic

  pub candidate-IsWeighed : (n : String) → IsWeighed (candidate n)
  candidate-IsWeighed n = rw (best_step minutes deps rank acyclic) (extend-IsWeighed minutes n _)

  chosen : String → Candidate
  chosen n = choose candidate (deps n) no_path

  minutes-candidate : (n : String) → (candidate n).minutes ≡ (chosen n).minutes + get_or minutes n 1
  unfolding extend chosen
  minutes-candidate n = ap (λ (c : Candidate). c.minutes) (best_step minutes deps rank acyclic n)

  path-candidate : (n : String) → (candidate n).path ≡ (chosen n).path ++ n ∷ []
  unfolding extend chosen
  path-candidate n = ap (λ (c : Candidate). c.path) (best_step minutes deps rank acyclic n)

  candidate-le-chosen :
      (n d : String) → mem d (deps n) ≡ true → (candidate d).minutes ≤ (chosen n).minutes
  unfolding chosen
  candidate-le-chosen n =
      (choose_bounds candidate (deps n) no_path candidate-IsWeighed (λ h. refl)).1

  -- No path that ends at `n` is heavier than its candidate.
  pub Chain-le :
      {p : List String} {n : String} {m : ℕ} → Chain minutes deps p n m → m ≤ (candidate n).minutes
  Chain-le {n = n} (first e w) = omega (arith, w, minutes-candidate n)
  Chain-le {n = n} (next {d = d} c member e w) =
      omega (arith, Chain-le c, candidate-le-chosen n d member, w, minutes-candidate n)

  -- The candidate of a node is a path that ends at it, with its weight.
  pub candidate-Chain :
      (fuel : ℕ) (n : String)
      → rank n < fuel
      → Chain minutes deps (candidate n).path n (candidate n).minutes
  unfolding chosen
  candidate-Chain zero n h = absurd (omega arith)
  candidate-Chain (suc fuel) n h = elim (choose_cases candidate (deps n) no_path) [
    | inl none_chosen ↦
        first (path-candidate n ∙ ap (λ (c : Candidate). c.path ++ n ∷ []) none_chosen) (
          minutes-candidate n
          ∙ ap (λ (c : Candidate). c.minutes + get_or minutes n 1) none_chosen
          ∙ omega arith)
    | inr (d, member, same) ↦
        next (candidate-Chain fuel d (omega (arith, acyclic n d member))) member
          (path-candidate n ∙ ap (λ (c : Candidate). c.path ++ n ∷ []) same)
          (minutes-candidate n ∙ ap (λ (c : Candidate). c.minutes + get_or minutes n 1) same)
  ]
