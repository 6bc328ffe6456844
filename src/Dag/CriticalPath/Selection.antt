-- ===== src/Dag/CriticalPath/Selection.antt =====
-- The outer loop ends with the heaviest candidate of all nodes.
use mathlib.Core.Path.{subst}
use specsmither.Base.Text.{◌==◌}
use specsmither.Dag.CriticalPath.Longest.{IsAcyclic, best, IsSound, longest_to-Finds}
use specsmither.Dag.CriticalPath.Chains.{IsWeighed, candidate-IsWeighed}
use specsmither.Dag.CriticalPath.{Candidate, Memo, overtakes, overall_from}
use specsmither.Base.Sets.{mem, mem-cons_self}
use specsmither.Base.{
  if◌then◌else◌, Bool-cases, and_then, ℕ, ◌≤◌, ◌<◌, String, ◌≡◌, refl, ap, ◌∙◌, ◌⊎◌, inl, inr, Bool,
  true, false, some, List, [], ◌∷◌, arith, eq_iff,
}
use specsmither.Base.Dict.{Dict}

overtakes_le :
    (candidate overall : Candidate)
    → IsWeighed overall
    → (overall.minutes ≤ (if overtakes candidate overall then candidate else overall).minutes)
      × (candidate.minutes ≤ (if overtakes candidate overall then candidate else overall).minutes)
unfolding overtakes
overtakes_le candidate overall h = (ground arith, ground arith)

pick-IsWeighed :
    (b : Bool) (c d : Candidate) → IsWeighed c → IsWeighed d → IsWeighed (if b then c else d)
pick-IsWeighed true c d h k = h
pick-IsWeighed false c d h k = k

module _ (minutes : Dict ℕ) (deps : String → List String) (rank : String → ℕ)
    (acyclic : IsAcyclic deps rank) where
  abbrev of_node : String → Candidate
  of_node = best minutes deps rank acyclic

  -- What the loop ends with, begun with `overall`.
  pub record IsHeaviest (ids : List String) (overall result : Candidate) : Type 0 where
    pub at_least : overall.minutes ≤ result.minutes
    pub above : (n : String) → mem n ids ≡ true → (of_node n).minutes ≤ result.minutes
    pub from_node : (result ≡ overall) ⊎ ((n : String) × (mem n ids ≡ true) × (result ≡ of_node n))

  pub overall_from-IsHeaviest :
      (fuel : ℕ) (ids : List String) (overall : Candidate) (memo : Memo)
      → ((n : String) → rank n < fuel)
      → IsWeighed overall
      → IsSound minutes deps rank acyclic memo
      → (result : Candidate) × (overall_from fuel minutes deps ids overall memo ≡ some result)
        × IsHeaviest ids overall result
  unfolding overall_from
  overall_from-IsHeaviest fuel [] overall memo h w s = (
    overall,
    refl,
    record { at_least = omega arith; above = λ n m. unfold mem in cc; from_node = inl refl },
  )
  overall_from-IsHeaviest fuel (n ∷ ids) overall memo h w s =
      let (memo', e, s') = longest_to-Finds minutes deps rank acyclic fuel n memo (h n) s in
      let c = of_node n in
      let next_overall = if overtakes c overall then c else overall in
      let (result, ends, heaviest) =
        overall_from-IsHeaviest fuel ids next_overall memo' h
          (pick-IsWeighed (overtakes c overall) c overall
            (candidate-IsWeighed minutes deps rank acyclic n) w)
          s' in
      let (old, new) = overtakes_le c overall w in
      (
        result,
        ap
              (λ o. and_then o (λ found.
                overall_from fuel minutes deps ids
                  (if overtakes found.0 overall then found.0 else overall) found.1))
              e
            ∙ ends,
        record {
          at_least = omega (arith, old, heaviest.at_least);
          above = λ k m. elim (Bool-cases (n == k)) [
            | inl same ↦
                let eq : n ≡ k = (eq_iff n k).0 same in
                subst (λ x. (of_node x).minutes ≤ result.minutes) eq
                  (omega (arith, new, heaviest.at_least))
            | inr other ↦ heaviest.above k (unfold mem in ground arith)
          ];
          from_node = elim heaviest.from_node [
            | inr (k, m, same) ↦ inr (k, unfold mem in ground arith, same)
            | inl same ↦ elim (Bool-cases (overtakes c overall)) [
              | inl better ↦ inr (n, mem-cons_self n ids, same ∙ rw better)
              | inr worse ↦ inl (same ∙ rw worse)
            ]
          ];
        },
      )
