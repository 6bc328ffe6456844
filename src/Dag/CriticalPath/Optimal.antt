-- ===== src/Dag/CriticalPath/Optimal.antt =====
-- `compute_critical_path` on a graph without cycles returns a heaviest path.
use specsmither.Dag.CriticalPath.Selection.{IsHeaviest, overall_from-IsHeaviest}
use specsmither.Dag.CriticalPath.Longest.{IsAcyclic}
use specsmither.Dag.CriticalPath.Chains.{Chain, Chain-le, candidate-Chain}
use specsmither.Dag.CriticalPath.Overall.{
  IsStored, from-IsStored, ids_in, round_half_up_whole, mem-keys, Chain-keys, render_path-ids,
}
use specsmither.Dag.CriticalPath.{
  CriticalPathNode, CriticalPathResult, Candidate, minutes_from, nodes_from, has_key, deps_of,
  no_path, render_path, result_of, round_half_up, critical_path_from, compute_critical_path,
}
use specsmither.Base.Sorting.{sorted, mem-sorted}
use specsmither.Base.{
  length, ℕ, ◌≤◌, String, ◌≡◌, refl, ◌⊎◌, true, some, List, [], and_then, all, suc, ◌<◌, sym, ap,
  ◌∙◌, inl, inr, Bool, arith,
}
use mathlib.Core.Path.{subst₂, fun_ext, subst}
use specsmither.Base.Dict.{Dict, get, keys}
use specsmither.Dag.Types.{TicketNode, DepEdge}

module _ (tickets : List TicketNode) (edges : List DepEdge) (exclude : List String) where
  -- The weights of the tickets that take part, and their dependencies among themselves.
  abbrev pub weights : Dict ℕ
  weights = minutes_from exclude [] tickets

  abbrev pub graph : String → List String
  graph = deps_of weights edges

  stored : (k : String) → IsStored (nodes_from exclude [] tickets) weights k
  stored k = from-IsStored exclude tickets [] [] k (unfold has_key in refl, λ t e. unfold get in cc)

  all_stored :
      (p : List String)
      → all (has_key weights) p ≡ true
      → all (has_key (nodes_from exclude [] tickets)) p ≡ true
  all_stored p h = subst (λ (f : String → Bool). all f p ≡ true) (fun_ext λ k. sym (stored k).0) h

  -- The result is heaviest, and is a path with the weight that it says, or there is none.
  pub record IsCritical (result : CriticalPathResult) : Type 0 where
    pub heaviest :
        (p : List String) (n : String) (m : ℕ)
        → Chain weights graph p n m
        → has_key weights n ≡ true
        → m ≤ result.minutes
    pub path :
        (result.path ≡ []) × (result.minutes ≡ 0)
        ⊎ ((n : String) × (has_key weights n ≡ true)
            × Chain weights graph (ids_in result.path) n result.minutes)
    pub counted : result.length ≡ length result.path

  module _ (rank : String → ℕ) (acyclic : IsAcyclic graph rank) where
    heavy :
        (overall : Candidate)
        → IsHeaviest weights graph rank acyclic (sorted (keys weights)) no_path overall
        → (p : List String) (n : String) (m : ℕ) → Chain weights graph p n m
        → has_key weights n ≡ true
        → m ≤ round_half_up overall.minutes
    heavy overall h p n m c k = omega (
      arith,
      round_half_up_whole overall.minutes,
      Chain-le weights graph rank acyclic c,
      h.above n (mem-sorted n (keys weights) ∙ mem-keys weights n ∙ k),
    )

    -- The rendered form of the candidate that the outer loop ends with.
    finish :
        (overall : Candidate)
        → IsHeaviest weights graph rank acyclic (sorted (keys weights)) no_path overall
        → (path : List CriticalPathNode) × (render_path (nodes_from exclude [] tickets) overall.path
            ≡ some path)
          × IsCritical (result_of overall path)
    unfolding result_of
    finish overall h = elim h.from_node [
      | inl none_taken ↦ (
        [],
        ap (λ (c : Candidate). render_path (nodes_from exclude [] tickets) c.path) none_taken
            ∙ unfold render_path in refl,
        record {
          heaviest = heavy overall h;
          path = inl (
            refl,
            round_half_up_whole overall.minutes ∙ ap (λ (c : Candidate). c.minutes) none_taken,
          );
          counted = refl;
        },
      )
      | inr (n, member, same) ↦
          let chain : Chain weights graph overall.path n overall.minutes =
            subst (λ (c : Candidate). Chain weights graph c.path n c.minutes) (sym same)
              (candidate-Chain weights graph rank acyclic (suc (rank n)) n (omega arith)) in
          let is_key : has_key weights n ≡ true =
            sym (mem-keys weights n) ∙ sym (mem-sorted n (keys weights)) ∙ member in
          let (path, rendered, ids) =
            render_path-ids (nodes_from exclude [] tickets) overall.path (λ k. (stored k).1)
              (all_stored overall.path (Chain-keys weights edges chain is_key)) in
          (
            path,
            rendered,
            record {
              heaviest = heavy overall h;
              path = inr (
                n,
                is_key,
                subst₂ (λ p m. Chain weights graph p n m) (sym ids)
                    (sym (round_half_up_whole overall.minutes)) chain,
              );
              counted = refl;
            },
          )
    ]

-- On a graph without cycles (dependencies have a smaller rank), with more fuel than every rank,
-- `compute_critical_path` returns a result: no path of dependencies among the tickets that are not
-- excluded is heavier than its minutes, and its path is one of exactly that weight, or is empty with
-- 0 minutes; its length is the number of its nodes.
pub compute_critical_path-IsCritical :
    (fuel : ℕ) (tickets : List TicketNode) (edges : List DepEdge) (exclude : List String)
    (rank : String → ℕ)
    → IsAcyclic (graph tickets edges exclude) rank
    → ((n : String) → rank n < fuel)
    → (result : CriticalPathResult) × (compute_critical_path fuel tickets edges exclude
        ≡ some result)
      × IsCritical tickets edges exclude result
unfolding compute_critical_path critical_path_from
compute_critical_path-IsCritical fuel tickets edges exclude rank acyclic enough =
    let minutes = weights tickets edges exclude in
    let deps = graph tickets edges exclude in
    let (overall, ends, heaviest) =
      overall_from-IsHeaviest minutes deps rank acyclic fuel (sorted (keys minutes)) no_path []
        enough (λ h. refl) (λ k c e. unfold get in cc) in
    let (path, rendered, critical) = finish tickets edges exclude rank acyclic overall heaviest in
    (
      result_of overall path,
      ap
            (λ o. and_then o (λ c.
              and_then (render_path (nodes_from exclude [] tickets) c.path)
                (λ p. some (result_of c p))))
            ends
          ∙ ap (λ o. and_then o (λ p. some (result_of overall p))) rendered,
      critical,
    )
