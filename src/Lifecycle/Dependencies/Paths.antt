-- ===== src/Lifecycle/Dependencies/Paths.antt =====
-- `_find_path` decides whether a path exists; an edge from a ticket to itself escapes it.
use specsmither.Lifecycle.Dependencies.Batch.{successors-IsExtended}
use specsmither.Base.{
  Bool-cases, Option-cases, is_some, length, ℕ, zero, suc, ◌+◌, String, ◌≡◌, refl, sym, ap, ◌∙◌,
  inl, inr, true, false, not, ◌&&◌, Option, none, some, List, [], ◌∷◌, ◌++◌, map, arith,
}
use mathlib.Core.Path.{subst}
use specsmither.Base.Text.{◌==◌}
use specsmither.Base.Sets.{mem}
use specsmither.Base.Graph.{Graph, Reaches, one, more, IsAcyclic}
use specsmither.Lifecycle.Dependencies.{
  SpecDependencyEdge, successors, Entry, push_all, is_empty, search_from, find_path,
  run_dependencies_batch, dedup_intra, dedup_persisted, edge_key, settle, check_cycles,
  batch_result, batch_ok,
}
use specsmither.Lifecycle.Dependencies.Search.{find_path_total}
use specsmither.Lifecycle.Dependencies.Trails.{IsTrail, find_path_sound}

search_from-not_empty :
    (fuel : ℕ) (edges : List SpecDependencyEdge) (goal : String) (stack : List Entry)
    (visited : List String) (path : List SpecDependencyEdge)
    → search_from fuel edges goal stack visited ≡ some (some path)
    → is_empty path ≡ false
unfolding search_from
search_from-not_empty zero edges goal stack visited path e = absurd (cc)
search_from-not_empty (suc fuel) edges goal [] visited path e = absurd (cc)
search_from-not_empty (suc fuel) edges goal ((node, trail) ∷ stack) visited path e =
    elim (Bool-cases (node == goal && not (is_empty trail))) [
      | inl a ↦
          let same : trail ≡ path = ground (arith, e) in
          subst (λ k. is_empty k ≡ false) same (ground arith)
      | inr a ↦ elim (Bool-cases (mem node visited)) [
        | inl m ↦ search_from-not_empty fuel edges goal stack visited path (ground (arith, e))
        | inr m ↦
            search_from-not_empty fuel edges goal
              (push_all node trail (successors edges node) stack) (node ∷ visited) path
              (ground (arith, e))
      ]
    ]

IsTrail-Reaches :
    (g : Graph) (a b : String) (path : List SpecDependencyEdge)
    → is_empty path ≡ false
    → IsTrail g a path b
    → Reaches g a b
unfolding is_empty
IsTrail-Reaches g a b [] h t = absurd (cc)
IsTrail-Reaches g a b (e ∷ []) h (p, q, r) = one (subst (λ k. mem k (g a) ≡ true) r q)
IsTrail-Reaches g a b (e ∷ f ∷ path) h (p, q, r) =
    more e.to_ticket_id q (IsTrail-Reaches g e.to_ticket_id b (f ∷ path) refl r)

-- Within fuel for every edge and two more, the search answers, and it answers with a path exactly when the
-- goal can be reached from the origin by one edge or more.
pub find_path-Reaches :
    (origin goal : String) (edges : List SpecDependencyEdge)
    → (r : Option (List SpecDependencyEdge)) × (find_path (length edges + 2) origin goal edges
        ≡ some r)
      × (is_some r ≡ true → Reaches (successors edges) origin goal)
      × (Reaches (successors edges) origin goal → is_some r ≡ true)
unfolding find_path
find_path-Reaches origin goal edges =
    let (r, same, left) = find_path_total (length edges + 2) origin goal edges (omega arith) in
    (
      r,
      same,
      λ h. elim (Option-cases r) [
        | inl e ↦ absurd (cc)
        | inr (path, e) ↦
            let found : find_path (length edges + 2) origin goal edges ≡ some (some path) =
              same ∙ ap some e in
            IsTrail-Reaches (successors edges) origin goal path
              (search_from-not_empty (length edges + 2) edges goal ((origin, []) ∷ []) [] path
                found)
              (find_path_sound (length edges + 2) origin goal edges path found)
      ],
      λ h. elim (Option-cases r) [ inl e ↦ elim (left e h) [ ] | inr (path, e) ↦ rw e refl ],
    )

-- On an acyclic graph, a batch of one new edge from a ticket to itself is accepted, and the graph with it has
-- a cycle.
pub run_dependencies_batch-self_loop :
    (e : SpecDependencyEdge) (existing : List SpecDependencyEdge)
    → e.from_ticket_id ≡ e.to_ticket_id
    → mem (edge_key e) (map edge_key existing) ≡ false
    → IsAcyclic (successors existing)
    → (run_dependencies_batch (e ∷ []) existing ≡ some (batch_ok (e ∷ []) [] []))
      × (IsAcyclic (successors (existing ++ e ∷ [])) → ⊥)
unfolding run_dependencies_batch dedup_intra dedup_persisted check_cycles settle batch_result
    is_empty mem
run_dependencies_batch-self_loop e existing loop new acyclic =
    let (r, same, reach, _) = find_path-Reaches e.to_ticket_id e.from_ticket_id existing in
    let missed : r ≡ none = elim (Option-cases r) [
      | inl q ↦ q
      | inr (path, q) ↦
          elim (acyclic e.to_ticket_id (
            subst (λ k. Reaches (successors existing) e.to_ticket_id k) loop
              (reach (rw q refl)))) [ ]
    ] in
    let found : find_path (length existing + 2) e.to_ticket_id e.from_ticket_id existing
        ≡ some none =
      same ∙ ap some missed in
    (
      rw (new, found) refl,
      λ clean. clean e.from_ticket_id (
          one (
            subst (λ k. mem k (successors (existing ++ e ∷ []) e.from_ticket_id) ≡ true) (sym loop)
              (successors-IsExtended existing e).added)),
    )
