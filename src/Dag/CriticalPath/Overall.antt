-- ===== src/Dag/CriticalPath/Overall.antt =====
-- What `compute_critical_path` returns on a graph without cycles.
use specsmither.Dag.CriticalPath.Longest.{IsAcyclic}
use mathlib.Core.Path.{ap₂}
use specsmither.Base.Text.{◌==◌}
use specsmither.Dag.CriticalPath.Chains.{Chain, first, next}
use specsmither.Dag.CriticalPath.{
  round_half_up, minutes_from, nodes_from, has_key, deps_of, CriticalPathNode, weight, render_node,
  render_path,
}
use specsmither.Base.Sorting.{mem-sorted_set}
use specsmither.Base.{
  filter, all, any, ℕ, String, ◌≡◌, refl, sym, ap, ◌∙◌, Bool, true, ◌&&◌, some, List, [], ◌∷◌, map,
  arith, eq_iff, Bool-cases, Option-cases, is_some, and_then, inl, inr, ◌++◌, ltb, ◌<◌,
}
use specsmither.Base.Sets.{mem}
use mathlib.Core.Option.{some-injective}
use specsmither.Base.Dict.{Dict, get, keys, put, get-put}
use specsmither.Dag.Types.{TicketNode, DepEdge}

pub round_half_up_whole : (n : ℕ) → round_half_up n ≡ n
unfolding round_half_up
round_half_up_whole n = omega arith

pub mem-keys {ℓ} : {V : Type ℓ} (d : Dict V) (k : String) → mem k (keys d) ≡ has_key d k
unfolding mem keys has_key
mem-keys [] k = refl
mem-keys ((j, v) ∷ d) k = ground (arith, mem-keys d k)

mem-filter-map :
    (edges : List DepEdge) (p : DepEdge → Bool) (d : String)
    → mem d (map (λ e. e.depends_on_id) (filter p edges))
      ≡ any (λ e. p e && e.depends_on_id == d) edges
unfolding mem filter any
mem-filter-map [] p d = refl
mem-filter-map (e ∷ edges) p d = ground (arith, mem-filter-map edges p d)

-- A dependency is one of the nodes, and so is the node that has it.
edge_key :
    (minutes : Dict ℕ) (n d : String) (edges : List DepEdge)
    → any
        (λ e.
          (e.ticket_id == n && has_key minutes e.ticket_id && has_key minutes e.depends_on_id)
          && e.depends_on_id == d)
        edges
      ≡ true
    → has_key minutes d ≡ true
unfolding any
edge_key minutes n d [] h = cc
edge_key minutes n d (e ∷ edges) h = ground (
  arith,
  edge_key minutes n d edges,
  eq_iff e.depends_on_id d,
  ap (has_key minutes) {x = e.depends_on_id} {y = d},
)

deps_of-key :
    (minutes : Dict ℕ) (edges : List DepEdge) (n d : String)
    → mem d (deps_of minutes edges n) ≡ true
    → has_key minutes d ≡ true
unfolding deps_of
deps_of-key minutes edges n d h =
    edge_key minutes n d edges (sym (mem-filter-map edges _ d) ∙ sym (mem-sorted_set d _) ∙ h)

-- It is enough that the rank falls along each edge.
ranked_edge :
    (minutes : Dict ℕ) (rank : String → ℕ) (n d : String) (edges : List DepEdge)
    → all (λ e. ltb (rank e.depends_on_id) (rank e.ticket_id)) edges ≡ true
    → any
        (λ e.
          (e.ticket_id == n && has_key minutes e.ticket_id && has_key minutes e.depends_on_id)
          && e.depends_on_id == d)
        edges
      ≡ true
    → rank d < rank n
unfolding any all
ranked_edge minutes rank n d [] h k = cc
ranked_edge minutes rank n d (e ∷ edges) h k = ground (
  arith,
  ranked_edge minutes rank n d edges,
  eq_iff e.depends_on_id d,
  eq_iff e.ticket_id n,
  ap rank {x = e.depends_on_id} {y = d},
  ap rank {x = e.ticket_id} {y = n},
)

pub deps_of-IsAcyclic :
    (minutes : Dict ℕ) (edges : List DepEdge) (rank : String → ℕ)
    → all (λ e. ltb (rank e.depends_on_id) (rank e.ticket_id)) edges ≡ true
    → IsAcyclic (deps_of minutes edges) rank
unfolding deps_of
deps_of-IsAcyclic minutes edges rank h n d m =
    ranked_edge minutes rank n d edges h
      (sym (mem-filter-map edges _ d) ∙ sym (mem-sorted_set d _) ∙ m)

all-append :
    (p : String → Bool) (xs : List String) (n : String) → all p (xs ++ n ∷ []) ≡ (all p xs && p n)
unfolding all
all-append p [] n = ground arith
all-append p (x ∷ xs) n = ground (arith, all-append p xs n)

-- Each node of the path is one of the nodes of the graph, if its end is.
pub Chain-keys :
    (minutes : Dict ℕ) (edges : List DepEdge) {p : List String} {n : String} {m : ℕ}
    → Chain minutes (deps_of minutes edges) p n m
    → has_key minutes n ≡ true
    → all (has_key minutes) p ≡ true
Chain-keys minutes edges {p = p} {n = n} (first e w) k = rw e (unfold all in ground arith)
Chain-keys minutes edges {p = p} {n = n} (next {q = q} {d = d} c member e w) k = rw e (
    all-append (has_key minutes) q n
    ∙ ap₂ ◌&&◌ (Chain-keys minutes edges c (deps_of-key minutes edges n d member)) k)

-- The nodes are stored under their ids, and have the keys of the weights.
abbrev pub IsStored : Dict TicketNode → Dict ℕ → String → Type 0
IsStored nodes minutes k =
    (has_key nodes k ≡ has_key minutes k) × ((t : TicketNode) → get nodes k ≡ some t → t.id ≡ k)

put-IsStored :
    (nodes : Dict TicketNode) (minutes : Dict ℕ) (t : TicketNode) (w : ℕ) (k : String)
    → IsStored nodes minutes k
    → IsStored (put nodes t.id t) (put minutes t.id w) k
unfolding has_key
put-IsStored nodes minutes t w k (same, named) = elim (Bool-cases (t.id == k)) [
  | inl here ↦ (
    ap is_some (get-put nodes t.id k t)
        ∙ rw here (sym (ap is_some (get-put minutes t.id k w) ∙ rw here)),
    λ u e.
        let found : t ≡ u = some-injective _ _ (rw here at (sym (get-put nodes t.id k t) ∙ e)) in
        ap (λ (v : TicketNode). v.id) (sym found) ∙ (eq_iff t.id k).0 here,
  )
  | inr other ↦ (
    ap is_some (get-put nodes t.id k t)
        ∙ rw other (same ∙ sym (ap is_some (get-put minutes t.id k w) ∙ rw other)),
    λ u e. named u (rw other at (sym (get-put nodes t.id k t) ∙ e)),
  )
]

pub from-IsStored :
    (exclude : List String) (tickets : List TicketNode) (nodes : Dict TicketNode) (minutes : Dict ℕ)
    (k : String)
    → IsStored nodes minutes k
    → IsStored (nodes_from exclude nodes tickets) (minutes_from exclude minutes tickets) k
unfolding nodes_from minutes_from
from-IsStored exclude [] nodes minutes k h = h
from-IsStored exclude (t ∷ tickets) nodes minutes k h = elim (Bool-cases (mem t.id exclude)) [
  | inl out ↦ rw out (from-IsStored exclude tickets nodes minutes k h)
  | inr kept ↦ rw kept (
      from-IsStored exclude tickets (put nodes t.id t)
        (put minutes t.id (weight t.estimated_minutes)) k
        (put-IsStored nodes minutes t (weight t.estimated_minutes) k h))
]

abbrev pub ids_in : List CriticalPathNode → List String
ids_in = map (λ n. n.id)

get-has_key :
    (nodes : Dict TicketNode) (k : String)
    → has_key nodes k ≡ true
    → (t : TicketNode) × (get nodes k ≡ some t)
unfolding has_key
get-has_key nodes k h = elim (Option-cases (get nodes k)) [ inl e ↦ cc | inr (t, e) ↦ (t, e) ]

-- A path whose ids are all stored is rendered in full.
pub render_path-ids :
    (nodes : Dict TicketNode) (p : List String)
    → ((k : String) (t : TicketNode) → get nodes k ≡ some t → t.id ≡ k)
    → all (has_key nodes) p ≡ true
    → (rendered : List CriticalPathNode) × (render_path nodes p ≡ some rendered)
      × (ids_in rendered ≡ p)
unfolding render_path render_node all
render_path-ids nodes [] named h = ([], refl, refl)
render_path-ids nodes (k ∷ p) named h =
    let (t, found) = get-has_key nodes k (ground arith) in
    let (rest, rendered, same) = render_path-ids nodes p named (ground arith) in
    (
      render_node t ∷ rest,
      ap (λ o. and_then o (λ u. and_then (render_path nodes p) (λ r. some (render_node u ∷ r))))
            found
          ∙ ap (λ o. and_then o (λ r. some (render_node t ∷ r))) rendered,
      ap₂ ◌∷◌ (named k t found) same,
    )
