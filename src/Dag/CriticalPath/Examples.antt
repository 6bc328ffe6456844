-- ===== src/Dag/CriticalPath/Examples.antt =====
-- The critical path of a diamond: `d` depends on `b` and `c`, and both on `a`.
use specsmither.Base.Text.{◌==◌, str_lt}
use specsmither.Dag.CriticalPath.Optimal.{weights, IsCritical, compute_critical_path-IsCritical}
use specsmither.Dag.CriticalPath.Overall.{deps_of-IsAcyclic}
use specsmither.Dag.CriticalPath.{
  CriticalPathNode, CriticalPathResult, lex_less, minutes_from, nodes_from, deps_of, is_nil,
  improves, best_of, extend, cached_or, longest_to, overtakes, overall_from, render_node,
  render_path, result_of, critical_path_from, compute_critical_path, record_result,
}
use specsmither.Base.Dict.{get_or, keys}
use specsmither.Base.{
  if◌then◌else◌, all, ℕ, ◌<◌, String, ◌≡◌, refl, Option, none, some, List, [], ◌∷◌, arith,
}
use specsmither.Dag.Types.{TicketNode, DepEdge}

abbrev ticket : String → Option ℕ → Option String → TicketNode
ticket id minutes title = record {
  id = id;
  status = "ready";
  estimated_minutes = minutes;
  epic_id = none;
  epic_number = none;
  ticket_number = none;
  title = title;
}

abbrev edge : String → String → DepEdge
edge a b = record { ticket_id = a; depends_on_id = b; type = "requires" }

abbrev diamond : List DepEdge
diamond = edge "d" "c" ∷ edge "d" "b" ∷ edge "b" "a" ∷ edge "c" "a" ∷ []

abbrev tickets : List TicketNode
tickets =
    ticket "a" (some 30) (some "Alpha")
    ∷ ticket "b" none none
    ∷ ticket "c" (some 0) (some "Gamma")
    ∷ ticket "d" (some 5) (some "Delta")
    ∷ []

abbrev node : String → String → ℕ → CriticalPathNode
node id title minutes = record {
  id = id;
  ticket_number = 0;
  title = title;
  estimated_minutes = minutes;
}

-- `b` and `c` weigh 1 each, and the tie goes to `b`; the missing estimate is shown as 60.
diamond_path :
    compute_critical_path 9 tickets diamond []
    ≡ some (record {
      path = node "a" "Alpha" 30 ∷ node "b" "<unnumbered>" 60 ∷ node "d" "Delta" 5 ∷ [];
      length = 3;
      minutes = 36;
    })
unfolding compute_critical_path critical_path_from overall_from longest_to cached_or record_result
    best_of extend improves overtakes deps_of minutes_from nodes_from keys lex_less render_path
    render_node result_of get_or is_nil str_lt
diamond_path = refl

abbrev rank : String → ℕ
rank id = if id == "d" then 2 else if id == "a" then 0 else 1

rank_bound : (n : String) → rank n < 3
rank_bound n = ground arith

compute_critical_path-IsCritical_example :
    (result : CriticalPathResult) × (compute_critical_path 3 tickets diamond [] ≡ some result)
    × IsCritical tickets diamond [] result
unfolding all
compute_critical_path-IsCritical_example =
    compute_critical_path-IsCritical 3 tickets diamond [] rank
      (deps_of-IsAcyclic (weights tickets diamond []) diamond rank refl) rank_bound
