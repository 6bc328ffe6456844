-- ===== src/Rollups/Recompute/Examples.antt =====
-- The recompute on three tickets: `a` is done, `b` depends on `a`, and `c` on `b`.
use specsmither.Rollups.Recompute.Reasons.{IsConsistent, recompute_statuses-IsConsistent}
use specsmither.Rollups.Recompute.Idempotence.{recompute_statuses_twice}
use specsmither.Rollups.Recompute.Fixpoint.{
  statuses_of, cascade_to_fixpoint_total, cascade_to_fixpoint-IsSettled,
}
use specsmither.Rollups.Recompute.Derived.{derive}
use specsmither.Rollups.Recompute.{
  TicketRow, states_from, new_status, visit_status, visit, cascade_pass, cascade_loop,
  cascade_to_fixpoint, titles_from, apply_status, recompute_statuses,
}
use specsmither.Dag.Cascade.Completeness.{IsSettled}
use specsmither.Dag.Cascade.{find_dependencies, has_status}
use specsmither.Dag.StatusCalculator.{should_recalculate, calculate_ticket_status}
use specsmither.Base.{All, String, ◌≡◌, refl, none, some, List, [], ◌∷◌}
use specsmither.Base.Dict.{Dict, get}
use specsmither.Dag.Types.{DepEdge}

abbrev edge : String → String → DepEdge
edge a b = record { ticket_id = a; depends_on_id = b; type = "requires" }

abbrev chain : List DepEdge
chain = edge "c" "b" ∷ edge "b" "a" ∷ []

abbrev row : String → String → String → TicketRow
row id status title = record {
  id = id;
  status = status;
  title = title;
  progress = 0;
  block_reason = none;
}

abbrev given : List TicketRow
given = row "a" "done" "Alpha" ∷ row "b" "pending" "Beta" ∷ row "c" "ready" "" ∷ []

abbrev written : List TicketRow
written =
    record { id = "a"; status = "done"; title = "Alpha"; progress = 100; block_reason = none }
    ∷ record { id = "b"; status = "ready"; title = "Beta"; progress = 0; block_reason = none }
    ∷ record {
      id = "c";
      status = "pending";
      title = "";
      progress = 0;
      block_reason = some "Blocked by 1 dependency: Beta";
    }
    ∷ []

abbrev final : Dict String
final = ("a", "done") ∷ ("b", "ready") ∷ ("c", "pending") ∷ []

cascade_given : cascade_to_fixpoint 2 given chain ≡ some final
unfolding cascade_to_fixpoint cascade_loop cascade_pass visit visit_status new_status
    calculate_ticket_status states_from find_dependencies should_recalculate
cascade_given = refl

recompute_given : recompute_statuses 2 given chain ≡ some written
unfolding recompute_statuses cascade_to_fixpoint cascade_loop cascade_pass visit visit_status
    new_status calculate_ticket_status states_from find_dependencies should_recalculate apply_status
    titles_from has_status
recompute_given = refl

cascade_to_fixpoint_total_example :
    (states : Dict String) × (cascade_to_fixpoint 2 given chain ≡ some states)
    × ((t : String) → get states t ≡ derive (statuses_of given) chain t)
cascade_to_fixpoint_total_example = cascade_to_fixpoint_total 0 given chain

cascade_to_fixpoint-IsSettled_example :
    IsSettled final chain "c"
    × (has_status final "c" "done" ≡ has_status (statuses_of given) "c" "done")
cascade_to_fixpoint-IsSettled_example =
    cascade_to_fixpoint-IsSettled 0 given chain final cascade_given "c"

recompute_statuses_twice_example : recompute_statuses 2 written chain ≡ some written
recompute_statuses_twice_example = recompute_statuses_twice 0 given written chain recompute_given

recompute_statuses-IsConsistent_example : All IsConsistent written
recompute_statuses-IsConsistent_example =
    recompute_statuses-IsConsistent 0 given written chain recompute_given
