-- ===== src/Dag/StatusCalculator/Examples.antt =====
-- The two status calculators on one unfinished dependency.
use specsmither.Base.{◌≡◌, refl, none, [], ◌∷◌, map}
use specsmither.Dag.StatusCalculator.Agreement.{calculators_agree}
use specsmither.Dag.StatusCalculator.{
  DependencyStatus, should_recalculate, calculate_ticket_status, is_truthy,
  calculate_status_with_reason,
}

abbrev open_dependency : DependencyStatus
open_dependency = record { id = "a"; title = "Alpha"; status = "active" }

calculators_agree_example :
    (calculate_status_with_reason none (open_dependency ∷ [])).status
    ≡ calculate_ticket_status "ready" (map (λ d. d.status) (open_dependency ∷ []))
unfolding should_recalculate is_truthy
calculators_agree_example = calculators_agree "ready" none (open_dependency ∷ []) refl refl
