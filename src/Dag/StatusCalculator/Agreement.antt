-- ===== src/Dag/StatusCalculator/Agreement.antt =====
-- The two entry points of dag/status_calculator.py agree.
use specsmither.Base.{
  String, ◌≡◌, refl, true, false, Option, List, [], ◌∷◌, map, all, arith, if◌then◌else◌,
}
use specsmither.Base.Text.{◌==◌}
use specsmither.Dag.StatusCalculator.{
  DependencyStatus, calculate_ticket_status, calculate_status_with_reason, should_recalculate,
  is_truthy, from_dependencies, from_unsatisfied, unsatisfied,
}

from_unsatisfied_status :
    (ds : List DependencyStatus)
    → (from_unsatisfied (unsatisfied ds)).status
      ≡ (if all (λ s. s == "done") (map (λ d. d.status) ds) then "ready" else "pending")
unfolding from_unsatisfied unsatisfied all
from_unsatisfied_status [] = refl
from_unsatisfied_status (d ∷ ds) = ground (arith, from_unsatisfied_status ds)

-- Without an external block, and for a ticket whose status may be recalculated, the status that is
-- given with a reason is the one that the cascade derives from the same dependencies.
pub calculators_agree :
    (current : String) (block_reason : Option String) (deps : List DependencyStatus)
    → should_recalculate current ≡ true
    → is_truthy block_reason ≡ false
    → (calculate_status_with_reason block_reason deps).status
      ≡ calculate_ticket_status current (map (λ d. d.status) deps)
unfolding calculate_status_with_reason calculate_ticket_status from_dependencies
calculators_agree current block_reason [] h k = ground arith
calculators_agree current block_reason (d ∷ ds) h k =
    ground (arith, from_unsatisfied_status (d ∷ ds))
