-- ===== src/Dag/StatusCalculator.antt =====
-- dag/status_calculator.py: the status of a ticket from the statuses of its dependencies.
pub mod Agreement
mod Examples
use specsmither.Base.{
  String, Bool, false, Option, none, some, List, [], ◌∷◌, map, not, ◌||◌, all, filter,
  if◌then◌else◌,
}
use specsmither.Base.Text.{◌==◌}

pub record DependencyStatus : Type 0 where
  pub id : String
  pub title : String
  pub status : String

pub record UnsatisfiedDependency : Type 0 where
  pub id : String
  pub title : String
  pub status : String

pub data StatusReasonType : Type 0 where
  no_dependencies dependencies_satisfied dependencies_unsatisfied external_block : StatusReasonType

pub record StatusReason : Type 0 where
  pub type : StatusReasonType
  pub unsatisfied_deps : Option (List UnsatisfiedDependency)
  pub block_reason : Option String

pub record StatusCalculationResult : Type 0 where
  pub status : String
  pub reason : StatusReason

-- `status in {"pending", "ready"}`
unfoldable pub should_recalculate : String → Bool
should_recalculate status = status == "pending" || status == "ready"

unfoldable pub calculate_ticket_status : String → List String → String
unfolding should_recalculate all
calculate_ticket_status current_status dependency_statuses =
    if not (should_recalculate current_status)
    then current_status
    else if all (λ s. s == "done") dependency_statuses
    then "ready"
    else "pending"

-- A `str | None` is true if it is a text that is not empty.
unfoldable pub is_truthy : Option String → Bool
is_truthy none = false
is_truthy (some s) = not (s == "")

unfoldable pub unsatisfied : List DependencyStatus → List DependencyStatus
unfolding filter
unsatisfied deps = filter (λ d. not (d.status == "done")) deps

unfoldable pub as_unsatisfied : DependencyStatus → UnsatisfiedDependency
as_unsatisfied d = record { id = d.id; title = d.title; status = d.status }

unfoldable pub from_unsatisfied : List DependencyStatus → StatusCalculationResult
unfolding as_unsatisfied
from_unsatisfied [] = record {
  status = "ready";
  reason = record {
    type = StatusReasonType.dependencies_satisfied;
    unsatisfied_deps = none;
    block_reason = none;
  };
}
from_unsatisfied (d ∷ ds) = record {
  status = "pending";
  reason = record {
    type = StatusReasonType.dependencies_unsatisfied;
    unsatisfied_deps = some (map as_unsatisfied (d ∷ ds));
    block_reason = none;
  };
}

unfoldable pub from_dependencies : List DependencyStatus → StatusCalculationResult
unfolding from_unsatisfied unsatisfied
from_dependencies [] = record {
  status = "ready";
  reason = record {
    type = StatusReasonType.no_dependencies;
    unsatisfied_deps = none;
    block_reason = none;
  };
}
from_dependencies (d ∷ ds) = from_unsatisfied (unsatisfied (d ∷ ds))

unfoldable pub calculate_status_with_reason :
    Option String → List DependencyStatus → StatusCalculationResult
unfolding is_truthy from_dependencies
calculate_status_with_reason block_reason deps =
    if is_truthy block_reason
    then (record {
      status = "pending";
      reason = record {
        type = StatusReasonType.external_block;
        unsatisfied_deps = none;
        block_reason = block_reason;
      };
    })
    else from_dependencies deps
