-- ===== src/Lifecycle/Operations/Examples.antt =====
-- A late operation, the query of the status when planning is over, and the theorems at these.
use specsmither.Base.{String, ◌≡◌, refl, true, false, none, some}
use specsmither.Lifecycle.Operations.Phases.{operation_allowed-rewinds, operation_allowed-planned}
use specsmither.Lifecycle.StateMachine.{is_later_phase}
use specsmither.Domain.Enums.{cross_validation, planned}
use specsmither.Lifecycle.Operations.{operation_allowed, effective_phase, classify_operation_call}
use specsmither.Lifecycle.Prechecks.{accepted}

late_epic : operation_allowed "create_epic" cross_validation ≡ some (accepted true false)
unfolding operation_allowed
late_epic = refl

status_query : operation_allowed "get_planning_status" planned ≡ some (accepted false false)
unfolding operation_allowed
status_query = refl

audit_only : classify_operation_call "session_closed" planned ≡ none
unfolding classify_operation_call
audit_only = refl

operation_allowed-rewinds_example :
    (is_later_phase cross_validation (effective_phase "create_epic" cross_validation true) ≡ true)
    × (operation_allowed "create_epic" (effective_phase "create_epic" cross_validation true)
        ≡ some (accepted false false))
operation_allowed-rewinds_example =
    operation_allowed-rewinds "create_epic" cross_validation false late_epic

operation_allowed-planned_example : ◌≡◌ {A = String} "get_planning_status" "get_planning_status"
operation_allowed-planned_example =
    operation_allowed-planned "get_planning_status" false false status_query
