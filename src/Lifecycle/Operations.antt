-- ===== src/Lifecycle/Operations.antt =====
-- lifecycle/operations_registry.py and prechecks/operation_allowed.py: what an operation may do in a phase.
-- An operation is its name, a text, as it arrives from the client.
mod Types
mod Structure
mod Links
pub mod Phases
mod Examples
use specsmither.Lifecycle.StateMachine.{same_phase}
use specsmither.Lifecycle.Prechecks.{PrecheckResult, accepted, denied}
use specsmither.Domain.Enums.{PlanningPhase, ticket_expansion}
use specsmither.Base.{
  if◌then◌else◌, and_then, String, Bool, true, false, ◌&&◌, ◌||◌, Option, none, some, List, [], ◌∷◌,
}
unfoldable pub use Types.*
use Structure.*
use Links.*
use specsmither.Base.Text.{◌==◌}
use specsmither.Base.Dict.{Dict, get}

abbrev pub operations : Dict (Option OperationDef)
operations =
    ("update_spec", some update_spec_def)
    ∷ ("create_epic", some create_epic_def)
    ∷ ("update_epic", some update_epic_def)
    ∷ ("delete_epic", some delete_epic_def)
    ∷ ("create_ticket", some create_ticket_def)
    ∷ ("update_ticket", some update_ticket_def)
    ∷ ("delete_ticket", some delete_ticket_def)
    ∷ ("create_blueprint", some create_blueprint_def)
    ∷ ("update_blueprint", some update_blueprint_def)
    ∷ ("delete_blueprint", some delete_blueprint_def)
    ∷ ("link_blueprint_to_tickets", some link_blueprint_to_tickets_def)
    ∷ ("unlink_blueprint_to_tickets", some unlink_blueprint_to_tickets_def)
    ∷ ("create_dependencies", some create_dependencies_def)
    ∷ ("delete_dependencies", some delete_dependencies_def)
    ∷ ("justify", some justify_def)
    ∷ ("unjustify", some unjustify_def)
    ∷ ("get_planning_status", some get_planning_status_def)
    ∷ ("start_planning_session", none)
    ∷ ("complete_planning_session", none)
    ∷ ("phase_complete", none)
    ∷ ("phase_advance", none)
    ∷ ("phase_rollback", none)
    ∷ ("human_approve", none)
    ∷ ("human_reject_with_feedback", none)
    ∷ ("human_reject_no_feedback", none)
    ∷ ("session_closed", none)
    ∷ []

-- `None` for a name that is missing and for one that is audit-only.
unfoldable pub get_operation_def : String → Option OperationDef
unfolding get
get_operation_def op = and_then (get operations op) (λ d. d)

-- `phase in phases`
unfoldable pub has_phase : PlanningPhase → List PlanningPhase → Bool
unfolding same_phase
has_phase phase [] = false
has_phase phase (p ∷ ps) = same_phase p phase || has_phase phase ps

unfoldable pub is_native : NativePhase → PlanningPhase → Bool
unfolding same_phase
is_native any_phase phase = true
is_native (home p) phase = same_phase p phase

-- `classify_operation_call`, once the definition is found.
unfoldable pub classify_def : OperationDef → PlanningPhase → OperationCallClass
unfolding has_phase is_native
classify_def d phase =
    if has_phase phase d.forbidden_phases
    then forbidden
    else if has_phase phase d.native_phases
    then native
    else if is_native d.native_phase phase
    then native
    else late

-- `none` is the ValueError for an operation without a definition.
unfoldable pub classify_operation_call : String → PlanningPhase → Option OperationCallClass
unfolding get_operation_def classify_def
classify_operation_call op phase =
    and_then (get_operation_def op) (λ d. some (classify_def d phase))

-- The decision on a classified call, without the texts of the denials.
unfoldable pub allowed_class : String → PlanningPhase → OperationCallClass → PrecheckResult
unfolding same_phase
allowed_class op phase forbidden = denied "current_phase_must_finish_first"
allowed_class op phase native =
    if op == "create_ticket" && same_phase phase ticket_expansion
    then denied "structural_create_in_expansion"
    else accepted false false
allowed_class op phase late =
    if op == "create_ticket" && same_phase phase ticket_expansion
    then denied "structural_create_in_expansion"
    else accepted true false

unfoldable pub operation_allowed : String → PlanningPhase → Option PrecheckResult
unfolding classify_operation_call allowed_class
operation_allowed op phase =
    and_then (classify_operation_call op phase) (λ c. some (allowed_class op phase c))

-- `native if (is_late_op and isinstance(native, PlanningPhase)) else current_phase`
unfoldable pub rewound : Bool → NativePhase → PlanningPhase → PlanningPhase
rewound is_late_op any_phase phase = phase
rewound is_late_op (home p) phase = if is_late_op then p else phase

unfoldable pub rewound_to : Bool → Option OperationDef → PlanningPhase → PlanningPhase
unfolding rewound
rewound_to is_late_op none phase = phase
rewound_to is_late_op (some d) phase = rewound is_late_op d.native_phase phase

-- The phase in which the action verb validates and leaves the session.
unfoldable pub effective_phase : String → PlanningPhase → Bool → PlanningPhase
unfolding get_operation_def rewound_to
effective_phase op phase is_late_op = rewound_to is_late_op (get_operation_def op) phase
