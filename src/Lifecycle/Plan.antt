-- ===== src/Lifecycle/Plan.antt =====
-- The write plan of the planning verbs: lifecycle/session_record.py, the row builders of
-- lifecycle/audit, and of lifecycle/write_plan_types.py and write_plan.py the items and builders that
-- the verbs start, complete, approve and reject use. A `fields` dict is a list of column assignments.
-- Guidance snapshots, the serialised validator output and the texts of descriptions are left out.
use specsmither.Base.{
  if◌then◌else◌, ℕ, String, Bool, true, false, Option, none, some, List, [], ◌∷◌, ◌++◌,
}
use specsmither.Domain.Enums.{
  PlanningSessionStatus, active, awaiting_human_review, closed, SpecStatus, draft, planning, ready,
  PlanningPhase, planning_spec, TransitionTrigger, auto_initial, human_approve,
  human_reject_with_feedback, human_reject_no_feedback, Outcome, GateResult, pass, ActorType,
}

pub record Feedback : Type 0 where
  pub content : String
  pub recorded_at : String
  pub recorded_by_user_id : Option String

-- The columns of a session that the verbs decide on or write, scores and guidance left out.
pub record PlanningSessionRecord : Type 0 where
  pub id : String
  pub specification_id : String
  pub status : PlanningSessionStatus
  pub current_phase : PlanningPhase
  pub started_at : Option String
  pub last_action_at : Option String
  pub closed_at : Option String
  pub actions_count : ℕ
  pub pending_human_feedback : Option Feedback
  pub last_transition_trigger : Option TransitionTrigger
  pub last_transition_at : Option String
  pub last_read_at : Option String
  pub last_validated_at : Option String
  pub last_gate_result : Option GateResult
  pub last_process_guidance : Option String

-- One entry of a `fields` dict for a session.
pub data SessionField : Type 0 where
  set_specification_id : String → SessionField
  set_status : PlanningSessionStatus → SessionField
  set_current_phase : PlanningPhase → SessionField
  set_started_at set_last_action_at set_closed_at set_last_transition_at set_last_read_at
        set_last_validated_at :
      String → SessionField
  set_actions_count : ℕ → SessionField
  set_pending_human_feedback : Feedback → SessionField
  set_last_transition_trigger : TransitionTrigger → SessionField
  set_last_gate_result : GateResult → SessionField
  set_last_process_guidance : String → SessionField

-- An audit row; the parts of its `payload` column that the verbs fill are columns here.
pub record Action : Type 0 where
  pub id : String
  pub planning_session_id : String
  pub operation : String
  pub phase : PlanningPhase
  pub outcome : Outcome
  pub actor : ActorType
  pub deny_reason : Option String
  pub human_instruction : Option String
  pub performed_by_user_id : Option String
  pub created_at : String

pub record Transition : Type 0 where
  pub id : String
  pub planning_session_id : String
  pub from_phase : PlanningPhase
  pub to_phase : PlanningPhase
  pub trigger : TransitionTrigger
  pub actor : ActorType
  pub created_at : String

-- The five kinds of item that these verbs write; the only entity field among them is a
-- specification's status.
pub data WritePlanItem : Type 0 where
  spec_mutation : String → SpecStatus → WritePlanItem
  session_update : String → List SessionField → WritePlanItem
  session_create : String → List SessionField → WritePlanItem
  action_append : Action → WritePlanItem
  record_transition : Transition → WritePlanItem

abbrev pub WritePlan : Type 0
WritePlan = List WritePlanItem

-- `build_action` without a validator output: id, session, operation, phase, outcome, actor, deny
-- reason, human instruction, user and time.
unfoldable pub build_action :
    String
    → String
    → String
    → PlanningPhase
    → Outcome
    → ActorType
    → Option String
    → Option String
    → Option String
    → String
    → Action
build_action id session_id operation phase outcome actor reason instruction user now = record {
  id = id;
  planning_session_id = session_id;
  operation = operation;
  phase = phase;
  outcome = outcome;
  actor = actor;
  deny_reason = reason;
  human_instruction = instruction;
  performed_by_user_id = user;
  created_at = now;
}

unfoldable pub build_transition :
    String
    → String
    → PlanningPhase
    → PlanningPhase
    → TransitionTrigger
    → ActorType
    → String
    → Transition
build_transition id session_id before after trigger actor now = record {
  id = id;
  planning_session_id = session_id;
  from_phase = before;
  to_phase = after;
  trigger = trigger;
  actor = actor;
  created_at = now;
}

-- The fields of `build_sps_create_write_plan`'s session, without its id.
unfoldable pub new_session_fields : String → String → String → List SessionField
new_session_fields spec_id now guidance =
    set_specification_id spec_id
    ∷ set_status active
    ∷ set_current_phase planning_spec
    ∷ set_started_at now
    ∷ set_last_action_at now
    ∷ set_actions_count 0
    ∷ set_last_transition_trigger auto_initial
    ∷ set_last_transition_at now
    ∷ set_last_read_at now
    ∷ set_last_process_guidance guidance
    ∷ []

-- `_v(spec_status) == SpecStatus.DRAFT.value`
unfoldable pub is_draft : SpecStatus → Bool
is_draft draft = true
is_draft _ = false

unfoldable pub build_sps_create_write_plan :
    String → SpecStatus → String → List SessionField → Action → WritePlan
unfolding is_draft
build_sps_create_write_plan spec_id status session_id fields action =
    (if is_draft status then spec_mutation spec_id planning ∷ [] else [])
    ++ session_create session_id fields ∷ action_append action ∷ []

-- What a fresh validation adds: its gate result and the time it was made.
unfoldable pub validation_fields : Option GateResult → String → List SessionField
validation_fields none at_time = []
validation_fields (some gate) at_time =
    set_last_gate_result gate ∷ set_last_validated_at at_time ∷ []

unfoldable pub build_sps_resume_write_plan :
    String → Action → String → Option GateResult → String → WritePlan
unfolding validation_fields
build_sps_resume_write_plan session_id action guidance gate validated_at =
    session_update session_id (
      set_last_process_guidance guidance
      ∷ set_last_action_at action.created_at
      ∷ validation_fields gate validated_at)
    ∷ action_append action
    ∷ []

unfoldable pub audit_only_plan : String → Action → String → WritePlan
audit_only_plan session_id action guidance =
    action_append action
    ∷ session_update session_id
        (set_last_process_guidance guidance ∷ set_last_action_at action.created_at ∷ [])
    ∷ []

unfoldable pub build_cps_success_write_plan : String → Action → Transition → String → WritePlan
build_cps_success_write_plan session_id action transition guidance =
    session_update session_id (
      set_last_process_guidance guidance
      ∷ set_status awaiting_human_review
      ∷ set_last_gate_result pass
      ∷ set_last_validated_at action.created_at
      ∷ set_last_action_at action.created_at
      ∷ [])
    ∷ record_transition transition
    ∷ action_append action
    ∷ []

-- `items.extend(ActionAppend(dict(a)) for a in actions)`
unfoldable pub appends : List Action → WritePlan
appends [] = []
appends (a ∷ actions) = action_append a ∷ appends actions

-- `if transition is not None: items.append(RecordTransition(...))`
unfoldable pub transition_item : Option Transition → WritePlan
transition_item none = []
transition_item (some t) = record_transition t ∷ []

unfoldable pub build_approve_handover_write_plan :
    String → String → PlanningPhase → Bool → String → List Action → Option Transition → WritePlan
unfolding appends transition_item
build_approve_handover_write_plan session_id spec_id phase true now actions transition =
    spec_mutation spec_id ready
    ∷ session_update session_id (
        set_status closed
        ∷ set_closed_at now
        ∷ set_last_transition_trigger human_approve
        ∷ set_last_transition_at now
        ∷ set_last_action_at now
        ∷ [])
    ∷ appends actions
build_approve_handover_write_plan session_id spec_id phase false now actions transition =
    session_update session_id (
        set_status active
        ∷ set_current_phase phase
        ∷ set_last_transition_trigger human_approve
        ∷ set_last_transition_at now
        ∷ set_last_action_at now
        ∷ [])
      ∷ transition_item transition
    ++ appends actions

unfoldable pub build_reject_handover_with_feedback_write_plan :
    String → Action → Feedback → String → WritePlan
build_reject_handover_with_feedback_write_plan session_id action feedback now =
    session_update session_id (
      set_status active
      ∷ set_pending_human_feedback feedback
      ∷ set_last_transition_trigger human_reject_with_feedback
      ∷ set_last_transition_at now
      ∷ set_last_action_at now
      ∷ [])
    ∷ action_append action
    ∷ []

unfoldable pub build_reject_handover_write_plan : String → Action → String → WritePlan
build_reject_handover_write_plan session_id action now =
    session_update session_id (
      set_status active
      ∷ set_last_transition_trigger human_reject_no_feedback
      ∷ set_last_transition_at now
      ∷ set_last_action_at now
      ∷ [])
    ∷ action_append action
    ∷ []
