-- ===== src/Lifecycle/Verbs.antt =====
-- The verbs of lifecycle/verbs that move a planning session: start.py, complete.py, approve.py,
-- reject.py and reject_with_feedback.py, with prechecks/spec_status_check.py. Each reads the store,
-- decides, and answers with a write plan. The guidance is composed elsewhere; a row keeps its snapshot
-- as a text. Of a denial its code is kept.
use specsmither.Lifecycle.Plan.{
  PlanningSessionRecord, Action, WritePlan, build_action, audit_only_plan,
}
use specsmither.Lifecycle.Gate.{ValidatorOutput, Thresholds, SpecFull}
use specsmither.Base.{ℕ, String, Bool, true, false, Option, none, some}
use specsmither.Domain.Enums.{
  PlanningSessionStatus, active, awaiting_human_review, SpecStatus, planning, PlanningPhase,
  Outcome, denied, GateResult, pass, agent,
}

-- What a verb reads besides the store: the clock, the snapshot of the guidance that is composed in this
-- call, the ids minted in this call, in order, the clean
-- specification for the validator, the validator with its configuration, and how scores compare.
pub record Ports (S : Type 0) : Type 0 where
  pub now : String
  pub guidance : String
  pub mint : ℕ → String
  pub get_spec_full : String → Option SpecFull
  pub validate : SpecFull → PlanningPhase → ValidatorOutput S
  pub thresholds : Thresholds S
  pub zero_score : S
  pub at_least : S → S → Bool

pub data HandoverErrorCode : Type 0 where
  session_not_found handover_not_pending invalid_feedback handover_gate_failing : HandoverErrorCode

pub data HandoverOutcome : Type 0 where
  handover_error : HandoverErrorCode → HandoverOutcome
  handover_result : String → PlanningSessionStatus → PlanningPhase → WritePlan → HandoverOutcome

pub data VerbError : Type 0 where
  spec_not_found session_missing spec_not_in_planning : VerbError

-- An exception; a denial with its code and audit plan; an acceptance with its plan.
pub data VerbOutcome : Type 0 where
  raised : VerbError → VerbOutcome
  refused : String → WritePlan → VerbOutcome
  accepted : WritePlan → VerbOutcome

-- `session.status != PlanningSessionStatus.AWAITING_HUMAN_REVIEW.value`, negated.
unfoldable pub is_awaiting : PlanningSessionStatus → Bool
is_awaiting awaiting_human_review = true
is_awaiting _ = false

unfoldable pub is_active : PlanningSessionStatus → Bool
is_active active = true
is_active _ = false

-- `session.last_gate_result == "pass"`
unfoldable pub gate_passed : Option GateResult → Bool
gate_passed (some pass) = true
gate_passed _ = false

unfoldable pub is_planning : SpecStatus → Bool
is_planning planning = true
is_planning _ = false

-- The audit row of an agent's call.
unfoldable pub agent_action :
    PlanningSessionRecord
    → String
    → String
    → Outcome
    → Option String
    → Option String
    → String
    → Action
unfolding build_action
agent_action session id operation outcome reason user now =
    build_action id session.id operation session.current_phase outcome agent reason none user now

-- `_denied`, and `_deny_awaiting` of the start verb.
unfoldable pub denied_plan :
    PlanningSessionRecord
    → String
    → String
    → Option String
    → (ℕ → String)
    → String
    → String
    → VerbOutcome
unfolding agent_action audit_only_plan
denied_plan session operation code user mint now guidance = refused code (
    audit_only_plan session.id (agent_action session (mint 0) operation denied (some code) user now)
      guidance)
