-- ===== src/Domain/Enums.antt =====
-- domain/enums.py: the enumerations that the lifecycle, the DAG and the rollups read, with the wire
-- text of each member (`.value`) where the program compares texts.
use specsmither.Base.{String}

pub data TicketStatus : Type 0 where
  pending ready active done : TicketStatus

pub data SpecStatus : Type 0 where
  draft planning ready in_progress ready_for_review in_review reviewed done : SpecStatus

pub data PlanningSessionStatus : Type 0 where
  active awaiting_human_review closed : PlanningSessionStatus

pub data PlanningPhase : Type 0 where
  planning_spec epic_decomposition epic_expansion ticket_decomposition ticket_expansion
        cross_validation planned :
      PlanningPhase

pub data TransitionTrigger : Type 0 where
  auto_initial ai_agent human_approve human_complete human_reject_with_feedback
        human_reject_no_feedback :
      TransitionTrigger

pub data Outcome : Type 0 where
  success denied : Outcome

pub data GateResult : Type 0 where
  pass fail : GateResult

pub data EpicStatus : Type 0 where
  todo in_progress completed : EpicStatus

pub data ActorType : Type 0 where
  agent human : ActorType

-- A member of a `StrEnum` is its text.
abbrev pub ticket_status_value : TicketStatus → String
ticket_status_value pending = "pending"
ticket_status_value ready = "ready"
ticket_status_value active = "active"
ticket_status_value done = "done"
