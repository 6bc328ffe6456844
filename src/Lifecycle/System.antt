-- ===== src/Lifecycle/System.antt =====
-- The five verbs against a store: lifecycle/dispatch.py persists the plan of every agent verb, denials
-- included, and src/specsmither/dispatch/facade.py the plan of a handover that is not an error, each in
-- the transaction of its call.
pub mod Effects
pub mod Calls
pub mod Invariant
pub mod Harmless
pub mod Ready
pub mod Reach
pub mod Outcomes
mod Examples
use specsmither.Base.{String, Bool, Option}
use specsmither.Lifecycle.Verbs.{
  Ports, HandoverOutcome, handover_error, handover_result, VerbOutcome, raised, refused, accepted,
}
use specsmither.Lifecycle.Start.{start_planning_session}
use specsmither.Lifecycle.Executor.{Store, commit_write_plan}
use specsmither.Lifecycle.Handover.{
  approve_handover, reject_handover, reject_handover_with_feedback,
}
use specsmither.Lifecycle.Complete.{complete_planning_session}

-- `if isinstance(outcome, HandoverResult): ports.persist_write_plan(outcome.write_plan)`
unfoldable pub persist_handover : Store → HandoverOutcome → Store
persist_handover store (handover_error code) = store
persist_handover store (handover_result id status phase plan) = commit_write_plan store plan

-- `handle` after the verb; an exception leaves the transaction without a write.
unfoldable pub persist_verb : Store → VerbOutcome → Store
persist_verb store (raised e) = store
persist_verb store (refused code plan) = commit_write_plan store plan
persist_verb store (accepted plan) = commit_write_plan store plan

-- The agent's calls and the human's decisions, each with its arguments.
pub data Request : Type 0 where
  start complete approve reject : String → Option String → Request
  reject_with_feedback : String → String → Option String → Request

unfoldable pub serve : {S : Type 0} → (String → Bool) → Store → Ports S → Request → Store
unfolding persist_handover persist_verb start_planning_session complete_planning_session
    approve_handover reject_handover reject_handover_with_feedback
serve is_blank store ports (start spec_id user) =
    persist_verb store (start_planning_session store ports spec_id user)
serve is_blank store ports (complete session_id user) =
    persist_verb store (complete_planning_session store ports session_id user)
serve is_blank store ports (approve session_id user) =
    persist_handover store (approve_handover store ports session_id user)
serve is_blank store ports (reject session_id user) =
    persist_handover store (reject_handover store ports session_id user)
serve is_blank store ports (reject_with_feedback session_id text user) =
    persist_handover store (reject_handover_with_feedback is_blank store ports session_id text user)
