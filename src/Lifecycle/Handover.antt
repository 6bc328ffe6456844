-- ===== src/Lifecycle/Handover.antt =====
-- lifecycle/verbs/approve.py, reject.py and reject_with_feedback.py: the human decides on a parked
-- session.
use specsmither.Lifecycle.Verbs.{
  Ports, session_not_found, handover_not_pending, invalid_feedback, handover_gate_failing,
  HandoverOutcome, handover_error, handover_result, is_awaiting, gate_passed,
}
use specsmither.Lifecycle.StateMachine.{next_phase, is_terminal_phase}
use specsmither.Lifecycle.Plan.{
  PlanningSessionRecord, Action, build_action, build_transition, build_approve_handover_write_plan,
  build_reject_handover_with_feedback_write_plan, build_reject_handover_write_plan,
}
use specsmither.Lifecycle.Executor.{Store}
use specsmither.Base.Dict.{get, or_else}
use specsmither.Base.{if◌then◌else◌, ℕ, String, Bool, true, false, not, Option, none, some, [], ◌∷◌}
use specsmither.Domain.Enums.{active, closed, PlanningPhase, planned, human_approve, success, human}

-- The audit row of a human's decision.
unfoldable pub human_action :
    PlanningSessionRecord → String → String → Option String → Option String → String → Action
unfolding build_action
human_action session id operation instruction user now =
    build_action id session.id operation session.current_phase success human none instruction user
      now

unfoldable pub approve_terminal :
    PlanningSessionRecord → Option String → (ℕ → String) → String → HandoverOutcome
unfolding human_action build_approve_handover_write_plan
approve_terminal session user mint now = handover_result session.id closed session.current_phase (
    build_approve_handover_write_plan session.id session.specification_id session.current_phase true
      now
      (human_action session (mint 0) "phase_complete" none user now
        ∷ human_action session (mint 1) "session_closed" none user now
        ∷ [])
      none)

-- `nxt if nxt is not None else PlanningPhase.PLANNED`
unfoldable pub advanced_phase : PlanningPhase → PlanningPhase
unfolding next_phase
advanced_phase phase = or_else (next_phase phase) planned

unfoldable pub approve_advance :
    PlanningSessionRecord → Option String → (ℕ → String) → String → HandoverOutcome
unfolding human_action build_transition build_approve_handover_write_plan advanced_phase
approve_advance session user mint now =
    let phase = advanced_phase session.current_phase in
    handover_result session.id active phase (
      build_approve_handover_write_plan session.id session.specification_id phase false now
        (human_action session (mint 1) "phase_advance" none user now
          ∷ human_action session (mint 2) "human_approve" none user now
          ∷ [])
        (some (
          build_transition (mint 0) session.id session.current_phase phase human_approve human
            now)))

-- The rest of `approve_handover` after the session is read.
unfoldable pub approve_session :
    Option PlanningSessionRecord → Option String → (ℕ → String) → String → HandoverOutcome
unfolding is_awaiting gate_passed is_terminal_phase approve_terminal approve_advance
approve_session none user mint now = handover_error session_not_found
approve_session (some session) user mint now =
    if not (is_awaiting session.status)
    then handover_error handover_not_pending
    else if not (gate_passed session.last_gate_result)
    then handover_error handover_gate_failing
    else if is_terminal_phase session.current_phase
    then approve_terminal session user mint now
    else approve_advance session user mint now

unfoldable pub approve_handover :
    {S : Type 0} → Store → Ports S → String → Option String → HandoverOutcome
unfolding get approve_session
approve_handover store ports session_id user =
    approve_session (get store.sessions session_id) user ports.mint ports.now

unfoldable pub reject_session :
    Option PlanningSessionRecord → Option String → (ℕ → String) → String → HandoverOutcome
unfolding is_awaiting human_action build_reject_handover_write_plan
reject_session none user mint now = handover_error session_not_found
reject_session (some session) user mint now =
    if not (is_awaiting session.status)
    then handover_error handover_not_pending
    else handover_result session.id active session.current_phase (
        build_reject_handover_write_plan session.id
          (human_action session (mint 0) "human_reject_no_feedback" none user now) now)

unfoldable pub reject_handover :
    {S : Type 0} → Store → Ports S → String → Option String → HandoverOutcome
unfolding get reject_session
reject_handover store ports session_id user =
    reject_session (get store.sessions session_id) user ports.mint ports.now

unfoldable pub feedback_session :
    Option PlanningSessionRecord → String → Option String → (ℕ → String) → String → HandoverOutcome
unfolding is_awaiting human_action build_reject_handover_with_feedback_write_plan
feedback_session none text user mint now = handover_error session_not_found
feedback_session (some session) text user mint now =
    if not (is_awaiting session.status)
    then handover_error handover_not_pending
    else handover_result session.id active session.current_phase (
        build_reject_handover_with_feedback_write_plan session.id
          (human_action session (mint 0) "human_reject_with_feedback" (some text) user now)
          (record { content = text; recorded_at = now; recorded_by_user_id = user }) now)

-- `is_blank` stands for `not feedback.strip()`.
unfoldable pub reject_handover_with_feedback :
    {S : Type 0}
    → (String → Bool)
    → Store
    → Ports S
    → String
    → String
    → Option String
    → HandoverOutcome
unfolding get feedback_session
reject_handover_with_feedback is_blank store ports session_id text user =
    if is_blank text
    then handover_error invalid_feedback
    else feedback_session (get store.sessions session_id) text user ports.mint ports.now
