-- ===== src/Lifecycle/Complete.antt =====
-- lifecycle/verbs/complete.py: the agent hands the session over for review, with
-- prechecks/spec_status_check.py and prechecks/gate_currently_passing.py.
use specsmither.Lifecycle.Verbs.{
  Ports, session_missing, VerbOutcome, raised, accepted, is_active, is_planning, agent_action,
  denied_plan,
}
use specsmither.Lifecycle.Plan.{
  PlanningSessionRecord, build_transition, build_cps_success_write_plan,
}
use specsmither.Lifecycle.Executor.{Store}
use specsmither.Lifecycle.Gate.{PhaseGateResult, SpecFull, evaluate_phase_gate_spec_wide}
use specsmither.Base.Dict.{get}
use specsmither.Base.{if◌then◌else◌, ℕ, String, Bool, true, false, not, Option, none, some}
use specsmither.Domain.Enums.{
  SpecStatus, PlanningPhase, ai_agent, success, GateResult, pass, fail, agent,
}

unfoldable pub complete_success :
    PlanningSessionRecord → Option String → (ℕ → String) → String → String → VerbOutcome
unfolding agent_action build_transition build_cps_success_write_plan
complete_success session user mint now guidance = accepted (
    build_cps_success_write_plan session.id
      (agent_action session (mint 1) "complete_planning_session" success none user now)
      (build_transition (mint 0) session.id session.current_phase session.current_phase ai_agent
        agent now)
      guidance)

-- `spec_status_check("cps", ...)`; a missing specification has the status text "active", which is
-- denied.
unfoldable pub cps_accepts : Option SpecStatus → Bool
unfolding is_planning
cps_accepts none = false
cps_accepts (some status) = is_planning status

unfoldable pub is_pass : GateResult → Bool
is_pass pass = true
is_pass fail = false

unfoldable pub gate_currently_passing :
    {S : Type 0} → Ports S → PlanningPhase → Option SpecFull → Bool
unfolding evaluate_phase_gate_spec_wide is_pass
gate_currently_passing ports phase none = false
gate_currently_passing ports phase (some full) = is_pass (
    PhaseGateResult.gate_outcome (
      evaluate_phase_gate_spec_wide ports.zero_score ports.at_least phase
        (ports.validate full phase) full ports.thresholds))

-- The rest of `complete_planning_session` after the session is read.
unfoldable pub complete_session :
    {S : Type 0} → Store → Ports S → Option PlanningSessionRecord → Option String → VerbOutcome
unfolding get is_active cps_accepts gate_currently_passing denied_plan complete_success
complete_session store ports none user = raised session_missing
complete_session store ports (some session) user =
    if not (is_active session.status)
    then denied_plan session "complete_planning_session" "session_not_active" user ports.mint
        ports.now ports.guidance
    else if not (cps_accepts (get store.specs session.specification_id))
    then denied_plan session "complete_planning_session" "spec_not_in_planning" user ports.mint
        ports.now ports.guidance
    else if not (
        gate_currently_passing ports session.current_phase
          (ports.get_spec_full session.specification_id))
    then denied_plan session "complete_planning_session" "gate_not_passed" user ports.mint ports.now
        ports.guidance
    else complete_success session user ports.mint ports.now ports.guidance

unfoldable pub complete_planning_session :
    {S : Type 0} → Store → Ports S → String → Option String → VerbOutcome
unfolding get complete_session
complete_planning_session store ports session_id user =
    complete_session store ports (get store.sessions session_id) user
