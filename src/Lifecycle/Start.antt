-- ===== src/Lifecycle/Start.antt =====
-- lifecycle/verbs/start.py: start or resume the planning session of a specification.
use specsmither.Base.Text.{◌==◌}
use specsmither.Lifecycle.Verbs.{
  Ports, spec_not_found, spec_not_in_planning, VerbOutcome, raised, accepted, is_active,
  is_planning, agent_action, denied_plan,
}
use specsmither.Lifecycle.Plan.{
  PlanningSessionRecord, build_action, new_session_fields, is_draft, build_sps_create_write_plan,
  build_sps_resume_write_plan,
}
use specsmither.Lifecycle.Executor.{Store}
use specsmither.Lifecycle.Gate.{ValidatorOutput, SpecFull}
use specsmither.Base.Dict.{Dict, get, keys}
use specsmither.Base.{
  if◌then◌else◌, ℕ, String, Bool, true, false, not, ◌&&◌, ◌||◌, Option, none, some, [], ◌∷◌, List,
}
use specsmither.Domain.Enums.{
  PlanningSessionStatus, closed, SpecStatus, PlanningPhase, planning_spec, success, GateResult,
  agent,
}

unfoldable pub sps_accepts : SpecStatus → Bool
unfolding is_draft is_planning
sps_accepts status = is_draft status || is_planning status

-- `status != 'closed'`
unfoldable pub is_open : PlanningSessionStatus → Bool
is_open closed = false
is_open _ = true

-- One row against the query's two conditions.
unfoldable pub open_or :
    Option PlanningSessionRecord
    → String
    → Option PlanningSessionRecord
    → Option PlanningSessionRecord
unfolding is_open
open_or none spec_id rest = rest
open_or (some row) spec_id rest =
    if row.specification_id == spec_id && is_open row.status then some row else rest

unfoldable pub open_among :
    Dict PlanningSessionRecord → String → List String → Option PlanningSessionRecord
unfolding get
open_among sessions spec_id [] = none
open_among sessions spec_id (id ∷ ids) =
    open_or (get sessions id) spec_id (open_among sessions spec_id ids)

-- The first row of the query. Its order by id does not matter where the unique index leaves one row.
unfoldable pub get_active_for_spec :
    Dict PlanningSessionRecord → String → Option PlanningSessionRecord
unfolding open_among keys
get_active_for_spec sessions spec_id = open_among sessions spec_id (keys sessions)

-- `_create`
unfoldable pub create_session :
    String → SpecStatus → Option String → (ℕ → String) → String → String → VerbOutcome
unfolding build_sps_create_write_plan build_action new_session_fields
create_session spec_id status user mint now guidance = accepted (
    build_sps_create_write_plan spec_id status (mint 0) (new_session_fields spec_id now guidance) (
      build_action (mint 1) (mint 0) "start_planning_session" planning_spec success agent none none
        user now))

-- The validator's own verdict on the loaded specification, if there is one.
unfoldable pub fresh_gate :
    {S : Type 0} → Ports S → PlanningPhase → Option SpecFull → Option GateResult
fresh_gate ports phase none = none
fresh_gate ports phase (some full) = some (ValidatorOutput.gate_result (ports.validate full phase))

-- `_resume`
unfoldable pub resume_session :
    {S : Type 0} → Ports S → PlanningSessionRecord → Option String → VerbOutcome
unfolding fresh_gate agent_action build_sps_resume_write_plan
resume_session ports session user = accepted (
    build_sps_resume_write_plan session.id
      (agent_action session (ports.mint 0) "start_planning_session" success none user ports.now)
      ports.guidance
      (fresh_gate ports session.current_phase (ports.get_spec_full session.specification_id))
      ports.now)

-- The choice on the specification's open session.
unfoldable pub start_with :
    {S : Type 0}
    → Ports S
    → String
    → SpecStatus
    → Option PlanningSessionRecord
    → Option String
    → VerbOutcome
unfolding is_active create_session resume_session denied_plan
start_with ports spec_id status none user =
    create_session spec_id status user ports.mint ports.now ports.guidance
start_with ports spec_id status (some session) user =
    if is_active session.status
    then resume_session ports session user
    else denied_plan session "start_planning_session" "sps_not_for_awaiting" user ports.mint
        ports.now ports.guidance

-- The rest of `start_planning_session` after the specification is read.
unfoldable pub start_spec :
    {S : Type 0} → Store → Ports S → String → Option SpecStatus → Option String → VerbOutcome
unfolding sps_accepts get_active_for_spec start_with
start_spec store ports spec_id none user = raised spec_not_found
start_spec store ports spec_id (some status) user =
    if not (sps_accepts status)
    then raised spec_not_in_planning
    else start_with ports spec_id status (get_active_for_spec store.sessions spec_id) user

unfoldable pub start_planning_session :
    {S : Type 0} → Store → Ports S → String → Option String → VerbOutcome
unfolding get start_spec
start_planning_session store ports spec_id user =
    start_spec store ports spec_id (get store.specs spec_id) user
